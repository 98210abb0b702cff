-- ===== src/Prelude/Maps.antt =====
-- A Go map as an association list with one entry for each key, and sums over its values.
use Prim.Native.Nat.{ℕ, ◌+◌, ◌≤◌}
use mathlib.Core.Path.{◌≡◌, refl}
use mathlib.Core.Option.{Option, none, some}
use mathlib.Core.List.{List, [], ◌∷◌}
use native.Mathlib.Omega.{arith}
use gopls_mcp_manager.Prelude.Tests.{if◌then◌else◌}
use gopls_mcp_manager.Prelude.Lists.{length}
use gopls_mcp_manager.Prelude.Keys.{KeyEq, ◌==◌, ==-refl}

abbrev pub Map {ℓ κ} : Type ℓ → Type κ → Type (ℓ ⊔ κ)
Map K V = List (K × V)

abbrev pub weight {ℓ} : {V : Type ℓ} → (V → ℕ) → Option V → ℕ
weight f none = 0
weight f (some v) = f v

module _ {ℓ κ} {K : Type ℓ} {V : Type κ} ⦃e : KeyEq K⦄ where
  unfoldable pub lookup : K → Map K V → Option V
  lookup k [] = none
  lookup k ((held, v) ∷ rest) = if held == k then some v else lookup k rest

  -- `m[k] = v`: an old value is replaced where it stands.
  unfoldable pub insert : K → V → Map K V → Map K V
  insert k v [] = (k, v) ∷ []
  insert k v ((held, old) ∷ rest) =
      if held == k then (k, v) ∷ rest else (held, old) ∷ insert k v rest

  -- `delete(m, k)`
  unfoldable pub delete : K → Map K V → Map K V
  delete k [] = []
  delete k ((j, v) ∷ m) = let rest = delete k m in if j == k then rest else (j, v) ∷ rest

  pub lookup-insert :
      (k j : K) (v : V) (m : Map K V)
      → lookup j (insert k v m) ≡ (if k == j then some v else lookup j m)
  unfolding lookup insert
  lookup-insert k j v [] = refl
  lookup-insert k j v ((held, old) ∷ rest) =
      ground (arith, lookup-insert k j v rest, e.same_iff held k, e.same_iff held j, e.same_iff k j)

  pub lookup-delete :
      (k j : K) (m : Map K V) → lookup j (delete k m) ≡ (if k == j then none else lookup j m)
  unfolding lookup delete
  lookup-delete k j [] = ground arith
  lookup-delete k j ((i, w) ∷ m) =
      ground (arith, e.same_iff k j, e.same_iff i k, e.same_iff i j, lookup-delete k j m)

  pub lookup-insert_self : (k : K) (v : V) (m : Map K V) → lookup k (insert k v m) ≡ some v
  lookup-insert_self k v m = rw (lookup-insert, ==-refl)

  pub lookup-delete_self : (k : K) (m : Map K V) → lookup k (delete k m) ≡ none
  lookup-delete_self k m = rw (lookup-delete, ==-refl)

  -- No key has two entries.
  abbrev pub IsUnique : Map K V → Type κ
  IsUnique [] = Unit
  IsUnique ((k, v) ∷ m) = (lookup k m ≡ none) × IsUnique m

  pub insert-IsUnique : (k : K) (v : V) (m : Map K V) → IsUnique m → IsUnique (insert k v m)
  unfolding insert
  insert-IsUnique k v [] u = (unfold lookup in refl, tt)
  insert-IsUnique k v ((j, w) ∷ m) u =
      ground
        (arith, e.same_iff j k, e.same_iff k j, lookup-insert k j v m, insert-IsUnique k v m u.1)

  pub delete-IsUnique : (k : K) (m : Map K V) → IsUnique m → IsUnique (delete k m)
  unfolding delete
  delete-IsUnique k [] u = tt
  delete-IsUnique k ((j, w) ∷ m) u =
      ground (arith, e.same_iff k j, lookup-delete k j m, delete-IsUnique k m u.1)

  delete_absent : (k : K) (m : Map K V) → lookup k m ≡ none → delete k m ≡ m
  unfolding lookup delete
  delete_absent k [] h = refl
  delete_absent k ((j, w) ∷ m) h = ground (arith, delete_absent k m)

  -- The sum of `f` over the values.
  abbrev pub total : (V → ℕ) → Map K V → ℕ
  total f [] = 0
  total f ((k, v) ∷ m) = f v + total f m

  pub total-insert :
      (f : V → ℕ) (k : K) (v : V) (m : Map K V)
      → total f (insert k v m) + weight f (lookup k m) ≡ total f m + f v
  unfolding lookup insert
  total-insert f k v [] = omega arith
  total-insert f k v ((j, w) ∷ m) = ground (arith, total-insert f k v m)

  pub total-delete :
      (f : V → ℕ) (k : K) (m : Map K V)
      → IsUnique m
      → total f (delete k m) + weight f (lookup k m) ≡ total f m
  unfolding lookup delete
  total-delete f k [] u = omega arith
  total-delete f k ((j, w) ∷ m) u =
      ground (arith, e.same_iff j k, total-delete f k m u.1, delete_absent k m)

  pub length-total : (m : Map K V) → length m ≡ total (λ _. 1) m
  length-total [] = refl
  length-total ((k, v) ∷ m) = omega (arith, length-total m)

  pub weight-le-total : (f : V → ℕ) (k : K) (m : Map K V) → weight f (lookup k m) ≤ total f m
  unfolding lookup
  weight-le-total f k [] = omega arith
  weight-le-total f k ((j, w) ∷ m) = ground (arith, weight-le-total f k m)

  -- The map `full` has every entry of `m`.
  abbrev pub Within : Map K V → Map K V → Type κ
  Within full [] = Unit
  Within full ((k, v) ∷ m) = (lookup k full ≡ some v) × Within full m

  Within-cons :
      (k : K) (v : V) (full m : Map K V)
      → lookup k full ≡ none
      → Within full m
      → Within ((k, v) ∷ full) m
  unfolding lookup
  Within-cons k v full [] h rest = tt
  Within-cons k v full ((j, w) ∷ m) h rest =
      ground (arith, e.same_iff k j, Within-cons k v full m h rest.1)

  pub Within-self : (m : Map K V) → IsUnique m → Within m m
  unfolding lookup
  Within-self [] u = tt
  Within-self ((k, v) ∷ m) u = (rw ==-refl, Within-cons k v m m u.0 (Within-self m u.1))

  pub Within-delete :
      (k : K) (full m : Map K V) → lookup k m ≡ none → Within full m → Within (delete k full) m
  unfolding lookup
  Within-delete k full [] h rest = tt
  Within-delete k full ((j, w) ∷ m) h rest =
      ground (arith, lookup-delete k j full, e.same_iff k j, e.same_iff j k, Within-delete k full m)
