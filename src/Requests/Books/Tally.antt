-- ===== src/Requests/Books/Tally.antt =====
-- The laws of `counts[key]` under `counts[key]++` and `release`.
use gopls_mcp_manager.Prelude.{
  nat_eq, string_eq, KeyEq, ℕ, ◌+◌, ◌-◌, String, ◌≡◌, Map, lookup, insert, delete, lookup-insert,
  lookup-delete, total, total-insert, total-delete, IsUnique, length, length-total, weight, some,
  none, arith, ◌==◌, if◌then◌else◌, ap,
}
use gopls_mcp_manager.Requests.Credits.{count, bump, release}

pub count-bump :
    (k w : String) (m : Map String ℕ)
    → count w (bump k m) ≡ (if k == w then count k m + 1 else count w m)
count-bump k w m = rw lookup-insert (ground arith)

pub count-release :
    (k w : String) (m : Map String ℕ)
    → count w (release m k) ≡ (if k == w then count k m - 1 else count w m)
unfolding release
count-release k w m = ground (arith, lookup-delete k w m, lookup-insert k w (count k m - 1) m)

pub total-bump : (k : String) (m : Map String ℕ) → total (λ n. n) (bump k m) ≡ total (λ n. n) m + 1
total-bump k m = ground (arith, total-insert (λ n. n) k (count k m + 1) m)

module _ {ℓ κ} {K : Type ℓ} {V : Type κ} ⦃e : KeyEq K⦄ where
  pub length-insert_new :
      (k : K) (v : V) (m : Map K V) → lookup k m ≡ none → length (insert k v m) ≡ length m + 1
  length-insert_new k v m h = omega (
    arith,
    length-total m,
    length-total (insert k v m),
    total-insert (λ _. 1) k v m,
    ap (weight (λ _. 1)) h,
  )

  pub length-insert_old :
      (k : K) (v w : V) (m : Map K V) → lookup k m ≡ some w → length (insert k v m) ≡ length m
  length-insert_old k v w m h = omega (
    arith,
    length-total m,
    length-total (insert k v m),
    total-insert (λ _. 1) k v m,
    ap (weight (λ _. 1)) h,
  )

  pub length-delete :
      (k : K) (w : V) (m : Map K V)
      → IsUnique m
      → lookup k m ≡ some w
      → length (delete k m) + 1 ≡ length m
  length-delete k w m u h = omega (
    arith,
    length-total m,
    length-total (delete k m),
    total-delete (λ _. 1) k m u,
    ap (weight (λ _. 1)) h,
  )
