-- ===== src/Registry/Eviction.antt =====
-- What the eviction over the open-file budget frees and spares.
use gopls_mcp_manager.Prelude.{
  KeyEq, sym, ◌∙◌, Bool-cases, ℕ, ◌+◌, ◌-◌, ◌≤◌, String, Bool, true, false, ◌≡◌, refl, ◌⊎◌, inl,
  inr, Option, none, some, ltb, ℤ, arith, List, [], ◌∷◌, nat_eq, int_eq, contains, Map, lookup,
  insert, delete, IsUnique, total, total-insert, total-delete, insert-IsUnique, delete-IsUnique,
  lookup-insert, lookup-delete, Option-cases,
}
use gopls_mcp_manager.Registry.State.{Record, record_eq, record_beq_iff}
use gopls_mcp_manager.Registry.Budget.{
  within_budget, Census, is_spared, counted, census, candidates, insert_sorted, sort_stable,
  take_victims, no_census, ranked, over_budget,
}

abbrev pub files_of : (ℤ → ℕ) → List Record → ℕ
files_of files [] = 0
files_of files (r ∷ records) = files r.pid + files_of files records

-- Each record stands under its own process.
abbrev IsKeyed : Map ℤ Record → Type 0
IsKeyed by_pid = (pid : ℤ) (r : Record) → lookup pid by_pid ≡ some r → r.pid ≡ pid

insert-IsKeyed :
    (r : Record) (by_pid : Map ℤ Record) → IsKeyed by_pid → IsKeyed (insert r.pid r by_pid)
insert-IsKeyed r by_pid h pid x e =
    ground (arith, lookup-insert r.pid pid r by_pid, int_eq.same_iff r.pid pid, h pid x)

delete-IsKeyed : (pid : ℤ) (by_pid : Map ℤ Record) → IsKeyed by_pid → IsKeyed (delete pid by_pid)
delete-IsKeyed p by_pid h pid x e = ground (arith, lookup-delete p pid by_pid, h pid x)

contains-head :
    {A : Type 0} ⦃q : KeyEq A⦄ (x a : A) (xs : List A)
    → contains xs a ≡ true
    → contains (x ∷ xs) a ≡ true
unfolding contains
contains-head x a xs h = ground arith

module _ (files : ℤ → ℕ) (frequency : Record → ℕ) (busy : String → Bool) (now : ℕ) where
  abbrev held : Record → ℕ
  held r = files r.pid

  record IsCounted (c : Census) : Type 0 where
    unique : IsUnique c.by_pid
    keyed : IsKeyed c.by_pid
    sum : c.total ≡ total held c.by_pid

  counted-IsCounted :
      (r : Record) (c : Census) (o : Option Record)
      → lookup r.pid c.by_pid ≡ o
      → IsCounted c
      → IsCounted (counted files frequency busy now r c o)
  unfolding counted
  counted-IsCounted r c none e h = record {
    unique = insert-IsUnique r.pid r c.by_pid h.unique;
    keyed = insert-IsKeyed r c.by_pid h.keyed;
    sum = ground (arith, total-insert held r.pid r c.by_pid, h.sum);
  }
  counted-IsCounted r c (some p) e h = record {
    unique = ground (arith, insert-IsUnique r.pid r c.by_pid h.unique, h.unique);
    keyed = elim (Bool-cases (ltb (frequency p) (frequency r))) [
      | inl hotter ↦ rw hotter (insert-IsKeyed r c.by_pid h.keyed)
      | inr cooler ↦ rw cooler h.keyed
    ];
    sum = ground (arith, total-insert held r.pid r c.by_pid, h.sum, h.keyed r.pid p);
  }

  census-IsCounted :
      (records : List Record) (c : Census)
      → IsCounted c
      → IsCounted (census files frequency busy now records c)
  unfolding census
  census-IsCounted [] c h = h
  census-IsCounted (r ∷ records) c h =
      census-IsCounted records (counted files frequency busy now r c (lookup r.pid c.by_pid))
        (counted-IsCounted r c (lookup r.pid c.by_pid) refl h)

  counted-spared :
      (r : Record) (c : Census) (o : Option Record) (pid : ℤ)
      → (contains c.spared pid ≡ true)
        ⊎ ((r.pid ≡ pid) × (is_spared files frequency busy now r ≡ true))
      → contains (counted files frequency busy now r c o).spared pid ≡ true
  unfolding counted contains
  counted-spared r c none pid h = ground (arith, int_eq.same_iff r.pid pid)
  counted-spared r c (some p) pid h = ground (arith, int_eq.same_iff r.pid pid)

  census-keeps :
      (records : List Record) (c : Census) (pid : ℤ)
      → contains c.spared pid ≡ true
      → contains (census files frequency busy now records c).spared pid ≡ true
  unfolding census
  census-keeps [] c pid h = h
  census-keeps (r ∷ records) c pid h =
      census-keeps records (counted files frequency busy now r c (lookup r.pid c.by_pid)) pid
        (counted-spared r c (lookup r.pid c.by_pid) pid (inl h))

  census-spared :
      (records : List Record) (c : Census) (r : Record)
      → contains records r ≡ true
      → is_spared files frequency busy now r ≡ true
      → contains (census files frequency busy now records c).spared r.pid ≡ true
  unfolding census contains
  census-spared [] c r h s = cc
  census-spared (x ∷ records) c r h s =
      let c' = counted files frequency busy now x c (lookup x.pid c.by_pid) in
      ground (
        arith,
        record_beq_iff x r,
        census-keeps records c' r.pid,
        counted-spared x c (lookup x.pid c.by_pid) r.pid,
        census-spared records c' r,
      )

  candidates-held :
      (records : List Record) (spared : List ℤ) (by_pid : Map ℤ Record)
      → IsUnique by_pid
      → files_of files (candidates files frequency busy now records spared by_pid)
        ≤ total held by_pid
  unfolding candidates
  candidates-held [] spared by_pid u = omega arith
  candidates-held (r ∷ records) spared by_pid u = ground (
    arith,
    total-delete held r.pid by_pid u,
    delete-IsUnique r.pid by_pid u,
    candidates-held records spared by_pid u,
    candidates-held records spared (delete r.pid by_pid),
  )

  candidates-unspared :
      (records : List Record) (spared : List ℤ) (by_pid : Map ℤ Record) (v : Record)
      → IsKeyed by_pid
      → contains (candidates files frequency busy now records spared by_pid) v ≡ true
      → contains spared v.pid ≡ false
  unfolding candidates contains
  candidates-unspared [] spared by_pid v k h = cc
  candidates-unspared (r ∷ records) spared by_pid v k h =
      elim (Option-cases (lookup r.pid by_pid)) [
        | inl absent ↦ ground (arith, absent, candidates-unspared records spared by_pid v k)
        | inr (c, found) ↦ ground (
          arith,
          k r.pid c found,
          record_beq_iff c v,
          candidates-unspared records spared by_pid v k,
          candidates-unspared records spared (delete r.pid by_pid) v
              (delete-IsKeyed r.pid by_pid k),
        )
      ]

  insert_sorted-files :
      (r : Record) (sorted : List Record)
      → files_of files (insert_sorted files frequency busy now r sorted)
        ≡ files r.pid + files_of files sorted
  unfolding insert_sorted
  insert_sorted-files r [] = omega arith
  insert_sorted-files r (x ∷ sorted) = ground (arith, insert_sorted-files r sorted)

  sort_stable-files :
      (records : List Record)
      → files_of files (sort_stable files frequency busy now records) ≡ files_of files records
  unfolding sort_stable
  sort_stable-files [] = refl
  sort_stable-files (r ∷ records) = ground (
    arith,
    sort_stable-files records,
    insert_sorted-files r (sort_stable files frequency busy now records),
  )

  insert_sorted-contains :
      (r : Record) (sorted : List Record) (v : Record)
      → contains (insert_sorted files frequency busy now r sorted) v ≡ contains (r ∷ sorted) v
  unfolding insert_sorted contains
  insert_sorted-contains r [] v = refl
  insert_sorted-contains r (x ∷ sorted) v = ground (arith, insert_sorted-contains r sorted v)

  sort_stable-contains :
      (records : List Record) (v : Record)
      → contains (sort_stable files frequency busy now records) v ≡ contains records v
  unfolding sort_stable contains
  sort_stable-contains [] v = refl
  sort_stable-contains (r ∷ records) v = ground (
    arith,
    sort_stable-contains records v,
    insert_sorted-contains r (sort_stable files frequency busy now records) v,
  )

  module _ (budget : ℤ) where
    take_victims-sum :
        (list : List Record) (all : ℕ)
        → files_of files list ≤ all
        → files_of files (take_victims files frequency busy now budget list all).0
            + (take_victims files frequency busy now budget list all).1
          ≡ all
    unfolding take_victims
    take_victims-sum [] all h = omega arith
    take_victims-sum (r ∷ list) all h = ground (arith, take_victims-sum list (all - files r.pid))

    take_victims-enough :
        (list : List Record) (all : ℕ)
        → (within_budget (take_victims files frequency busy now budget list all).1 budget ≡ true)
          ⊎ ((take_victims files frequency busy now budget list all).0 ≡ list)
    unfolding take_victims
    take_victims-enough [] all = inr refl
    take_victims-enough (r ∷ list) all =
        ground (arith, take_victims-enough list (all - files r.pid))

    take_victims-contains :
        (list : List Record) (all : ℕ) (v : Record)
        → contains (take_victims files frequency busy now budget list all).0 v ≡ true
        → contains list v ≡ true
    unfolding take_victims contains
    take_victims-contains [] all v h = cc
    take_victims-contains (r ∷ list) all v h =
        ground (arith, take_victims-contains list (all - files r.pid) v)

  abbrev none_yet : Census
  none_yet = no_census files frequency busy now

  abbrev all_counted : List Record → Census
  all_counted records = census files frequency busy now records none_yet

  none_yet-IsKeyed : IsKeyed none_yet.by_pid
  unfolding lookup
  none_yet-IsKeyed pid r e = cc

  all_counted-IsCounted : (records : List Record) → IsCounted (all_counted records)
  all_counted-IsCounted records =
      census-IsCounted records none_yet
        (record { unique = tt; keyed = none_yet-IsKeyed; sum = refl })

  ranked-files :
      (records : List Record)
      → files_of files (ranked files frequency busy now records) ≤ (all_counted records).total
  unfolding ranked
  ranked-files records =
      let c = all_counted records in
      let h = all_counted-IsCounted records in
      omega (
        arith,
        sort_stable-files (candidates files frequency busy now records c.spared c.by_pid),
        candidates-held records c.spared c.by_pid h.unique,
        h.sum,
      )

  ranked-unspared :
      (records : List Record) (v : Record)
      → contains (ranked files frequency busy now records) v ≡ true
      → contains (all_counted records).spared v.pid ≡ false
  unfolding ranked
  ranked-unspared records v h =
      let c = all_counted records in
      candidates-unspared records c.spared c.by_pid v (all_counted-IsCounted records).keyed (
        sym (sort_stable-contains (candidates files frequency busy now records c.spared c.by_pid) v)
        ∙ h)

  ranked-allowed :
      (records : List Record) (v r : Record)
      → contains (ranked files frequency busy now records) v ≡ true
      → contains records r ≡ true
      → r.pid ≡ v.pid
      → is_spared files frequency busy now r ≡ false
  ranked-allowed records v r picked listed same =
      ground (arith, ranked-unspared records v picked, census-spared records none_yet r listed)

pub over_budget_sound :
    (files : ℤ → ℕ) (frequency : Record → ℕ) (busy : String → Bool) (now : ℕ)
    (records : List Record) (budget : ℤ)
    → (files_of files (over_budget files frequency busy now records budget).0
          + (over_budget files frequency busy now records budget).1
        ≡ (census files frequency busy now records (no_census files frequency busy now)).total)
      × ((within_budget (over_budget files frequency busy now records budget).1 budget ≡ true)
          ⊎ ((over_budget files frequency busy now records budget).0
              ≡ ranked files frequency busy now records))
      × ((v r : Record)
          → contains (over_budget files frequency busy now records budget).0 v ≡ true
          → contains records r ≡ true
          → r.pid ≡ v.pid
          → is_spared files frequency busy now r ≡ false)
unfolding over_budget
over_budget_sound files frequency busy now records budget =
    let list = ranked files frequency busy now records in
    let all = (all_counted files frequency busy now records).total in
    (
      take_victims-sum files frequency busy now budget list all
          (ranked-files files frequency busy now records),
      take_victims-enough files frequency busy now budget list all,
      λ v r picked listed same.
          ranked-allowed files frequency busy now records v r
            (take_victims-contains files frequency busy now budget list all v picked) listed same,
    )
