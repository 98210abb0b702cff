-- ===== src/Watch/Coverage.antt =====
-- Every directory that the filter includes is watched, or is one whose entries the plan keeps.
use gopls_mcp_manager.Prelude.{
  String, Bool, true, false, ◌||◌, List, [], ◌∷◌, ◌++◌, string_eq, list_eq, lookup, lookup-insert,
  is_some, ◌≡◌, refl, ap, ◌∙◌, ◌⊎◌, arith, if_cases, ==-refl,
}
use mathlib.Core.List.{append_assoc}
use gopls_mcp_manager.Watch.Names.{skipped_by_watcher}
use gopls_mcp_manager.Watch.Filters.{RelPath, DirFilter, is_prefix}
use gopls_mcp_manager.Watch.Planner.{
  Node, regular, irregular, unreadable, directory, Entries, end, entry, PartialEntries, WatchPlan,
  Walked, add_partial, finish_walk, walk_entry, excluded_entry, walk, walk_entries, walk_excluded,
  excluded_entries,
}

-- The directories that a watcher would reach, below a node or by the name of an entry.
unfoldable mutual
  pub Visible : Node → RelPath → Type 0
  Visible regular p = ⊥
  Visible irregular p = ⊥
  Visible unreadable [] = Unit
  Visible unreadable (x ∷ p) = ⊥
  Visible (directory es) [] = Unit
  Visible (directory es) (x ∷ p) = VisibleIn es x p

  pub VisibleIn : Entries → String → RelPath → Type 0
  VisibleIn end x p = ⊥
  VisibleIn (entry name node es) x p =
      ((skipped_by_watcher name ≡ false) × (name ≡ x) × Visible node p) ⊎ VisibleIn es x p

unfoldable pub is_below : List RelPath → RelPath → Bool
unfolding is_prefix
is_below [] p = false
is_below (root ∷ roots) p = is_prefix root p || is_below roots p

-- Is a directory under a root, or is it partial?
unfoldable pub is_covered : WatchPlan → RelPath → Bool
unfolding is_below
is_covered w p = is_below w.roots p || is_some (lookup p w.partial)

-- Whatever one plan covers, the other does.
abbrev Grows : WatchPlan → WatchPlan → Type 0
Grows w v = (p : RelPath) → is_covered w p ≡ true → is_covered v p ≡ true

pub is_below-append :
    (xs ys : List RelPath) (p : RelPath) → is_below (xs ++ ys) p ≡ (is_below xs p || is_below ys p)
unfolding is_below
is_below-append [] ys p = refl
is_below-append (x ∷ xs) ys p = ground (arith, is_below-append xs ys p)

is_prefix-append : (xs ys : RelPath) → is_prefix xs (xs ++ ys) ≡ true
unfolding is_prefix
is_prefix-append [] ys = refl
is_prefix-append (x ∷ xs) ys = rw (==-refl, is_prefix-append xs ys) refl

pub is_below_self : (root p : RelPath) → is_below (root ∷ []) (root ++ p) ≡ true
unfolding is_below
is_below_self root p = rw (is_prefix-append root p) refl

pub add_partial-Grows :
    (w : WatchPlan) (rel : RelPath) (held : PartialEntries) → Grows w (add_partial w rel held)
unfolding is_covered
add_partial-Grows w rel held p h = ground (arith, h, lookup-insert rel p held w.partial)

pub add_partial-covers :
    (w : WatchPlan) (rel : RelPath) (held : PartialEntries)
    → is_covered (add_partial w rel held) rel ≡ true
unfolding is_covered
add_partial-covers w rel held =
    ground (arith, lookup-insert rel rel held w.partial, (list_eq {A = String}).same_iff rel rel)

unfoldable pub with_roots : WatchPlan → List RelPath → WatchPlan
with_roots w clean = record w { roots = w.roots ++ clean }

pub with_roots-covered :
    (w : WatchPlan) (clean : List RelPath) (p : RelPath)
    → is_covered (with_roots w clean) p ≡ (is_covered w p || is_below clean p)
unfolding with_roots is_covered
with_roots-covered w clean p = ground (arith, is_below-append w.roots clean p)

-- The plan that a loop of `walk` comes to if it is partial.
unfoldable pub settled : Walked → WatchPlan
unfolding with_roots
settled looped = with_roots looped.plan looped.clean

pub settled-covered :
    (looped : Walked) (p : RelPath)
    → is_covered (settled looped) p ≡ (is_covered looped.plan p || is_below looped.clean p)
unfolding settled
settled-covered looped p = with_roots-covered looped.plan looped.clean p

-- Whatever one loop's plan covers and its clean directories hold, the other's do.
abbrev Extends : Walked → Walked → Type 0
Extends a b =
    Grows a.plan b.plan × ((p : RelPath) → is_below a.clean p ≡ true → is_below b.clean p ≡ true)

Extends-then : (a b c : Walked) → Extends a b → Extends b c → Extends a c
Extends-then a b c (f, g) (i, j) = (λ p h. i p (f p h), λ p h. j p (g p h))

pub settled-Grows : (a b : Walked) → Extends a b → Grows (settled a) (settled b)
settled-Grows a b (f, g) p h =
    rw settled-covered (ground (arith, rw (settled-covered a p) at h, f p, g p))

-- A path below a child, by the name that led to it.
pub below_child :
    (rel : RelPath) (name x : String) (p : RelPath)
    → name ≡ x
    → ((rel ++ name ∷ []) ++ p) ≡ rel ++ x ∷ p
below_child rel name x p same = append_assoc rel (name ∷ []) p ∙ ap (λ y. rel ++ y ∷ p) same

module _ (filter : DirFilter) where
  -- What `mayInclude` promises.
  abbrev pub Prunes : Type 0
  Prunes =
      (rel : RelPath) (name : String) (more : RelPath)
      → filter.include (rel ++ name ∷ []) ≡ false
      → filter.may_include (rel ++ name ∷ []) ≡ false
      → filter.include ((rel ++ name ∷ []) ++ more) ≡ false

  walk_entry-Extends :
      (name : String) (node : Node) (child : RelPath) (looped : Walked) (excluded : WatchPlan)
      (included : WatchPlan × Bool)
      → Grows looped.plan excluded
      → Grows looped.plan included.0
      → Extends looped (walk_entry filter name node child looped excluded included)
  unfolding walk_entry
  walk_entry-Extends name node child looped excluded (w, true) e i = (
    λ p h. ground (arith, h, e p h, i p h),
    λ p h. ground (arith, h, is_below-append looped.clean (child ∷ []) p),
  )
  walk_entry-Extends name node child looped excluded (w, false) e i =
      (λ p h. ground (arith, h, e p h, i p h), λ p h. ground (arith, h))

  excluded_entry-Grows :
      (name : String) (node : Node) (child : RelPath) (w excluded : WatchPlan)
      (included : WatchPlan × Bool)
      → Grows w excluded
      → Grows w included.0
      → Grows w (excluded_entry filter name node child w excluded included)
  unfolding excluded_entry with_roots
  excluded_entry-Grows name node child w excluded (v, true) e i p h =
      ground (arith, e p h, i p h, with_roots-covered v (child ∷ []) p)
  excluded_entry-Grows name node child w excluded (v, false) e i p h = ground (arith, e p h, i p h)

  finish_walk-Grows :
      (es : Entries) (rel : RelPath) (w : WatchPlan) (looped : Walked)
      → Grows w looped.plan
      → Grows w (finish_walk filter es rel looped).0
  unfolding finish_walk settled with_roots
  finish_walk-Grows es rel w looped g p h =
      if_cases (λ (x : WatchPlan × Bool). is_covered x.0 p ≡ true) looped.is_partial _ _
        (λ partial.
          add_partial-Grows (settled looped) rel _ p (rw settled-covered (ground (arith, g p h))))
        (λ whole. g p h)

  mutual
    unfolding walk walk_entries walk_excluded excluded_entries

    walk-Grows : (node : Node) (rel : RelPath) (w : WatchPlan) → Grows w (walk filter node rel w).0
    walk-Grows regular rel w p h = h
    walk-Grows irregular rel w p h = h
    walk-Grows unreadable rel w p h = h
    walk-Grows (directory es) rel w p h =
        finish_walk-Grows es rel w _
          (walk_entries-Extends es rel (record { plan = w; clean = []; is_partial = false })).0 p h

    pub walk_entries-Extends :
        (es : Entries) (rel : RelPath) (looped : Walked)
        → Extends looped (walk_entries filter es rel looped)
    walk_entries-Extends end rel looped = (λ p h. h, λ p h. h)
    walk_entries-Extends (entry name node es) rel looped =
        let child = rel ++ name ∷ [] in
        let next =
          walk_entry filter name node child looped (walk_excluded filter node child looped.plan)
            (walk filter node child looped.plan) in
        Extends-then looped next (walk_entries filter es rel next)
          (walk_entry-Extends name node child looped _ _
            (walk_excluded-Grows node child looped.plan) (walk-Grows node child looped.plan))
          (walk_entries-Extends es rel next)

    walk_excluded-Grows :
        (node : Node) (rel : RelPath) (w : WatchPlan) → Grows w (walk_excluded filter node rel w)
    walk_excluded-Grows regular rel w p h = h
    walk_excluded-Grows irregular rel w p h = h
    walk_excluded-Grows unreadable rel w p h = h
    walk_excluded-Grows (directory es) rel w p h =
        add_partial-Grows _ rel _ p (excluded_entries-Grows es rel w p h)

    pub excluded_entries-Grows :
        (es : Entries) (rel : RelPath) (w : WatchPlan) → Grows w (excluded_entries filter es rel w)
    excluded_entries-Grows end rel w p h = h
    excluded_entries-Grows (entry name node es) rel w p h =
        let child = rel ++ name ∷ [] in
        excluded_entries-Grows es rel _ p (
          excluded_entry-Grows name node child w _ _ (walk_excluded-Grows node child w)
            (walk-Grows node child w) p h)
