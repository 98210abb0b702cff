-- ===== src/Watch/Roots.antt =====
-- Where the roots of a plan stand in the tree.
use gopls_mcp_manager.Prelude.{
  String, Bool, true, false, not, ◌||◌, List, [], ◌∷◌, ◌++◌, ◌==◌, string_eq, list_eq,
  if◌then◌else◌, ◌≡◌, refl, sym, inl, inr, Bool-cases, if_cases, Map, insert,
}
use gopls_mcp_manager.Watch.Names.{skipped_by_watcher}
use gopls_mcp_manager.Watch.Filters.{RelPath, DirFilter}
use gopls_mcp_manager.Watch.Planner.{
  Node, regular, irregular, unreadable, directory, Entries, end, entry, is_dir, WatchPlan,
  PartialEntries, relevant_names, Walked, finish_walk, after_child, after_included, walk_entry,
  excluded_entry, add_partial, walk, walk_entries, walk_excluded, excluded_entries,
}
use gopls_mcp_manager.Watch.Cleanness.{is_clean, walk-is_clean}

-- An entry of this name is among the entries.
pub data Has : Entries → String → Node → Type 0 where
  here : {name : String} {node : Node} {es : Entries} → Has (entry name node es) name node
  there :
      {name other : String} {node held : Node} {es : Entries}
      → Has es name node
      → Has (entry other held es) name node

-- A node stands at a path in a tree.
pub data Stands (tree : Node) : RelPath → Node → Type 0 where
  top : Stands tree [] tree
  under :
      {rel : RelPath} {es : Entries} {name : String} {node : Node}
      → Stands tree rel (directory es)
      → Has es name node
      → Stands tree (rel ++ name ∷ []) node

abbrev pub All : (RelPath → Type 0) → List RelPath → Type 0
All P [] = Unit
All P (x ∷ xs) = P x × All P xs

All-append : (P : RelPath → Type 0) (xs ys : List RelPath) → All P xs → All P ys → All P (xs ++ ys)
All-append P [] ys h k = k
All-append P (x ∷ xs) ys h k = (h.0, All-append P xs ys h.1 k)

abbrev pub Held : (RelPath → PartialEntries → Type 0) → Map RelPath PartialEntries → Type 0
Held P [] = Unit
Held P ((dir, held) ∷ rest) = P dir held × Held P rest

insert-Held :
    (P : RelPath → PartialEntries → Type 0) (dir : RelPath) (held : PartialEntries)
    (m : Map RelPath PartialEntries)
    → P dir held
    → Held P m
    → Held P (insert dir held m)
unfolding insert
insert-Held P dir held [] h k = (h, tt)
insert-Held P dir held ((other, old) ∷ rest) h k =
    if_cases (Held P) (other == dir) _ _ (λ same. (h, k.1))
      (λ differs. (k.0, insert-Held P dir held rest h k.1))

module _ (filter : DirFilter) (tree : Node) where
  -- A root stands in the tree, the filter includes it, and every directory that a watcher reaches below it.
  abbrev pub IsRoot : RelPath → Type 0
  IsRoot root =
      (node : Node) × Stands tree root node
      × (filter.include root ≡ true)
      × (is_clean filter node root ≡ true)

  -- What is kept of a partial directory is what its entries are.
  abbrev pub IsHeld : RelPath → PartialEntries → Type 0
  IsHeld dir held =
      (es : Entries) × Stands tree dir (directory es)
      × (held.names ≡ relevant_names filter es dir held.files)

  abbrev pub Rooted : WatchPlan → Type 0
  Rooted w = All IsRoot w.roots × Held IsHeld w.partial

  add_partial-Rooted :
      (es : Entries) (rel : RelPath) (files : Bool) (w : WatchPlan)
      → Stands tree rel (directory es)
      → Rooted w
      → Rooted
          (add_partial w rel (record { names = relevant_names filter es rel files; files = files }))
  add_partial-Rooted es rel files w s h =
      (h.0, insert-Held IsHeld rel _ w.partial (es, s, refl) h.1)

  after_child-Rooted :
      (node : Node) (child : RelPath) (looped : Walked) (included : WatchPlan × Bool)
      → Stands tree child node
      → included.1 ≡ is_clean filter node child
      → filter.include child ≡ true
      → Rooted included.0
      → All IsRoot looped.clean
      → (let next = after_child looped child included in Rooted next.plan × All IsRoot next.clean)
  after_child-Rooted node child looped (w, true) at_child judged inc i h =
      (i, All-append IsRoot looped.clean (child ∷ []) h ((node, at_child, inc, sym judged), tt))
  after_child-Rooted node child looped (w, false) at_child judged inc i h = (i, h)

  after_included-Rooted :
      (node : Node) (child : RelPath) (included : WatchPlan × Bool)
      → Stands tree child node
      → included.1 ≡ is_clean filter node child
      → filter.include child ≡ true
      → Rooted included.0
      → Rooted (after_included child included)
  after_included-Rooted node child (w, true) at_child judged inc i =
      (All-append IsRoot w.roots (child ∷ []) i.0 ((node, at_child, inc, sym judged), tt), i.1)
  after_included-Rooted node child (w, false) at_child judged inc i = i

  pruned-Rooted :
      (leads : Bool) (w excluded : WatchPlan)
      → Rooted excluded
      → Rooted w
      → Rooted (if leads then excluded else w)
  pruned-Rooted true w excluded e h = e
  pruned-Rooted false w excluded e h = h

  walk_entry-Rooted :
      (name : String) (node : Node) (child : RelPath) (looped : Walked) (excluded : WatchPlan)
      (included : WatchPlan × Bool)
      → Stands tree child node
      → included.1 ≡ is_clean filter node child
      → Rooted excluded
      → Rooted included.0
      → Rooted looped.plan × All IsRoot looped.clean
      → (let next = walk_entry filter name node child looped excluded included in
          Rooted next.plan × All IsRoot next.clean)
  unfolding walk_entry
  walk_entry-Rooted name node child looped excluded included at_child judged e i h =
      elim (Bool-cases (not (is_dir node) || skipped_by_watcher name)) [
        | inl skipped ↦ rw skipped h
        | inr walked ↦ elim (Bool-cases (filter.include child)) [
          | inl within ↦
              rw (walked, within)
                (after_child-Rooted node child looped included at_child judged within i h.1)
          | inr out ↦
              rw (walked, out)
                (pruned-Rooted (filter.may_include child) looped.plan excluded e h.0, h.1)
        ]
      ]

  excluded_entry-Rooted :
      (name : String) (node : Node) (child : RelPath) (w excluded : WatchPlan)
      (included : WatchPlan × Bool)
      → Stands tree child node
      → included.1 ≡ is_clean filter node child
      → Rooted excluded
      → Rooted included.0
      → Rooted w
      → Rooted (excluded_entry filter name node child w excluded included)
  unfolding excluded_entry
  excluded_entry-Rooted name node child w excluded included at_child judged e i h =
      elim (Bool-cases (not (is_dir node) || skipped_by_watcher name)) [
        | inl skipped ↦ rw skipped h
        | inr walked ↦ elim (Bool-cases (filter.include child)) [
          | inl within ↦
              rw (walked, within)
                (after_included-Rooted node child included at_child judged within i)
          | inr out ↦ rw (walked, out) (pruned-Rooted (filter.may_include child) w excluded e h)
        ]
      ]

  finish_walk-Rooted :
      (es : Entries) (rel : RelPath) (looped : Walked)
      → Stands tree rel (directory es)
      → Rooted looped.plan × All IsRoot looped.clean
      → Rooted (finish_walk filter es rel looped).0
  unfolding finish_walk
  finish_walk-Rooted es rel looped s h =
      if_cases (λ (x : WatchPlan × Bool). Rooted x.0) looped.is_partial _ _
        (λ partial.
          add_partial-Rooted es rel true
            (record looped.plan { roots = looped.plan.roots ++ looped.clean }) s
            (All-append IsRoot looped.plan.roots looped.clean h.0.0 h.1, h.0.1))
        (λ clean. h.0)

  mutual
    unfolding walk walk_entries walk_excluded excluded_entries

    pub walk-Rooted :
        (node : Node) (rel : RelPath) (w : WatchPlan)
        → Stands tree rel node
        → Rooted w
        → Rooted (walk filter node rel w).0
    walk-Rooted regular rel w s h = h
    walk-Rooted irregular rel w s h = h
    walk-Rooted unreadable rel w s h = h
    walk-Rooted (directory es) rel w s h =
        finish_walk-Rooted es rel _ s
          (walk_entries-Rooted es rel _ (λ name node has. under s has) (h, tt))

    walk_entries-Rooted :
        (es : Entries) (rel : RelPath) (looped : Walked)
        → ((name : String) (node : Node) → Has es name node → Stands tree (rel ++ name ∷ []) node)
        → Rooted looped.plan × All IsRoot looped.clean
        → (let next = walk_entries filter es rel looped in Rooted next.plan × All IsRoot next.clean)
    walk_entries-Rooted end rel looped s h = h
    walk_entries-Rooted (entry name node es) rel looped s h =
        let child = rel ++ name ∷ [] in
        let at_child = s name node here in
        walk_entries-Rooted es rel _ (λ x held has. s x held (there has))
          (walk_entry-Rooted name node child looped _ _ at_child
            (walk-is_clean filter node child looped.plan)
            (walk_excluded-Rooted node child looped.plan at_child h.0)
            (walk-Rooted node child looped.plan at_child h.0) h)

    walk_excluded-Rooted :
        (node : Node) (rel : RelPath) (w : WatchPlan)
        → Stands tree rel node
        → Rooted w
        → Rooted (walk_excluded filter node rel w)
    walk_excluded-Rooted regular rel w s h = h
    walk_excluded-Rooted irregular rel w s h = h
    walk_excluded-Rooted unreadable rel w s h = h
    walk_excluded-Rooted (directory es) rel w s h =
        add_partial-Rooted es rel false _ s
          (excluded_entries-Rooted es rel w (λ name node has. under s has) h)

    excluded_entries-Rooted :
        (es : Entries) (rel : RelPath) (w : WatchPlan)
        → ((name : String) (node : Node) → Has es name node → Stands tree (rel ++ name ∷ []) node)
        → Rooted w
        → Rooted (excluded_entries filter es rel w)
    excluded_entries-Rooted end rel w s h = h
    excluded_entries-Rooted (entry name node es) rel w s h =
        let child = rel ++ name ∷ [] in
        let at_child = s name node here in
        excluded_entries-Rooted es rel _ (λ x held has. s x held (there has))
          (excluded_entry-Rooted name node child w _ _ at_child (walk-is_clean filter node child w)
            (walk_excluded-Rooted node child w at_child h) (walk-Rooted node child w at_child h) h)
