-- ===== src/Watch/Cleanness.antt =====
-- What a root may hold: no directory that is excluded.
use gopls_mcp_manager.Prelude.{
  String, Bool, true, false, not, ◌&&◌, ◌||◌, [], ◌∷◌, ◌++◌, string_eq, list_eq, ◌≡◌, refl, ◌∙◌,
  arith,
}
use gopls_mcp_manager.Watch.Names.{skipped_by_watcher}
use gopls_mcp_manager.Watch.Filters.{RelPath, DirFilter}
use gopls_mcp_manager.Watch.Planner.{
  Node, regular, irregular, unreadable, directory, Entries, end, entry, is_dir, WatchPlan, Walked,
  finish_walk, walk_entry, walk, walk_entries, walk_excluded,
}

not_partial : (partial clean : Bool) → partial ≡ not clean → not partial ≡ clean
not_partial partial clean h = ground (arith, h)

module _ (filter : DirFilter) where
  -- Does the filter include every directory that a watcher reaches below a node?
  unfoldable mutual
    pub is_clean : Node → RelPath → Bool
    is_clean regular rel = true
    is_clean irregular rel = true
    is_clean unreadable rel = true
    is_clean (directory es) rel = all_clean es rel

    pub all_clean : Entries → RelPath → Bool
    all_clean end rel = true
    all_clean (entry name node es) rel =
        let child = rel ++ name ∷ [] in
        let below = is_clean node child in
        let rest = all_clean es rel in
        (not (is_dir node) || skipped_by_watcher name || (filter.include child && below)) && rest

  walk_entry-is_partial :
      (name : String) (node : Node) (child : RelPath) (looped : Walked) (excluded : WatchPlan)
      (included : WatchPlan × Bool)
      → (walk_entry filter name node child looped excluded included).is_partial ≡ (
          looped.is_partial
          || not (
              not (is_dir node) || skipped_by_watcher name || (filter.include child && included.1)))
  unfolding walk_entry
  walk_entry-is_partial name node child looped excluded (w, true) = ground arith
  walk_entry-is_partial name node child looped excluded (w, false) = ground arith

  finish_walk-clean :
      (es : Entries) (rel : RelPath) (looped : Walked)
      → (finish_walk filter es rel looped).1 ≡ not looped.is_partial
  unfolding finish_walk
  finish_walk-clean es rel looped = ground arith

  mutual
    unfolding walk walk_entries is_clean all_clean

    pub walk-is_clean :
        (node : Node) (rel : RelPath) (w : WatchPlan)
        → (walk filter node rel w).1 ≡ is_clean node rel
    walk-is_clean regular rel w = refl
    walk-is_clean irregular rel w = refl
    walk-is_clean unreadable rel w = refl
    walk-is_clean (directory es) rel w =
        finish_walk-clean es rel _
        ∙ not_partial _ _
            (walk_entries-all_clean es rel (record { plan = w; clean = []; is_partial = false }))

    walk_entries-all_clean :
        (es : Entries) (rel : RelPath) (looped : Walked)
        → (walk_entries filter es rel looped).is_partial
          ≡ (looped.is_partial || not (all_clean es rel))
    walk_entries-all_clean end rel looped = ground arith
    walk_entries-all_clean (entry name node es) rel looped =
        let child = rel ++ name ∷ [] in
        ground (
          arith,
          walk_entries-all_clean es rel (
              walk_entry filter name node child looped (walk_excluded filter node child looped.plan)
                (walk filter node child looped.plan)),
          walk_entry-is_partial name node child looped (walk_excluded filter node child looped.plan)
              (walk filter node child looped.plan),
          walk-is_clean node child looped.plan,
        )
