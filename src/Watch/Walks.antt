-- ===== src/Watch/Walks.antt =====
-- The walks of a plan cover what the filter includes.
use gopls_mcp_manager.Prelude.{
  String, Bool, true, false, [], ◌∷◌, ◌++◌, string_eq, list_eq, ◌≡◌, refl, sym, subst, ◌⊎◌, inl,
  inr, arith, Bool-cases,
}
use mathlib.Core.List.{append-nil}
use gopls_mcp_manager.Watch.Names.{skipped_by_watcher}
use gopls_mcp_manager.Watch.Filters.{RelPath, DirFilter}
use gopls_mcp_manager.Watch.Planner.{
  Node, regular, irregular, unreadable, directory, Entries, end, entry, is_dir, WatchPlan, Walked,
  finish_walk, walk_entry, excluded_entry, walk, walk_entries, walk_excluded, excluded_entries,
}
use gopls_mcp_manager.Watch.Coverage.{
  Visible, VisibleIn, is_covered, is_below_self, is_below-append, add_partial-Grows,
  add_partial-covers, with_roots, with_roots-covered, settled, settled-covered, settled-Grows,
  below_child, Prunes, walk_entries-Extends, excluded_entries-Grows,
}

module _ (filter : DirFilter) where
  -- The step at the entry that leads on to an included directory covers it.
  walk_entry-covers :
      (name : String) (node : Node) (child : RelPath) (p : RelPath) (looped : Walked)
      (excluded : WatchPlan) (included : WatchPlan × Bool)
      → is_dir node ≡ true
      → skipped_by_watcher name ≡ false
      → (filter.include child ≡ false
          → (filter.may_include child ≡ true) × (is_covered excluded (child ++ p) ≡ true))
      → (filter.include child ≡ true
          → included.1 ≡ false
          → is_covered included.0 (child ++ p) ≡ true)
      → is_covered
          (settled (walk_entry filter name node child looped excluded included))
          (child ++ p)
        ≡ true
  unfolding walk_entry
  walk_entry-covers name node child p looped excluded (w, true) d s out within =
      rw settled-covered (
        ground (
          arith,
          d,
          s,
          out,
          is_below-append looped.clean (child ∷ []) (child ++ p),
          is_below_self child p,
        ))
  walk_entry-covers name node child p looped excluded (w, false) d s out within =
      rw settled-covered (ground (arith, d, s, out, within))

  excluded_entry-covers :
      (name : String) (node : Node) (child : RelPath) (p : RelPath) (w excluded : WatchPlan)
      (included : WatchPlan × Bool)
      → is_dir node ≡ true
      → skipped_by_watcher name ≡ false
      → (filter.include child ≡ false
          → (filter.may_include child ≡ true) × (is_covered excluded (child ++ p) ≡ true))
      → (filter.include child ≡ true
          → included.1 ≡ false
          → is_covered included.0 (child ++ p) ≡ true)
      → is_covered (excluded_entry filter name node child w excluded included) (child ++ p) ≡ true
  unfolding excluded_entry with_roots
  excluded_entry-covers name node child p w excluded (v, true) d s out within =
      ground
        (arith, d, s, out, with_roots-covered v (child ∷ []) (child ++ p), is_below_self child p)
  excluded_entry-covers name node child p w excluded (v, false) d s out within =
      ground (arith, d, s, out, within)

  finish_walk-covers :
      (es : Entries) (rel : RelPath) (looped : Walked) (q : RelPath)
      → (finish_walk filter es rel looped).1 ≡ false
      → (q ≡ rel) ⊎ is_covered (settled looped) q ≡ true
      → is_covered (finish_walk filter es rel looped).0 q ≡ true
  unfolding finish_walk settled with_roots
  finish_walk-covers es rel looped q dirty (inl here) = elim (Bool-cases looped.is_partial) [
    | inl partial ↦ rw (partial, here) (add_partial-covers (settled looped) rel _)
    | inr clean ↦ absurd (ground (arith, dirty, clean))
  ]
  finish_walk-covers es rel looped q dirty (inr held) = elim (Bool-cases looped.is_partial) [
    | inl partial ↦ rw partial (add_partial-Grows (settled looped) rel _ q held)
    | inr clean ↦ absurd (ground (arith, dirty, clean))
  ]

  Visible-is_dir : (node : Node) (p : RelPath) → Visible node p → is_dir node ≡ true
  unfolding Visible
  Visible-is_dir regular p v = absurd v
  Visible-is_dir irregular p v = absurd v
  Visible-is_dir unreadable p v = refl
  Visible-is_dir (directory es) p v = refl

  -- A pruned directory has nothing that is included.
  walked_into :
      (prunes : Prunes filter) (rel : RelPath) (name : String) (p : RelPath)
      → filter.include ((rel ++ name ∷ []) ++ p) ≡ true
      → filter.include (rel ++ name ∷ []) ≡ false
      → filter.may_include (rel ++ name ∷ []) ≡ true
  walked_into prunes rel name p within excluded =
      ground (arith, within, excluded, prunes rel name p excluded)

  module _ (prunes : Prunes filter) where
    mutual
      unfolding walk walk_entries walk_excluded excluded_entries Visible

      pub walk-covers :
          (node : Node) (rel : RelPath) (w : WatchPlan) (p : RelPath)
          → Visible node p
          → filter.include (rel ++ p) ≡ true
          → (walk filter node rel w).1 ≡ false
          → is_covered (walk filter node rel w).0 (rel ++ p) ≡ true
      walk-covers regular rel w p v within dirty = absurd v
      walk-covers irregular rel w p v within dirty = absurd v
      walk-covers unreadable rel w p v within dirty = cc
      walk-covers (directory es) rel w [] v within dirty =
          finish_walk-covers es rel _ (rel ++ []) dirty (inl (append-nil rel))
      walk-covers (directory es) rel w (x ∷ p) v within dirty =
          finish_walk-covers es rel _ (rel ++ x ∷ p) dirty
            (inr (walk_entries-covers es rel _ x p v within))

      walk_entries-covers :
          (es : Entries) (rel : RelPath) (looped : Walked) (x : String) (p : RelPath)
          → VisibleIn es x p
          → filter.include (rel ++ x ∷ p) ≡ true
          → is_covered (settled (walk_entries filter es rel looped)) (rel ++ x ∷ p) ≡ true
      walk_entries-covers end rel looped x p v within = absurd v
      walk_entries-covers (entry name node es) rel looped x p (inr later) within =
          walk_entries-covers es rel _ x p later within
      walk_entries-covers (entry name node es) rel looped x p (inl (unskipped, same, v)) within =
          let child = rel ++ name ∷ [] in
          let next =
            walk_entry filter name node child looped (walk_excluded filter node child looped.plan)
              (walk filter node child looped.plan) in
          let path = below_child rel name x p same in
          let inside = subst (λ q. filter.include q ≡ true) (sym path) within in
          subst (λ q. is_covered (settled (walk_entries filter es rel next)) q ≡ true) path
            (settled-Grows next _ (walk_entries-Extends filter es rel next) _ (
              walk_entry-covers name node child p looped _ _ (Visible-is_dir node p v) unskipped
                (λ out. (
                  walked_into prunes rel name p inside out,
                  walk_excluded-covers node child looped.plan p v out inside,
                ))
                (λ included dirty. walk-covers node child looped.plan p v inside dirty)))

      walk_excluded-covers :
          (node : Node) (rel : RelPath) (w : WatchPlan) (p : RelPath)
          → Visible node p
          → filter.include rel ≡ false
          → filter.include (rel ++ p) ≡ true
          → is_covered (walk_excluded filter node rel w) (rel ++ p) ≡ true
      walk_excluded-covers regular rel w p v out within = absurd v
      walk_excluded-covers irregular rel w p v out within = absurd v
      walk_excluded-covers unreadable rel w [] v out within =
          absurd (ground (arith, out, rw append-nil at within))
      walk_excluded-covers unreadable rel w (x ∷ p) v out within = absurd v
      walk_excluded-covers (directory es) rel w [] v out within =
          rw append-nil (add_partial-covers _ rel _)
      walk_excluded-covers (directory es) rel w (x ∷ p) v out within =
          add_partial-Grows _ rel _ _ (excluded_entries-covers es rel w x p v within)

      excluded_entries-covers :
          (es : Entries) (rel : RelPath) (w : WatchPlan) (x : String) (p : RelPath)
          → VisibleIn es x p
          → filter.include (rel ++ x ∷ p) ≡ true
          → is_covered (excluded_entries filter es rel w) (rel ++ x ∷ p) ≡ true
      excluded_entries-covers end rel w x p v within = absurd v
      excluded_entries-covers (entry name node es) rel w x p (inr later) within =
          excluded_entries-covers es rel _ x p later within
      excluded_entries-covers (entry name node es) rel w x p (inl (unskipped, same, v)) within =
          let child = rel ++ name ∷ [] in
          let path = below_child rel name x p same in
          let inside = subst (λ q. filter.include q ≡ true) (sym path) within in
          subst (λ q. is_covered (excluded_entries filter (entry name node es) rel w) q ≡ true) path
            (excluded_entries-Grows filter es rel _ _ (
              excluded_entry-covers name node child p w _ _ (Visible-is_dir node p v) unskipped
                (λ out. (
                  walked_into prunes rel name p inside out,
                  walk_excluded-covers node child w p v out inside,
                ))
                (λ included dirty. walk-covers node child w p v inside dirty)))
