-- ===== src/Watch/Plan.antt =====
-- What `planWatch` watches for the rules in force.
use gopls_mcp_manager.Prelude.{
  Bool, true, false, ◌||◌, List, [], ◌∷◌, ◌++◌, string_eq, list_eq, ◌≡◌, refl, arith,
}
use gopls_mcp_manager.Watch.Filters.{RelPath, Rule, new_dir_filter, is_prefix}
use gopls_mcp_manager.Watch.Planner.{
  Node, WatchPlan, walk, whole, insert_path, sort_paths, after_walk, plan_rules, plan_watch,
}
use gopls_mcp_manager.Watch.Pruning.{new_dir_filter-prunes}
use gopls_mcp_manager.Watch.Coverage.{Visible, is_below, is_covered, Prunes}
use gopls_mcp_manager.Watch.Walks.{walk-covers}

pub new_dir_filter-Prunes : (rules : List Rule) → Prunes (new_dir_filter rules)
new_dir_filter-Prunes rules [] name more = new_dir_filter-prunes name [] more rules
new_dir_filter-Prunes rules (x ∷ rel) name more =
    new_dir_filter-prunes x (rel ++ name ∷ []) more rules

insert_path-is_below :
    (x : RelPath) (roots : List RelPath) (p : RelPath)
    → is_below (insert_path x roots) p ≡ (is_prefix x p || is_below roots p)
unfolding is_below
insert_path-is_below x [] p = refl
insert_path-is_below x (y ∷ roots) p = ground (arith, insert_path-is_below x roots p)

sort_paths-is_below :
    (roots : List RelPath) (p : RelPath) → is_below (sort_paths roots) p ≡ is_below roots p
unfolding sort_paths is_below
sort_paths-is_below [] p = refl
sort_paths-is_below (x ∷ roots) p =
    ground (arith, insert_path-is_below x (sort_paths roots) p, sort_paths-is_below roots p)

whole_covers : (p : RelPath) → is_covered whole p ≡ true
unfolding is_covered is_below is_prefix
whole_covers p = refl

after_walk-covers :
    (x : WatchPlan × Bool) (p : RelPath)
    → (x.1 ≡ false → is_covered x.0 p ≡ true)
    → is_covered (after_walk x) p ≡ true
unfolding is_covered is_below is_prefix after_walk
after_walk-covers (w, true) p h = refl
after_walk-covers (w, false) p h = rw sort_paths-is_below (h refl)

-- Every directory that gopls' watcher would reach and that the rules include is at or below a root of
-- the plan, or is partial, so that the plan keeps what its entries were.
pub plan_watch-covers :
    (rules : List Rule) (tree : Node) (p : RelPath)
    → Visible tree p
    → (new_dir_filter rules).include p ≡ true
    → is_covered (plan_watch rules tree) p ≡ true
unfolding plan_watch plan_rules after_walk
plan_watch-covers [] tree p v h = whole_covers p
plan_watch-covers (rule ∷ rules) tree p v h =
    let filter = new_dir_filter (rule ∷ rules) in
    after_walk-covers (walk filter tree [] (record { roots = []; partial = [] })) p (
      walk-covers filter (new_dir_filter-Prunes (rule ∷ rules)) tree []
        (record { roots = []; partial = [] }) p v h)
