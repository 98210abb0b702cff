-- ===== src/Watch/Sound.antt =====
-- The roots of a plan are sound.
use Prim.Native.Nat.{Ordering}
use Prim.Native.String.{compare}
use gopls_mcp_manager.Prelude.{
  Bool, true, false, List, [], ◌∷◌, string_eq, list_eq, ◌≡◌, refl, sym, ◌⊎◌, inl, inr,
}
use gopls_mcp_manager.Watch.Filters.{RelPath, Rule, DirFilter, new_dir_filter}
use gopls_mcp_manager.Watch.Planner.{
  Node, WatchPlan, walk, whole, spelled, insert_path, sort_paths, after_walk, plan_rules,
  plan_watch,
}
use gopls_mcp_manager.Watch.Cleanness.{is_clean, walk-is_clean}
use gopls_mcp_manager.Watch.Roots.{All, IsRoot, Rooted, top, walk-Rooted}

after_compare :
    (P : RelPath → Type 0) (x y : RelPath) (ys : List RelPath) (o : Ordering)
    → P x
    → All P (y ∷ ys)
    → All P (insert_path x ys)
    → All P (elim o [ Ordering.gt ↦ y ∷ insert_path x ys | _ ↦ x ∷ (y ∷ ys) ])
after_compare P x y ys Ordering.lt h k rest = (h, k)
after_compare P x y ys Ordering.eq h k rest = (h, k)
after_compare P x y ys Ordering.gt h k rest = (k.0, rest)

insert_path-All :
    (P : RelPath → Type 0) (x : RelPath) (xs : List RelPath)
    → P x
    → All P xs
    → All P (insert_path x xs)
insert_path-All P x [] h k = (h, tt)
insert_path-All P x (y ∷ ys) h k =
    after_compare P x y ys (compare (spelled x) (spelled y)) h k (insert_path-All P x ys h k.1)

sort_paths-All : (P : RelPath → Type 0) (xs : List RelPath) → All P xs → All P (sort_paths xs)
unfolding sort_paths
sort_paths-All P [] h = tt
sort_paths-All P (x ∷ xs) h = insert_path-All P x (sort_paths xs) h.0 (sort_paths-All P xs h.1)

pub plan_walk-Rooted :
    (filter : DirFilter) (tree : Node)
    → Rooted filter tree (walk filter tree [] (record { roots = []; partial = [] })).0
plan_walk-Rooted filter tree =
    walk-Rooted filter tree tree [] (record { roots = []; partial = [] }) top (tt, tt)

-- What a plan promises of its roots: it is the whole worktree where that is clean, or each root is one.
abbrev pub IsSound : DirFilter → Node → WatchPlan → Type 0
IsSound filter tree w =
    ((is_clean filter tree [] ≡ true) × (w ≡ whole))
    ⊎ ((is_clean filter tree [] ≡ false) × All (IsRoot filter tree) w.roots)

after_walk-IsSound :
    (filter : DirFilter) (tree : Node) (x : WatchPlan × Bool)
    → x.1 ≡ is_clean filter tree []
    → All (IsRoot filter tree) x.0.roots
    → IsSound filter tree (after_walk x)
unfolding after_walk
after_walk-IsSound filter tree (w, true) judged h = inl (sym judged, refl)
after_walk-IsSound filter tree (w, false) judged h =
    inr (sym judged, sort_paths-All (IsRoot filter tree) w.roots h)

-- With rules in force, a worktree in which they exclude no directory is watched whole; in any other,
-- each root is a directory of the tree that is included and has no excluded directory below it.
pub plan_watch-IsSound :
    (rule : Rule) (rules : List Rule) (tree : Node)
    → IsSound (new_dir_filter (rule ∷ rules)) tree (plan_watch (rule ∷ rules) tree)
unfolding plan_watch plan_rules
plan_watch-IsSound rule rules tree =
    let filter = new_dir_filter (rule ∷ rules) in
    after_walk-IsSound filter tree _
      (walk-is_clean filter tree [] (record { roots = []; partial = [] }))
      (plan_walk-Rooted filter tree).0
