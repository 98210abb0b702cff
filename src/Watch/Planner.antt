-- ===== src/Watch/Planner.antt =====
-- watchroots.go: `planWatch`, `planner` and `relevantNames`, on the tree that `os.ReadDir` shows. A directory is
-- the list of the segments that lead to it from the worktree.
use Prim.Native.Nat.{Ordering}
use Prim.Native.String.{compare, ◌++◌ as ◌<>◌}
use gopls_mcp_manager.Prelude.{
  String, Bool, true, false, not, ◌&&◌, ◌||◌, List, [], ◌∷◌, ◌++◌, string_eq, list_eq,
  if◌then◌else◌, Map, insert,
}
use gopls_mcp_manager.Watch.Names.{skipped_by_watcher, watched_file}
use gopls_mcp_manager.Watch.Filters.{RelPath, Rule, DirFilter, new_dir_filter, worth_listing}

-- An entry is a regular file, another file, a directory that cannot be read, or one with its entries.
mutual
  pub data Node : Type 0 where
    regular irregular unreadable : Node
    directory : Entries → Node

  pub data Entries : Type 0 where
    end : Entries
    entry : String → Node → Entries → Entries

-- `e.IsDir()`
abbrev pub is_dir : Node → Bool
is_dir regular = false
is_dir irregular = false
is_dir unreadable = true
is_dir (directory es) = true

abbrev is_regular : Node → Bool
is_regular regular = true
is_regular node = false

-- `partialEntries`
pub record PartialEntries : Type 0 where
  pub names : List String
  pub files : Bool

-- `watchPlan`, less the time that its caller sets.
pub record WatchPlan : Type 0 where
  pub roots : List RelPath
  pub partial : Map RelPath PartialEntries

-- `slices.Sort`
abbrev insert_sorted : String → List String → List String
insert_sorted x [] = x ∷ []
insert_sorted x (y ∷ ys) =
    let rest = insert_sorted x ys in
    elim (compare x y) [ Ordering.gt ↦ y ∷ rest | _ ↦ x ∷ (y ∷ ys) ]

sort : List String → List String
sort [] = []
sort (x ∷ xs) = insert_sorted x (sort xs)

-- What the loop of `walk` holds: the plan, `clean` and `partial`.
pub record Walked : Type 0 where
  pub plan : WatchPlan
  pub clean : List RelPath
  pub is_partial : Bool

abbrev pub add_partial : WatchPlan → RelPath → PartialEntries → WatchPlan
add_partial w rel held = record w { partial = insert rel held w.partial }

abbrev pub after_child : Walked → RelPath → WatchPlan × Bool → Walked
after_child looped child (w, true) = record looped { plan = w; clean = looped.clean ++ child ∷ [] }
after_child looped child (w, false) = record looped { plan = w; is_partial = true }

abbrev pub after_included : RelPath → WatchPlan × Bool → WatchPlan
after_included child (w, true) = record w { roots = w.roots ++ child ∷ [] }
after_included child (w, false) = w

module _ (filter : DirFilter) where
  -- Does `relevantNames` list a directory or a file of this name?
  unfoldable pub is_relevant : RelPath → Bool → String → Node → Bool
  is_relevant rel files name node =
      let child = rel ++ name ∷ [] in
      if is_dir node && not (skipped_by_watcher name)
      then (files && filter.include child) || (not files && worth_listing filter child)
      else files && (is_regular node && watched_file name)

  abbrev shown : String → Node → String
  shown name node = if is_dir node then name <> "/" else name

  unsorted_names : Entries → RelPath → Bool → List String
  unfolding is_relevant
  unsorted_names end rel files = []
  unsorted_names (entry name node es) rel files =
      let rest = unsorted_names es rel files in
      if is_relevant rel files name node then shown name node ∷ rest else rest

  -- `relevantNames`
  unfoldable pub relevant_names : Entries → RelPath → Bool → List String
  unfolding sort unsorted_names
  relevant_names es rel files = sort (unsorted_names es rel files)

  -- After the loop of `walk`.
  unfoldable pub finish_walk : Entries → RelPath → Walked → WatchPlan × Bool
  finish_walk es rel looped =
      if looped.is_partial
      then (
        add_partial (record looped.plan { roots = looped.plan.roots ++ looped.clean }) rel
            (record { names = relevant_names es rel true; files = true }),
        false,
      )
      else (looped.plan, true)

  -- The body of the loop of `walk`, with what `walkExcluded` and `walk` make of the entry's tree.
  unfoldable pub walk_entry :
      String → Node → RelPath → Walked → WatchPlan → WatchPlan × Bool → Walked
  walk_entry name node child looped excluded included =
      if not (is_dir node) || skipped_by_watcher name
      then looped
      else if not (filter.include child)
      then record looped {
        is_partial = true;
        plan = if filter.may_include child then excluded else looped.plan;
      }
      else after_child looped child included

  -- The body of the loop of `walkExcluded`.
  unfoldable pub excluded_entry :
      String → Node → RelPath → WatchPlan → WatchPlan → WatchPlan × Bool → WatchPlan
  excluded_entry name node child w excluded included =
      if not (is_dir node) || skipped_by_watcher name
      then w
      else if not (filter.include child)
      then (if filter.may_include child then excluded else w)
      else after_included child included

  unfoldable mutual
    -- `walk`
    pub walk : Node → RelPath → WatchPlan → WatchPlan × Bool
    walk regular rel w = (w, true)
    walk irregular rel w = (w, true)
    walk unreadable rel w = (w, true)
    walk (directory es) rel w =
        finish_walk es rel
          (walk_entries es rel (record { plan = w; clean = []; is_partial = false }))

    pub walk_entries : Entries → RelPath → Walked → Walked
    walk_entries end rel looped = looped
    walk_entries (entry name node es) rel looped =
        let child = rel ++ name ∷ [] in
        walk_entries es rel (
          walk_entry name node child looped (walk_excluded node child looped.plan)
            (walk node child looped.plan))

    -- `walkExcluded`
    pub walk_excluded : Node → RelPath → WatchPlan → WatchPlan
    walk_excluded regular rel w = w
    walk_excluded irregular rel w = w
    walk_excluded unreadable rel w = w
    walk_excluded (directory es) rel w =
        add_partial (excluded_entries es rel w) rel
          (record { names = relevant_names es rel false; files = false })

    pub excluded_entries : Entries → RelPath → WatchPlan → WatchPlan
    excluded_entries end rel w = w
    excluded_entries (entry name node es) rel w =
        let child = rel ++ name ∷ [] in
        excluded_entries es rel
          (excluded_entry name node child w (walk_excluded node child w) (walk node child w))

-- A path as the source spells it.
abbrev pub spelled : RelPath → String
spelled [] = ""
spelled (x ∷ []) = x
spelled (x ∷ (y ∷ ys)) = x <> "/" <> spelled (y ∷ ys)

abbrev pub insert_path : RelPath → List RelPath → List RelPath
insert_path x [] = x ∷ []
insert_path x (y ∷ ys) =
    let rest = insert_path x ys in
    elim (compare (spelled x) (spelled y)) [ Ordering.gt ↦ y ∷ rest | _ ↦ x ∷ (y ∷ ys) ]

-- `slices.Sort` of the roots, which the same worktree begins
unfoldable pub sort_paths : List RelPath → List RelPath
sort_paths [] = []
sort_paths (x ∷ xs) = insert_path x (sort_paths xs)

abbrev pub whole : WatchPlan
whole = record { roots = [] ∷ []; partial = [] }

unfoldable pub after_walk : WatchPlan × Bool → WatchPlan
unfolding sort_paths
after_walk (w, true) = whole
after_walk (w, false) = record w { roots = sort_paths w.roots }

-- `planWatch` for rules that are there: the worktree's and the global ones.
unfoldable pub plan_rules : DirFilter → Node → WatchPlan
unfolding walk after_walk
plan_rules filter tree = after_walk (walk filter tree [] (record { roots = []; partial = [] }))

-- `planWatch`
unfoldable pub plan_watch : List Rule → Node → WatchPlan
unfolding plan_rules
plan_watch [] tree = whole
plan_watch (rule ∷ rules) tree = plan_rules (new_dir_filter (rule ∷ rules)) tree
