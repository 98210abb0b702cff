-- ===== src/Watch/Recorded.antt =====
-- What a plan keeps of its partial directories, and what `watchChanged` makes of it.
use gopls_mcp_manager.Prelude.{
  ℕ, String, Bool, true, false, Option, none, some, List, [], ◌∷◌, string_eq, nat_eq, int_eq,
  pair_eq, list_eq, Map, lookup, lookup-insert_self, lookup-delete_self, ◌≡◌, refl, inl, inr, arith,
  Bool-cases,
}
use gopls_mcp_manager.Registry.State.{Record}
use gopls_mcp_manager.Registry.Ensure.{started_precisely}
use gopls_mcp_manager.Watch.Filters.{RelPath, Rule, DirFilter, new_dir_filter}
use gopls_mcp_manager.Watch.Planner.{
  Node, directory, Entries, end, entry, WatchPlan, PartialEntries, walk, after_walk, plan_rules,
  plan_watch, relevant_names,
}
use gopls_mcp_manager.Watch.Roots.{Stands, Held, IsHeld}
use gopls_mcp_manager.Watch.Sound.{plan_walk-Rooted}
use gopls_mcp_manager.Watch.Snapshots.{
  ServerId, WatchSnapshot, is_current, is_unwatched, remember_watch, info_after, module_changed,
  partial_changed, any_changed, changed_since, watch_changed,
}

after_walk-Held :
    (filter : DirFilter) (tree : Node) (x : WatchPlan × Bool)
    → Held (IsHeld filter tree) x.0.partial
    → Held (IsHeld filter tree) (after_walk x).partial
unfolding after_walk
after_walk-Held filter tree (w, true) h = tt
after_walk-Held filter tree (w, false) h = h

plan_watch-Held :
    (rules : List Rule) (tree : Node)
    → Held (IsHeld (new_dir_filter rules) tree) (plan_watch rules tree).partial
unfolding plan_watch plan_rules
plan_watch-Held [] tree = tt
plan_watch-Held (rule ∷ rules) tree =
    after_walk-Held (new_dir_filter (rule ∷ rules)) tree
      (walk (new_dir_filter (rule ∷ rules)) tree [] (record { roots = []; partial = [] }))
      (plan_walk-Rooted (new_dir_filter (rule ∷ rules)) tree).1

module _ (filter : DirFilter) (tree : Node) (read_dir : RelPath → Option Entries)
    (info : RelPath → String → Option ℕ) (r : Record)
    (reads : (dir : RelPath) (es : Entries)
      → Stands tree dir (directory es)
      → read_dir dir ≡ some es)
    (calm : (dir : RelPath) (name : String)
      → info_after (info dir name) (started_precisely r) ≡ false) where
  module_changed-calm :
      (dir : RelPath) (es : Entries) → module_changed es (info dir) (started_precisely r) ≡ false
  unfolding module_changed
  module_changed-calm dir end = refl
  module_changed-calm dir (entry name node es) =
      ground (arith, calm dir name, module_changed-calm dir es)

  partial_changed-calm :
      (dir : RelPath) (held : PartialEntries)
      → IsHeld filter tree dir held
      → partial_changed r dir held filter (read_dir dir) (info dir) ≡ false
  unfolding partial_changed
  partial_changed-calm dir held (es, stands, same) = rw (reads dir es stands) (
      ground (
        arith,
        module_changed-calm dir es,
        (list_eq {A = String}).same_iff held.names (relevant_names filter es dir held.files),
        same,
      ))

  any_changed-calm :
      (m : Map RelPath PartialEntries)
      → Held (IsHeld filter tree) m
      → any_changed filter read_dir info r m ≡ false
  unfolding any_changed
  any_changed-calm [] h = refl
  any_changed-calm ((dir, held) ∷ m) h =
      rw (partial_changed-calm dir held h.0, any_changed-calm m h.1) refl

  -- A snapshot of what a plan holds gives no change.
  changed_since-calm :
      (snapshot : WatchSnapshot)
      → Held (IsHeld filter tree) snapshot.partial
      → changed_since filter read_dir info r (some snapshot) ≡ none
  unfolding changed_since
  changed_since-calm snapshot h = rw (any_changed-calm snapshot.partial h) (ground arith)

  replaced-Held :
      (plans : Map String WatchSnapshot) (server_id : ServerId) (plan : WatchPlan) (started now : ℕ)
      → Held (IsHeld filter tree) plan.partial
      → is_current (lookup r.worktree plans) server_id started ≡ false
      → watch_changed filter read_dir info
          (remember_watch (some plans) r.worktree server_id plan started now)
          r
        ≡ none
  unfolding watch_changed remember_watch
  replaced-Held plans server_id plan started now h replaces =
      elim (Bool-cases (is_unwatched plan.partial server_id)) [
        | inl unwatched ↦
            rw (replaces, unwatched, lookup-delete_self) (unfold changed_since in refl)
        | inr watched ↦
            rw (replaces, watched, lookup-insert_self)
              (changed_since-calm
                (record {
                  planned = started;
                  partial = plan.partial;
                  taken = now;
                  server_id = server_id;
                })
                h)
      ]

pub watch_changed-quiet :
    (rules : List Rule) (tree : Node) (read_dir : RelPath → Option Entries)
    (info : RelPath → String → Option ℕ) (r : Record) (plans : Map String WatchSnapshot)
    (server_id : ServerId) (started now : ℕ)
    → ((dir : RelPath) (es : Entries) → Stands tree dir (directory es) → read_dir dir ≡ some es)
    → ((dir : RelPath) (name : String) → info_after (info dir name) (started_precisely r) ≡ false)
    → is_current (lookup r.worktree plans) server_id started ≡ false
    → watch_changed
        (new_dir_filter rules)
        read_dir
        info
        (remember_watch (some plans) r.worktree server_id (plan_watch rules tree) started now)
        r
      ≡ none
watch_changed-quiet rules tree read_dir info r plans server_id started now reads calm =
    replaced-Held (new_dir_filter rules) tree read_dir info r reads calm plans server_id
      (plan_watch rules tree) started now (plan_watch-Held rules tree)
