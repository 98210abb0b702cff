-- ===== src/Watch/Snapshots.antt =====
-- watchroots.go: `rememberWatch`, `watchChanged`, `partialChanged` and `forgetWatch`. A time is its nanoseconds since
-- 1970, and 0 is the zero time.
use gopls_mcp_manager.Prelude.{
  ℕ, ◌*◌, ◌/◌, String, Bool, true, false, not, ◌&&◌, ◌||◌, Option, none, some, [], ◌∷◌, ◌==◌,
  nat_eq, string_eq, list_eq, int_eq, option_eq, pair_eq, if◌then◌else◌, Map, insert, lookup,
  delete, ltb, ℤ, pos, negsuc,
}
use gopls_mcp_manager.Registry.State.{Record}
use gopls_mcp_manager.Registry.Ensure.{
  Start, no_start, at_milli, at_second, started_precisely, server,
}
use gopls_mcp_manager.Watch.Names.{module_file}
use gopls_mcp_manager.Watch.Filters.{RelPath, DirFilter}
use gopls_mcp_manager.Watch.Planner.{Entries, end, entry, PartialEntries, WatchPlan, relevant_names}

-- A `serverID`
abbrev pub ServerId : Type 0
ServerId = ℤ × ℤ

-- `known`
abbrev pub known : ServerId → Bool
known server_id = not (server_id.0 == pos 0)

-- `watchSnapshot`
pub record WatchSnapshot : Type 0 where
  pub planned : ℕ
  pub partial : Map RelPath PartialEntries
  pub taken : ℕ
  pub server_id : ServerId

-- `watchPlans`; `none` where there is no manager or it keeps none.
abbrev pub WatchPlans : Type 0
WatchPlans = Option (Map String WatchSnapshot)

-- Does the snapshot that is held stay, when a plan begun at `started` was reported to a server?
unfoldable pub is_current : Option WatchSnapshot → ServerId → ℕ → Bool
is_current none server_id started = false
is_current (some current) server_id started =
    (known server_id && current.server_id == server_id)
    || (not (started == 0) && ltb started current.planned)

unfoldable pub is_unwatched : Map RelPath PartialEntries → ServerId → Bool
is_unwatched [] server_id = not (known server_id)
is_unwatched (held ∷ partial) server_id = false

-- `rememberWatch` of a plan that was begun at `started`, at the time `now`
unfoldable pub remember_watch : WatchPlans → String → ServerId → WatchPlan → ℕ → ℕ → WatchPlans
unfolding is_current is_unwatched
remember_watch none worktree server_id plan started now = none
remember_watch (some plans) worktree server_id plan started now =
    if is_current (lookup worktree plans) server_id started
    then some plans
    else if is_unwatched plan.partial server_id
    then some (delete worktree plans)
    else some (
        insert worktree
          (record { planned = started; partial = plan.partial; taken = now; server_id = server_id })
          plans)

-- `info.ModTime().After(started)`
abbrev pub modified_after : ℕ → Start → Bool
modified_after modified no_start = false
modified_after modified (at_milli (pos k)) = ltb (k * 1000000) modified
modified_after modified (at_milli (negsuc k)) = true
modified_after modified (at_second (pos k)) = ltb (k * 1000000000) modified
modified_after modified (at_second (negsuc k)) = true

abbrev pub info_after : Option ℕ → Start → Bool
info_after none started = false
info_after (some modified) started = modified_after modified started

-- The loop of `partialChanged` over the module files; `info` has an entry's time where `Info` gives one.
unfoldable pub module_changed : Entries → (String → Option ℕ) → Start → Bool
module_changed end info started = false
module_changed (entry name node es) info started =
    (module_file name && info_after (info name) started) || module_changed es info started

-- `partialChanged`, with what `os.ReadDir` reads of the directory, if it can.
unfoldable pub partial_changed :
    Record → RelPath → PartialEntries → DirFilter → Option Entries → (String → Option ℕ) → Bool
unfolding module_changed
partial_changed r rel want filter none info = false
partial_changed r rel want filter (some es) info =
    if not (want.names == relevant_names filter es rel want.files)
    then true
    else (want.files && module_changed es info (started_precisely r))

-- `snapshot.taken.Unix() < r.StartedAt`
abbrev pub taken_before : ℕ → ℤ → Bool
taken_before taken (pos started) = ltb (taken / 1000000000) started
taken_before taken (negsuc started) = false

-- Does a snapshot describe the server of a record?
unfoldable pub describes : WatchSnapshot → Record → Bool
describes snapshot r =
    if known (server r) && known snapshot.server_id
    then server r == snapshot.server_id
    else not (taken_before snapshot.taken r.started_at)

module _ (filter : DirFilter) (read_dir : RelPath → Option Entries)
    (info : RelPath → String → Option ℕ) where
  unfoldable pub any_changed : Record → Map RelPath PartialEntries → Bool
  unfolding partial_changed
  any_changed r [] = false
  any_changed r ((dir, want) ∷ partial) =
      partial_changed r dir want filter (read_dir dir) (info dir) || any_changed r partial

  unfoldable pub changed_since : Record → Option WatchSnapshot → Option WatchSnapshot
  unfolding any_changed describes
  changed_since r none = none
  changed_since r (some snapshot) =
      if describes snapshot r && any_changed r snapshot.partial then some snapshot else none

  -- `watchChanged`: the snapshot, where something has changed.
  unfoldable pub watch_changed : WatchPlans → Record → Option WatchSnapshot
  unfolding changed_since
  watch_changed none r = none
  watch_changed (some plans) r = changed_since r (lookup r.worktree plans)

abbrev forget_current :
    Map String WatchSnapshot
    → String
    → WatchSnapshot
    → Option WatchSnapshot
    → Map String WatchSnapshot
forget_current plans worktree snapshot none = plans
forget_current plans worktree snapshot (some current) =
    if current.taken == snapshot.taken then delete worktree plans else plans

-- `forgetWatch`
unfoldable pub forget_watch :
    Map String WatchSnapshot → String → WatchSnapshot → Map String WatchSnapshot
forget_watch plans worktree snapshot =
    forget_current plans worktree snapshot (lookup worktree plans)
