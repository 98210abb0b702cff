-- ===== src/Watch/Generations.antt =====
-- A snapshot belongs to one server: only an answer to another server replaces it.
use gopls_mcp_manager.Prelude.{
  ℕ, String, true, false, Option, none, some, List, [], ◌∷◌, ◌==◌, string_eq, list_eq, nat_eq,
  int_eq, pair_eq, Map, lookup, lookup-insert, lookup-delete, ◌≡◌, refl, ◌∙◌, ap, ℤ, arith,
  Bool-cases, inl, inr, ==-sound,
}
use gopls_mcp_manager.Registry.State.{Record}
use gopls_mcp_manager.Watch.Filters.{RelPath, DirFilter}
use gopls_mcp_manager.Watch.Planner.{Entries, WatchPlan, PartialEntries}
use gopls_mcp_manager.Watch.Snapshots.{
  ServerId, known, WatchSnapshot, WatchPlans, is_current, remember_watch, describes,
  partial_changed, any_changed, changed_since, watch_changed,
}

-- What one call of `rememberWatch` is given.
pub record Answer : Type 0 where
  pub worktree : String
  pub server_id : ServerId
  pub plan : WatchPlan
  pub started : ℕ
  pub now : ℕ

-- Answers one after another, the first one first.
unfoldable pub answers : WatchPlans → List Answer → WatchPlans
unfolding remember_watch
answers plans [] = plans
answers plans (a ∷ rest) =
    answers (remember_watch plans a.worktree a.server_id a.plan a.started a.now) rest

-- Is every answer for a worktree one to this server?
abbrev pub OnlyTo : String → ServerId → List Answer → Type 0
OnlyTo worktree server_id [] = Unit
OnlyTo worktree server_id (a ∷ rest) =
    (a.worktree ≡ worktree → a.server_id ≡ server_id) × OnlyTo worktree server_id rest

-- What a map of plans holds for a worktree.
unfoldable pub held_for : WatchPlans → String → Option WatchSnapshot
held_for none worktree = none
held_for (some plans) worktree = lookup worktree plans

pub remember_watch-other :
    (plans : Map String WatchSnapshot) (a : Answer) (worktree : String)
    → a.worktree == worktree ≡ false
    → held_for (remember_watch (some plans) a.worktree a.server_id a.plan a.started a.now) worktree
      ≡ lookup worktree plans
unfolding remember_watch held_for
remember_watch-other plans a worktree other = ground (
  arith,
  other,
  lookup-insert a.worktree worktree
      (record {
        planned = a.started;
        partial = a.plan.partial;
        taken = a.now;
        server_id = a.server_id;
      })
      plans,
  lookup-delete a.worktree worktree plans,
)

current_for :
    (held : WatchSnapshot) (server_id : ServerId) (started : ℕ)
    → known server_id ≡ true
    → held.server_id ≡ server_id
    → is_current (some held) server_id started ≡ true
unfolding is_current
current_for held server_id started is_known same =
    ground (arith, is_known, same, (pair_eq {A = ℤ} {B = ℤ}).same_iff held.server_id server_id)

remember_watch_kept :
    (plans : Map String WatchSnapshot) (worktree : String) (server_id : ServerId) (plan : WatchPlan)
    (started now : ℕ)
    → is_current (lookup worktree plans) server_id started ≡ true
    → remember_watch (some plans) worktree server_id plan started now ≡ some plans
unfolding remember_watch
remember_watch_kept plans worktree server_id plan started now h = rw h refl

module _ (worktree : String) (held : WatchSnapshot) (server_id : ServerId)
    (is_known : known server_id ≡ true) (same : held.server_id ≡ server_id) where
  step_kept :
      (plans : WatchPlans) (a : Answer)
      → (a.worktree ≡ worktree → a.server_id ≡ server_id)
      → held_for plans worktree ≡ some held
      → held_for (remember_watch plans a.worktree a.server_id a.plan a.started a.now) worktree
        ≡ some held
  unfolding held_for
  step_kept none a only h = cc
  step_kept (some plans) a only h = elim (Bool-cases (a.worktree == worktree)) [
    | inr other ↦ remember_watch-other plans a worktree other ∙ h
    | inl here ↦
        (let e = ==-sound a.worktree worktree here in
          ap (λ o. held_for o worktree)
            (remember_watch_kept plans a.worktree a.server_id a.plan a.started a.now
              (rw (e, h, only e) (current_for held server_id a.started is_known same)))
          ∙ h)
  ]

  answers_kept :
      (list : List Answer) (plans : WatchPlans)
      → OnlyTo worktree server_id list
      → held_for plans worktree ≡ some held
      → held_for (answers plans list) worktree ≡ some held
  unfolding answers
  answers_kept [] plans only h = h
  answers_kept (a ∷ list) plans only h = answers_kept list _ only.1 (step_kept plans a only.0 h)

-- Once a snapshot belongs to a known server, it stays as it is through any answers, for this and for
-- other worktrees, as long as those for its worktree go to that server.
pub answers-snapshot :
    (worktree : String) (held : WatchSnapshot) (plans : WatchPlans) (list : List Answer)
    → known held.server_id ≡ true
    → OnlyTo worktree held.server_id list
    → held_for plans worktree ≡ some held
    → held_for (answers plans list) worktree ≡ some held
answers-snapshot worktree held plans list is_known only h =
    answers_kept worktree held held.server_id is_known refl list plans only h

same_value : (a b : PartialEntries) → some a ≡ some b → a ≡ b
same_value a b h = cc

module _ (filter : DirFilter) (read_dir : RelPath → Option Entries)
    (info : RelPath → String → Option ℕ) (r : Record) where
  any_changed-lookup :
      (dir : RelPath) (want : PartialEntries) (m : Map RelPath PartialEntries)
      → lookup dir m ≡ some want
      → partial_changed r dir want filter (read_dir dir) (info dir) ≡ true
      → any_changed filter read_dir info r m ≡ true
  unfolding any_changed lookup
  any_changed-lookup dir want [] h changed = cc
  any_changed-lookup dir want ((other, held) ∷ m) h changed = elim (Bool-cases (other == dir)) [
    | inl found ↦
        (let e = ==-sound other dir found in
          let f = same_value held want (rw found at h) in rw (e, f, changed) refl)
    | inr elsewhere ↦ ground (arith, any_changed-lookup dir want m (rw elsewhere at h) changed)
  ]

  pub watch_changed-seen :
      (plans : Map String WatchSnapshot) (snapshot : WatchSnapshot) (dir : RelPath)
      (want : PartialEntries)
      → lookup r.worktree plans ≡ some snapshot
      → describes snapshot r ≡ true
      → lookup dir snapshot.partial ≡ some want
      → partial_changed r dir want filter (read_dir dir) (info dir) ≡ true
      → watch_changed filter read_dir info (some plans) r ≡ some snapshot
  unfolding watch_changed changed_since
  watch_changed-seen plans snapshot dir want held described at_dir changed =
      rw (held, described, any_changed-lookup dir want snapshot.partial at_dir changed) refl
