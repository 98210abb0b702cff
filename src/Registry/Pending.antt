-- ===== src/Registry/Pending.antt =====
-- pending.go: which worktrees have a call under way, as the managers of all processes publish it.
use gopls_mcp_manager.Prelude.{
  ℕ, ◌+◌, ◌*◌, String, Bool, true, false, ◌&&◌, ◌||◌, ◌≡◌, refl, Option, none, some, is_some, leb,
  ltb, arith, if◌then◌else◌, List, [], ◌∷◌, ◌==◌, string_eq, Map, lookup, insert, lookup-insert,
}
use gopls_mcp_manager.Config.{second}
use gopls_mcp_manager.Requests.State.{OperationKey, PendingCall, PendingCalls}

abbrev pub pending_fresh : ℕ
pending_fresh = 30 * second

-- `op.started.After(newest[worktree])`; a missing key is the zero time, before every start.
abbrev pub is_newer : ℕ → Option ℕ → Bool
is_newer started none = true
is_newer started (some other) = ltb other started

-- The loop of `newest`.
unfoldable pub collect_newest : Map OperationKey PendingCall → Map String ℕ → Map String ℕ
collect_newest [] newest = newest
collect_newest ((key, op) ∷ ops) newest = collect_newest ops (
    if is_newer op.started (lookup op.worktree newest)
    then insert op.worktree op.started newest
    else newest)

-- `newest`
unfoldable pub newest_calls : PendingCalls → Map String ℕ
unfolding collect_newest
newest_calls p = collect_newest p.ops []

-- What a file of another manager is to `busyWorktrees`: not a file of one, or of a process that is gone, or gone
-- itself, or not to be read, or not to be parsed, or the starts that it holds.
pub data Published : Type 0 where
  no_manager dead vanished unreadable unparsable : Published
  starts : Map String ℕ → Published

pub data PendingDir : Type 0 where
  no_dir : PendingDir
  unlisted : PendingDir
  listed : List Published → PendingDir

module _ (now : ℕ) where
  -- `age >= 0 && age < pendingFresh`
  abbrev pub is_fresh : ℕ → Bool
  is_fresh started = leb started now && ltb now (started + pending_fresh)

  -- `mark`
  unfoldable pub mark_all : Map String ℕ → Map String Bool → Map String Bool
  mark_all [] busy = busy
  mark_all ((worktree, started) ∷ rest) busy =
      mark_all rest (if is_fresh started then insert worktree true busy else busy)

  -- The loop over the other managers' files; `none` is the error.
  unfoldable pub mark_published : List Published → Map String Bool → Option (Map String Bool)
  unfolding mark_all
  mark_published [] busy = some busy
  mark_published (unreadable ∷ files) busy = none
  mark_published (starts millis ∷ files) busy = mark_published files (mark_all millis busy)
  mark_published (no_manager ∷ files) busy = mark_published files busy
  mark_published (dead ∷ files) busy = mark_published files busy
  mark_published (vanished ∷ files) busy = mark_published files busy
  mark_published (unparsable ∷ files) busy = mark_published files busy

  unfoldable pub own_busy : Option PendingCalls → Map String Bool
  unfolding mark_all newest_calls
  own_busy none = []
  own_busy (some p) = mark_all (newest_calls p) []

  -- `busyWorktrees`
  unfoldable pub busy_worktrees : Option PendingCalls → PendingDir → Option (Map String Bool)
  unfolding own_busy mark_published
  busy_worktrees own no_dir = some (own_busy own)
  busy_worktrees own unlisted = none
  busy_worktrees own (listed files) = mark_published files (own_busy own)

  -- Does one of the starts protect the worktree?
  abbrev pub has_fresh : String → Map String ℕ → Bool
  has_fresh w [] = false
  has_fresh w ((worktree, started) ∷ rest) = (worktree == w && is_fresh started) || has_fresh w rest

  abbrev pub has_published : String → List Published → Bool
  has_published w [] = false
  has_published w (starts millis ∷ files) = has_fresh w millis || has_published w files
  has_published w (_ ∷ files) = has_published w files

  abbrev pub in_dir : String → PendingDir → Bool
  in_dir w (listed files) = has_published w files
  in_dir w _ = false

  abbrev pub has_own : String → Option PendingCalls → Bool
  has_own w none = false
  has_own w (some p) = has_fresh w (newest_calls p)

  mark_all-busy :
      (w : String) (millis : Map String ℕ) (busy : Map String Bool)
      → is_some (lookup w (mark_all millis busy)) ≡ (has_fresh w millis || is_some (lookup w busy))
  unfolding mark_all
  mark_all-busy w [] busy = refl
  mark_all-busy w ((v, s) ∷ rest) busy = ground (
    arith,
    lookup-insert v w true busy,
    mark_all-busy w rest (if is_fresh s then insert v true busy else busy),
  )

  mark_published-busy :
      (w : String) (files : List Published) (busy marked : Map String Bool)
      → mark_published files busy ≡ some marked
      → is_some (lookup w marked) ≡ (has_published w files || is_some (lookup w busy))
  unfolding mark_published
  mark_published-busy w [] busy marked h = ground arith
  mark_published-busy w (unreadable ∷ files) busy marked h = cc
  mark_published-busy w (starts millis ∷ files) busy marked h = ground (
    arith,
    mark_all-busy w millis busy,
    mark_published-busy w files (mark_all millis busy) marked h,
  )
  mark_published-busy w (no_manager ∷ files) busy marked h =
      mark_published-busy w files busy marked h
  mark_published-busy w (dead ∷ files) busy marked h = mark_published-busy w files busy marked h
  mark_published-busy w (vanished ∷ files) busy marked h = mark_published-busy w files busy marked h
  mark_published-busy w (unparsable ∷ files) busy marked h =
      mark_published-busy w files busy marked h

  own_busy-fresh :
      (w : String) (own : Option PendingCalls) → is_some (lookup w (own_busy own)) ≡ has_own w own
  unfolding own_busy lookup
  own_busy-fresh w none = refl
  own_busy-fresh w (some p) = ground (arith, mark_all-busy w (newest_calls p) [])

  busy_worktrees-marked :
      (w : String) (own : Option PendingCalls) (dir : PendingDir) (busy : Map String Bool)
      → busy_worktrees own dir ≡ some busy
      → is_some (lookup w busy) ≡ (in_dir w dir || has_own w own)
  unfolding busy_worktrees
  busy_worktrees-marked w own no_dir busy h = ground (arith, own_busy-fresh w own)
  busy_worktrees-marked w own unlisted busy h = cc
  busy_worktrees-marked w own (listed files) busy h =
      ground (arith, own_busy-fresh w own, mark_published-busy w files (own_busy own) busy h)

pub busy_worktrees-fresh :
    (now : ℕ) (w : String) (own : Option PendingCalls) (dir : PendingDir) (busy : Map String Bool)
    → busy_worktrees now own dir ≡ some busy
    → is_some (lookup w busy) ≡ (in_dir now w dir || has_own now w own)
busy_worktrees-fresh now w own dir busy h = busy_worktrees-marked now w own dir busy h
