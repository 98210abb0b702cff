-- ===== src/Requests/Credits.antt =====
-- requests.go and pending.go: the tallies for each worktree, and the operations that upstreams
-- have taken, mirrored in the pending calls.
use gopls_mcp_manager.Prelude.{
  nat_eq, string_eq, option_eq, pair_eq, ℕ, ◌+◌, ◌-◌, String, true, false, ◌||◌, Option, none, some,
  length, Map, lookup, insert, delete, ◌==◌, is_some, reached, if◌then◌else◌,
}
use gopls_mcp_manager.Requests.State.{
  RequestId, Conn, Token, CancelFunc, OperationKey, Owed, Fault, context_canceled,
  unresolved_operation, operation_limit, Router, PendingCalls,
}

-- `counts[key]`, which is 0 where the map has no entry.
abbrev pub or_zero : Option ℕ → ℕ
or_zero none = 0
or_zero (some n) = n

abbrev pub count : String → Map String ℕ → ℕ
count key counts = or_zero (lookup key counts)

-- `counts[key]++`
abbrev pub bump : String → Map String ℕ → Map String ℕ
bump key counts = insert key (count key counts + 1) counts

-- `release`
unfoldable pub release : Map String ℕ → String → Map String ℕ
release counts key =
    let left = count key counts - 1 in
    if left == 0 then delete key counts else insert key left counts

-- `rejectedLocked`
unfoldable pub rejected_locked : Router → String → Router
rejected_locked r reason = record r {
  usage = record r.usage {
    rejected = r.usage.rejected + 1;
    rejections = bump reason r.usage.rejections;
  };
}

-- `beginPending`
unfoldable pub begin_pending : Option PendingCalls → OperationKey → String → ℕ → Option PendingCalls
begin_pending none key worktree now = none
begin_pending (some p) key worktree now = some (record p {
  ops = insert key (record { worktree = worktree; started = now }) p.ops;
  dirty = true;
})

-- `endPending`
unfoldable pub end_pending : Option PendingCalls → OperationKey → Option PendingCalls
end_pending none key = none
end_pending (some p) key = some (record p { ops = delete key p.ops; dirty = true })

-- `endOperationLocked`
unfoldable pub end_operation_locked : Router → OperationKey → Router
end_operation_locked r key = elim (lookup key r.operations) [
  | none ↦ r
  | some op ↦ record r {
    operations = delete key r.operations;
    operations_per_worktree = release r.operations_per_worktree op.worktree;
    pending = end_pending r.pending key;
  }
]

-- `abandonOperationLocked`
unfoldable pub abandon_operation_locked : Router → OperationKey → Router
abandon_operation_locked r key = elim (lookup key r.operations) [
  | none ↦ r
  | some op ↦ record r { operations = insert key (record op { abandoned = true }) r.operations }
]

-- The test of `ownerLocked`: a nil state asks for the record whoever holds it.
abbrev pub held_by : Option Owed → Token → Option Owed
held_by none state = none
held_by (some owner) none = some owner
held_by (some owner) (some t) = if owner.state == some t then some owner else none

-- `ownerLocked`
unfoldable pub owner_locked : Router → RequestId → Token → Option Owed
owner_locked r id state = held_by (lookup id r.awaiting_upstream) state

-- The part of `beginOperation` under the lock, for the record that is owed.
unfoldable pub begin_owned :
    Router
    → RequestId
    → Token
    → Conn
    → String
    → CancelFunc
    → Option ℕ
    → Owed
    → Router × Option Fault
begin_owned r id state conn worktree cancel placed owner =
    if is_some (lookup (conn, id) r.operations)
    then (r, some (unresolved_operation id))
    else if reached (length r.operations) r.limits.session
        || reached (count worktree r.operations_per_worktree) r.limits.per_lane
    then (rejected_locked r "upstream_operations", some operation_limit)
    else (
      record r {
        operations =
            insert (conn, id) (record { worktree = worktree; abandoned = false; state = state })
              r.operations;
        operations_per_worktree = bump worktree r.operations_per_worktree;
        pending = begin_pending r.pending (conn, id) worktree r.clock;
        awaiting_upstream =
            insert id (record owner { conn = conn; cancel = cancel; placed = placed })
              r.awaiting_upstream;
      },
      none,
    )

-- `beginOperation`; the second component is the error.
unfoldable pub begin_operation :
    Router → RequestId → Token → Conn → String → CancelFunc → Option ℕ → Router × Option Fault
unfolding begin_owned
begin_operation r none state conn worktree cancel placed = (r, none)
begin_operation r (some i) state conn worktree cancel placed =
    elim (owner_locked r (some i) state) [
      | none ↦ (r, some context_canceled)
      | some owner ↦ begin_owned r (some i) state conn worktree cancel placed owner
    ]
