-- ===== src/Requests/Books/Placement.antt =====
-- Admission, binding, placement and the start of an operation keep the accounts balanced.
use gopls_mcp_manager.Prelude.{
  nat_eq, string_eq, option_eq, pair_eq, option_beq_iff, ℕ, ◌+◌, ◌≤◌, false, ◌≡◌, some, none,
  lookup, insert, lookup-insert, total-insert, insert-IsUnique, length, arith, pos_part, reached,
  pos, negsuc, ℤ,
}
use gopls_mcp_manager.Requests.State.{RequestId, Token, OperationKey, Operation, Owed, Router}
use gopls_mcp_manager.Requests.Credits.{count, bump, owner_locked}
use gopls_mcp_manager.Requests.Books.{Books, IsBalanced, runs_on, taken_on}
use gopls_mcp_manager.Requests.Books.Tally.{count-bump, length-insert_new, length-insert_old}

-- A length below a limit is below its value.
pub below_limit : (n : ℕ) (limit : ℤ) → reached n limit ≡ false → n + 1 ≤ pos_part limit
below_limit n (pos k) h = ground arith
below_limit n (negsuc k) h = ground arith

-- The record that `ownerLocked` finds is the one in the map.
pub owner_locked-lookup :
    (r : Router) (id : RequestId) (state : Token) {owner : Owed}
    → owner_locked r id state ≡ some owner
    → lookup id r.awaiting_upstream ≡ some owner
unfolding owner_locked
owner_locked-lookup r id none h = ground arith
owner_locked-lookup r id (some t) h = ground arith

module _ (b : Books) (id : RequestId) (owner : Owed) (v : IsBalanced b) where
  -- A record is replaced by one on the same worktree.
  pub reassign-IsBalanced :
      (owner' : Owed)
      → lookup id b.awaiting ≡ some owner
      → owner'.worktree ≡ owner.worktree
      → IsBalanced (record b { awaiting = insert id owner' b.awaiting })
  reassign-IsBalanced owner' h e = record {
    unique_awaiting = insert-IsUnique id owner' b.awaiting v.unique_awaiting;
    unique_operations = v.unique_operations;
    tracked =
        ground (arith, lookup-insert id none owner' b.awaiting, v.tracked, option_beq_iff id none);
    tally =
        λ w named. ground (arith, total-insert (runs_on w) id owner' b.awaiting, v.tally w named);
    taken = v.taken;
    ledger = omega (arith, length-insert_old id owner' owner b.awaiting h, v.ledger);
    breakdown = v.breakdown;
    within_session =
        omega (arith, length-insert_old id owner' owner b.awaiting h, v.within_session);
    within_lane = v.within_lane;
    within_operations = v.within_operations;
    within_taken = v.within_taken;
    peaked = omega (arith, length-insert_old id owner' owner b.awaiting h, v.peaked);
  }

module _ (b : Books) (v : IsBalanced b) where
  -- A new operation on `worktree`, below both limits.
  pub take-IsBalanced :
      (key : OperationKey) (op : Operation)
      → lookup key b.operations ≡ none
      → reached (length b.operations) b.limits.session ≡ false
      → reached (count op.worktree b.operations_per_worktree) b.limits.per_lane ≡ false
      → IsBalanced (record b {
        operations = insert key op b.operations;
        operations_per_worktree = bump op.worktree b.operations_per_worktree;
      })
  take-IsBalanced key op h room lane = record {
    unique_awaiting = v.unique_awaiting;
    unique_operations = insert-IsUnique key op b.operations v.unique_operations;
    tracked = v.tracked;
    tally = v.tally;
    taken = λ w. ground (
      arith,
      count-bump op.worktree w b.operations_per_worktree,
      total-insert (taken_on w) key op b.operations,
      string_eq.same_iff op.worktree w,
      v.taken w,
    );
    ledger = v.ledger;
    breakdown = v.breakdown;
    within_session = v.within_session;
    within_lane = v.within_lane;
    within_operations = omega (
      arith,
      length-insert_new key op b.operations h,
      below_limit (length b.operations) b.limits.session room,
    );
    within_taken = λ w. ground (
      arith,
      count-bump op.worktree w b.operations_per_worktree,
      below_limit (count op.worktree b.operations_per_worktree) b.limits.per_lane lane,
      v.within_taken w,
    );
    peaked = v.peaked;
  }

  -- A record that had no worktree gets one, below the limit of its lane.
  pub assign-IsBalanced :
      (id : RequestId) (owner owner' : Owed)
      → lookup id b.awaiting ≡ some owner
      → owner.worktree ≡ ""
      → reached (count owner'.worktree b.per_worktree) b.limits.per_lane ≡ false
      → IsBalanced (record b {
        awaiting = insert id owner' b.awaiting;
        per_worktree = bump owner'.worktree b.per_worktree;
      })
  assign-IsBalanced id owner owner' h unrouted lane = record {
    unique_awaiting = insert-IsUnique id owner' b.awaiting v.unique_awaiting;
    unique_operations = v.unique_operations;
    tracked =
        ground (arith, lookup-insert id none owner' b.awaiting, v.tracked, option_beq_iff id none);
    tally = λ w named. ground (
      arith,
      total-insert (runs_on w) id owner' b.awaiting,
      count-bump owner'.worktree w b.per_worktree,
      string_eq.same_iff owner'.worktree w,
      string_eq.same_iff owner.worktree w,
      v.tally w named,
    );
    taken = v.taken;
    ledger = omega (arith, length-insert_old id owner' owner b.awaiting h, v.ledger);
    breakdown = v.breakdown;
    within_session =
        omega (arith, length-insert_old id owner' owner b.awaiting h, v.within_session);
    within_lane = λ w. ground (
      arith,
      count-bump owner'.worktree w b.per_worktree,
      below_limit (count owner'.worktree b.per_worktree) b.limits.per_lane lane,
      v.within_lane w,
    );
    within_operations = v.within_operations;
    within_taken = v.within_taken;
    peaked = omega (arith, length-insert_old id owner' owner b.awaiting h, v.peaked);
  }
