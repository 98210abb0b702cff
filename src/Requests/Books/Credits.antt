-- ===== src/Requests/Books/Credits.antt =====
-- Ending and abandoning an operation keeps the accounts balanced.
use gopls_mcp_manager.Prelude.{
  nat_eq, string_eq, option_eq, pair_eq, String, ◌≡◌, inl, inr, some, lookup, total-insert,
  total-delete, insert-IsUnique, delete-IsUnique, arith, Option-cases, true,
}
use gopls_mcp_manager.Requests.State.{OperationKey, Operation, Router}
use gopls_mcp_manager.Requests.Credits.{
  rejected_locked, end_operation_locked, abandon_operation_locked,
}
use gopls_mcp_manager.Requests.Books.{books, IsBalanced, taken_on}
use gopls_mcp_manager.Requests.Books.Tally.{
  count-release, length-insert_old, length-delete, total-bump,
}

pub rejected_locked-IsBalanced :
    (r : Router) (reason : String)
    → IsBalanced (books r)
    → IsBalanced (books (rejected_locked r reason))
unfolding rejected_locked
rejected_locked-IsBalanced r reason b = record {
  unique_awaiting = b.unique_awaiting;
  unique_operations = b.unique_operations;
  tracked = b.tracked;
  tally = b.tally;
  taken = b.taken;
  ledger = b.ledger;
  breakdown = omega (arith, total-bump reason r.usage.rejections, b.breakdown);
  within_session = b.within_session;
  within_lane = b.within_lane;
  within_operations = b.within_operations;
  within_taken = b.within_taken;
  peaked = b.peaked;
}

module _ (r : Router) (key : OperationKey) (b : IsBalanced (books r)) where
  ended :
      (op : Operation)
      → lookup key r.operations ≡ some op
      → IsBalanced (books (end_operation_locked r key))
  unfolding end_operation_locked
  ended op h =
      rw (h, end_operation_locked)
        (record {
          unique_awaiting = b.unique_awaiting;
          unique_operations = delete-IsUnique key r.operations b.unique_operations;
          tracked = b.tracked;
          tally = b.tally;
          taken = λ w. ground (
            arith,
            count-release op.worktree w r.operations_per_worktree,
            total-delete (taken_on w) key r.operations b.unique_operations,
            b.taken w,
            b.taken op.worktree,
            string_eq.same_iff op.worktree w,
          );
          ledger = b.ledger;
          breakdown = b.breakdown;
          within_session = b.within_session;
          within_lane = b.within_lane;
          within_operations =
              omega (
                arith,
                length-delete key op r.operations b.unique_operations h,
                b.within_operations,
              );
          within_taken = λ w. ground (
            arith,
            count-release op.worktree w r.operations_per_worktree,
            b.within_taken w,
            b.within_taken op.worktree,
          );
          peaked = b.peaked;
        })

  pub end_operation_locked-IsBalanced : IsBalanced (books (end_operation_locked r key))
  unfolding end_operation_locked
  end_operation_locked-IsBalanced = elim (Option-cases (lookup key r.operations)) [
    | inl e ↦ rw (e, end_operation_locked) b
    | inr (op, e) ↦ ended op e
  ]

  marked :
      (op : Operation)
      → lookup key r.operations ≡ some op
      → IsBalanced (books (abandon_operation_locked r key))
  unfolding abandon_operation_locked
  marked op h =
      rw (h, abandon_operation_locked)
        (record {
          unique_awaiting = b.unique_awaiting;
          unique_operations = insert-IsUnique key _ r.operations b.unique_operations;
          tracked = b.tracked;
          tally = b.tally;
          taken = λ w. ground (
            arith,
            total-insert (taken_on w) key (record op { abandoned = true }) r.operations,
            b.taken w,
          );
          ledger = b.ledger;
          breakdown = b.breakdown;
          within_session = b.within_session;
          within_lane = b.within_lane;
          within_operations = omega (
            arith,
            length-insert_old key (record op { abandoned = true }) op r.operations h,
            b.within_operations,
          );
          within_taken = b.within_taken;
          peaked = b.peaked;
        })

  pub abandon_operation_locked-IsBalanced : IsBalanced (books (abandon_operation_locked r key))
  unfolding abandon_operation_locked
  abandon_operation_locked-IsBalanced = elim (Option-cases (lookup key r.operations)) [
    | inl e ↦ rw (e, abandon_operation_locked) b
    | inr (op, e) ↦ marked op e
  ]
