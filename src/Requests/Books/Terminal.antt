-- ===== src/Requests/Books/Terminal.antt =====
-- The terminal paths keep the accounts balanced; what they send leaves the accounts alone.
use gopls_mcp_manager.Prelude.{
  nat_eq, string_eq, option_eq, pair_eq, ◌≡◌, refl, ◌∙◌, ap, some, none, lookup, delete,
  lookup-delete, total-delete, delete-IsUnique, arith,
}
use gopls_mcp_manager.Requests.State.{
  RequestId, Token, CancelFunc, OperationKey, Owed, Request, Fault, Message, Router,
}
use gopls_mcp_manager.Requests.Credits.{abandon_operation_locked, end_operation_locked}
use gopls_mcp_manager.Requests.Output.{
  offer, forward, report_error, queue_cancellation, write_to_client,
}
use gopls_mcp_manager.Requests.Terminal.{
  call_cancel, cancel_queued, stop_timer, drop_record, remove_locked,
}
use gopls_mcp_manager.Requests.Books.{Books, books, IsBalanced, runs_on}
use gopls_mcp_manager.Requests.Books.Tally.{count-release, length-delete}
use gopls_mcp_manager.Requests.Books.Credits.{abandon_operation_locked-IsBalanced}

pub books-report_error : (r : Router) (fault : Fault) → books (report_error r fault) ≡ books r
unfolding report_error
books-report_error r fault = ground arith

pub books-offer : (r : Router) (m : Message) (fault : Fault) → books (offer r m fault) ≡ books r
unfolding offer
books-offer r m fault = ground arith

pub books-forward : (r : Router) (m : Message) → books (forward r m) ≡ books r
unfolding forward
books-forward r m = ground arith

pub books-write_to_client : (r : Router) → books (write_to_client r) ≡ books r
unfolding write_to_client
books-write_to_client r = ground arith

pub books-queue_cancellation :
    (r : Router) (owner : Owed) (req : Request) → books (queue_cancellation r owner req) ≡ books r
unfolding queue_cancellation
books-queue_cancellation r owner req = ground arith

pub books-call_cancel : (r : Router) (c : CancelFunc) → books (call_cancel r c) ≡ books r
books-call_cancel r none = refl
books-call_cancel r (some c) = refl

books-cancel_queued : (r : Router) (owner : Owed) → books (cancel_queued r owner) ≡ books r
unfolding cancel_queued
books-cancel_queued r owner = ground arith

books-stop_timer : (r : Router) (t : Token) → books (stop_timer r t) ≡ books r
unfolding stop_timer
books-stop_timer r none = refl
books-stop_timer r (some t) = refl

-- What leaves the accounts alone leaves them balanced.
pub same_books : {before after : Books} → after ≡ before → IsBalanced before → IsBalanced after
same_books e b = rw e b

pub awaiting-abandon :
    (r : Router) (key : OperationKey)
    → (abandon_operation_locked r key).awaiting_upstream ≡ r.awaiting_upstream
unfolding abandon_operation_locked
awaiting-abandon r key = ground arith

pub awaiting-end :
    (r : Router) (key : OperationKey)
    → (end_operation_locked r key).awaiting_upstream ≡ r.awaiting_upstream
unfolding end_operation_locked
awaiting-end r key = ground arith

module _ (r : Router) (id : RequestId) (owner : Owed) where
  drop_record-IsBalanced :
      lookup id r.awaiting_upstream ≡ some owner
      → IsBalanced (books r)
      → IsBalanced (books (drop_record r id owner))
  unfolding drop_record
  drop_record-IsBalanced h b = record {
    unique_awaiting = delete-IsUnique id r.awaiting_upstream b.unique_awaiting;
    unique_operations = b.unique_operations;
    tracked = ground (arith, lookup-delete id none r.awaiting_upstream, b.tracked);
    tally = λ w named. ground (
      arith,
      count-release owner.worktree w r.per_worktree,
      total-delete (runs_on w) id r.awaiting_upstream b.unique_awaiting,
      b.tally w named,
      string_eq.same_iff owner.worktree w,
      string_eq.same_iff owner.worktree "",
    );
    taken = b.taken;
    ledger =
        omega (arith, length-delete id owner r.awaiting_upstream b.unique_awaiting h, b.ledger);
    breakdown = b.breakdown;
    within_session =
        omega
          (arith, length-delete id owner r.awaiting_upstream b.unique_awaiting h, b.within_session);
    within_lane = λ w. ground (
      arith,
      count-release owner.worktree w r.per_worktree,
      b.within_lane w,
      b.within_lane owner.worktree,
    );
    within_operations = b.within_operations;
    within_taken = b.within_taken;
    peaked =
        omega (arith, length-delete id owner r.awaiting_upstream b.unique_awaiting h, b.peaked);
  }

module _ (r : Router) (id : RequestId) (owner : Owed) where
  awaiting-released :
      (stop_timer
        (cancel_queued (abandon_operation_locked r (owner.conn, id)) owner)
        owner.state).awaiting_upstream
      ≡ r.awaiting_upstream
  unfolding cancel_queued stop_timer
  awaiting-released = ground (arith, awaiting-abandon r (owner.conn, id))

  pub remove_locked-IsBalanced :
      lookup id r.awaiting_upstream ≡ some owner
      → IsBalanced (books r)
      → IsBalanced (books (remove_locked r id owner))
  unfolding remove_locked
  remove_locked-IsBalanced h b =
      let abandoned = abandon_operation_locked r (owner.conn, id) in
      let queued = cancel_queued abandoned owner in
      drop_record-IsBalanced (stop_timer queued owner.state) id owner
        (ap (lookup id) awaiting-released ∙ h)
        (same_books (books-stop_timer queued owner.state) (
          same_books (books-cancel_queued abandoned owner)
            (abandon_operation_locked-IsBalanced r (owner.conn, id) b)))

  pub awaiting-remove : (remove_locked r id owner).awaiting_upstream ≡ delete id r.awaiting_upstream
  unfolding remove_locked drop_record
  awaiting-remove = ap (delete id) awaiting-released
