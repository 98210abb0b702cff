-- ===== src/Requests/Books/Answers.antt =====
-- The terminal paths with their answers, and the two sweeps, keep the accounts balanced.
use gopls_mcp_manager.Prelude.{
  nat_eq, string_eq, option_eq, pair_eq, ◌+◌, String, Bool, true, false, ◌≡◌, refl, ap, ◌∙◌, inl,
  inr, Option, some, none, List, [], ◌∷◌, Map, Within, Within-self, Within-delete, IsUnique, arith,
  ◌==◌, Bool-cases,
}
use gopls_mcp_manager.Requests.State.{
  RequestId, Conn, Token, OperationKey, Operation, Request, Code, internal_error, Fault, went_away,
  Message, error_response, Owed, Delivery, Router,
}
use gopls_mcp_manager.Requests.Credits.{end_operation_locked}
use gopls_mcp_manager.Requests.Output.{forward, queue_cancellation}
use gopls_mcp_manager.Requests.Terminal.{
  call_cancel, finish, remove_locked, expired_claim, expire_execution, cancelled_claim, cancel_call,
  answer_claim, fail_delivery, ingress_failed, fail_ingress, response_claim, upstream_response,
  strand, forward_lost, fail_in_flight, clear_owed, clear_operations, clear_requests,
  start_execution,
}
use gopls_mcp_manager.Requests.Books.{Books, books, IsBalanced}
use gopls_mcp_manager.Requests.Books.Credits.{end_operation_locked-IsBalanced}
use gopls_mcp_manager.Requests.Books.Terminal.{
  remove_locked-IsBalanced, same_books, books-offer, books-forward, books-queue_cancellation,
  books-call_cancel, awaiting-remove,
}
use gopls_mcp_manager.Requests.Books.Steps.{finish-IsBalanced}

books-expired_claim :
    (req : Request) (id : RequestId) (p : Router × Option Owed)
    → books (expired_claim req id p) ≡ books p.0
unfolding expired_claim
books-expired_claim req id (r, none) = refl
books-expired_claim req id (r, some owner) =
    let queued = queue_cancellation r owner req in
    let counted = record queued {
      usage = record queued.usage { execution_expired = queued.usage.execution_expired + 1 };
    } in
    books-offer counted _ _ ∙ books-queue_cancellation r owner req

books-cancelled_claim :
    (req : Request) (id : RequestId) (p : Router × Option Owed)
    → books (cancelled_claim req id p) ≡ books p.0
unfolding cancelled_claim
books-cancelled_claim req id (r, none) = refl
books-cancelled_claim req id (r, some owner) =
    books-queue_cancellation _ owner req ∙ books-forward _ _

books-answer_claim :
    (id : RequestId) (code : Code) (fault : Fault) (p : Router × Option Owed)
    → books (answer_claim id code fault p).0 ≡ books p.0
unfolding answer_claim
books-answer_claim id code fault (r, none) = refl
books-answer_claim id code fault (r, some owner) = books-forward r _

books-ingress_failed : (p : Router × Bool) → books (ingress_failed p) ≡ books p.0
unfolding ingress_failed
books-ingress_failed (r, true) = refl
books-ingress_failed (r, false) = refl

books-response_claim :
    (msg : Message) (p : Router × Option Owed) → books (response_claim msg p) ≡ books p.0
unfolding response_claim
books-response_claim msg (r, none) = refl
books-response_claim msg (r, some owner) = books-forward r msg

pub strand-IsBalanced :
    (r : Router) (conn : Conn) (m : Map RequestId Owed)
    → IsUnique m
    → Within r.awaiting_upstream m
    → IsBalanced (books r)
    → IsBalanced (books (strand r conn m).0)
unfolding strand
strand-IsBalanced r conn [] u h b = b
strand-IsBalanced r conn ((id, owner) ∷ m) u h b = elim (Bool-cases (owner.conn == conn)) [
  | inl same ↦
      rw (same, strand)
        (strand-IsBalanced (remove_locked r id owner) conn m u.1
          (rw awaiting-remove (Within-delete id r.awaiting_upstream m u.0 h.1))
          (remove_locked-IsBalanced r id owner h.0 b))
  | inr other ↦ rw (other, strand) (strand-IsBalanced r conn m u.1 h.1 b)
]

module _ (r : Router) (b : IsBalanced (books r)) where
  pub expire_execution-IsBalanced :
      (id : RequestId) (state : Token) (req : Request)
      → IsBalanced (books (expire_execution r id state req))
  unfolding expire_execution
  expire_execution-IsBalanced id state req =
      same_books (books-expired_claim req id (finish r id none state))
        (finish-IsBalanced r id none state b)

  pub cancel_call-IsBalanced :
      (req : Request) (named : Option RequestId) → IsBalanced (books (cancel_call r req named))
  unfolding cancel_call
  cancel_call-IsBalanced req none = b
  cancel_call-IsBalanced req (some id) =
      same_books (books-cancelled_claim req id (finish r id none none))
        (finish-IsBalanced r id none none b)

  pub fail_delivery-IsBalanced :
      (id : RequestId) (state : Token) (code : Code) (fault : Fault)
      → IsBalanced (books (fail_delivery r id state code fault).0)
  unfolding fail_delivery
  fail_delivery-IsBalanced id state code fault =
      same_books (books-answer_claim id code fault (finish r id none state))
        (finish-IsBalanced r id none state b)

  pub fail_ingress-IsBalanced :
      (call : Delivery) (code : Code) (fault : Fault)
      → IsBalanced (books (fail_ingress r call code fault))
  unfolding fail_ingress
  fail_ingress-IsBalanced call code fault =
      let failed = fail_delivery r call.req.id call.state code fault in
      same_books (books-call_cancel (ingress_failed failed) call.cancel) (
        same_books (books-ingress_failed failed)
          (fail_delivery-IsBalanced call.req.id call.state code fault))

  pub upstream_response-IsBalanced :
      (conn : Conn) (id : RequestId) (payload : String)
      → IsBalanced (books (upstream_response r conn id payload))
  unfolding upstream_response
  upstream_response-IsBalanced conn id payload =
      same_books (books-response_claim _ (finish r id conn none))
        (finish-IsBalanced r id conn none b)

  pub start_execution-IsBalanced :
      (id : RequestId) (state : Token) → IsBalanced (books (start_execution r id state))
  unfolding start_execution
  start_execution-IsBalanced id none = b
  start_execution-IsBalanced id (some t) = ground (arith, b)

books-forward_lost :
    (r : Router) (worktree : String) (ids : List RequestId)
    → books (forward_lost r worktree ids) ≡ books r
unfolding forward_lost
books-forward_lost r worktree [] = refl
books-forward_lost r worktree (id ∷ ids) =
    books-forward_lost (forward r (error_response id internal_error (went_away worktree))) worktree
      ids
    ∙ books-forward r _

clear_owed-IsBalanced :
    (r : Router) (m : Map RequestId Owed)
    → IsUnique m
    → Within r.awaiting_upstream m
    → IsBalanced (books r)
    → IsBalanced (books (clear_owed r m))
unfolding clear_owed
clear_owed-IsBalanced r [] u h b = b
clear_owed-IsBalanced r ((id, owner) ∷ m) u h b =
    let removed = remove_locked r id owner in
    clear_owed-IsBalanced (call_cancel removed owner.cancel) m u.1
      (rw (ap (λ (a : Books). a.awaiting) (books-call_cancel removed owner.cancel), awaiting-remove)
        (Within-delete id r.awaiting_upstream m u.0 h.1))
      (same_books (books-call_cancel removed owner.cancel)
        (remove_locked-IsBalanced r id owner h.0 b))

clear_operations-IsBalanced :
    (r : Router) (m : Map OperationKey Operation)
    → IsBalanced (books r)
    → IsBalanced (books (clear_operations r m))
unfolding clear_operations
clear_operations-IsBalanced r [] b = b
clear_operations-IsBalanced r ((key, op) ∷ m) b =
    clear_operations-IsBalanced (end_operation_locked r key) m
      (end_operation_locked-IsBalanced r key b)

module _ (r : Router) (b : IsBalanced (books r)) where
  pub fail_in_flight-IsBalanced :
      (conn : Conn) (worktree : String) → IsBalanced (books (fail_in_flight r conn worktree))
  unfolding fail_in_flight
  fail_in_flight-IsBalanced conn worktree = same_books (books-forward_lost _ worktree _) (
      strand-IsBalanced r conn r.awaiting_upstream b.unique_awaiting
        (Within-self r.awaiting_upstream b.unique_awaiting) b)

  pub clear_requests-IsBalanced : IsBalanced (books (clear_requests r))
  unfolding clear_requests
  clear_requests-IsBalanced =
      let cleared = clear_owed r r.awaiting_upstream in
      clear_operations-IsBalanced cleared cleared.operations (
        clear_owed-IsBalanced r r.awaiting_upstream b.unique_awaiting
          (Within-self r.awaiting_upstream b.unique_awaiting) b)
