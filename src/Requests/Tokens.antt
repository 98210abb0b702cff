-- ===== src/Requests/Tokens.antt =====
-- The token of an upstream operation through the terminal paths.
pub mod Steps
use gopls_mcp_manager.Prelude.{
  nat_eq, string_eq, option_eq, pair_eq, ◌==◌, ◌≡◌, ◌≢◌, refl, sym, ap, ◌∙◌, subst, inl, inr,
  String, ℕ, ◌+◌, Bool, true, false, Option, some, none, List, [], ◌∷◌, Map, lookup, insert, delete,
  lookup-insert, lookup-delete, Bool-cases, ==-sound, Option-cases, if_cases, arith, is_some,
  length, ltb, ◌++◌,
}
use gopls_mcp_manager.Requests.State.{
  RequestId, Conn, Token, CancelFunc, OperationKey, Owed, Operation, Request, Fault, Message, Code,
  Delivery, Router, server_error, routing_queue_full, response,
}
use gopls_mcp_manager.Requests.Credits.{
  abandon_operation_locked, end_operation_locked, begin_owned, begin_operation, owner_locked,
  rejected_locked,
}
use gopls_mcp_manager.Requests.Output.{offer, forward, queue_cancellation, lane_queue, refuse}
use gopls_mcp_manager.Requests.Terminal.{
  call_cancel, cancel_queued, stop_timer, drop_record, remove_locked, same_conn, claim,
  end_delivered, finish, retry_owned, retry, start_execution, expired_claim, expire_execution,
  cancelled_claim, cancel_call, answer_claim, fail_delivery, ingress_failed, fail_ingress,
  response_claim, upstream_response, strand, forward_lost, fail_in_flight, clear_owed,
  clear_operations, clear_requests,
}
use gopls_mcp_manager.Requests.Books.{Books, books}
use gopls_mcp_manager.Requests.Books.Terminal.{
  books-offer, books-forward, books-queue_cancellation, books-call_cancel, books-write_to_client,
}

inserted :
    (held op : Operation)
    → some (record held { abandoned = true }) ≡ some op
    → record held { abandoned = true } ≡ op
inserted held op h = cc

module _ (key : OperationKey) (token : Token) where
  -- An operation of this key has this token.
  abbrev pub Fits : Router → Type 0
  Fits r = (op : Operation) → lookup key r.operations ≡ some op → op.state ≡ token

  pub same_operations : (r s : Router) → books s ≡ books r → Fits r → Fits s
  same_operations r s e f op h = f op (ap (λ b. lookup key b.operations) (sym e) ∙ h)

  pub end_operation_locked-Fits :
      (r : Router) (other : OperationKey) → Fits r → Fits (end_operation_locked r other)
  unfolding end_operation_locked
  end_operation_locked-Fits r other f op h =
      ground (arith, f op, lookup-delete other key r.operations, h)

  marked :
      (r : Router) (other : OperationKey) (held : Operation)
      → lookup other r.operations ≡ some held
      → Fits r
      → Fits
          (record r { operations = insert other (record held { abandoned = true }) r.operations })
  marked r other held e f op h = elim (Bool-cases (other == key)) [
    | inl same ↦
        ap (λ (x : Operation). x.state) (sym (inserted held op (rw (lookup-insert, same) at h)))
        ∙ f held (rw (==-sound other key same) at e)
    | inr different ↦ f op (rw (lookup-insert, different) at h)
  ]

  abandon_operation_locked-Fits :
      (r : Router) (other : OperationKey) → Fits r → Fits (abandon_operation_locked r other)
  unfolding abandon_operation_locked
  abandon_operation_locked-Fits r other f = elim (Option-cases (lookup other r.operations)) [
    | inl e ↦ rw (e, abandon_operation_locked) f
    | inr (held, e) ↦ rw (e, abandon_operation_locked) (marked r other held e f)
  ]

  operations-stop :
      (r : Router) (owner : Owed)
      → (stop_timer (cancel_queued r owner) owner.state).operations ≡ r.operations
  unfolding stop_timer cancel_queued
  operations-stop r owner = ground arith

  remove_locked-Fits :
      (r : Router) (id : RequestId) (owner : Owed) → Fits r → Fits (remove_locked r id owner)
  unfolding remove_locked drop_record
  remove_locked-Fits r id owner f =
      let abandoned = abandon_operation_locked r (owner.conn, id) in
      subst (λ m. (op : Operation) → lookup key m ≡ some op → op.state ≡ token)
        (sym (operations-stop abandoned owner)) (abandon_operation_locked-Fits r (owner.conn, id) f)

  claim-Fits :
      (r : Router) (id : RequestId) (conn : Conn) (o : Option Owed)
      → Fits r
      → Fits (claim r id conn o).0
  unfolding claim
  claim-Fits r id conn none f = f
  claim-Fits r id conn (some owner) f =
      if_cases (λ (p : Router × Option Owed). Fits p.0) (same_conn conn owner) _ _
        (λ same. remove_locked-Fits r id owner f) (λ other. f)

  end_delivered-Fits :
      (r : Router) (id : RequestId) (conn : Conn) → Fits r → Fits (end_delivered r id conn)
  unfolding end_delivered
  end_delivered-Fits r id none f = f
  end_delivered-Fits r id (some c) f = end_operation_locked-Fits r (some c, id) f

  finish-Fits :
      (r : Router) (id : RequestId) (conn : Conn) (state : Token)
      → Fits r
      → Fits (finish r id conn state).0
  unfolding finish
  finish-Fits r id conn state f =
      claim-Fits (end_delivered r id conn) id conn _ (end_delivered-Fits r id conn f)

  retry_owned-Fits :
      (r : Router) (id : RequestId) (conn : Conn) (o : Option Owed)
      → Fits r
      → Fits (retry_owned r id conn o).0
  unfolding retry_owned
  retry_owned-Fits r id conn none f = f
  retry_owned-Fits r id conn (some owner) f =
      if_cases (λ (p : Router × Bool). Fits p.0) (owner.conn == conn) _ _
        (λ same. abandon_operation_locked-Fits r (conn, id) f) (λ other. f)

  pub retry-Fits :
      (r : Router) (id : RequestId) (conn : Conn) (state : Token)
      → Fits r
      → Fits (retry r id conn state).0
  unfolding retry
  retry-Fits r none conn state f = f
  retry-Fits r (some i) conn state f = retry_owned-Fits r (some i) conn _ f

  offer-Fits : (r : Router) (msg : Message) (fault : Fault) → Fits r → Fits (offer r msg fault)
  offer-Fits r msg fault f = same_operations r (offer r msg fault) (books-offer r msg fault) f

  pub forward-Fits : (r : Router) (msg : Message) → Fits r → Fits (forward r msg)
  forward-Fits r msg f = same_operations r (forward r msg) (books-forward r msg) f

  queue_cancellation-Fits :
      (r : Router) (owner : Owed) (req : Request) → Fits r → Fits (queue_cancellation r owner req)
  queue_cancellation-Fits r owner req f =
      same_operations r (queue_cancellation r owner req) (books-queue_cancellation r owner req) f

  pub call_cancel-Fits : (r : Router) (c : CancelFunc) → Fits r → Fits (call_cancel r c)
  call_cancel-Fits r c f = same_operations r (call_cancel r c) (books-call_cancel r c) f

  expired_claim-Fits :
      (req : Request) (id : RequestId) (p : Router × Option Owed)
      → Fits p.0
      → Fits (expired_claim req id p)
  unfolding expired_claim
  expired_claim-Fits req id (r, none) f = f
  expired_claim-Fits req id (r, some owner) f =
      let queued = queue_cancellation r owner req in
      offer-Fits
        (record queued {
          usage = record queued.usage { execution_expired = queued.usage.execution_expired + 1 };
        })
        _ _ (queue_cancellation-Fits r owner req f)

  pub expire_execution-Fits :
      (r : Router) (id : RequestId) (state : Token) (req : Request)
      → Fits r
      → Fits (expire_execution r id state req)
  unfolding expire_execution
  expire_execution-Fits r id state req f =
      expired_claim-Fits req id _ (finish-Fits r id none state f)

  cancelled_claim-Fits :
      (req : Request) (id : RequestId) (p : Router × Option Owed)
      → Fits p.0
      → Fits (cancelled_claim req id p)
  unfolding cancelled_claim
  cancelled_claim-Fits req id (r, none) f = f
  cancelled_claim-Fits req id (r, some owner) f =
      queue_cancellation-Fits _ owner req (
        forward-Fits (record r { usage = record r.usage { cancelled = r.usage.cancelled + 1 } }) _
          f)

  pub cancel_call-Fits :
      (r : Router) (req : Request) (named : Option RequestId)
      → Fits r
      → Fits (cancel_call r req named)
  unfolding cancel_call
  cancel_call-Fits r req none f = f
  cancel_call-Fits r req (some id) f = cancelled_claim-Fits req id _ (finish-Fits r id none none f)

  answer_claim-Fits :
      (id : RequestId) (code : Code) (fault : Fault) (p : Router × Option Owed)
      → Fits p.0
      → Fits (answer_claim id code fault p).0
  unfolding answer_claim
  answer_claim-Fits id code fault (r, none) f = f
  answer_claim-Fits id code fault (r, some owner) f = forward-Fits r _ f

  pub fail_delivery-Fits :
      (r : Router) (id : RequestId) (state : Token) (code : Code) (fault : Fault)
      → Fits r
      → Fits (fail_delivery r id state code fault).0
  unfolding fail_delivery
  fail_delivery-Fits r id state code fault f =
      answer_claim-Fits id code fault _ (finish-Fits r id none state f)

  ingress_failed-Fits : (p : Router × Bool) → Fits p.0 → Fits (ingress_failed p)
  unfolding ingress_failed
  ingress_failed-Fits (r, false) f = f
  ingress_failed-Fits (r, true) f = f

  pub fail_ingress-Fits :
      (r : Router) (call : Delivery) (code : Code) (fault : Fault)
      → Fits r
      → Fits (fail_ingress r call code fault)
  unfolding fail_ingress
  fail_ingress-Fits r call code fault f =
      call_cancel-Fits _ call.cancel
        (ingress_failed-Fits _ (fail_delivery-Fits r call.req.id call.state code fault f))

  response_claim-Fits :
      (msg : Message) (p : Router × Option Owed) → Fits p.0 → Fits (response_claim msg p)
  unfolding response_claim
  response_claim-Fits msg (r, none) f = f
  response_claim-Fits msg (r, some owner) f = forward-Fits r msg f

  pub upstream_response-Fits :
      (r : Router) (conn : Conn) (id : RequestId) (payload : String)
      → Fits r
      → Fits (upstream_response r conn id payload)
  unfolding upstream_response
  upstream_response-Fits r conn id payload f =
      response_claim-Fits (response id payload) _ (finish-Fits r id conn none f)

  strand-Fits :
      (m : Map RequestId Owed) (r : Router) (conn : Conn) → Fits r → Fits (strand r conn m).0
  unfolding strand
  strand-Fits [] r conn f = f
  strand-Fits ((id, owner) ∷ m) r conn f = elim (Bool-cases (owner.conn == conn)) [
    | inl met ↦
        rw (met, strand)
          (strand-Fits m (remove_locked r id owner) conn (remove_locked-Fits r id owner f))
    | inr other ↦ rw (other, strand) (strand-Fits m r conn f)
  ]

  forward_lost-Fits :
      (ids : List RequestId) (r : Router) (worktree : String)
      → Fits r
      → Fits (forward_lost r worktree ids)
  unfolding forward_lost
  forward_lost-Fits [] r worktree f = f
  forward_lost-Fits (id ∷ ids) r worktree f = forward_lost-Fits ids _ worktree (forward-Fits r _ f)

  pub fail_in_flight-Fits :
      (r : Router) (conn : Conn) (worktree : String)
      → Fits r
      → Fits (fail_in_flight r conn worktree)
  unfolding fail_in_flight
  fail_in_flight-Fits r conn worktree f =
      forward_lost-Fits _ _ worktree (strand-Fits r.awaiting_upstream r conn f)

  clear_owed-Fits : (m : Map RequestId Owed) (r : Router) → Fits r → Fits (clear_owed r m)
  unfolding clear_owed
  clear_owed-Fits [] r f = f
  clear_owed-Fits ((id, owner) ∷ m) r f =
      clear_owed-Fits m _ (call_cancel-Fits _ owner.cancel (remove_locked-Fits r id owner f))

  clear_operations-Fits :
      (m : Map OperationKey Operation) (r : Router) → Fits r → Fits (clear_operations r m)
  unfolding clear_operations
  clear_operations-Fits [] r f = f
  clear_operations-Fits ((other, op) ∷ m) r f =
      clear_operations-Fits m _ (end_operation_locked-Fits r other f)

  pub clear_requests-Fits : (r : Router) → Fits r → Fits (clear_requests r)
  unfolding clear_requests
  clear_requests-Fits r f =
      let cleared = clear_owed r r.awaiting_upstream in
      clear_operations-Fits cleared.operations cleared (clear_owed-Fits r.awaiting_upstream r f)
