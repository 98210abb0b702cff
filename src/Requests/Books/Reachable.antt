-- ===== src/Requests/Books/Reachable.antt =====
-- The accounts of a session are balanced in every state that it reaches.
use gopls_mcp_manager.Prelude.{
  nat_eq, string_eq, option_eq, ℕ, String, ◌≡◌, refl, Option, some, none, List, [], ◌∷◌, lookup,
  arith, ◌==◌, Bool-cases, Option-cases, inl, inr, is_some, ltb, if_cases, length, ◌++◌,
}
use gopls_mcp_manager.Config.{Limits}
use gopls_mcp_manager.Requests.State.{
  server_error, routing_queue_full, RequestId, Token, CancelFunc, Request, Code, Fault, Delivery,
  Router, PendingCalls,
}
use gopls_mcp_manager.Requests.Credits.{begin_operation, rejected_locked}
use gopls_mcp_manager.Requests.Output.{lane_queue, refuse}
use gopls_mcp_manager.Requests.Terminal.{fail_ingress, call_cancel}
use gopls_mcp_manager.Requests.Admission.{admit}
use gopls_mcp_manager.Requests.Ingress.{
  new_router, prepared, prepare, enqueue_incoming, admitted, read_ingress,
}
use gopls_mcp_manager.Requests.Session.{
  Event, reads, fails, binds, rejects, places, begins, starts, retries, abandons, rejects_size,
  responds, volunteers, loses, expires, writes, ticks, lanes_become, ends, clears, step, IsProper,
  Run, start, next,
}
use gopls_mcp_manager.Requests.Books.{books, IsBalanced}
use gopls_mcp_manager.Requests.Books.Credits.{
  rejected_locked-IsBalanced, end_operation_locked-IsBalanced,
}
use gopls_mcp_manager.Requests.Books.Terminal.{
  same_books, books-forward, books-write_to_client, books-call_cancel,
}
use gopls_mcp_manager.Requests.Books.Steps.{
  retry-IsBalanced, begin_operation-IsBalanced, place_delivery-IsBalanced, admit-IsBalanced,
  bind_worktree-IsBalanced,
}
use gopls_mcp_manager.Requests.Books.Answers.{
  expire_execution-IsBalanced, cancel_call-IsBalanced, fail_delivery-IsBalanced,
  fail_ingress-IsBalanced, upstream_response-IsBalanced, start_execution-IsBalanced,
  fail_in_flight-IsBalanced, clear_requests-IsBalanced,
}

books-refuse :
    (r : Router) (req : Request) (code : Code) (fault : Fault)
    → books (refuse r req code fault) ≡ books r
unfolding refuse
books-refuse r req code fault = elim (Option-cases req.id) [
  | inl e ↦ rw (e, refuse)
  | inr (i, e) ↦ rw (e, refuse) (books-forward r _)
]

admit_any-IsBalanced :
    (r : Router) (id : RequestId) (cancel : CancelFunc)
    → IsBalanced (books r)
    → IsBalanced (books (admit r id cancel).0)
unfolding admit
admit_any-IsBalanced r none cancel b = b
admit_any-IsBalanced r (some i) cancel b = admit-IsBalanced r i cancel b

begin_any-IsBalanced :
    (r : Router) (id : RequestId) (state : Token) (conn : ℕ) (worktree : String)
    (cancel : CancelFunc) (placed : Option ℕ)
    → IsBalanced (books r)
    → IsBalanced (books (begin_operation r id state (some conn) worktree cancel placed).0)
unfolding begin_operation
begin_any-IsBalanced r none state conn worktree cancel placed b = b
begin_any-IsBalanced r (some i) state conn worktree cancel placed b =
    begin_operation-IsBalanced r i state (some conn) worktree cancel placed b

prepared-IsBalanced :
    (req : Request) (cancel : ℕ) (p : Router × Token × Option Fault)
    → IsBalanced (books p.0)
    → IsBalanced (books (prepared req cancel p).0)
unfolding prepared
prepared-IsBalanced req cancel (r, state, none) b = b
prepared-IsBalanced req cancel (r, state, some fault) b =
    same_books (books-refuse (call_cancel r (some cancel)) req _ fault) b

enqueue_incoming-IsBalanced :
    (p : Router × Option Delivery)
    → IsBalanced (books p.0)
    → IsBalanced (books (enqueue_incoming p))
unfolding enqueue_incoming
enqueue_incoming-IsBalanced (r, none) b = b
enqueue_incoming-IsBalanced (r, some call) b =
    let refused = rejected_locked r "routing_queue" in
    let failed = fail_ingress refused call server_error routing_queue_full in
    let queued = record r { incoming = r.incoming ++ call ∷ [] } in
    if_cases balanced r.done (call_cancel r call.cancel) _
      (λ _. same_books (books-call_cancel r call.cancel) b)
      λ _.
        if_cases balanced (ltb (length r.incoming) lane_queue) queued failed (λ _. b)
          λ _.
            fail_ingress-IsBalanced refused (rejected_locked-IsBalanced r "routing_queue" b) call
              server_error routing_queue_full
  where
    balanced : Router → Type 0
    balanced s = IsBalanced (books s)

module _ (with_roots_capability : String → String) (cancelled_id : String → Option RequestId) where
  admitted-IsBalanced :
      (r : Router) (req : Request) (cancel : ℕ)
      → IsBalanced (books r)
      → IsBalanced (books (admitted with_roots_capability cancelled_id r req cancel).0)
  unfolding admitted prepare
  admitted-IsBalanced r req cancel b = ground (
    arith,
    cancel_call-IsBalanced r b req (cancelled_id req.params),
    prepared-IsBalanced req cancel (admit r req.id (some cancel))
        (admit_any-IsBalanced r req.id (some cancel) b),
  )

  read_ingress-IsBalanced :
      (r : Router) (req : Request) (cancel : ℕ)
      → IsBalanced (books r)
      → IsBalanced (books (read_ingress with_roots_capability cancelled_id r req cancel))
  unfolding read_ingress
  read_ingress-IsBalanced r req cancel b =
      let rewritten = record req { params = with_roots_capability req.params } in
      elim (Bool-cases (req.method == "initialize")) [
        | inl first ↦ rw first (
            enqueue_incoming-IsBalanced
              (admitted with_roots_capability cancelled_id
                (record r { initialize = some rewritten }) rewritten cancel)
              (admitted-IsBalanced (record r { initialize = some rewritten }) rewritten cancel b))
        | inr other ↦ rw other (elim (Bool-cases (is_some r.initialize)) [
          | inl ready ↦ rw ready (
              enqueue_incoming-IsBalanced (admitted with_roots_capability cancelled_id r req cancel)
                (admitted-IsBalanced r req cancel b))
          | inr early ↦ rw early (same_books (books-refuse r req _ _) b)
        ])
      ]

  step-IsBalanced :
      (r : Router) (e : Event)
      → IsProper r e
      → IsBalanced (books r)
      → IsBalanced (books (step with_roots_capability cancelled_id r e))
  unfolding step
  step-IsBalanced r (reads req cancel) p b = read_ingress-IsBalanced r req cancel b
  step-IsBalanced r (fails call code fault) p b = fail_ingress-IsBalanced r b call code fault
  step-IsBalanced r (binds call worktree cancel late) p b =
      bind_worktree-IsBalanced r call worktree cancel late b p
  step-IsBalanced r (rejects reason) p b = rejected_locked-IsBalanced r reason b
  step-IsBalanced r (places id expected cancel) p b =
      place_delivery-IsBalanced r id expected cancel b
  step-IsBalanced r (begins id state conn worktree cancel placed) p b =
      begin_any-IsBalanced r id state conn worktree cancel placed b
  step-IsBalanced r (starts id state) p b = start_execution-IsBalanced r b id state
  step-IsBalanced r (retries id conn state) p b = retry-IsBalanced r id (some conn) state b
  step-IsBalanced r (abandons id state code fault) p b =
      fail_delivery-IsBalanced r b id state code fault
  step-IsBalanced r (rejects_size conn id) p b = end_operation_locked-IsBalanced r (some conn, id) b
  step-IsBalanced r (responds conn id payload) p b =
      upstream_response-IsBalanced r b (some conn) id payload
  step-IsBalanced r (volunteers payload) p b = same_books (books-forward r _) b
  step-IsBalanced r (loses conn worktree) p b = fail_in_flight-IsBalanced r b (some conn) worktree
  step-IsBalanced r (expires id state req) p b = expire_execution-IsBalanced r b id state req
  step-IsBalanced r writes p b = same_books (books-write_to_client r) b
  step-IsBalanced r (ticks now) p b = b
  step-IsBalanced r (lanes_become lanes) p b = b
  step-IsBalanced r ends p b = b
  step-IsBalanced r clears p b = clear_requests-IsBalanced r b

  pub Run-IsBalanced :
      {r s : Router} {es : List Event}
      → Run with_roots_capability cancelled_id r es s
      → IsBalanced (books r)
      → IsBalanced (books s)
  Run-IsBalanced start b = b
  Run-IsBalanced (next e run p) b = step-IsBalanced _ e p (Run-IsBalanced run b)

pub new_router-IsBalanced :
    (limits : Limits) (pending : Option PendingCalls)
    → IsBalanced (books (new_router limits pending))
unfolding new_router lookup
new_router-IsBalanced limits pending = record {
  unique_awaiting = tt;
  unique_operations = tt;
  tracked = refl;
  tally = λ w named. refl;
  taken = λ w. refl;
  ledger = omega arith;
  breakdown = refl;
  within_session = omega arith;
  within_lane = λ w. omega arith;
  within_operations = omega arith;
  within_taken = λ w. omega arith;
  peaked = omega arith;
}

module _ (with_roots_capability : String → String) (cancelled_id : String → Option RequestId)
    (limits : Limits) (pending : Option PendingCalls) where
  -- Whatever the goroutines of a session do, from a new router on, the accounts of the tracker are
  -- balanced: each tally of a worktree is the number of its records, so is each tally of upstream
  -- operations, the calls admitted are those completed and those outstanding, the breakdown of the
  -- rejections sums up to their total, and no limit on outstanding calls or operations, of the
  -- session or of a worktree, is passed. A call is bound at most once.
  pub reachable-IsBalanced :
      (es : List Event) (r : Router)
      → Run with_roots_capability cancelled_id (new_router limits pending) es r
      → IsBalanced (books r)
  reachable-IsBalanced es r run =
      Run-IsBalanced with_roots_capability cancelled_id run (new_router-IsBalanced limits pending)
