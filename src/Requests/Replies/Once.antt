-- ===== src/Requests/Replies/Once.antt =====
-- A session answers each request once.
use gopls_mcp_manager.Prelude.{
  nat_eq, string_eq, option_eq, ℕ, ◌+◌, String, Bool, false, not, ◌&&◌, ◌≡◌, inl, inr, Option, some,
  List, [], ◌∷◌, lookup, IsUnique, ◌==◌, Bool-cases, arith, is_some, if◌then◌else◌,
}
use gopls_mcp_manager.Config.{Limits}
use gopls_mcp_manager.Requests.State.{
  RequestId, Request, invalid_request, before_initialize, volunteered, PendingCalls, Router,
}
use gopls_mcp_manager.Requests.Credits.{rejected_locked}
use gopls_mcp_manager.Requests.Ingress.{new_router, admitted, read_ingress}
use gopls_mcp_manager.Requests.Session.{
  Event, reads, fails, binds, rejects, places, begins, starts, retries, abandons, rejects_size,
  responds, volunteers, loses, expires, writes, ticks, lanes_become, ends, clears, step, IsProper,
  Run, start, next,
}
use gopls_mcp_manager.Requests.Books.{books, IsBalanced}
use gopls_mcp_manager.Requests.Books.Reachable.{new_router-IsBalanced, Run-IsBalanced}
use gopls_mcp_manager.Requests.Replies.{voice, named, replies, requests, Settles}
use gopls_mcp_manager.Requests.Replies.Claims.{voice-end}
use gopls_mcp_manager.Requests.Replies.Kept.{
  same_voice, Kept-Settles, retry-Kept, begin_operation-Kept, place_delivery-Kept,
  bind_worktree-Kept, start_execution-Kept,
}
use gopls_mcp_manager.Requests.Replies.Answers.{
  forward-Settles, fail_delivery-Settles, upstream_response-Settles, cancel_call-Settles,
  expire_execution-Settles, fail_ingress-Settles, fail_in_flight-Settles,
}
use gopls_mcp_manager.Requests.Replies.Admitted.{
  done-clear_requests, Settles-request, refuse-Settles, enqueue_incoming-Settles, prepare-Settles,
  notice_unnamed, write_to_client-Settles, requests-cons, new_router-Settles,
}

module _ (with_roots_capability : String → String) (cancelled_id : String → Option RequestId) where
  admitted-Settles :
      (n i : ℕ) (r : Router) (req : Request) (cancel : ℕ)
      → Settles 0 n i (voice r)
      → Settles 0
          (named i req.id + n)
          i
          (voice (admitted with_roots_capability cancelled_id r req cancel).0)
  unfolding admitted
  admitted-Settles n i r req cancel s = elim (Bool-cases is_cancellation) [
    | inr other ↦ rw other (prepare-Settles n i r req cancel s)
    | inl e ↦ rw e (
        notice_unnamed n i _ req.id (ground arith)
          (cancel_call-Settles r n i s req (cancelled_id req.params)))
  ]
    where
      is_cancellation : Bool
      is_cancellation = req.method == "notifications/cancelled" && not (is_some req.id)

  read_ingress-Settles :
      (n i : ℕ) (r : Router) (req : Request) (cancel : ℕ)
      → Settles 0 n i (voice r)
      → Settles 0
          (named i req.id + n)
          i
          (voice (read_ingress with_roots_capability cancelled_id r req cancel))
  unfolding read_ingress
  read_ingress-Settles n i r req cancel s =
      let rewritten = record req { params = with_roots_capability req.params } in
      let first = record r { initialize = some rewritten } in
      elim (Bool-cases (req.method == "initialize")) [
        | inl e ↦ rw e (
            enqueue_incoming-Settles _ i
              (admitted with_roots_capability cancelled_id first rewritten cancel)
              (admitted-Settles n i first rewritten cancel s))
        | inr other ↦ rw other (elim (Bool-cases (is_some r.initialize)) [
          | inl ready ↦ rw ready (
              enqueue_incoming-Settles _ i
                (admitted with_roots_capability cancelled_id r req cancel)
                (admitted-Settles n i r req cancel s))
          | inr early ↦ rw early (
              refuse-Settles _ i r req invalid_request before_initialize
                (Settles-request n i r req.id s))
        ])
      ]

  -- One step keeps the account of the answers; a step of the reader adds its request.
  step-Settles :
      (n i : ℕ) (r : Router) (e : Event)
      → IsProper r e
      → IsUnique r.awaiting_upstream
      → Settles 0 n i (voice r)
      → Settles 0 (requests i (e ∷ []) + n) i (voice (step with_roots_capability cancelled_id r e))
  unfolding step rejected_locked
  step-Settles n i r (reads req cancel) p u s live clean =
      omega (arith, read_ingress-Settles n i r req cancel s live clean)
  step-Settles n i r (fails call code fault) p u s live clean =
      omega (arith, fail_ingress-Settles r n i s call code fault live clean)
  step-Settles n i r (binds call worktree cancel late) p u s live clean =
      omega (
        arith,
        Kept-Settles r _ 0 n i (bind_worktree-Kept r call worktree cancel late) s live clean,
      )
  step-Settles n i r (rejects reason) p u s live clean = omega (arith, s live clean)
  step-Settles n i r (places id expected cancel) p u s live clean =
      omega (arith, Kept-Settles r _ 0 n i (place_delivery-Kept r id expected cancel) s live clean)
  step-Settles n i r (begins id state conn worktree cancel placed) p u s live clean = omega (
    arith,
    Kept-Settles r _ 0 n i (begin_operation-Kept r id state (some conn) worktree cancel placed) s
        live clean,
  )
  step-Settles n i r (starts id state) p u s live clean =
      omega (arith, Kept-Settles r _ 0 n i (start_execution-Kept r id state) s live clean)
  step-Settles n i r (retries id conn state) p u s live clean =
      omega (arith, Kept-Settles r _ 0 n i (retry-Kept r id (some conn) state) s live clean)
  step-Settles n i r (abandons id state code fault) p u s live clean =
      omega (arith, fail_delivery-Settles r n i s id state code fault live clean)
  step-Settles n i r (rejects_size conn id) p u s live clean =
      omega (arith, same_voice 0 n i (voice-end r (some conn, id)) s live clean)
  step-Settles n i r (responds conn id payload) p u s live clean =
      omega (arith, upstream_response-Settles r n i s (some conn) id payload live clean)
  step-Settles n i r (volunteers payload) p u s live clean = omega (
    arith,
    forward-Settles r 0 n i (volunteered payload) (λ l c. omega (arith, s l c)) live clean,
  )
  step-Settles n i r (loses conn worktree) p u s live clean =
      omega (arith, fail_in_flight-Settles r n i (some conn) worktree u s live clean)
  step-Settles n i r (expires id state req) p u s live clean =
      omega (arith, expire_execution-Settles r n i s id state req live clean)
  step-Settles n i r writes p u s live clean =
      omega (arith, write_to_client-Settles n i r s live clean)
  step-Settles n i r (ticks now) p u s live clean = omega (arith, s live clean)
  step-Settles n i r (lanes_become lanes) p u s live clean = omega (arith, s live clean)
  step-Settles n i r ends p u s live clean = cc
  step-Settles n i r clears p u s live clean = cc (done-clear_requests r, p, live)

  Run-Settles :
      (i : ℕ) {r s : Router} {es : List Event}
      → Run with_roots_capability cancelled_id r es s
      → IsBalanced (books r)
      → Settles 0 0 i (voice r)
      → Settles 0 (requests i es) i (voice s)
  Run-Settles i start b h = h
  Run-Settles i (next {es = es} {s = q} e run p) b h = rw (requests-cons i e es) (
      step-Settles (requests i es) i q e p
        (Run-IsBalanced with_roots_capability cancelled_id run b).unique_awaiting
        (Run-Settles i run b h))

module _ (with_roots_capability : String → String) (cancelled_id : String → Option RequestId)
    (limits : Limits) (pending : Option PendingCalls) where
  -- As long as the session's context is not done and no error was reported (a client that stops
  -- reading is one), the requests with id `i` that the reader got, duplicates and those before the
  -- initialize included, are as many as the answers to `i`, and one more where a call with that id
  -- is outstanding: no request is lost, and none is answered twice. Answers are those in the output
  -- channel and those that the writer took from it. The goroutines take their steps in any order;
  -- a call is bound at most once.
  pub answered_once :
      (i : ℕ) (es : List Event) (r : Router)
      → Run with_roots_capability cancelled_id (new_router limits pending) es r
      → r.done ≡ false
      → r.errs ≡ []
      → requests i es
        ≡ replies i r.sent
          + replies i r.out
          + (if is_some (lookup (some i) r.awaiting_upstream) then 1 else 0)
  answered_once i es r run live clean = omega (
    arith,
    Run-Settles with_roots_capability cancelled_id i run (new_router-IsBalanced limits pending)
        (new_router-Settles limits pending i) live clean,
  )
