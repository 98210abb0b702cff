-- ===== src/Requests/Session.antt =====
-- The steps that the goroutines of a session make on the tracker, in any order. A step is a call of
-- one operation, which the source runs under the router's lock.
use gopls_mcp_manager.Prelude.{
  ℕ, String, Bool, true, ◌≡◌, Option, some, List, [], ◌∷◌, Map, option_eq, nat_eq, lookup,
}
use gopls_mcp_manager.Requests.State.{
  RequestId, Token, CancelFunc, Request, Code, Fault, volunteered, Delivery, Lane, Owed, Router,
}
use gopls_mcp_manager.Requests.Credits.{begin_operation, end_operation_locked, rejected_locked}
use gopls_mcp_manager.Requests.Output.{forward, write_to_client}
use gopls_mcp_manager.Requests.Terminal.{
  retry, start_execution, expire_execution, fail_delivery, fail_ingress, upstream_response,
  fail_in_flight, clear_requests,
}
use gopls_mcp_manager.Requests.Admission.{bind_worktree, place_delivery}
use gopls_mcp_manager.Requests.Ingress.{read_ingress}

pub data Event : Type 0 where
  -- the ingress reader reads a request
  reads : Request → ℕ → Event
  -- the router fails or binds a call, or counts a rejection
  fails : Delivery → Code → Fault → Event
  binds : Delivery → String → CancelFunc → Bool → Event
  rejects : String → Event
  -- a lane places a delivery, starts its operation, and ends it by one of four ways
  places : RequestId → Token → CancelFunc → Event
  begins : RequestId → Token → ℕ → String → CancelFunc → Option ℕ → Event
  starts : RequestId → Token → Event
  retries : RequestId → ℕ → Token → Event
  abandons : RequestId → Token → Code → Fault → Event
  rejects_size : ℕ → RequestId → Event
  -- a connection's reader gets a response or another message, or loses the connection
  responds : ℕ → RequestId → String → Event
  volunteers : String → Event
  loses : ℕ → String → Event
  -- a timer fires, the writer writes, time passes, lanes change, the session ends
  expires : RequestId → Token → Request → Event
  writes : Event
  ticks : ℕ → Event
  lanes_become : Map String Lane → Event
  ends : Event
  clears : Event

-- What the callers see to: a call is bound once, and the tracker is cleared when the session's
-- context is done.
abbrev pub IsProper : Router → Event → Type 0
IsProper r (binds call worktree cancel late) =
    (owner : Owed) → lookup call.req.id r.awaiting_upstream ≡ some owner → owner.worktree ≡ ""
IsProper r clears = r.done ≡ true
IsProper r _ = Unit

module _ (with_roots_capability : String → String) (cancelled_id : String → Option RequestId) where
  unfoldable pub step : Router → Event → Router
  step r (reads req cancel) = read_ingress with_roots_capability cancelled_id r req cancel
  step r (fails call code fault) = fail_ingress r call code fault
  step r (binds call worktree cancel late) = (bind_worktree r call worktree cancel late).0
  step r (rejects reason) = rejected_locked r reason
  step r (places id expected cancel) = (place_delivery r id expected cancel).0
  step r (begins id state conn worktree cancel placed) =
      (begin_operation r id state (some conn) worktree cancel placed).0
  step r (starts id state) = start_execution r id state
  step r (retries id conn state) = (retry r id (some conn) state).0
  step r (abandons id state code fault) = (fail_delivery r id state code fault).0
  step r (rejects_size conn id) = end_operation_locked r (some conn, id)
  step r (responds conn id payload) = upstream_response r (some conn) id payload
  step r (volunteers payload) = forward r (volunteered payload)
  step r (loses conn worktree) = fail_in_flight r (some conn) worktree
  step r (expires id state req) = expire_execution r id state req
  step r writes = write_to_client r
  step r (ticks now) = record r { clock = now }
  step r (lanes_become lanes) = record r { lanes = lanes }
  step r ends = record r { done = true }
  step r clears = clear_requests r

  -- The events, latest first, that lead from `r` to a router.
  pub data Run (r : Router) : List Event → Router → Type 0 where
    start : Run r [] r
    next :
        {es : List Event} {s : Router} (e : Event)
        → Run r es s
        → IsProper s e
        → Run r (e ∷ es) (step s e)
