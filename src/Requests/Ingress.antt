-- ===== src/Requests/Ingress.antt =====
-- routing.go and bridge.go: what happens to a message that the client sent, up to the queue of the
-- router. The JSON of parameters is not modelled: `with_roots_capability` rewrites those of an
-- initialize, and `cancelled_id` reads the id that a cancellation names.
use gopls_mcp_manager.Prelude.{
  nat_eq, string_eq, option_eq, ℕ, String, false, not, ◌&&◌, Option, none, some, [], ◌∷◌, ◌++◌,
  length, ◌==◌, is_some, ltb, if◌then◌else◌,
}
use gopls_mcp_manager.Config.{Limits, with_defaults}
use gopls_mcp_manager.Requests.State.{
  RequestId, Token, Request, server_error, invalid_request, Fault, before_initialize,
  routing_queue_full, Delivery, PendingCalls, Router,
}
use gopls_mcp_manager.Requests.Credits.{rejected_locked}
use gopls_mcp_manager.Requests.Output.{lane_queue, refuse}
use gopls_mcp_manager.Requests.Terminal.{call_cancel, cancel_call, fail_ingress}
use gopls_mcp_manager.Requests.Admission.{admit}

-- `newRouter`, with the limits of its manager and what that tracks.
unfoldable pub new_router : Limits → Option PendingCalls → Router
new_router limits pending = record {
  limits = with_defaults limits;
  clock = 0;
  done = false;
  initialize = none;
  incoming = [];
  lanes = [];
  awaiting_upstream = [];
  per_worktree = [];
  operations = [];
  operations_per_worktree = [];
  next_token = 0;
  usage = record {
    admitted = 0;
    completed = 0;
    rejected = 0;
    peak = 0;
    cancelled = 0;
    execution_expired = 0;
    routing_failed = 0;
    rejections = [];
  };
  pending = pending;
  cancelled = [];
  armed = [];
  out = [];
  errs = [];
  sent = [];
}

unfoldable pub prepared : Request → ℕ → Router × Token × Option Fault → Router × Option Delivery
prepared req cancel (r, state, some fault) =
    (refuse (call_cancel r (some cancel)) req server_error fault, none)
prepared req cancel (r, state, none) =
    (r, some (record { req = req; state = state; cancel = some cancel }))

-- `prepare`; `cancel` is the context that it makes for the call.
unfoldable pub prepare : Router → Request → ℕ → Router × Option Delivery
unfolding prepared
prepare r req cancel = prepared req cancel (admit r req.id (some cancel))

-- The `select` at the end of `readIngress`.
unfoldable pub enqueue_incoming : Router × Option Delivery → Router
enqueue_incoming (r, none) = r
enqueue_incoming (r, some call) =
    if r.done
    then call_cancel r call.cancel
    else if ltb (length r.incoming) lane_queue
    then record r { incoming = r.incoming ++ call ∷ [] }
    else fail_ingress (rejected_locked r "routing_queue") call server_error routing_queue_full

module _ (with_roots_capability : String → String) (cancelled_id : String → Option RequestId) where
  -- `admitted`
  unfoldable pub admitted : Router → Request → ℕ → Router × Option Delivery
  admitted r req cancel =
      if req.method == "notifications/cancelled" && not (is_some req.id)
      then (cancel_call r req (cancelled_id req.params), none)
      else prepare r req cancel

  -- One round of `readIngress`, for a request that was read.
  unfoldable pub read_ingress : Router → Request → ℕ → Router
  unfolding enqueue_incoming
  read_ingress r req cancel =
      if req.method == "initialize"
      then (let rewritten = record req { params = with_roots_capability req.params } in
          enqueue_incoming (admitted (record r { initialize = some rewritten }) rewritten cancel))
      else if is_some r.initialize
      then enqueue_incoming (admitted r req cancel)
      else refuse r req invalid_request before_initialize
