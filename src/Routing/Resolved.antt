-- ===== src/Routing/Resolved.antt =====
-- routing.go: `laneFor` and `routeResolved`, which put a call on the lane of its worktree.
use gopls_mcp_manager.Prelude.{
  nat_eq, string_eq, option_eq, String, Bool, true, false, not, ◌&&◌, ◌||◌, Option, none, some, [],
  ◌∷◌, ◌++◌, ◌⊎◌, inl, inr, length, lookup, insert, lookup-insert_self, ◌==◌, ltb, if◌then◌else◌,
  ◌≡◌, refl, ◌∙◌, if_cases, arith,
}
use gopls_mcp_manager.Requests.State.{
  RequestId, Token, CancelFunc, Request, Code, server_error, internal_error, invalid_params, Fault,
  context_canceled, deadline_exceeded, queue_full, Delivery, Lane, Router,
}
use gopls_mcp_manager.Requests.Credits.{rejected_locked, owner_locked}
use gopls_mcp_manager.Requests.Output.{lane_queue}
use gopls_mcp_manager.Requests.Terminal.{call_cancel, fail_delivery, ingress_failed, fail_ingress}
use gopls_mcp_manager.Requests.Admission.{bind_worktree}
use gopls_mcp_manager.Lanes.Outcome.{fail_delivery_released}

abbrev lane_or_new : Option Lane → Lane
lane_or_new none = record { reqs = []; controls = []; conn = none }
lane_or_new (some l) = l

-- `laneFor`
unfoldable pub lane_for : Router → String → Router
lane_for r worktree = record r {
  lanes = insert worktree (lane_or_new (lookup worktree r.lanes)) r.lanes;
}

-- The code that a routing error is answered with.
abbrev pub routing_code : Fault → Code
routing_code context_canceled = internal_error
routing_code deadline_exceeded = internal_error
routing_code fault = invalid_params

-- The request with the physical spelling of its paths, for a tool call that `canonicalToolCall` rewrites.
unfoldable pub forwarded : (String → Option String) → Request → Request
forwarded canonical_tool_call req =
    if req.method == "tools/call"
    then elim (canonical_tool_call req.params) [
      | none ↦ req
      | some params ↦ record req { params = params }
    ]
    else req

module _ (canonical_tool_call : String → Option String) where
  abbrev pub on_lane : Delivery → Lane → Lane
  on_lane call l = record l {
    reqs = l.reqs ++ record call { req = forwarded canonical_tool_call call.req } ∷ [];
  }

  -- The `select` at the end of `routeResolved`; `gives_up` is its choice where the session is done and the queue has room.
  unfoldable pub deliver : Router → Delivery → String → Bool → Lane → Router
  unfolding forwarded
  deliver r call worktree gives_up l =
      if r.done && (gives_up || not (ltb (length l.reqs) lane_queue))
      then call_cancel r call.cancel
      else if ltb (length l.reqs) lane_queue
      then record r { lanes = insert worktree (on_lane call l) r.lanes }
      else fail_ingress (rejected_locked (call_cancel r call.cancel) "delivery_queue") call
          server_error (queue_full worktree)

  unfoldable pub bound : Delivery → String → Bool → Router × Option Fault → Router
  unfolding deliver lane_for
  bound call worktree gives_up (r, some fault) =
      fail_ingress (call_cancel r call.cancel) call server_error fault
  bound call worktree gives_up (r, none) =
      deliver (lane_for r worktree) call worktree gives_up (lane_or_new (lookup worktree r.lanes))

  -- `routeResolved` for a target, or an error: `expired` is the error of the call's context when it
  -- is first asked, `late` that its deadline is over when it is bound. The compound cancel function is known
  -- by the context of the one that it calls.
  unfoldable pub route_resolved :
      Router → Delivery → Option Fault → Fault ⊎ String → Bool → Bool → Router
  unfolding bound
  route_resolved r call (some fault) target late gives_up =
      fail_ingress r call (routing_code fault) fault
  route_resolved r call none (inl fault) late gives_up =
      fail_ingress r call (routing_code fault) fault
  route_resolved r call none (inr worktree) late gives_up =
      bound call worktree gives_up (bind_worktree r call worktree call.cancel late)

-- What routing leaves of a call: no record with its token; a session that is done; or the call as the
-- last on its worktree's lane, whose queue is within its bound.
pub data IsRouted (canonical_tool_call : String → Option String) (call : Delivery) (r : Router)
    : Type 0 where
  answered : owner_locked r call.req.id call.state ≡ none → IsRouted canonical_tool_call call r
  abandoned : r.done ≡ true → IsRouted canonical_tool_call call r
  queued :
      (worktree : String) (l : Lane)
      → lookup worktree r.lanes ≡ some (on_lane canonical_tool_call call l)
      → ltb (length l.reqs) lane_queue ≡ true
      → IsRouted canonical_tool_call call r

owner_locked-call_cancel :
    (r : Router) (c : CancelFunc) (id : RequestId) (state : Token)
    → owner_locked (call_cancel r c) id state ≡ owner_locked r id state
unfolding owner_locked
owner_locked-call_cancel r none id state = refl
owner_locked-call_cancel r (some c) id state = refl

owner_locked-ingress_failed :
    (p : Router × Bool) (id : RequestId) (state : Token)
    → owner_locked (ingress_failed p) id state ≡ owner_locked p.0 id state
unfolding owner_locked ingress_failed
owner_locked-ingress_failed (r, false) id state = refl
owner_locked-ingress_failed (r, true) id state = refl

fail_ingress_released :
    (r : Router) (call : Delivery) (code : Code) (fault : Fault)
    → owner_locked (fail_ingress r call code fault) call.req.id call.state ≡ none
unfolding fail_ingress
fail_ingress_released r call code fault =
    owner_locked-call_cancel (ingress_failed (fail_delivery r call.req.id call.state code fault))
      call.cancel call.req.id call.state
    ∙ (owner_locked-ingress_failed (fail_delivery r call.req.id call.state code fault) call.req.id
          call.state
        ∙ fail_delivery_released r call.req.id call.state code fault)

done-call_cancel : (r : Router) (c : CancelFunc) → (call_cancel r c).done ≡ r.done
done-call_cancel r none = refl
done-call_cancel r (some c) = refl

module _ (canonical_tool_call : String → Option String) where
  deliver-IsRouted :
      (r : Router) (call : Delivery) (worktree : String) (gives_up : Bool) (l : Lane)
      → IsRouted canonical_tool_call call (deliver canonical_tool_call r call worktree gives_up l)
  unfolding deliver
  deliver-IsRouted r call worktree gives_up l =
      if_cases (IsRouted canonical_tool_call call)
        (r.done && (gives_up || not (ltb (length l.reqs) lane_queue))) _ _
        (λ over. abandoned (done-call_cancel r call.cancel ∙ ground (arith, over)))
        (λ live.
          if_cases (IsRouted canonical_tool_call call) (ltb (length l.reqs) lane_queue)
            (record r { lanes = insert worktree (on_lane canonical_tool_call call l) r.lanes })
            (fail_ingress (rejected_locked (call_cancel r call.cancel) "delivery_queue") call
              server_error (queue_full worktree))
            (λ room.
              queued worktree l
                (lookup-insert_self worktree (on_lane canonical_tool_call call l) r.lanes) room)
            (λ full. answered (
              fail_ingress_released (rejected_locked (call_cancel r call.cancel) "delivery_queue")
                call server_error (queue_full worktree))))

  bound-IsRouted :
      (call : Delivery) (worktree : String) (gives_up : Bool) (p : Router × Option Fault)
      → IsRouted canonical_tool_call call (bound canonical_tool_call call worktree gives_up p)
  unfolding bound
  bound-IsRouted call worktree gives_up (r, some fault) =
      answered (fail_ingress_released (call_cancel r call.cancel) call server_error fault)
  bound-IsRouted call worktree gives_up (r, none) =
      deliver-IsRouted (lane_for r worktree) call worktree gives_up _

  pub route_resolved-IsRouted :
      (r : Router) (call : Delivery) (expired : Option Fault) (target : Fault ⊎ String)
      (late gives_up : Bool)
      → IsRouted canonical_tool_call call
          (route_resolved canonical_tool_call r call expired target late gives_up)
  unfolding route_resolved
  route_resolved-IsRouted r call (some fault) target late gives_up =
      answered (fail_ingress_released r call (routing_code fault) fault)
  route_resolved-IsRouted r call none (inl fault) late gives_up =
      answered (fail_ingress_released r call (routing_code fault) fault)
  route_resolved-IsRouted r call none (inr worktree) late gives_up =
      bound-IsRouted call worktree gives_up (bind_worktree r call worktree call.cancel late)
