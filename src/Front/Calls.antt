-- ===== src/Front/Calls.antt =====
-- http.go: `httpBackend.call` and the writer that hands each response to its caller, and the slots of the handler.
use gopls_mcp_manager.Prelude.{
  nat_eq, option_eq, string_eq, ℕ, ◌/◌, min, pos_part, ◌+◌, ◌-◌, String, Bool, true, false, Option,
  none, some, List, [], ◌∷◌, ◌++◌, length, Map, lookup, insert, delete, reached, ltb, if◌then◌else◌,
}
use gopls_mcp_manager.Config.{Limits}
use gopls_mcp_manager.Requests.State.{
  RequestId, Request, Message, response, error_response, volunteered, Delivery, Router,
  server_error, routing_queue_full,
}
use gopls_mcp_manager.Requests.Credits.{rejected_locked}
use gopls_mcp_manager.Requests.Output.{lane_queue}
use gopls_mcp_manager.Requests.Terminal.{finish, cancel_call, fail_ingress}
use gopls_mcp_manager.Requests.Ingress.{prepare}

-- `httpBackend`. A waiter is the channel of one reply, with what it holds; `slots` are those in use.
pub record Backend : Type 0 where
  pub router : Router
  pub queue : List Delivery
  pub sequence : ℕ
  pub pending : Map RequestId (Option Message)
  pub slots : ℕ

-- The `select` on the queue, for a call that `prepare` let pass.
abbrev pub enqueued : Backend → Router × Option Delivery → Backend
enqueued b (r, none) = record b { router = r }
enqueued b (r, some call) =
    if ltb (length b.queue) lane_queue
    then record b { router = r; queue = b.queue ++ call ∷ [] }
    else record b {
      router =
          fail_ingress (rejected_locked r "routing_queue") call server_error routing_queue_full;
    }

abbrev pub admitted_call : Backend → RequestId → String → String → ℕ → Backend
admitted_call b id method params cancel =
    enqueued (record b { pending = insert id none b.pending })
      (prepare b.router (record { id = id; method = method; params = params }) cancel)

-- `call` up to its wait: the id of its waiter, or none where it is refused.
unfoldable pub begin_call : Backend → String → String → ℕ → Backend × RequestId
begin_call b method params cancel =
    let id = some (b.sequence + 1) in
    let counted = record b { sequence = b.sequence + 1 } in
    if reached (length b.pending) b.router.limits.session
    then (record counted { router = rejected_locked b.router "http_outstanding" }, none)
    else (admitted_call counted id method params cancel, id)

abbrev pub id_of : Message → RequestId
id_of (response id payload) = id
id_of (error_response id code fault) = id
id_of (volunteered payload) = none

abbrev pub is_response : Message → Bool
is_response (volunteered payload) = false
is_response msg = true

-- The writer's `select` on the reply's channel, which holds one.
abbrev pub replied :
    Map RequestId (Option Message)
    → RequestId
    → Message
    → Option (Option Message)
    → Map RequestId (Option Message)
replied pending id msg (some none) = insert id (some msg) pending
replied pending id msg o = pending

-- The third goroutine of `start`, for a message that the router sent.
unfoldable pub hand_over : Backend → Message → Backend
hand_over b msg =
    if is_response msg
    then record b { pending = replied b.pending (id_of msg) msg (lookup (id_of msg) b.pending) }
    else b

-- `cancelCall` where the client's request ended first
abbrev pub ended_early : Router → Request → RequestId → Bool → Router
ended_early r req id false = r
ended_early r req id true = cancel_call r req (some id)

-- The end of `call`: the cancellation, if the client's request ended first, and the deferred function.
unfoldable pub end_call : Backend → RequestId → Bool → Request → Backend
end_call b id early req = record b {
  router = (finish (ended_early b.router req id early) id none none).0;
  pending = delete id b.pending;
}

-- The capacity of `slots`, for limits that are not negative.
unfoldable pub slot_capacity : Limits → ℕ
slot_capacity limits =
    min (pos_part limits.session) (pos_part limits.http_bytes / pos_part limits.message_bytes)

-- The handler takes a slot; false where none is free.
unfoldable pub take_slot : ℕ → Backend → Backend × Bool
take_slot capacity b =
    if ltb b.slots capacity
    then (record b { slots = b.slots + 1 }, true)
    else (record b { router = rejected_locked b.router "http_capacity" }, false)

unfoldable pub give_slot : Backend → Backend
give_slot b = record b { slots = b.slots - 1 }
