-- ===== src/Requests/Terminal.antt =====
-- requests.go: the terminal paths, each of which claims a record before it answers the call.
use gopls_mcp_manager.Prelude.{
  nat_eq, string_eq, option_eq, pair_eq, ℕ, ◌+◌, String, Bool, true, false, ◌&&◌, Option, none,
  some, List, [], ◌∷◌, Map, insert, delete, ◌==◌, is_some, is_positive, if◌then◌else◌,
}
use gopls_mcp_manager.Requests.State.{
  RequestId, Conn, Token, CancelFunc, OperationKey, Request, Code, server_error, request_cancelled,
  internal_error, Fault, cancelled_by_client, execution_deadline, output_full_execution, went_away,
  Message, response, error_response, Owed, Operation, Delivery, Router,
}
use gopls_mcp_manager.Requests.Credits.{
  release, end_operation_locked, abandon_operation_locked, owner_locked,
}
use gopls_mcp_manager.Requests.Output.{offer, forward, queue_cancellation}

-- Calls a cancel function, if there is one.
abbrev pub call_cancel : Router → CancelFunc → Router
call_cancel r none = r
call_cancel r (some c) = record r { cancelled = c ∷ r.cancelled }

without : ℕ → List ℕ → List ℕ
without t [] = []
without t (x ∷ xs) = let rest = without t xs in if x == t then rest else x ∷ rest

-- `state.timer.Stop()`, where the state and its timer are there.
unfoldable pub stop_timer : Router → Token → Router
unfolding without
stop_timer r none = r
stop_timer r (some t) = record r { armed = without t r.armed }

-- The cancellation in `removeLocked`: a record that no upstream has taken.
unfoldable pub cancel_queued : Router → Owed → Router
cancel_queued r owner = if is_some owner.conn then r else call_cancel r owner.cancel

-- The rest of `removeLocked`: the record and its count go.
unfoldable pub drop_record : Router → RequestId → Owed → Router
drop_record r id owner = record r {
  awaiting_upstream = delete id r.awaiting_upstream;
  per_worktree =
      (if owner.worktree == "" then r.per_worktree else release r.per_worktree owner.worktree);
  usage = record r.usage { completed = r.usage.completed + 1 };
}

-- `removeLocked`
unfoldable pub remove_locked : Router → RequestId → Owed → Router
unfolding cancel_queued stop_timer drop_record
remove_locked r id owner =
    drop_record
      (stop_timer (cancel_queued (abandon_operation_locked r (owner.conn, id)) owner) owner.state)
      id owner

-- Does a claim through `conn` meet the record? A nil connection meets every record.
abbrev pub same_conn : Conn → Owed → Bool
same_conn none owner = true
same_conn (some c) owner = owner.conn == some c

unfoldable pub claim : Router → RequestId → Conn → Option Owed → Router × Option Owed
claim r id conn none = (r, none)
claim r id conn (some owner) =
    if same_conn conn owner then (remove_locked r id owner, some owner) else (r, none)

unfoldable pub end_delivered : Router → RequestId → Conn → Router
end_delivered r id none = r
end_delivered r id (some c) = end_operation_locked r (some c, id)

-- `finish`: the record claimed, if it was still the caller's to claim.
unfoldable pub finish : Router → RequestId → Conn → Token → Router × Option Owed
unfolding claim end_delivered
finish r id conn state =
    let r' = end_delivered r id conn in claim r' id conn (owner_locked r' id state)

unfoldable pub retry_owned : Router → RequestId → Conn → Option Owed → Router × Bool
retry_owned r id conn none = (r, false)
retry_owned r id conn (some owner) =
    if owner.conn == conn
    then (let r' = abandon_operation_locked r (conn, id) in
        (
          record r' {
            awaiting_upstream = insert id (record owner { conn = none }) r'.awaiting_upstream;
          },
          true,
        ))
    else (r, false)

-- `retry`
unfoldable pub retry : Router → RequestId → Conn → Token → Router × Bool
unfolding retry_owned
retry r none conn state = (r, true)
retry r (some i) conn state = retry_owned r (some i) conn (owner_locked r (some i) state)

-- `startExecution`; its timer's callback is `expire_execution`.
unfoldable pub start_execution : Router → RequestId → Token → Router
start_execution r id none = r
start_execution r id (some t) =
    if is_positive r.limits.execution && is_some (owner_locked r id (some t))
    then record r { armed = t ∷ r.armed }
    else r

unfoldable pub expired_claim : Request → RequestId → Router × Option Owed → Router
expired_claim req id (r, none) = r
expired_claim req id (r, some owner) =
    let queued = queue_cancellation r owner req in
    offer
      (record queued {
        usage = record queued.usage { execution_expired = queued.usage.execution_expired + 1 };
      })
      (error_response id server_error execution_deadline) output_full_execution

-- The callback of `startExecution`'s timer; `req` is the notification that it builds.
unfoldable pub expire_execution : Router → RequestId → Token → Request → Router
unfolding expired_claim
expire_execution r id state req = expired_claim req id (finish r id none state)

unfoldable pub cancelled_claim : Request → RequestId → Router × Option Owed → Router
cancelled_claim req id (r, none) = r
cancelled_claim req id (r, some owner) =
    queue_cancellation
      (forward (record r { usage = record r.usage { cancelled = r.usage.cancelled + 1 } })
        (error_response id request_cancelled cancelled_by_client))
      owner req

-- `cancelCall`; `named` is what `cancelledID` reads from the parameters of `req`.
unfoldable pub cancel_call : Router → Request → Option RequestId → Router
unfolding cancelled_claim
cancel_call r req none = r
cancel_call r req (some id) = cancelled_claim req id (finish r id none none)

unfoldable pub answer_claim : RequestId → Code → Fault → Router × Option Owed → Router × Bool
answer_claim id code fault (r, none) = (r, false)
answer_claim id code fault (r, some owner) = (forward r (error_response id code fault), true)

-- `failDelivery`
unfoldable pub fail_delivery : Router → RequestId → Token → Code → Fault → Router × Bool
unfolding answer_claim
fail_delivery r id state code fault = answer_claim id code fault (finish r id none state)

unfoldable pub ingress_failed : Router × Bool → Router
ingress_failed (r, false) = r
ingress_failed (r, true) = record r {
  usage = record r.usage { routing_failed = r.usage.routing_failed + 1 };
}

-- `failIngress`; its deferred `call.cancel()` runs last.
unfoldable pub fail_ingress : Router → Delivery → Code → Fault → Router
unfolding ingress_failed
fail_ingress r call code fault =
    call_cancel (ingress_failed (fail_delivery r call.req.id call.state code fault)) call.cancel

unfoldable pub response_claim : Message → Router × Option Owed → Router
response_claim msg (r, none) = r
response_claim msg (r, some owner) = forward r msg

-- The branch of `readFromUpstream` for a response that `conn` read.
unfoldable pub upstream_response : Router → Conn → RequestId → String → Router
unfolding response_claim
upstream_response r conn id payload = response_claim (response id payload) (finish r id conn none)

-- The first loop of `failInFlight`, over the entries that the map had.
unfoldable pub strand : Router → Conn → Map RequestId Owed → Router × List RequestId
strand r conn [] = (r, [])
strand r conn ((id, owner) ∷ rest) = elim (owner.conn == conn) [
  | true ↦ (let (r', ids) = strand (remove_locked r id owner) conn rest in (r', id ∷ ids))
  | false ↦ strand r conn rest
]

unfoldable pub forward_lost : Router → String → List RequestId → Router
forward_lost r worktree [] = r
forward_lost r worktree (id ∷ ids) =
    forward_lost (forward r (error_response id internal_error (went_away worktree))) worktree ids

-- `failInFlight`
unfoldable pub fail_in_flight : Router → Conn → String → Router
fail_in_flight r conn worktree =
    let (r', stranded) = strand r conn r.awaiting_upstream in forward_lost r' worktree stranded

unfoldable pub clear_owed : Router → Map RequestId Owed → Router
clear_owed r [] = r
clear_owed r ((id, owner) ∷ rest) =
    clear_owed (call_cancel (remove_locked r id owner) owner.cancel) rest

unfoldable pub clear_operations : Router → Map OperationKey Operation → Router
clear_operations r [] = r
clear_operations r ((key, op) ∷ rest) = clear_operations (end_operation_locked r key) rest

-- `clearRequests`
unfoldable pub clear_requests : Router → Router
unfolding clear_owed clear_operations
clear_requests r = let r' = clear_owed r r.awaiting_upstream in clear_operations r' r'.operations
