-- ===== src/Requests/Output.antt =====
-- bridge.go: the two channels to the session's owner, and lane.go's queue of controls.
use gopls_mcp_manager.Prelude.{
  nat_eq, string_eq, option_eq, pair_eq, ℕ, ◌+◌, ◌*◌, Option, none, some, [], ◌∷◌, ◌++◌, length,
  lookup, insert, ltb, if◌then◌else◌,
}
use gopls_mcp_manager.Config.{second}
use gopls_mcp_manager.Requests.State.{
  Request, Code, Fault, output_full, Message, error_response, Owed, Cancellation, Lane, Router,
}

-- `laneQueue`, and the capacities of `out` and `errs` in `newRouter`.
abbrev pub lane_queue : ℕ
lane_queue = 64

abbrev pub out_capacity : ℕ
out_capacity = 64

abbrev pub errs_capacity : ℕ
errs_capacity = 4

-- `sendBudget`: `readyTimeout` and 20 seconds more.
abbrev pub send_budget : ℕ
send_budget = 10 * second + 20 * second

-- `reportError`
unfoldable pub report_error : Router → Fault → Router
report_error r fault =
    if ltb (length r.errs) errs_capacity then record r { errs = r.errs ++ fault ∷ [] } else r

-- The `select` of `forward` and of the execution timer: after the session's context is done nothing
-- reads `out`, and the message is given up.
unfoldable pub offer : Router → Message → Fault → Router
unfolding report_error
offer r msg fault =
    if r.done
    then r
    else if ltb (length r.out) out_capacity
    then record r { out = r.out ++ msg ∷ [] }
    else report_error r fault

-- `forward`
unfoldable pub forward : Router → Message → Router
unfolding offer
forward r msg = offer r msg output_full

-- `refuse`
unfoldable pub refuse : Router → Request → Code → Fault → Router
refuse r req code fault = elim req.id [
  | none ↦ r
  | some i ↦ forward r (error_response (some i) code fault)
]

enqueue_control : Router → Owed → Request → Option Lane → Router
enqueue_control r owner req none = r
enqueue_control r owner req (some l) =
    if ltb (length l.controls) lane_queue
    then record r {
      lanes = insert owner.worktree (record l { controls = l.controls ++ control ∷ [] }) r.lanes;
    }
    else r
  where
    control : Cancellation
    control = record {
      req = req;
      conn = owner.conn;
      deadline = r.clock + send_budget;
      placed = owner.placed;
      state = owner.state;
    }

-- `queueCancellation`
unfoldable pub queue_cancellation : Router → Owed → Request → Router
unfolding enqueue_control
queue_cancellation r owner req = elim owner.conn [
  | none ↦ r
  | some c ↦ enqueue_control r owner req (lookup owner.worktree r.lanes)
]

-- One round of `writeToClient` with a write that succeeds.
unfoldable pub write_to_client : Router → Router
write_to_client r = elim r.out [
  | [] ↦ r
  | msg ∷ rest ↦ if r.done then r else record r { out = rest; sent = r.sent ++ msg ∷ [] }
]
