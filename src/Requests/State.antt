-- ===== src/Requests/State.antt =====
-- The data of the tracker: `router`, `owed`, `operation`, `requestUsage` (bridge.go, requests.go),
-- `lane` and `cancellation` (lane.go), `pendingCalls` (pending.go).
use gopls_mcp_manager.Prelude.{ℕ, String, Bool, Option, List, Map}
use gopls_mcp_manager.Config.{Limits}

-- A wire id by its identity; `none` is the id that is not valid, which notifications carry.
abbrev pub RequestId : Type 0
RequestId = Option ℕ

-- An `mcp.Connection` by its identity; `none` is nil.
abbrev pub Conn : Type 0
Conn = Option ℕ

-- A `*callState` by its identity, the generation token; `none` is nil.
abbrev pub Token : Type 0
Token = Option ℕ

-- A `context.CancelFunc` by the context that it cancels; `none` is nil.
abbrev pub CancelFunc : Type 0
CancelFunc = Option ℕ

pub record Request : Type 0 where
  pub id : RequestId
  pub method : String
  pub params : String

-- The JSON-RPC codes in use: -32000, -32800, and the named ones of the specification.
pub data Code : Type 0 where
  server_error request_cancelled internal_error invalid_params invalid_request method_not_found :
      Code

-- What an error says, a constructor for each text.
pub data Fault : Type 0 where
  already_outstanding : RequestId → Fault
  before_initialize session_outstanding output_full output_full_execution context_canceled
        deadline_exceeded retained_lanes operation_limit :
      Fault
  lane_outstanding queue_full : String → Fault
  unresolved_operation : RequestId → Fault
  cancelled_by_client execution_deadline routing_queue_full : Fault
  went_away : String → Fault
  other_fault : String → Fault

-- What travels to the client: an upstream's response, an error of the bridge's own, or what an
-- upstream volunteered.
pub data Message : Type 0 where
  response : RequestId → String → Message
  error_response : RequestId → Code → Fault → Message
  volunteered : String → Message

pub record Owed : Type 0 where
  pub conn : Conn
  pub worktree : String
  pub cancel : CancelFunc
  pub placed : Option ℕ
  pub state : Token

abbrev pub OperationKey : Type 0
OperationKey = Conn × RequestId

pub record Operation : Type 0 where
  pub worktree : String
  pub abandoned : Bool
  pub state : Token

pub record Cancellation : Type 0 where
  pub req : Request
  pub conn : Conn
  pub deadline : ℕ
  pub placed : Option ℕ
  pub state : Token

pub record Delivery : Type 0 where
  pub req : Request
  pub state : Token
  pub cancel : CancelFunc

-- The queues of a lane, bounded by `lane_queue` entries each, and its connection.
pub record Lane : Type 0 where
  pub reqs : List Delivery
  pub controls : List Cancellation
  pub conn : Conn

-- The counters of `requestUsage` that the tracker keeps as it goes.
pub record Usage : Type 0 where
  pub admitted : ℕ
  pub completed : ℕ
  pub rejected : ℕ
  pub peak : ℕ
  pub cancelled : ℕ
  pub execution_expired : ℕ
  pub routing_failed : ℕ
  pub rejections : Map String ℕ

pub record PendingCall : Type 0 where
  pub worktree : String
  pub started : ℕ

-- `pendingCalls`: the operations, and whether a publish is owed.
pub record PendingCalls : Type 0 where
  pub ops : Map OperationKey PendingCall
  pub dirty : Bool

-- The fields of `router` that the tracker reads or writes. `pending` is `none` where there is no
-- manager or it tracks nothing. `clock` is what `time.Now` answers, `done` is that the session's
-- context is done, `incoming` is the queue between `readIngress` and the router, `cancelled` holds the contexts that were cancelled, `armed` the tokens whose
-- timer runs, `out` and `errs` the two channels, and `sent` what the writer took from `out`.
pub record Router : Type 0 where
  pub limits : Limits
  pub clock : ℕ
  pub done : Bool
  pub initialize : Option Request
  pub incoming : List Delivery
  pub lanes : Map String Lane
  pub awaiting_upstream : Map RequestId Owed
  pub per_worktree : Map String ℕ
  pub operations : Map OperationKey Operation
  pub operations_per_worktree : Map String ℕ
  pub next_token : ℕ
  pub usage : Usage
  pub pending : Option PendingCalls
  pub cancelled : List ℕ
  pub armed : List ℕ
  pub out : List Message
  pub errs : List Fault
  pub sent : List Message
