-- ===== src/Lanes/Send.antt =====
-- lane.go: `send`, with `upstream`, `dialBounded`, `handshake`, `lockWrites`, `giveUp` and `cache`, as the moves
-- of the goroutine that runs it. A move makes one call of the tracker at most, and the other
-- goroutines of the session run between the moves; a handshake is one move.
use gopls_mcp_manager.Prelude.{
  ℕ, zero, suc, ◌+◌, String, Bool, true, false, not, ◌&&◌, Option, none, some, is_some, List, [],
  ◌∷◌, ◌==◌, ◌⊎◌, inl, inr, nat_eq, string_eq, option_eq, if◌then◌else◌,
}
use gopls_mcp_manager.Requests.State.{
  Conn, Token, Request, Code, internal_error, request_cancelled, server_error, Fault,
  context_canceled, deadline_exceeded, other_fault, volunteered, Router,
}
use gopls_mcp_manager.Requests.Credits.{begin_operation, end_operation_locked}
use gopls_mcp_manager.Requests.Output.{forward}
use gopls_mcp_manager.Requests.Terminal.{retry, start_execution, fail_delivery}
use gopls_mcp_manager.Requests.Admission.{place_delivery}

-- How `send` ends: its token does not own the call; it is a notification and there is no connection;
-- an upstream took it; it gave up after a refusal; both attempts failed; or the connection's reader
-- answered the call.
pub data Ending : Type 0 where
  unowned dropped given_up exhausted answered_elsewhere : Ending
  delivered : ℕ → Ending

-- Where `send` stands: a number is the attempts that are left, then the connection in use.
pub data Point : Type 0 where
  placing : Point
  trying : ℕ → Fault → Point
  shaking connected locked begun : ℕ → ℕ → Point
  retrying : ℕ → ℕ → Fault → Point
  taken oversized : ℕ → Point
  giving_up : ℕ → Fault → Point
  failing : Fault → Point
  finished : Ending → Point

-- What an upstream says during its handshake: the response to the initialize, with its error; a
-- question, with the error that the answer's write meets; anything else; or the read fails.
pub data Incoming : Type 0 where
  initialized asks : Option Fault → Incoming
  says : String → Incoming
  read_fails : Fault → Incoming

-- What `conn.Write` answers.
pub data Written : Type 0 where
  accepted too_large : Written
  broken : Fault → Written

-- What the system answers when a move asks it: the context's error or the deadline that passed; the
-- error of the budget if its watchdog came first; the dial; the handshake's two writes and what it
-- reads; the gate; the write. `placed` is the channel that the move makes.
pub record World : Type 0 where
  pub context : Option Fault
  pub watchdog : Option Fault
  pub dialled : Fault ⊎ ℕ
  pub sends_initialize : Option Fault
  pub reads : List Incoming
  pub sends_initialized : Option Fault
  pub gate : Option Fault
  pub written : Written
  pub placed : ℕ

-- The variables of `send` and of its lane. `conn` is `l.conn`, `loose` the connection that was dialled
-- and is neither adopted nor closed, `writes` the connections that were written to, `calls` the
-- tools/calls that were counted.
pub record Sender : Type 0 where
  pub req : Request
  pub expected : Token
  pub cancel : ℕ
  pub worktree : String
  pub conn : Conn
  pub state : Token
  pub point : Point
  pub loose : Conn
  pub writes : List ℕ
  pub calls : ℕ

abbrev pub at_point : Sender → Point → Sender
at_point s p = record s { point = p }

abbrev pub is_initial : Sender → Bool
is_initial s = s.req.method == "initialize"

abbrev pub second_initialize : Fault
second_initialize = other_fault "the client's initialize reached an upstream that already has one"

abbrev pub no_initialize : Fault
no_initialize = other_fault "tool call arrived before the client sent initialize"

-- `dialBounded`
unfoldable pub dial_bounded : World → Fault ⊎ ℕ
dial_bounded w = elim w.watchdog [ none ↦ w.dialled | some fault ↦ inl fault ]

-- The loop of `handshake`, with what it ends by; the budget ends a wait that nothing answers.
unfoldable pub read_handshake : Router → List Incoming → Router × Option Fault
read_handshake r [] = (r, some deadline_exceeded)
read_handshake r (initialized fault ∷ reads) = (r, fault)
read_handshake r (asks none ∷ reads) = read_handshake r reads
read_handshake r (asks (some fault) ∷ reads) = (r, some fault)
read_handshake r (says payload ∷ reads) = read_handshake (forward r (volunteered payload)) reads
read_handshake r (read_fails fault ∷ reads) = (r, some fault)

unfoldable pub after_reads : World → Router × Option Fault → Router × Option Fault
after_reads w (r, none) = (r, w.sends_initialized)
after_reads w (r, some fault) = (r, some fault)

-- After the initialize was sent, with the error that its write met.
unfoldable pub exchange : World → Router → Option Fault → Router × Option Fault
unfolding read_handshake after_reads
exchange w r none = after_reads w (read_handshake r w.reads)
exchange w r (some fault) = (r, some fault)

-- `handshake`, for the initialize that the client sent.
unfoldable pub handshake : World → Router → Option Request → Router × Option Fault
unfolding exchange
handshake w r none = (r, some no_initialize)
handshake w r (some initialize) = exchange w r w.sends_initialize

-- `upstream` as far as the dial: a connection that the lane holds is used as it is.
unfoldable pub dial : World → Sender → ℕ → Conn → Point × Conn
unfolding dial_bounded
dial w s n (some c) = (if is_initial s then trying n second_initialize else connected n c, none)
dial w s n none = elim (dial_bounded w) [
  | inl fault ↦ (trying n fault, none)
  | inr c ↦ (if is_initial s then connected n c else shaking n c, some c)
]

-- The head of the loop.
unfoldable pub try : World → Sender → ℕ → Sender
unfolding dial
try w s n = elim w.context [
  | some fault ↦ at_point s (failing fault)
  | none ↦
      (if not (is_some s.conn) && not (is_some s.req.id)
        then at_point s (finished dropped)
        else (let (p, loose) = dial w s n s.conn in record s { point = p; loose = loose }))
]

unfoldable pub placed_at : Sender → Router × Token × Bool → Router × Sender
placed_at s (r, state, true) = (r, record s { state = state; point = trying 2 (other_fault "") })
placed_at s (r, state, false) = (r, at_point s (finished unowned))

unfoldable pub shaken : Sender → ℕ → ℕ → Router × Option Fault → Router × Sender
shaken s n c (r, none) = (r, at_point s (connected n c))
shaken s n c (r, some fault) = (r, record s { point = trying n fault; loose = none })

unfoldable pub begun_at : Sender → ℕ → ℕ → Router × Option Fault → Router × Sender
begun_at s n c (r, none) = (r, at_point s (begun n c))
begun_at s n c (r, some fault) = (r, at_point s (giving_up c fault))

-- After `conn.Write`; `cache` adopts a connection that took the message.
unfoldable pub wrote : Sender → ℕ → ℕ → Written → Sender
wrote s n c accepted = record s {
  point = taken c;
  writes = c ∷ s.writes;
  conn = some c;
  loose = none;
}
wrote s n c too_large = record s { point = oversized c; writes = s.writes }
wrote s n c (broken fault) = record s { point = retrying n c fault; writes = c ∷ s.writes }

-- The connection of a write that failed is closed and forgotten.
unfoldable pub retried : Sender → ℕ → Fault → Router × Bool → Router × Sender
retried s n fault (r, true) = (r, record s { point = trying n fault; conn = none; loose = none })
retried s n fault (r, false) =
    (r, record s { point = finished answered_elsewhere; conn = none; loose = none })

abbrev pub failure_code : Fault → Code
failure_code context_canceled = request_cancelled
failure_code fault = internal_error

-- One move of `send` from a point.
unfoldable pub advance_at : World → Router → Sender → Point → Router × Sender
unfolding placed_at try shaken begun_at wrote retried
advance_at w r s placing = placed_at s (place_delivery r s.req.id s.expected (some s.cancel))
advance_at w r s (trying zero fault) = (r, at_point s (failing fault))
advance_at w r s (trying (suc n) fault) = (r, try w s n)
advance_at w r s (shaking n c) = shaken s n c (handshake w r r.initialize)
advance_at w r s (connected n c) = elim w.gate [
  | none ↦ (r, at_point s (locked n c))
  | some fault ↦ (r, at_point s (giving_up c fault))
]
advance_at w r s (locked n c) =
    begun_at s n c
      (begin_operation r s.req.id s.state (some c) s.worktree (some s.cancel) (some w.placed))
advance_at w r s (begun n c) = (r, wrote s n c w.written)
advance_at w r s (taken c) = (
  start_execution r s.req.id s.state,
  record s {
    point = finished (delivered c);
    calls = if s.req.method == "tools/call" then s.calls + 1 else s.calls;
  },
)
advance_at w r s (oversized c) = (
  end_operation_locked r (some c, s.req.id),
  at_point s (giving_up c (other_fault "message too large")),
)
advance_at w r s (retrying n c fault) = retried s n fault (retry r s.req.id (some c) s.state)
advance_at w r s (giving_up c fault) = (
  (fail_delivery r s.req.id s.state server_error fault).0,
  record s { point = finished given_up; loose = none },
)
advance_at w r s (failing fault) = (
  (fail_delivery r s.req.id s.state (failure_code fault) fault).0,
  at_point s (finished exhausted),
)
advance_at w r s (finished ending) = (r, s)

unfoldable pub advance : World → Router → Sender → Router × Sender
unfolding advance_at
advance w r s = advance_at w r s s.point

-- `send` begins with the connection that its lane has.
abbrev pub new_sender : Request → Token → ℕ → String → Conn → Sender
new_sender req expected cancel worktree conn = record {
  req = req;
  expected = expected;
  cancel = cancel;
  worktree = worktree;
  conn = conn;
  state = none;
  point = placing;
  loose = none;
  writes = [];
  calls = 0;
}
