-- ===== src/Lanes/Cancellations.antt =====
-- lane.go: `sendCancellation`, and the gate that keeps a cancellation from a later operation.
use gopls_mcp_manager.Prelude.{
  nat_eq, option_eq, pair_eq, ℕ, String, Bool, true, false, ◌&&◌, ◌||◌, subst, sym, not, ◌==◌,
  ==-sound, ◌≡◌, Option, none, some, List, lookup, is_some, arith,
}
use gopls_mcp_manager.Requests.State.{RequestId, Token, Fault, Operation, Cancellation, Router}
use gopls_mcp_manager.Requests.Session.{Event, Run}
use gopls_mcp_manager.Requests.Tokens.{Fits}
use gopls_mcp_manager.Requests.Tokens.Steps.{AllSpare, Run-Fits}

-- What ends the waits of `sendCancellation`: whether the message that it cancels was placed before
-- the deadline, and the error of the gate.
pub record Waits : Type 0 where
  pub placed_first : Bool
  pub gate : Option Fault

-- `exists && op.state != control.state`, for the operation that is held.
unfoldable pub is_later : Option Operation → Token → Bool
is_later none state = false
is_later (some op) state = not (op.state == state)

unfoldable pub named_sent : Router → Cancellation → Option RequestId → Bool
unfolding is_later
named_sent r control none = false
named_sent r control (some id) =
    not (is_later (lookup (control.conn, id) r.operations) control.state)

-- `sendCancellation` up to its write: does it write? It holds the gate then.
unfoldable pub send_cancellation : Waits → Router → Cancellation → Option RequestId → Bool
unfolding named_sent
send_cancellation w r control named =
    (not (is_some control.placed) || w.placed_first)
    && (not (is_some w.gate) && named_sent r control named)

named_sent-Fits :
    (r : Router) (control : Cancellation) (id : RequestId)
    → named_sent r control (some id) ≡ true
    → Fits (control.conn, id) control.state r
unfolding named_sent is_later
named_sent-Fits r control id h op held = ==-sound op.state control.state (ground (arith, h, held))

module _ (with_roots_capability : String → String) (cancelled_id : String → Option RequestId) where
  -- When a cancellation that passed its checks is written, whatever steps came in between that did not
  -- begin an operation of its connection, which the gate rules out, an operation with the id that
  -- it names is the operation that it was made for.
  pub send_cancellation-Fits :
      (w : Waits) (r s : Router) (es : List Event) (control : Cancellation) (c : ℕ) (id : RequestId)
      → control.conn ≡ some c
      → send_cancellation w r control (some id) ≡ true
      → Run with_roots_capability cancelled_id r es s
      → AllSpare c es
      → Fits (control.conn, id) control.state s
  unfolding send_cancellation
  send_cancellation-Fits w r s es control c id e sent run spare =
      subst (λ conn. Fits (conn, id) control.state s) (sym e)
        (Run-Fits with_roots_capability cancelled_id c id control.state run spare (
          subst (λ conn. Fits (conn, id) control.state r) e
            (named_sent-Fits r control id (ground (arith, sent)))))
