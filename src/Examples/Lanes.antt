-- ===== src/Examples/Lanes.antt =====
-- A notification that is delivered on a lane's connection, and one that fails.
use gopls_mcp_manager.Prelude.{
  ℕ, zero, suc, String, Option, none, some, List, [], ◌≡◌, refl, inr, arith, nat_eq, option_eq,
  string_eq, pair_eq, lookup, true, ◌∷◌,
}
use gopls_mcp_manager.Config.{default, with_defaults}
use gopls_mcp_manager.Requests.State.{RequestId, Request, Cancellation, context_canceled, Router}
use gopls_mcp_manager.Requests.Session.{Run, start, next, Event, loses, step}
use gopls_mcp_manager.Requests.Ingress.{new_router}
use gopls_mcp_manager.Requests.Admission.{place_delivery}
use gopls_mcp_manager.Requests.Credits.{begin_operation}
use gopls_mcp_manager.Requests.Terminal.{start_execution}
use gopls_mcp_manager.Lanes.Send.{
  Ending, delivered, exhausted, failing, finished, World, accepted, Sender, new_sender, advance,
  advance_at, try, dial, dial_bounded, placed_at, begun_at, wrote,
}
use gopls_mcp_manager.Requests.Tokens.{Fits}
use gopls_mcp_manager.Lanes.Cancellations.{
  send_cancellation, named_sent, is_later, send_cancellation-Fits,
}
use gopls_mcp_manager.Lanes.Refinement.{Joint, begin, moves, Joint-Reaches}
use gopls_mcp_manager.Lanes.Progress.{send-IsFinished}
use gopls_mcp_manager.Lanes.Custody.{IsSettled, send-IsSettled}
use gopls_mcp_manager.Lanes.Outcome.{Outcome, advance-Outcome}

abbrev as_it_is : String → String
as_it_is params = params

abbrev no_id : String → Option RequestId
no_id params = none

abbrev fresh : Router
unfolding new_router with_defaults
fresh = new_router default none

abbrev progress : Request
progress = record { id = none; method = "notifications/progress"; params = "{}" }

abbrev answering : World
answering = record {
  context = none;
  watchdog = none;
  dialled = inr 8;
  sends_initialize = none;
  reads = [];
  sends_initialized = none;
  gate = none;
  written = accepted;
  placed = 0;
}

abbrev sender : Sender
sender = new_sender progress none 4 "/work" (some 7)

after : ℕ → Router × Sender
unfolding advance advance_at try dial dial_bounded placed_at begun_at wrote place_delivery
    begin_operation start_execution
after zero = (fresh, sender)
after (suc n) = advance answering (after n).0 (after n).1

abbrev moving : (n : ℕ) → Joint as_it_is no_id fresh sender n (after n).0 (after n).1
unfolding after
moving zero = begin
moving (suc n) = moves answering (moving n)

Joint-Reaches_example : (es : List Event) × Run as_it_is no_id fresh es (after 6).0
Joint-Reaches_example = Joint-Reaches as_it_is no_id (moving 6)

send-IsFinished_example : (ending : Ending) × (after 15).1.point ≡ finished ending
send-IsFinished_example =
    send-IsFinished as_it_is no_id fresh progress none 4 "/work" (some 7) 15 (after 15).0
      (after 15).1 (omega arith) (moving 15)

send-IsSettled_example : IsSettled (delivered 7) (after 6).1
unfolding after
send-IsSettled_example =
    send-IsSettled as_it_is no_id fresh progress none 4 "/work" (some 7) 6 (after 6).0 (after 6).1
      (delivered 7) (moving 6) refl

abbrev stuck : Sender
stuck = record sender { point = failing context_canceled }

advance-Outcome_example :
    Outcome (advance answering fresh stuck).0 (advance answering fresh stuck).1 exhausted
unfolding advance advance_at
advance-Outcome_example = advance-Outcome answering fresh stuck exhausted (λ e. cc) refl

-- A call that its upstream has taken, while another connection is lost.
abbrev cancelled : Cancellation
cancelled = record {
  req = record { id = none; method = "notifications/cancelled"; params = "{}" };
  conn = some 7;
  deadline = 40;
  placed = none;
  state = some 0;
}

abbrev taken_call : Router
taken_call = record fresh {
  operations =
      ((some 7, some 1), record { worktree = "/work"; abandoned = true; state = some 0 }) ∷ [];
}

abbrev between :
    Run as_it_is no_id taken_call
      (loses 9 "/other" ∷ [])
      (step as_it_is no_id taken_call (loses 9 "/other"))
between = next (loses 9 "/other") start tt

send_cancellation-Fits_example :
    Fits (some 7, some 1) (some 0) (step as_it_is no_id taken_call (loses 9 "/other"))
unfolding send_cancellation named_sent is_later lookup
send_cancellation-Fits_example =
    send_cancellation-Fits as_it_is no_id (record { placed_first = true; gate = none }) taken_call
      (step as_it_is no_id taken_call (loses 9 "/other")) (loses 9 "/other" ∷ []) cancelled 7
      (some 1) refl refl between (tt, tt)
