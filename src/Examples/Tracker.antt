-- ===== src/Examples/Tracker.antt =====
-- A session in which a client initializes: its call is read, bound, begun, answered and written.
use gopls_mcp_manager.Prelude.{
  ◌+◌, String, false, ◌≡◌, refl, Option, none, some, List, [], ◌∷◌, is_some, lookup, if◌then◌else◌,
  nat_eq, option_eq, insert, delete, arith,
}
use gopls_mcp_manager.Config.{default, with_defaults}
use gopls_mcp_manager.Requests.State.{
  RequestId, Conn, Request, Delivery, Router, PendingCalls, Usage, Owed, Message, response,
}
use gopls_mcp_manager.Requests.Session.{
  Event, reads, binds, begins, responds, writes, step, Run, start, next, IsProper,
}
use gopls_mcp_manager.Requests.Ingress.{
  new_router, read_ingress, enqueue_incoming, admitted, prepare, prepared,
}
use gopls_mcp_manager.Requests.Admission.{
  admit, bind_worktree, is_withdrawn, is_lane_refused, bind_owned, ctx_err,
}
use gopls_mcp_manager.Requests.Credits.{
  abandon_operation_locked, release, begin_operation, begin_owned, begin_pending, owner_locked,
  end_operation_locked, end_pending,
}
use gopls_mcp_manager.Requests.Terminal.{
  upstream_response, response_claim, finish, claim, end_delivered, remove_locked,
}
use gopls_mcp_manager.Requests.Output.{forward, write_to_client}
use gopls_mcp_manager.Requests.Books.{books, IsBalanced}
use gopls_mcp_manager.Requests.Books.Reachable.{reachable-IsBalanced}
use gopls_mcp_manager.Requests.Replies.{requests, replies}
use gopls_mcp_manager.Requests.Replies.Once.{answered_once}

abbrev as_it_is : String → String
as_it_is params = params

abbrev no_id : String → Option RequestId
no_id params = none

abbrev no_pending : Option PendingCalls
no_pending = none

abbrev initialize : Request
initialize = record { id = some 1; method = "initialize"; params = "{}" }

abbrev nothing_used : Usage
nothing_used = record {
  admitted = 0;
  completed = 0;
  rejected = 0;
  peak = 0;
  cancelled = 0;
  execution_expired = 0;
  routing_failed = 0;
  rejections = [];
}

abbrev fresh : Router
fresh = record {
  limits = default;
  clock = 0;
  done = false;
  initialize = none;
  incoming = [];
  lanes = [];
  awaiting_upstream = [];
  per_worktree = [];
  operations = [];
  operations_per_worktree = [];
  next_token = 0;
  usage = nothing_used;
  pending = none;
  cancelled = [];
  armed = [];
  out = [];
  errs = [];
  sent = [];
}

fresh-new_router : new_router default no_pending ≡ fresh
unfolding new_router with_defaults
fresh-new_router = refl

abbrev call : Delivery
call = record { req = initialize; state = some 0; cancel = some 7 }

abbrev owed_call : Conn → String → Owed
owed_call conn worktree = record {
  conn = conn;
  worktree = worktree;
  cancel = some 7;
  placed = none;
  state = some 0;
}

abbrev was_read : Router
was_read = record fresh {
  initialize = some initialize;
  incoming = call ∷ [];
  awaiting_upstream = (some 1, owed_call none "") ∷ [];
  next_token = 1;
  usage = record nothing_used { admitted = 1; peak = 1 };
}

read_step : step as_it_is no_id fresh (reads initialize 7) ≡ was_read
unfolding step read_ingress enqueue_incoming admitted prepare prepared admit lookup insert
read_step = refl

abbrev was_bound : Router
was_bound = record was_read {
  awaiting_upstream = (some 1, owed_call none "/w") ∷ [];
  per_worktree = ("/w", 1) ∷ [];
}

bind_step : step as_it_is no_id was_read (binds call "/w" (some 7) false) ≡ was_bound
unfolding step bind_worktree is_withdrawn is_lane_refused bind_owned ctx_err lookup insert
bind_step = refl

abbrev was_begun : Router
was_begun = record was_bound {
  awaiting_upstream = (some 1, owed_call (some 5) "/w") ∷ [];
  operations =
      ((some 5, some 1), record { worktree = "/w"; abandoned = false; state = some 0 }) ∷ [];
  operations_per_worktree = ("/w", 1) ∷ [];
}

begin_step :
    step as_it_is no_id was_bound (begins (some 1) (some 0) 5 "/w" (some 7) none) ≡ was_begun
unfolding step begin_operation begin_owned begin_pending owner_locked lookup insert
begin_step = refl

abbrev answer : Message
answer = response (some 1) "{}"

abbrev was_answered : Router
was_answered = record was_begun {
  awaiting_upstream = [];
  per_worktree = [];
  operations = [];
  operations_per_worktree = [];
  usage = record nothing_used { admitted = 1; peak = 1; completed = 1 };
  out = answer ∷ [];
}

answer_step : step as_it_is no_id was_begun (responds 5 (some 1) "{}") ≡ was_answered
unfolding step upstream_response response_claim finish claim end_delivered end_operation_locked
    end_pending owner_locked remove_locked lookup forward abandon_operation_locked delete release
answer_step = refl

abbrev last : Router
last = record was_answered { out = []; sent = answer ∷ [] }

write_step : step as_it_is no_id was_answered writes ≡ last
unfolding step write_to_client
write_step = refl

-- A run may be extended by a step whose result is known.
extended :
    {r s t : Router} {es : List Event} (e : Event)
    → Run as_it_is no_id r es s
    → IsProper s e
    → step as_it_is no_id s e ≡ t
    → Run as_it_is no_id r (e ∷ es) t
extended {r = r} {es = es} e run p h = rw (← h) (next e run p)

abbrev first : Router
first = new_router default no_pending

begun : Run as_it_is no_id first [] fresh
begun = rw fresh-new_router start

abbrev events : List Event
events =
    writes
    ∷ responds 5 (some 1) "{}"
    ∷ begins (some 1) (some 0) 5 "/w" (some 7) none
    ∷ binds call "/w" (some 7) false
    ∷ reads initialize 7
    ∷ []

unbound : IsProper was_read (binds call "/w" (some 7) false)
unfolding lookup
unbound owner h = ground arith

run : Run as_it_is no_id first events last
run =
    extended writes
      (extended (responds 5 (some 1) "{}")
        (extended (begins (some 1) (some 0) 5 "/w" (some 7) none)
          (extended (binds call "/w" (some 7) false)
            (extended (reads initialize 7) begun tt read_step) unbound bind_step)
          tt begin_step)
        tt answer_step)
      tt write_step

reachable-IsBalanced_example : IsBalanced (books last)
reachable-IsBalanced_example =
    reachable-IsBalanced as_it_is no_id default no_pending events last run

answered_once_example :
    requests 1 events
    ≡ replies 1 last.sent
      + replies 1 last.out
      + (if is_some (lookup (some 1) last.awaiting_upstream) then 1 else 0)
answered_once_example = answered_once as_it_is no_id default no_pending 1 events last run refl refl
