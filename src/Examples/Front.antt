-- ===== src/Examples/Front.antt =====
-- A client's call that comes and goes, and a command line.
use gopls_mcp_manager.Prelude.{true, none, some, [], ◌∷◌, ◌≡◌, refl, lookup, nat_eq, option_eq}
use gopls_mcp_manager.Config.{default, with_defaults}
use gopls_mcp_manager.Requests.State.{Request, Router, response}
use gopls_mcp_manager.Requests.Credits.{owner_locked}
use gopls_mcp_manager.Requests.Ingress.{new_router}
use gopls_mcp_manager.Front.Arguments.{serve, run, run-words}
use gopls_mcp_manager.Front.Calls.{
  Backend, begin_call, hand_over, end_call, slot_capacity, take_slot,
}
use gopls_mcp_manager.Front.Limits.{
  opens, calls, replies, takes, IsServed, Serves-IsServed, end_call_released,
}

run-words_example :
    run ("gopls-mcp-manager" ∷ "http" ∷ "127.0.0.1:7000" ∷ "/work" ∷ [])
    ≡ some (serve "127.0.0.1:7000" "/work")
run-words_example = run-words "gopls-mcp-manager" (serve "127.0.0.1:7000" "/work")

abbrev fresh : Router
unfolding new_router with_defaults
fresh = new_router default none

abbrev opened : Backend
opened = record { router = fresh; queue = []; sequence = 0; pending = []; slots = 0 }

abbrev called : Backend
called = (begin_call (take_slot (slot_capacity fresh.limits) opened).0 "tools/call" "{}" 9).0

Serves-IsServed_example : IsServed fresh.limits (hand_over called (response (some 1) "{}"))
unfolding take_slot fresh slot_capacity
Serves-IsServed_example = Serves-IsServed fresh.limits (hand_over called (response (some 1) "{}")) (
    replies called (response (some 1) "{}") (
      calls (take_slot (slot_capacity fresh.limits) opened).0 "tools/call" "{}" 9 refl
        (takes opened (opens opened refl refl))))

abbrev nothing_named : Request
nothing_named = record { id = none; method = "notifications/cancelled"; params = "{}" }

end_call_released_example :
    (lookup (some 1) (end_call called (some 1) true nothing_named).pending ≡ none)
    × (owner_locked (end_call called (some 1) true nothing_named).router (some 1) none ≡ none)
end_call_released_example = end_call_released called (some 1) true nothing_named
