-- ===== src/Examples/Routing.antt =====
-- A client whose files lie in one directory.
use gopls_mcp_manager.Prelude.{
  String, Bool, true, false, ◌≡◌, refl, sym, ap, inr, ◌∙◌, if_cases, Option, none, some, List, [],
  ◌∷◌, ◌++◌, pos, lookup, ◌==◌, string_eq, arith,
}
use gopls_mcp_manager.Config.{default, with_defaults}
use gopls_mcp_manager.Requests.State.{Delivery, Router}
use gopls_mcp_manager.Requests.Ingress.{new_router}
use gopls_mcp_manager.Routing.Resolved.{IsRouted, route_resolved, route_resolved-IsRouted}
use gopls_mcp_manager.Routing.Memo.{
  PathMemo, Memo, PathArguments, no_memo, cached_worktrees, tool_call_worktrees, append_cached,
  append_memoized, expire_memos,
}
use gopls_mcp_manager.Routing.Cached.{
  IsNamed, IsSound, cached_worktrees-agrees, tool_call_worktrees-IsSound,
}
use gopls_mcp_manager.Routing.Target.{to, targets, or_home, last_named, targets-pathless}

abbrev in_w : String → String × String
in_w path = ("/w", path)

abbrev git : String → Option String
git dir = some "/w"

abbrev known : Memo
known = record no_memo {
  paths = ("/w/a.go", record { worktree = "/w"; physical = "" }) ∷ [];
  expires = some 1000;
}

abbrev one_file : PathArguments
one_file = record { file = "/w/a.go"; dir = ""; files = [] }

abbrev is_nameless : Option String → Bool
is_nameless none = false
is_nameless (some worktree) = worktree == ""

abbrev memo_nameless : Option PathMemo → Bool
memo_nameless none = false
memo_nameless (some memo) = memo.worktree == ""

known-named : (path : String) → memo_nameless (lookup path known.paths) ≡ false
unfolding lookup
known-named path =
    if_cases (λ o. memo_nameless o ≡ false) ("/w/a.go" == path)
      (some (record { worktree = "/w"; physical = "" })) none (λ _. refl) (λ _. refl)

known-IsNamed : IsNamed known.paths
known-IsNamed path memo h = sym (ap memo_nameless h) ∙ known-named path

known-hit : (cached_worktrees (pos 10) 300 in_w git 5 known one_file).1 ≡ true
unfolding cached_worktrees append_cached append_memoized expire_memos lookup
known-hit = refl

cached_worktrees-agrees_example :
    (tool_call_worktrees (pos 10) 300 in_w git 5 6 known one_file).0
    ≡ (cached_worktrees (pos 10) 300 in_w git 5 known one_file).0.0
cached_worktrees-agrees_example =
    cached_worktrees-agrees (pos 10) 300 in_w git 5 6 known one_file (omega arith) known-IsNamed
      known-hit

git_names : (dir worktree : String) → git dir ≡ some worktree → (worktree == "") ≡ false
git_names dir worktree h = sym (ap is_nameless h)

no_memo-IsSound : IsSound (pos 10) no_memo
unfolding lookup
no_memo-IsSound = (omega arith, omega arith, λ path memo h. cc, λ dir worktree h. cc)

tool_call_worktrees-IsSound_example :
    IsSound (pos 10) (tool_call_worktrees (pos 10) 300 in_w git 5 6 no_memo one_file).1
tool_call_worktrees-IsSound_example =
    tool_call_worktrees-IsSound (pos 10) 300 in_w git 5 6 no_memo one_file git_names no_memo-IsSound

abbrev some_calls : List (List String)
some_calls = ("/w" ∷ []) ∷ ("/w" ∷ "/v" ∷ []) ∷ []

targets-pathless_example :
    (targets false "/home" "" (some_calls ++ [] ∷ [])
      ≡ targets false "/home" "" some_calls
        ++ to (or_home false "/home" (last_named false "/home" "" some_calls)) ∷ [])
    × (targets true "/home" "" (some_calls ++ [] ∷ [])
        ≡ targets true "/home" "" some_calls ++ to "/home" ∷ [])
targets-pathless_example = targets-pathless "/home" some_calls

abbrev session : Router
unfolding new_router with_defaults
session = new_router default none

abbrev listed : Delivery
listed = record {
  req = record { id = some 3; method = "tools/list"; params = "{}" };
  state = some 0;
  cancel = some 5;
}

abbrev as_spelled : String → Option String
as_spelled params = none

route_resolved-IsRouted_example :
    IsRouted as_spelled listed
      (route_resolved as_spelled session listed none (inr "/w") false false)
route_resolved-IsRouted_example =
    route_resolved-IsRouted as_spelled session listed none (inr "/w") false false
