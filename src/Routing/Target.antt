-- ===== src/Routing/Target.antt =====
-- routing.go: the worktree that a call goes to, and what the router then does with the call.
use gopls_mcp_manager.Prelude.{
  String, Bool, true, false, not, ◌&&◌, ◌≡◌, ap, ◌⊎◌, inl, inr, Option, none, some, arith,
  if◌then◌else◌, List, [], ◌∷◌, ◌++◌, ◌==◌, string_eq, nat_eq, option_eq, lookup,
}
use gopls_mcp_manager.Requests.State.{RequestId, Request, Router, Fault}

pub data Refusal : Type 0 where
  -- a call names paths in more than one worktree
  split_call : List String → Refusal
  unresolved : Fault → Refusal

pub data Target : Type 0 where
  to : String → Target
  refused : Refusal → Target

-- `targetWorktrees`: the target, and the new sticky worktree; "" is none.
module _ (stateless : Bool) (home : String) where
  unfoldable pub target_worktrees : String → List String → Target × String
  target_worktrees sticky [] =
      (to (if not stateless && not (sticky == "") then sticky else home), sticky)
  target_worktrees sticky (worktree ∷ []) = (to worktree, if stateless then sticky else worktree)
  target_worktrees sticky (a ∷ b ∷ rest) = (refused (split_call (a ∷ b ∷ rest)), sticky)

  -- The target of each of a session's calls, by the worktrees that they name.
  unfoldable pub targets : String → List (List String) → List Target
  unfolding target_worktrees
  targets sticky [] = []
  targets sticky (found ∷ calls) =
      let (target, sticky') = target_worktrees sticky found in target ∷ targets sticky' calls

  -- `cancelTarget`: the worktree that owes the cancelled request; "" where none does.
  unfoldable pub cancel_target : Router → Option RequestId → String
  cancel_target r none = ""
  cancel_target r (some id) = elim (lookup id r.awaiting_upstream) [
    | none ↦ ""
    | some owner ↦ owner.worktree
  ]

  -- `targetContext`. `resolve` answers `resolveWorktrees`, `cancelled_id` is the id that a
  -- cancellation names.
  unfoldable pub target_context :
      Router
      → String
      → Request
      → (String → Fault ⊎ List String)
      → (String → Option RequestId)
      → Target × String
  unfolding target_worktrees cancel_target
  target_context r sticky req resolve cancelled_id =
      let cancelled = cancel_target r (cancelled_id req.params) in
      if req.method == "tools/call"
      then resolved_target sticky (resolve req.params)
      else if req.method == "notifications/cancelled" && not (cancelled == "")
      then (to cancelled, sticky)
      else (to home, sticky)
    where
      resolved_target : String → Fault ⊎ List String → Target × String
      resolved_target sticky (inl fault) = (refused (unresolved fault), sticky)
      resolved_target sticky (inr found) = target_worktrees sticky found

  -- The worktree of the last call that named one alone, or `sticky`.
  abbrev pub last_named : String → List (List String) → String
  last_named sticky [] = sticky
  last_named sticky ((worktree ∷ []) ∷ calls) = last_named worktree calls
  last_named sticky (found ∷ calls) = last_named sticky calls

module _ (stateless : Bool) (home : String) where
  abbrev pub or_home : String → String
  or_home sticky = if not stateless && not (sticky == "") then sticky else home

  targets-append :
      (sticky : String) (calls : List (List String))
      → targets stateless home sticky (calls ++ [] ∷ [])
        ≡ targets stateless home sticky calls
          ++ to (or_home (if stateless then sticky else last_named stateless home sticky calls))
            ∷ []
  unfolding targets target_worktrees
  targets-append sticky [] = ground arith
  targets-append sticky ([] ∷ calls) = ap (◌∷◌ (to (or_home sticky))) (targets-append sticky calls)
  targets-append sticky ((w ∷ []) ∷ calls) =
      ground (arith, targets-append (if stateless then sticky else w) calls)
  targets-append sticky ((a ∷ b ∷ rest) ∷ calls) =
      ap (◌∷◌ (refused (split_call (a ∷ b ∷ rest)))) (targets-append sticky calls)

-- After any calls, a call that names no worktree goes to the one that the last call naming one alone
-- named, or else to the home worktree; in a stateless session, that had none before, always to the
-- home worktree.
pub targets-pathless :
    (home : String) (calls : List (List String))
    → (targets false home "" (calls ++ [] ∷ [])
        ≡ targets false home "" calls
          ++ to (or_home false home (last_named false home "" calls)) ∷ [])
      × (targets true home "" (calls ++ [] ∷ []) ≡ targets true home "" calls ++ to home ∷ [])
targets-pathless home calls =
    (targets-append false home "" calls, targets-append true home "" calls)
