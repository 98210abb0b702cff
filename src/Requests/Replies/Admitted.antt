-- ===== src/Requests/Replies/Admitted.antt =====
-- The calls that are admitted, and those that are refused, settle their answers.
use gopls_mcp_manager.Prelude.{
  nat_eq, string_eq, option_eq, ℕ, ◌+◌, false, ◌≡◌, refl, ap, ◌∙◌, inl, inr, Option, some, none,
  List, [], ◌∷◌, ◌++◌, Map, lookup, insert, Bool-cases, Option-cases, List-cases, arith, is_some,
  if_cases, length, ltb, reached,
}
use gopls_mcp_manager.Config.{Limits}
use gopls_mcp_manager.Requests.State.{
  RequestId, Token, CancelFunc, Request, Owed, Code, server_error, routing_queue_full, Fault,
  error_response, Delivery, PendingCalls, OperationKey, Operation, Router,
}
use gopls_mcp_manager.Requests.Credits.{rejected_locked, end_operation_locked}
use gopls_mcp_manager.Requests.Output.{lane_queue, refuse, write_to_client}
use gopls_mcp_manager.Requests.Terminal.{
  call_cancel, fail_ingress, clear_owed, clear_operations, clear_requests, remove_locked,
}
use gopls_mcp_manager.Requests.Admission.{admit}
use gopls_mcp_manager.Requests.Ingress.{new_router, prepared, prepare, enqueue_incoming}
use gopls_mcp_manager.Requests.Session.{Event, reads}
use gopls_mcp_manager.Requests.Replies.{
  Voice, voice, named, replies-append, requests, Settles, Settles-admit,
}
use gopls_mcp_manager.Requests.Replies.Claims.{voice-remove_locked, voice-call_cancel, voice-end}
use gopls_mcp_manager.Requests.Replies.Kept.{same_voice}
use gopls_mcp_manager.Requests.Replies.Answers.{forward-Settles, fail_ingress-Settles}

done-clear_owed : (r : Router) (m : Map RequestId Owed) → (clear_owed r m).done ≡ r.done
unfolding clear_owed
done-clear_owed r [] = refl
done-clear_owed r ((id, owner) ∷ m) =
    done-clear_owed (call_cancel (remove_locked r id owner) owner.cancel) m
    ∙ ap (λ (v : Voice). v.done)
        (voice-call_cancel (remove_locked r id owner) owner.cancel ∙ voice-remove_locked r id owner)

done-clear_operations :
    (r : Router) (m : Map OperationKey Operation) → (clear_operations r m).done ≡ r.done
unfolding clear_operations
done-clear_operations r [] = refl
done-clear_operations r ((key, op) ∷ m) =
    done-clear_operations (end_operation_locked r key) m
    ∙ ap (λ (v : Voice). v.done) (voice-end r key)

pub done-clear_requests : (r : Router) → (clear_requests r).done ≡ r.done
unfolding clear_requests
done-clear_requests r =
    done-clear_operations (clear_owed r r.awaiting_upstream)
      (clear_owed r r.awaiting_upstream).operations
    ∙ done-clear_owed r r.awaiting_upstream

-- The request counts from here on, and waits for its answer.
pub Settles-request :
    (n i : ℕ) (r : Router) (id : RequestId)
    → Settles 0 n i (voice r)
    → Settles (named i id) (named i id + n) i (voice r)
Settles-request n i r id s live clean = omega (arith, s live clean)

pub refuse-Settles :
    (n i : ℕ) (r : Router) (req : Request) (code : Code) (fault : Fault)
    → Settles (named i req.id) n i (voice r)
    → Settles 0 n i (voice (refuse r req code fault))
unfolding refuse
refuse-Settles n i r req code fault s = elim (Option-cases req.id) [
  | inl e ↦ rw (e, refuse) (rw e at s)
  | inr (j, e) ↦
      rw (e, refuse)
        (forward-Settles r 0 n i (error_response (some j) code fault)
          (λ live clean. ground (arith, s live clean, e)))
]

pub enqueue_incoming-Settles :
    (n i : ℕ) (p : Router × Option Delivery)
    → Settles 0 n i (voice p.0)
    → Settles 0 n i (voice (enqueue_incoming p))
unfolding enqueue_incoming
enqueue_incoming-Settles n i (r, none) s = s
enqueue_incoming-Settles n i (r, some call) s =
    let refused = rejected_locked r "routing_queue" in
    let failed = fail_ingress refused call server_error routing_queue_full in
    let queued = record r { incoming = r.incoming ++ call ∷ [] } in
    if_cases settled r.done (call_cancel r call.cancel) _
      (λ _. same_voice 0 n i (voice-call_cancel r call.cancel) s)
      λ _.
        if_cases settled (ltb (length r.incoming) lane_queue) queued failed (λ _. s)
          λ _.
            fail_ingress-Settles refused n i (unfold rejected_locked in s) call server_error
              routing_queue_full
  where
    settled : Router → Type 0
    settled q = Settles 0 n i (voice q)

-- How `admit` ends.
data Outcome (r : Router) (id : RequestId) (p : Router × Token × Option Fault) : Type 0 where
  noted : id ≡ none → p.2 ≡ none → voice p.0 ≡ voice r → Outcome r id p
  refused : (fault : Fault) → p.2 ≡ some fault → voice p.0 ≡ voice r → Outcome r id p
  minted :
      (owner : Owed)
      → lookup id r.awaiting_upstream ≡ none
      → p.2 ≡ none
      → voice p.0 ≡ record (voice r) { awaiting = insert id owner r.awaiting_upstream }
      → Outcome r id p

admit-Outcome :
    (r : Router) (id : RequestId) (cancel : CancelFunc) → Outcome r id (admit r id cancel)
unfolding admit rejected_locked
admit-Outcome r none cancel = noted refl refl refl
admit-Outcome r (some i) cancel = elim (Option-cases (lookup (some i) r.awaiting_upstream)) [
  | inr (owner, e) ↦ rw e (refused _ refl refl)
  | inl e ↦ rw e (elim (Bool-cases (reached (length r.awaiting_upstream) r.limits.session)) [
    | inl full ↦ rw full (refused _ refl refl)
    | inr room ↦ rw room (minted _ e refl refl)
  ])
]

prepared-Settles :
    (n i : ℕ) (r : Router) (req : Request) (cancel : ℕ) (p : Router × Token × Option Fault)
    → Outcome r req.id p
    → Settles 0 n i (voice r)
    → Settles 0 (named i req.id + n) i (voice (prepared req cancel p).0)
unfolding prepared
prepared-Settles n i r req cancel (q, state, none) (noted e h v) s =
    same_voice 0 _ i v (λ live clean. ground (arith, s live clean, e))
prepared-Settles n i r req cancel (q, state, none) (refused fault h v) s = cc
prepared-Settles n i r req cancel (q, state, none) (minted owner free h v) s =
    same_voice 0 _ i v (Settles-admit n i (voice r) req.id owner free s)
prepared-Settles n i r req cancel (q, state, some f) (noted e h v) s = cc
prepared-Settles n i r req cancel (q, state, some f) (refused fault h v) s =
    refuse-Settles _ i (call_cancel q (some cancel)) req server_error f
      (same_voice _ _ i v (Settles-request n i r req.id s))
prepared-Settles n i r req cancel (q, state, some f) (minted owner free h v) s = cc

pub prepare-Settles :
    (n i : ℕ) (r : Router) (req : Request) (cancel : ℕ)
    → Settles 0 n i (voice r)
    → Settles 0 (named i req.id + n) i (voice (prepare r req cancel).0)
unfolding prepare
prepare-Settles n i r req cancel s =
    prepared-Settles n i r req cancel (admit r req.id (some cancel))
      (admit-Outcome r req.id (some cancel)) s

pub notice_unnamed :
    (n i : ℕ) (v : Voice) (id : RequestId)
    → is_some id ≡ false
    → Settles 0 n i v
    → Settles 0 (named i id + n) i v
notice_unnamed n i v none e s live clean = omega (arith, s live clean)
notice_unnamed n i v (some j) e s live clean = cc

pub write_to_client-Settles :
    (n i : ℕ) (r : Router) → Settles 0 n i (voice r) → Settles 0 n i (voice (write_to_client r))
unfolding write_to_client
write_to_client-Settles n i r s = elim (List-cases r.out) [
  | inl e ↦ rw (e, write_to_client) s
  | inr (msg, rest, e) ↦
      rw (e, write_to_client)
        (λ live clean. ground (arith, s, e, replies-append i r.sent (msg ∷ [])))
]

pub requests-cons :
    (i : ℕ) (e : Event) (es : List Event)
    → requests i (e ∷ es) ≡ requests i (e ∷ []) + requests i es
requests-cons i (reads req cancel) es = omega arith
requests-cons i _ es = omega arith

pub new_router-Settles :
    (limits : Limits) (pending : Option PendingCalls) (i : ℕ)
    → Settles 0 0 i (voice (new_router limits pending))
unfolding new_router lookup
new_router-Settles limits pending i live clean = refl
