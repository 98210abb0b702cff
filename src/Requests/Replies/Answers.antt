-- ===== src/Requests/Replies/Answers.antt =====
-- Each terminal path answers the call that it claims, once.
use gopls_mcp_manager.Prelude.{
  nat_eq, string_eq, option_eq, ℕ, ◌+◌, String, Bool, true, false, ◌≡◌, refl, ◌∙◌, inl, inr, Option,
  some, none, List, [], ◌∷◌, Map, IsUnique, Within, Within-self, Within-delete, ◌==◌, Bool-cases,
  arith,
}
use gopls_mcp_manager.Requests.State.{
  RequestId, Conn, Token, Request, Owed, Code, server_error, request_cancelled, internal_error,
  Fault, output_full, output_full_execution, cancelled_by_client, execution_deadline, went_away,
  Message, response, error_response, Delivery, Router,
}
use gopls_mcp_manager.Requests.Output.{forward, queue_cancellation}
use gopls_mcp_manager.Requests.Terminal.{
  remove_locked, finish, expired_claim, expire_execution, cancelled_claim, cancel_call,
  answer_claim, fail_delivery, ingress_failed, fail_ingress, response_claim, upstream_response,
  strand, forward_lost, fail_in_flight,
}
use gopls_mcp_manager.Requests.Books.Terminal.{awaiting-remove}
use gopls_mcp_manager.Requests.Replies.{
  voice, voice-offer, named, is_reply, Settles, Settles-say, Settles-delete,
}
use gopls_mcp_manager.Requests.Replies.Claims.{
  Claimed, missed, took, finish-Claimed, voice-forward, voice-queue_cancellation, voice-call_cancel,
  voice-remove_locked,
}
use gopls_mcp_manager.Requests.Replies.Kept.{same_voice}

pub forward-Settles :
    (r : Router) (k n i : ℕ) (msg : Message)
    → Settles (is_reply i msg + k) n i (voice r)
    → Settles k n i (voice (forward r msg))
forward-Settles r k n i msg s =
    same_voice k n i (voice-forward r msg) (Settles-say k n i (voice r) msg output_full s)

module _ (r : Router) (n i : ℕ) (s : Settles 0 n i (voice r)) where
  pub answer_claim-Settles :
      (id : RequestId) (code : Code) (fault : Fault) (p : Router × Option Owed)
      → Claimed r id p
      → Settles 0 n i (voice (answer_claim id code fault p).0)
  unfolding answer_claim
  answer_claim-Settles id code fault (q, none) (missed h v) = same_voice 0 n i v s
  answer_claim-Settles id code fault (q, none) (took owner f h v) = cc
  answer_claim-Settles id code fault (q, some o) (missed h v) = cc
  answer_claim-Settles id code fault (q, some o) (took owner f h v) =
      forward-Settles q 0 n i (error_response id code fault)
        (same_voice _ n i v (Settles-delete 0 n i (voice r) id owner f s))

  response_claim-Settles :
      (id : RequestId) (payload : String) (p : Router × Option Owed)
      → Claimed r id p
      → Settles 0 n i (voice (response_claim (response id payload) p))
  unfolding response_claim
  response_claim-Settles id payload (q, none) (missed h v) = same_voice 0 n i v s
  response_claim-Settles id payload (q, none) (took owner f h v) = cc
  response_claim-Settles id payload (q, some o) (missed h v) = cc
  response_claim-Settles id payload (q, some o) (took owner f h v) =
      forward-Settles q 0 n i (response id payload)
        (same_voice _ n i v (Settles-delete 0 n i (voice r) id owner f s))

  cancelled_claim-Settles :
      (id : RequestId) (req : Request) (p : Router × Option Owed)
      → Claimed r id p
      → Settles 0 n i (voice (cancelled_claim req id p))
  unfolding cancelled_claim
  cancelled_claim-Settles id req (q, none) (missed h v) = same_voice 0 n i v s
  cancelled_claim-Settles id req (q, none) (took owner f h v) = cc
  cancelled_claim-Settles id req (q, some o) (missed h v) = cc
  cancelled_claim-Settles id req (q, some o) (took owner f h v) =
      let counted = record q { usage = record q.usage { cancelled = q.usage.cancelled + 1 } } in
      let reply = error_response id request_cancelled cancelled_by_client in
      same_voice 0 n i (voice-queue_cancellation (forward counted reply) o req) (
        forward-Settles counted 0 n i reply
          (same_voice _ n i v (Settles-delete 0 n i (voice r) id owner f s)))

  expired_claim-Settles :
      (id : RequestId) (req : Request) (p : Router × Option Owed)
      → Claimed r id p
      → Settles 0 n i (voice (expired_claim req id p))
  unfolding expired_claim
  expired_claim-Settles id req (q, none) (missed h v) = same_voice 0 n i v s
  expired_claim-Settles id req (q, none) (took owner f h v) = cc
  expired_claim-Settles id req (q, some o) (missed h v) = cc
  expired_claim-Settles id req (q, some o) (took owner f h v) =
      let queued = queue_cancellation q o req in
      let counted = record queued {
        usage = record queued.usage { execution_expired = queued.usage.execution_expired + 1 };
      } in
      let reply = error_response id server_error execution_deadline in
      same_voice 0 n i (voice-offer counted reply output_full_execution) (
        Settles-say 0 n i (voice counted) reply output_full_execution (
          same_voice _ n i (voice-queue_cancellation q o req ∙ v)
            (Settles-delete 0 n i (voice r) id owner f s)))

  pub fail_delivery-Settles :
      (id : RequestId) (state : Token) (code : Code) (fault : Fault)
      → Settles 0 n i (voice (fail_delivery r id state code fault).0)
  unfolding fail_delivery
  fail_delivery-Settles id state code fault =
      answer_claim-Settles id code fault (finish r id none state) (finish-Claimed r id none state)

  pub upstream_response-Settles :
      (conn : Conn) (id : RequestId) (payload : String)
      → Settles 0 n i (voice (upstream_response r conn id payload))
  unfolding upstream_response
  upstream_response-Settles conn id payload =
      response_claim-Settles id payload (finish r id conn none) (finish-Claimed r id conn none)

  pub cancel_call-Settles :
      (req : Request) (named_id : Option RequestId)
      → Settles 0 n i (voice (cancel_call r req named_id))
  unfolding cancel_call
  cancel_call-Settles req none = s
  cancel_call-Settles req (some id) =
      cancelled_claim-Settles id req (finish r id none none) (finish-Claimed r id none none)

  pub expire_execution-Settles :
      (id : RequestId) (state : Token) (req : Request)
      → Settles 0 n i (voice (expire_execution r id state req))
  unfolding expire_execution
  expire_execution-Settles id state req =
      expired_claim-Settles id req (finish r id none state) (finish-Claimed r id none state)

  voice-ingress_failed : (p : Router × Bool) → voice (ingress_failed p) ≡ voice p.0
  unfolding ingress_failed
  voice-ingress_failed (q, true) = refl
  voice-ingress_failed (q, false) = refl

  pub fail_ingress-Settles :
      (call : Delivery) (code : Code) (fault : Fault)
      → Settles 0 n i (voice (fail_ingress r call code fault))
  unfolding fail_ingress
  fail_ingress-Settles call code fault =
      let failed = fail_delivery r call.req.id call.state code fault in
      same_voice 0 n i (voice-call_cancel (ingress_failed failed) call.cancel) (
        same_voice 0 n i (voice-ingress_failed failed)
          (fail_delivery-Settles call.req.id call.state code fault))

-- How often `i` stands in a list of ids.
abbrev occurrences : ℕ → List RequestId → ℕ
occurrences i [] = 0
occurrences i (id ∷ ids) = named i id + occurrences i ids

strand-Settles :
    (n i : ℕ) (r : Router) (conn : Conn) (m : Map RequestId Owed) (k : ℕ)
    → IsUnique m
    → Within r.awaiting_upstream m
    → Settles k n i (voice r)
    → Settles (occurrences i (strand r conn m).1 + k) n i (voice (strand r conn m).0)
unfolding strand
strand-Settles n i r conn [] k u h s = λ live clean. omega (arith, s live clean)
strand-Settles n i r conn ((id, owner) ∷ m) k u h s = elim (Bool-cases (owner.conn == conn)) [
  | inr other ↦ rw (other, strand) (strand-Settles n i r conn m k u.1 h.1 s)
  | inl met ↦
      rw (met, strand)
        (let r' = remove_locked r id owner in
          let ids = (strand r' conn m).1 in
          let rest =
            strand-Settles n i r' conn m (named i id + k) u.1
              (rw awaiting-remove (Within-delete id r.awaiting_upstream m u.0 h.1))
              (same_voice _ n i (voice-remove_locked r id owner)
                (Settles-delete k n i (voice r) id owner h.0 s)) in
          λ live clean. omega (arith, rest live clean))
]

forward_lost-Settles :
    (n i : ℕ) (r : Router) (worktree : String) (ids : List RequestId) (k : ℕ)
    → Settles (occurrences i ids + k) n i (voice r)
    → Settles k n i (voice (forward_lost r worktree ids))
unfolding forward_lost
forward_lost-Settles n i r worktree [] k s = λ live clean. omega (arith, s live clean)
forward_lost-Settles n i r worktree (id ∷ ids) k s =
    let reply = error_response id internal_error (went_away worktree) in
    forward_lost-Settles n i (forward r reply) worktree ids k (
      forward-Settles r (occurrences i ids + k) n i reply
        (λ live clean. omega (arith, s live clean)))

pub fail_in_flight-Settles :
    (r : Router) (n i : ℕ) (conn : Conn) (worktree : String)
    → IsUnique r.awaiting_upstream
    → Settles 0 n i (voice r)
    → Settles 0 n i (voice (fail_in_flight r conn worktree))
unfolding fail_in_flight
fail_in_flight-Settles r n i conn worktree u s =
    forward_lost-Settles n i _ worktree _ 0
      (strand-Settles n i r conn r.awaiting_upstream 0 u (Within-self r.awaiting_upstream u) s)
