-- ===== src/Requests/Replies/Claims.antt =====
-- What a claim, and what follows it, changes of a router's voice.
use gopls_mcp_manager.Prelude.{
  nat_eq, string_eq, option_eq, pair_eq, ◌≡◌, refl, ap, ◌∙◌, inl, inr, Option, some, none, lookup,
  delete, Bool-cases, arith,
}
use gopls_mcp_manager.Requests.State.{
  RequestId, Conn, Token, CancelFunc, OperationKey, Request, Owed, output_full, Message, Router,
}
use gopls_mcp_manager.Requests.Credits.{
  abandon_operation_locked, end_operation_locked, owner_locked,
}
use gopls_mcp_manager.Requests.Output.{forward, queue_cancellation}
use gopls_mcp_manager.Requests.Terminal.{
  call_cancel, cancel_queued, stop_timer, drop_record, remove_locked, same_conn, claim,
  end_delivered, finish,
}
use gopls_mcp_manager.Requests.Books.Placement.{owner_locked-lookup}
use gopls_mcp_manager.Requests.Replies.{Voice, voice, voice-offer, say}

pub voice-end : (r : Router) (key : OperationKey) → voice (end_operation_locked r key) ≡ voice r
unfolding end_operation_locked
voice-end r key = ground arith

pub voice-abandon :
    (r : Router) (key : OperationKey) → voice (abandon_operation_locked r key) ≡ voice r
unfolding abandon_operation_locked
voice-abandon r key = ground arith

pub voice-call_cancel : (r : Router) (c : CancelFunc) → voice (call_cancel r c) ≡ voice r
voice-call_cancel r none = refl
voice-call_cancel r (some c) = refl

pub voice-queue_cancellation :
    (r : Router) (owner : Owed) (req : Request) → voice (queue_cancellation r owner req) ≡ voice r
unfolding queue_cancellation
voice-queue_cancellation r owner req = ground arith

pub voice-forward :
    (r : Router) (msg : Message) → voice (forward r msg) ≡ say (voice r) msg output_full
unfolding forward
voice-forward r msg = voice-offer r msg output_full

pub voice-remove_locked :
    (r : Router) (id : RequestId) (owner : Owed)
    → voice (remove_locked r id owner)
      ≡ record (voice r) { awaiting = delete id r.awaiting_upstream }
unfolding remove_locked cancel_queued stop_timer drop_record abandon_operation_locked
voice-remove_locked r id owner = ground arith

-- A claim either changes nothing, or takes the record that it returns.
pub data Claimed (r : Router) (id : RequestId) (p : Router × Option Owed) : Type 0 where
  missed : p.1 ≡ none → voice p.0 ≡ voice r → Claimed r id p
  took :
      (owner : Owed)
      → lookup id r.awaiting_upstream ≡ some owner
      → p.1 ≡ some owner
      → voice p.0 ≡ record (voice r) { awaiting = delete id r.awaiting_upstream }
      → Claimed r id p

claim-Claimed :
    (r : Router) (id : RequestId) (conn : Conn) (o : Option Owed)
    → ((owner : Owed) → o ≡ some owner → lookup id r.awaiting_upstream ≡ some owner)
    → Claimed r id (claim r id conn o)
unfolding claim
claim-Claimed r id conn none h = missed refl refl
claim-Claimed r id conn (some owner) h = elim (Bool-cases (same_conn conn owner)) [
  | inl same ↦ rw same (took owner (h owner refl) refl (voice-remove_locked r id owner))
  | inr other ↦ rw other (missed refl refl)
]

voice-end_delivered :
    (r : Router) (id : RequestId) (conn : Conn) → voice (end_delivered r id conn) ≡ voice r
unfolding end_delivered
voice-end_delivered r id none = refl
voice-end_delivered r id (some c) = voice-end r (some c, id)

Claimed-same :
    (r s : Router) (id : RequestId) (p : Router × Option Owed)
    → voice s ≡ voice r
    → Claimed s id p
    → Claimed r id p
Claimed-same r s id p e (missed h v) = missed h (v ∙ e)
Claimed-same r s id p e (took owner h q v) =
    took owner (ground (arith, e)) q
      (v ∙ ap (λ (u : Voice). record u { awaiting = delete id u.awaiting }) e)

pub finish-Claimed :
    (r : Router) (id : RequestId) (conn : Conn) (state : Token)
    → Claimed r id (finish r id conn state)
unfolding finish
finish-Claimed r id conn state =
    let r' = end_delivered r id conn in
    Claimed-same r r' id (claim r' id conn (owner_locked r' id state))
      (voice-end_delivered r id conn)
      (claim-Claimed r' id conn (owner_locked r' id state)
        (λ owner h. owner_locked-lookup r' id state h))
