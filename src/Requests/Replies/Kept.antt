-- ===== src/Requests/Replies/Kept.antt =====
-- The operations that answer nothing keep every record that is owed.
use gopls_mcp_manager.Prelude.{
  nat_eq, string_eq, option_eq, pair_eq, ℕ, String, Bool, ◌≡◌, refl, ap, inl, inr, Option, some,
  none, lookup, insert, ◌==◌, Bool-cases, Option-cases, arith, is_some, reached, length, ◌||◌,
}
use gopls_mcp_manager.Requests.State.{RequestId, Conn, Token, CancelFunc, Owed, Delivery, Router}
use gopls_mcp_manager.Requests.Credits.{
  owner_locked, rejected_locked, begin_owned, begin_operation, count,
}
use gopls_mcp_manager.Requests.Terminal.{retry, start_execution}
use gopls_mcp_manager.Requests.Admission.{
  bind_worktree, bind_owned, is_withdrawn, is_lane_refused, place_delivery,
}
use gopls_mcp_manager.Requests.Books.Placement.{owner_locked-lookup}
use gopls_mcp_manager.Requests.Replies.{Voice, voice, Settles, Settles-insert}
use gopls_mcp_manager.Requests.Replies.Claims.{voice-abandon}

pub data Kept (r s : Router) : Type 0 where
  same : voice s ≡ voice r → Kept r s
  changed :
      (id : RequestId) (owner owner' : Owed)
      → lookup id r.awaiting_upstream ≡ some owner
      → voice s ≡ record (voice r) { awaiting = insert id owner' r.awaiting_upstream }
      → Kept r s

pub same_voice :
    {before after : Voice} (k n i : ℕ) → after ≡ before → Settles k n i before → Settles k n i after
same_voice {before} {after} k n i e s = rw e s

pub Kept-Settles :
    (r s : Router) (k n i : ℕ) → Kept r s → Settles k n i (voice r) → Settles k n i (voice s)
Kept-Settles r s k n i (same e) h = same_voice k n i e h
Kept-Settles r s k n i (changed id owner owner' found e) h =
    same_voice k n i e (Settles-insert k n i (voice r) id owner owner' found h)

module _ (r : Router) where
  pub retry-Kept : (id : RequestId) (conn : Conn) (state : Token) → Kept r (retry r id conn state).0
  unfolding retry
  retry-Kept none conn state = same refl
  retry-Kept (some i) conn state = elim (Option-cases (owner_locked r (some i) state)) [
    | inl e ↦ rw (e, retry) (same refl)
    | inr (owner, e) ↦
        rw (e, retry)
          (elim (Bool-cases (owner.conn == conn)) [
            | inr other ↦ rw other (same refl)
            | inl met ↦ rw met (
                changed (some i) owner (record owner { conn = none })
                  (owner_locked-lookup r (some i) state e)
                  (ap
                    (λ (v : Voice). record v {
                      awaiting = insert (some i) (record owner { conn = none }) v.awaiting;
                    })
                    (voice-abandon r (conn, some i))))
          ])
  ]

  begin_owned-Kept :
      (i : ℕ) (state : Token) (conn : Conn) (worktree : String) (cancel : CancelFunc)
      (placed : Option ℕ) (owner : Owed)
      → lookup (some i) r.awaiting_upstream ≡ some owner
      → Kept r (begin_owned r (some i) state conn worktree cancel placed owner).0
  unfolding begin_owned rejected_locked
  begin_owned-Kept i state conn worktree cancel placed owner h =
      elim (Bool-cases (is_some (lookup (conn, some i) r.operations))) [
        | inl busy ↦ rw busy (same refl)
        | inr free ↦ rw free (elim (Bool-cases full) [
          | inl over ↦ rw over (same refl)
          | inr room ↦ rw room (changed (some i) owner _ h refl)
        ])
      ]
    where
      full : Bool
      full =
          reached (length r.operations) r.limits.session
          || reached (count worktree r.operations_per_worktree) r.limits.per_lane

  pub begin_operation-Kept :
      (id : RequestId) (state : Token) (conn : Conn) (worktree : String) (cancel : CancelFunc)
      (placed : Option ℕ)
      → Kept r (begin_operation r id state conn worktree cancel placed).0
  unfolding begin_operation
  begin_operation-Kept none state conn worktree cancel placed = same refl
  begin_operation-Kept (some i) state conn worktree cancel placed =
      elim (Option-cases (owner_locked r (some i) state)) [
        | inl e ↦ rw (e, begin_operation) (same refl)
        | inr (owner, e) ↦
            rw (e, begin_operation)
              (begin_owned-Kept i state conn worktree cancel placed owner
                (owner_locked-lookup r (some i) state e))
      ]

  pub place_delivery-Kept :
      (id : RequestId) (expected : Token) (cancel : CancelFunc)
      → Kept r (place_delivery r id expected cancel).0
  unfolding place_delivery
  place_delivery-Kept none expected cancel = same refl
  place_delivery-Kept (some i) expected cancel =
      elim (Option-cases (owner_locked r (some i) expected)) [
        | inl e ↦ rw (e, place_delivery) (same refl)
        | inr (owner, e) ↦
            rw (e, place_delivery)
              (changed (some i) owner _ (owner_locked-lookup r (some i) expected e) refl)
      ]

  bind_owned-Kept :
      (id : RequestId) (worktree : String) (cancel : CancelFunc) (o : Option Owed)
      → lookup id r.awaiting_upstream ≡ o
      → Kept r (bind_owned r id worktree cancel o).0
  unfolding bind_owned rejected_locked
  bind_owned-Kept none worktree cancel o h = same refl
  bind_owned-Kept (some i) worktree cancel none h = same refl
  bind_owned-Kept (some i) worktree cancel (some owner) h =
      elim (Bool-cases (reached (count worktree r.per_worktree) r.limits.per_lane)) [
        | inl full ↦ rw full (same refl)
        | inr room ↦ rw room (changed (some i) owner _ h refl)
      ]

  pub bind_worktree-Kept :
      (call : Delivery) (worktree : String) (cancel : CancelFunc) (late : Bool)
      → Kept r (bind_worktree r call worktree cancel late).0
  unfolding bind_worktree rejected_locked
  bind_worktree-Kept call worktree cancel late = elim (Bool-cases (is_withdrawn r call late)) [
    | inl gone ↦ rw gone (same refl)
    | inr live ↦ rw live (elim (Bool-cases (is_lane_refused r worktree)) [
      | inl refused ↦ rw refused (same refl)
      | inr room ↦ rw room (
          bind_owned-Kept call.req.id worktree cancel (lookup call.req.id r.awaiting_upstream) refl)
    ])
  ]

  pub start_execution-Kept : (id : RequestId) (state : Token) → Kept r (start_execution r id state)
  unfolding start_execution
  start_execution-Kept id none = same refl
  start_execution-Kept id (some t) = same (ground arith)
