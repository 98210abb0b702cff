-- ===== src/Requests/Books/Steps.antt =====
-- Each operation of the tracker keeps the accounts balanced, on every branch.
use gopls_mcp_manager.Prelude.{
  nat_eq, string_eq, option_eq, pair_eq, ℕ, ◌+◌, String, Bool, false, ◌||◌, ◌≡◌, refl, ap, ◌∙◌, inl,
  inr, Option, some, none, lookup, insert, lookup-insert, insert-IsUnique, total-insert, length,
  arith, ◌==◌, reached, max, Option-cases, Bool-cases,
}
use gopls_mcp_manager.Requests.State.{
  RequestId, Conn, Token, CancelFunc, Operation, Owed, Delivery, Router,
}
use gopls_mcp_manager.Requests.Credits.{
  count, owner_locked, abandon_operation_locked, begin_owned, begin_operation,
}
use gopls_mcp_manager.Requests.Terminal.{claim, end_delivered, finish, retry}
use gopls_mcp_manager.Requests.Admission.{
  admit, is_withdrawn, is_lane_refused, bind_owned, bind_worktree, place_delivery,
}
use gopls_mcp_manager.Requests.Books.{books, IsBalanced, runs_on}
use gopls_mcp_manager.Requests.Books.Tally.{length-insert_new}
use gopls_mcp_manager.Requests.Books.Credits.{
  rejected_locked-IsBalanced, end_operation_locked-IsBalanced, abandon_operation_locked-IsBalanced,
}
use gopls_mcp_manager.Requests.Books.Terminal.{remove_locked-IsBalanced, awaiting-abandon}
use gopls_mcp_manager.Requests.Books.Placement.{
  owner_locked-lookup, reassign-IsBalanced, take-IsBalanced, assign-IsBalanced, below_limit,
}

claim-IsBalanced :
    (r : Router) (id : RequestId) (conn : Conn) (o : Option Owed)
    → ((owner : Owed) → o ≡ some owner → lookup id r.awaiting_upstream ≡ some owner)
    → IsBalanced (books r)
    → IsBalanced (books (claim r id conn o).0)
unfolding claim
claim-IsBalanced r id conn none h b = b
claim-IsBalanced r id conn (some owner) h b =
    ground (arith, remove_locked-IsBalanced r id owner (h owner refl) b)

end_delivered-IsBalanced :
    (r : Router) (id : RequestId) (conn : Conn)
    → IsBalanced (books r)
    → IsBalanced (books (end_delivered r id conn))
unfolding end_delivered
end_delivered-IsBalanced r id none b = b
end_delivered-IsBalanced r id (some c) b = end_operation_locked-IsBalanced r (some c, id) b

pub finish-IsBalanced :
    (r : Router) (id : RequestId) (conn : Conn) (state : Token)
    → IsBalanced (books r)
    → IsBalanced (books (finish r id conn state).0)
unfolding finish
finish-IsBalanced r id conn state b =
    let r' = end_delivered r id conn in
    claim-IsBalanced r' id conn (owner_locked r' id state)
      (λ owner h. owner_locked-lookup r' id state h) (end_delivered-IsBalanced r id conn b)

pub retry-IsBalanced :
    (r : Router) (id : RequestId) (conn : Conn) (state : Token)
    → IsBalanced (books r)
    → IsBalanced (books (retry r id conn state).0)
unfolding retry
retry-IsBalanced r none conn state b = b
retry-IsBalanced r (some i) conn state b = elim (Option-cases (owner_locked r (some i) state)) [
  | inl e ↦ rw (e, retry) b
  | inr (owner, e) ↦
      rw (e, retry)
        (elim (Bool-cases (owner.conn == conn)) [
          | inl same ↦ rw same (
              reassign-IsBalanced (books (abandon_operation_locked r (conn, some i))) (some i) owner
                (abandon_operation_locked-IsBalanced r (conn, some i) b) _
                (ap (lookup (some i)) (awaiting-abandon r (conn, some i))
                  ∙ owner_locked-lookup r (some i) state e)
                refl)
          | inr other ↦ rw other b
        ])
]

module _ (r : Router) (i : ℕ) (state : Token) (conn : Conn) (worktree : String)
    (cancel : CancelFunc) (placed : Option ℕ) (b : IsBalanced (books r)) where
  begin_owned-IsBalanced :
      (owner : Owed)
      → lookup (some i) r.awaiting_upstream ≡ some owner
      → IsBalanced (books (begin_owned r (some i) state conn worktree cancel placed owner).0)
  unfolding begin_owned
  begin_owned-IsBalanced owner h = elim (Option-cases (lookup (conn, some i) r.operations)) [
    | inr (op, e) ↦ rw e b
    | inl e ↦ rw e (elim (Bool-cases full) [
      | inl over ↦ rw over (rejected_locked-IsBalanced r "upstream_operations" b)
      | inr room ↦ rw room (
          reassign-IsBalanced _ (some i) owner
            (take-IsBalanced (books r) b (conn, some i) taken e (ground arith) (ground arith)) _ h
            refl)
    ])
  ]
    where
      full : Bool
      full =
          reached (length r.operations) r.limits.session
          || reached (count worktree r.operations_per_worktree) r.limits.per_lane

      taken : Operation
      taken = record { worktree = worktree; abandoned = false; state = state }

  pub begin_operation-IsBalanced :
      IsBalanced (books (begin_operation r (some i) state conn worktree cancel placed).0)
  unfolding begin_operation
  begin_operation-IsBalanced = elim (Option-cases (owner_locked r (some i) state)) [
    | inl e ↦ rw (e, begin_operation) b
    | inr (owner, e) ↦
        rw (e, begin_operation)
          (begin_owned-IsBalanced owner (owner_locked-lookup r (some i) state e))
  ]

pub place_delivery-IsBalanced :
    (r : Router) (id : RequestId) (expected : Token) (cancel : CancelFunc)
    → IsBalanced (books r)
    → IsBalanced (books (place_delivery r id expected cancel).0)
unfolding place_delivery
place_delivery-IsBalanced r none expected cancel b = b
place_delivery-IsBalanced r (some i) expected cancel b =
    elim (Option-cases (owner_locked r (some i) expected)) [
      | inl e ↦ rw (e, place_delivery) b
      | inr (owner, e) ↦
          rw (e, place_delivery)
            (reassign-IsBalanced (books r) (some i) owner b _
              (owner_locked-lookup r (some i) expected e) refl)
    ]

module _ (r : Router) (i : ℕ) (cancel : CancelFunc) (b : IsBalanced (books r)) where
  minted-IsBalanced :
      (owner : Owed)
      → owner.worktree ≡ ""
      → lookup (some i) r.awaiting_upstream ≡ none
      → reached (length r.awaiting_upstream) r.limits.session ≡ false
      → IsBalanced (record (books r) {
        awaiting = insert (some i) owner r.awaiting_upstream;
        admitted = r.usage.admitted + 1;
        peak = max r.usage.peak (length r.awaiting_upstream + 1);
      })
  minted-IsBalanced owner unrouted fresh room = record {
    unique_awaiting = insert-IsUnique (some i) owner r.awaiting_upstream b.unique_awaiting;
    unique_operations = b.unique_operations;
    tracked = ground (arith, lookup-insert (some i) none owner r.awaiting_upstream, b.tracked);
    tally = λ w named. ground (
      arith,
      total-insert (runs_on w) (some i) owner r.awaiting_upstream,
      string_eq.same_iff owner.worktree w,
      b.tally w named,
    );
    taken = b.taken;
    ledger = omega (arith, length-insert_new (some i) owner r.awaiting_upstream fresh, b.ledger);
    breakdown = b.breakdown;
    within_session = omega (
      arith,
      length-insert_new (some i) owner r.awaiting_upstream fresh,
      below_limit (length r.awaiting_upstream) r.limits.session room,
    );
    within_lane = b.within_lane;
    within_operations = b.within_operations;
    within_taken = b.within_taken;
    peaked = omega (arith, length-insert_new (some i) owner r.awaiting_upstream fresh);
  }

  pub admit-IsBalanced : IsBalanced (books (admit r (some i) cancel).0)
  unfolding admit
  admit-IsBalanced = elim (Option-cases (lookup (some i) r.awaiting_upstream)) [
    | inr (owner, e) ↦ rw e (rejected_locked-IsBalanced r "duplicate_id" b)
    | inl e ↦ rw e (elim (Bool-cases (reached (length r.awaiting_upstream) r.limits.session)) [
      | inl full ↦ rw full (rejected_locked-IsBalanced r "session_outstanding" b)
      | inr room ↦ rw room (minted-IsBalanced _ refl e room)
    ])
  ]

module _ (r : Router) (call : Delivery) (worktree : String) (cancel : CancelFunc) (late : Bool)
    (b : IsBalanced (books r)) where
  bind_owned-IsBalanced :
      (id : RequestId) (o : Option Owed)
      → lookup id r.awaiting_upstream ≡ o
      → ((owner : Owed) → o ≡ some owner → owner.worktree ≡ "")
      → IsBalanced (books (bind_owned r id worktree cancel o).0)
  unfolding bind_owned
  bind_owned-IsBalanced none o h unrouted = b
  bind_owned-IsBalanced (some i) none h unrouted = b
  bind_owned-IsBalanced (some i) (some owner) h unrouted =
      elim (Bool-cases (reached (count worktree r.per_worktree) r.limits.per_lane)) [
        | inl full ↦ rw full (rejected_locked-IsBalanced r "lane_outstanding" b)
        | inr room ↦ rw room (
            assign-IsBalanced (books r) b (some i) owner
              (record owner { worktree = worktree; cancel = cancel }) h (unrouted owner refl) room)
      ]

  pub bind_worktree-IsBalanced :
      ((owner : Owed) → lookup call.req.id r.awaiting_upstream ≡ some owner → owner.worktree ≡ "")
      → IsBalanced (books (bind_worktree r call worktree cancel late).0)
  unfolding bind_worktree
  bind_worktree-IsBalanced unrouted = elim (Bool-cases (is_withdrawn r call late)) [
    | inl gone ↦ rw gone b
    | inr live ↦ rw live (elim (Bool-cases (is_lane_refused r worktree)) [
      | inl refused ↦ rw refused (rejected_locked-IsBalanced r "lanes" b)
      | inr room ↦
          rw room (
            bind_owned-IsBalanced call.req.id (lookup call.req.id r.awaiting_upstream) refl
              unrouted)
    ])
  ]
