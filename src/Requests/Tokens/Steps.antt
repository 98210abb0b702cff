-- ===== src/Requests/Tokens/Steps.antt =====
-- The token of an upstream operation through all steps but the beginning of one on its connection.
use gopls_mcp_manager.Prelude.{
  nat_eq, string_eq, option_eq, pair_eq, ◌==◌, ◌≡◌, ◌≢◌, inl, inr, String, ℕ, ◌&&◌, not, Bool,
  Option, some, none, List, [], ◌∷◌, lookup, lookup-insert, Bool-cases, ==-ne, Option-cases,
  if_cases, arith, is_some, reached, ◌||◌, length, ltb, ◌++◌,
}
use gopls_mcp_manager.Requests.State.{
  RequestId, Token, CancelFunc, OperationKey, Owed, Request, Fault, Code, Delivery, Router,
  server_error, routing_queue_full, context_canceled, volunteered,
}
use gopls_mcp_manager.Requests.Credits.{
  begin_owned, begin_operation, owner_locked, rejected_locked, count,
}
use gopls_mcp_manager.Requests.Output.{lane_queue, refuse, write_to_client}
use gopls_mcp_manager.Requests.Terminal.{call_cancel, start_execution, fail_ingress}
use gopls_mcp_manager.Requests.Admission.{
  admit, bind_owned, bind_worktree, place_owned, place_delivery, is_withdrawn, is_lane_refused,
}
use gopls_mcp_manager.Requests.Ingress.{prepared, prepare, enqueue_incoming, admitted, read_ingress}
use gopls_mcp_manager.Requests.Session.{
  Event, reads, fails, binds, rejects, places, begins, starts, retries, abandons, rejects_size,
  responds, volunteers, loses, expires, writes, ticks, lanes_become, ends, clears, step, Run, start,
  next,
}
use gopls_mcp_manager.Requests.Books.Terminal.{books-write_to_client}
use gopls_mcp_manager.Requests.Tokens.{
  Fits, same_operations, end_operation_locked-Fits, retry-Fits, forward-Fits, call_cancel-Fits,
  expire_execution-Fits, cancel_call-Fits, fail_delivery-Fits, fail_ingress-Fits,
  upstream_response-Fits, fail_in_flight-Fits, clear_requests-Fits,
}

-- The event begins no operation of this connection.
abbrev pub Spares : ℕ → Event → Type 0
Spares c (begins id state conn worktree cancel placed) = conn ≢ c
Spares c e = Unit

same_conns : (a b : ℕ) (x y : RequestId) → ◌≡◌ {A = OperationKey} (some a, x) (some b, y) → a ≡ b
same_conns a b x y h = cc

module _ (c : ℕ) (i : RequestId) (token : Token) where
  abbrev Suits : Router → Type 0
  Suits r = Fits (some c, i) token r

  start_execution-Suits :
      (r : Router) (id : RequestId) (state : Token) → Suits r → Suits (start_execution r id state)
  unfolding start_execution
  start_execution-Suits r id none f op h = f op h
  start_execution-Suits r id (some t) f op h = ground (arith, f op, h)

  place_owned-Suits :
      (r : Router) (id : RequestId) (cancel : CancelFunc) (o : Option Owed)
      → Suits r
      → Suits (place_owned r id cancel o).0
  unfolding place_owned
  place_owned-Suits r id cancel none f = f
  place_owned-Suits r id cancel (some owner) f = f

  place_delivery-Suits :
      (r : Router) (id : RequestId) (expected : Token) (cancel : CancelFunc)
      → Suits r
      → Suits (place_delivery r id expected cancel).0
  unfolding place_delivery
  place_delivery-Suits r none expected cancel f = f
  place_delivery-Suits r (some id) expected cancel f = place_owned-Suits r (some id) cancel _ f

  rejected_locked-Suits :
      (r : Router) (reason : String) → Suits r → Suits (rejected_locked r reason)
  unfolding rejected_locked
  rejected_locked-Suits r reason f = f

  -- What an operation with an error answers suits.
  abbrev Fine : Router × Option Fault → Type 0
  Fine p = Suits p.0

  bind_owned-Suits :
      (r : Router) (id : RequestId) (worktree : String) (cancel : CancelFunc) (o : Option Owed)
      → Suits r
      → Fine (bind_owned r id worktree cancel o)
  unfolding bind_owned
  bind_owned-Suits r none worktree cancel o f = f
  bind_owned-Suits r (some id) worktree cancel none f = f
  bind_owned-Suits r (some id) worktree cancel (some owner) f =
      if_cases Fine (reached (count worktree r.per_worktree) r.limits.per_lane) _ _
        (λ full. rejected_locked-Suits r "lane_outstanding" f) (λ room. f)

  bind_worktree-Suits :
      (r : Router) (call : Delivery) (worktree : String) (cancel : CancelFunc) (late : Bool)
      → Suits r
      → Fine (bind_worktree r call worktree cancel late)
  unfolding bind_worktree
  bind_worktree-Suits r call worktree cancel late f =
      if_cases Fine (is_withdrawn r call late) _ _ (λ gone. f)
        (λ wanted.
          if_cases Fine (is_lane_refused r worktree) _ _
            (λ refused. rejected_locked-Suits r "lanes" f)
            (λ lane. bind_owned-Suits r call.req.id worktree cancel _ f))

  begin_owned-Suits :
      (r : Router) (id : RequestId) (state : Token) (conn : ℕ) (worktree : String)
      (cancel : CancelFunc) (placed : Option ℕ) (owner : Owed)
      → conn ≢ c
      → Suits r
      → Suits (begin_owned r id state (some conn) worktree cancel placed owner).0
  unfolding begin_owned
  begin_owned-Suits r id state conn worktree cancel placed owner other f =
      let unequal = ==-ne (some conn, id) (some c, i) (λ e. other (same_conns conn c id i e)) in
      if_cases Fine (is_some (lookup (some conn, id) r.operations)) _ _ (λ held. f)
        (λ free.
          if_cases Fine
            (reached (length r.operations) r.limits.session
              || reached (count worktree r.operations_per_worktree) r.limits.per_lane)
            _ _ (λ full. rejected_locked-Suits r "upstream_operations" f)
            (λ room op h. f op (rw (lookup-insert, unequal) at h)))

  begin_held :
      (r : Router) (id : RequestId) (state : Token) (conn : ℕ) (worktree : String)
      (cancel : CancelFunc) (placed : Option ℕ)
      → conn ≢ c
      → Suits r
      → (o : Option Owed)
      → Fine (elim o [
        | none ↦ (r, some context_canceled)
        | some owner ↦ begin_owned r id state (some conn) worktree cancel placed owner
      ])
  begin_held r id state conn worktree cancel placed other f none = f
  begin_held r id state conn worktree cancel placed other f (some owner) =
      begin_owned-Suits r id state conn worktree cancel placed owner other f

  begin_operation-Suits :
      (r : Router) (id : RequestId) (state : Token) (conn : ℕ) (worktree : String)
      (cancel : CancelFunc) (placed : Option ℕ)
      → conn ≢ c
      → Suits r
      → Fine (begin_operation r id state (some conn) worktree cancel placed)
  unfolding begin_operation
  begin_operation-Suits r none state conn worktree cancel placed other f = f
  begin_operation-Suits r (some id) state conn worktree cancel placed other f =
      begin_held r (some id) state conn worktree cancel placed other f
        (owner_locked r (some id) state)

  refuse-Suits :
      (r : Router) (req : Request) (code : Code) (fault : Fault)
      → Suits r
      → Suits (refuse r req code fault)
  unfolding refuse
  refuse-Suits r req code fault f = elim (Option-cases req.id) [
    | inl e ↦ rw (e, refuse) f
    | inr (id, e) ↦ rw (e, refuse) (forward-Fits (some c, i) token r _ f)
  ]

  admit-Suits :
      (r : Router) (id : RequestId) (cancel : CancelFunc) → Suits r → Suits (admit r id cancel).0
  unfolding admit
  admit-Suits r none cancel f = f
  admit-Suits r (some id) cancel f =
      if_cases Admitted (is_some (lookup (some id) r.awaiting_upstream)) _ _
        (λ duplicate. rejected_locked-Suits r "duplicate_id" f)
        (λ fresh.
          if_cases Admitted (reached (length r.awaiting_upstream) r.limits.session) _ _
            (λ full. rejected_locked-Suits r "session_outstanding" f) (λ room. f))
    where
      Admitted : Router × Token × Option Fault → Type 0
      Admitted p = Suits p.0

  prepared-Suits :
      (req : Request) (cancel : ℕ) (p : Router × Token × Option Fault)
      → Suits p.0
      → Suits (prepared req cancel p).0
  unfolding prepared
  prepared-Suits req cancel (r, state, none) f = f
  prepared-Suits req cancel (r, state, some fault) f =
      refuse-Suits (call_cancel r (some cancel)) req server_error fault
        (call_cancel-Fits (some c, i) token r (some cancel) f)

  enqueue_incoming-Suits : (p : Router × Option Delivery) → Suits p.0 → Suits (enqueue_incoming p)
  unfolding enqueue_incoming
  enqueue_incoming-Suits (r, none) f = f
  enqueue_incoming-Suits (r, some call) f =
      let refused = rejected_locked r "routing_queue" in
      if_cases Suits r.done _ _ (λ over. call_cancel-Fits (some c, i) token r call.cancel f)
        (λ live.
          if_cases Suits (ltb (length r.incoming) lane_queue)
            (record r { incoming = r.incoming ++ call ∷ [] })
            (fail_ingress refused call server_error routing_queue_full) (λ room. f)
            (λ full.
              fail_ingress-Fits (some c, i) token refused call server_error routing_queue_full
                (rejected_locked-Suits r "routing_queue" f)))

  module _ (with_roots_capability : String → String)
      (cancelled_id : String → Option RequestId) where
    admitted-Suits :
        (r : Router) (req : Request) (cancel : ℕ)
        → Suits r
        → Suits (admitted with_roots_capability cancelled_id r req cancel).0
    unfolding admitted prepare
    admitted-Suits r req cancel f =
        if_cases (λ (p : Router × Option Delivery). Suits p.0)
          (req.method == "notifications/cancelled" && not (is_some req.id)) _ _
          (λ cancelled. cancel_call-Fits (some c, i) token r req (cancelled_id req.params) f)
          (λ other.
            prepared-Suits req cancel (admit r req.id (some cancel))
              (admit-Suits r req.id (some cancel) f))

    read_ingress-Suits :
        (r : Router) (req : Request) (cancel : ℕ)
        → Suits r
        → Suits (read_ingress with_roots_capability cancelled_id r req cancel)
    unfolding read_ingress
    read_ingress-Suits r req cancel f =
        let rewritten = record req { params = with_roots_capability req.params } in
        elim (Bool-cases (req.method == "initialize")) [
          | inl first ↦ rw first (
              enqueue_incoming-Suits
                (admitted with_roots_capability cancelled_id
                  (record r { initialize = some rewritten }) rewritten cancel)
                (admitted-Suits (record r { initialize = some rewritten }) rewritten cancel f))
          | inr other ↦ rw other (elim (Bool-cases (is_some r.initialize)) [
            | inl ready ↦ rw ready (
                enqueue_incoming-Suits (admitted with_roots_capability cancelled_id r req cancel)
                  (admitted-Suits r req cancel f))
            | inr early ↦ rw early (refuse-Suits r req _ _ f)
          ])
        ]

    step-Suits :
        (r : Router) (e : Event)
        → Spares c e
        → Suits r
        → Suits (step with_roots_capability cancelled_id r e)
    unfolding step
    step-Suits r (reads req cancel) p f = read_ingress-Suits r req cancel f
    step-Suits r (fails call code fault) p f =
        fail_ingress-Fits (some c, i) token r call code fault f
    step-Suits r (binds call worktree cancel late) p f =
        bind_worktree-Suits r call worktree cancel late f
    step-Suits r (rejects reason) p f = rejected_locked-Suits r reason f
    step-Suits r (places id expected cancel) p f = place_delivery-Suits r id expected cancel f
    step-Suits r (begins id state conn worktree cancel placed) p f =
        begin_operation-Suits r id state conn worktree cancel placed p f
    step-Suits r (starts id state) p f = start_execution-Suits r id state f
    step-Suits r (retries id conn state) p f = retry-Fits (some c, i) token r id (some conn) state f
    step-Suits r (abandons id state code fault) p f =
        fail_delivery-Fits (some c, i) token r id state code fault f
    step-Suits r (rejects_size conn id) p f =
        end_operation_locked-Fits (some c, i) token r (some conn, id) f
    step-Suits r (responds conn id payload) p f =
        upstream_response-Fits (some c, i) token r (some conn) id payload f
    step-Suits r (volunteers payload) p f = forward-Fits (some c, i) token r (volunteered payload) f
    step-Suits r (loses conn worktree) p f =
        fail_in_flight-Fits (some c, i) token r (some conn) worktree f
    step-Suits r (expires id state req) p f =
        expire_execution-Fits (some c, i) token r id state req f
    step-Suits r writes p f =
        same_operations (some c, i) token r (write_to_client r) (books-write_to_client r) f
    step-Suits r (ticks now) p f = f
    step-Suits r (lanes_become lanes) p f = f
    step-Suits r ends p f = f
    step-Suits r clears p f = clear_requests-Fits (some c, i) token r f

-- No event of a run begins an operation of this connection.
abbrev pub AllSpare : ℕ → List Event → Type 0
AllSpare c [] = Unit
AllSpare c (e ∷ es) = Spares c e × AllSpare c es

pub Run-Fits :
    (with_roots_capability : String → String) (cancelled_id : String → Option RequestId) (c : ℕ)
    (i : RequestId) (token : Token) {r s : Router} {es : List Event}
    → Run with_roots_capability cancelled_id r es s
    → AllSpare c es
    → Fits (some c, i) token r
    → Fits (some c, i) token s
Run-Fits roots cancelled c i token start spare f = f
Run-Fits roots cancelled c i token (next e run p) spare f =
    step-Suits c i token roots cancelled _ e spare.0
      (Run-Fits roots cancelled c i token run spare.1 f)
