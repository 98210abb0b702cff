-- ===== src/Lanes/Outcome.antt =====
-- What a move that ends `send` leaves of its call.
use gopls_mcp_manager.Prelude.{
  ℕ, zero, suc, Bool, true, false, ◌≡◌, refl, Option, none, some, ◌≢◌, arith, subst,
  lookup-delete_self, nat_eq, option_eq,
}
use gopls_mcp_manager.Requests.State.{
  server_error, RequestId, Token, Conn, Code, Fault, Owed, Router, Message,
}
use gopls_mcp_manager.Requests.Credits.{owner_locked}
use gopls_mcp_manager.Requests.Terminal.{claim, finish, end_delivered, answer_claim, fail_delivery}
use gopls_mcp_manager.Requests.Admission.{place_owned, place_delivery}
use gopls_mcp_manager.Requests.Books.Terminal.{awaiting-remove}
use gopls_mcp_manager.Requests.Output.{forward, offer, report_error}
use gopls_mcp_manager.Lanes.Send.{
  Ending, unowned, dropped, given_up, exhausted, answered_elsewhere, delivered, Point, placing,
  trying, shaking, connected, locked, begun, retrying, taken, oversized, giving_up, failing,
  finished, World, accepted, too_large, broken, Written, Sender, dial_bounded, dial, try, placed_at,
  shaken, begun_at, wrote, retried, advance_at, advance, failure_code,
}

claim_released :
    (r : Router) (id : RequestId) (state : Token) (o : Option Owed)
    → owner_locked r id state ≡ o
    → owner_locked (claim r id none o).0 id state ≡ none
unfolding claim owner_locked
claim_released r id state none h = h
claim_released r id state (some owner) h = rw (awaiting-remove, lookup-delete_self) refl

pub finish_released :
    (r : Router) (id : RequestId) (state : Token)
    → owner_locked (finish r id none state).0 id state ≡ none
unfolding finish end_delivered
finish_released r id state = claim_released r id state (owner_locked r id state) refl

awaiting-forward :
    (r : Router) (msg : Message) → (forward r msg).awaiting_upstream ≡ r.awaiting_upstream
unfolding forward offer report_error
awaiting-forward r msg = ground arith

answer_claim-owner_locked :
    (id : RequestId) (code : Code) (fault : Fault) (j : RequestId) (state : Token)
    (p : Router × Option Owed)
    → owner_locked (answer_claim id code fault p).0 j state ≡ owner_locked p.0 j state
unfolding answer_claim owner_locked
answer_claim-owner_locked id code fault j state (r, none) = refl
answer_claim-owner_locked id code fault j state (r, some owner) = rw awaiting-forward refl

-- The call of a delivery that failed is owed to nobody that holds its token.
pub fail_delivery_released :
    (r : Router) (id : RequestId) (state : Token) (code : Code) (fault : Fault)
    → owner_locked (fail_delivery r id state code fault).0 id state ≡ none
unfolding fail_delivery
fail_delivery_released r id state code fault = rw (answer_claim-owner_locked, finish_released) refl

-- What is left where `send` ends in a way of its own.
abbrev pub Outcome : Router → Sender → Ending → Type 0
Outcome r s unowned = owner_locked r s.req.id s.expected ≡ none
Outcome r s dropped = (s.req.id ≡ none) × (s.conn ≡ none)
Outcome r s given_up = owner_locked r s.req.id s.state ≡ none
Outcome r s exhausted = owner_locked r s.req.id s.state ≡ none
Outcome r s answered_elsewhere = (s.conn ≡ none)
Outcome r s (delivered c) = Unit

abbrev Concludes : Router → Sender → Point → Type 0
Concludes r s (finished ending) = Outcome r s ending
Concludes r s p = Unit

place_owned-Concludes :
    (r : Router) (s : Sender) (i : ℕ)
    → s.req.id ≡ some i
    → (o : Option Owed) → owner_locked r (some i) s.expected ≡ o
    → (let p = placed_at s (place_owned r (some i) (some s.cancel) o) in
        Concludes p.0 p.1 p.1.point)
unfolding placed_at place_owned
place_owned-Concludes r s i e none h = rw e h
place_owned-Concludes r s i e (some owner) h = tt

placed_at-Concludes :
    (r : Router) (s : Sender) (id : RequestId)
    → s.req.id ≡ id
    → (let p = placed_at s (place_delivery r id s.expected (some s.cancel)) in
        Concludes p.0 p.1 p.1.point)
unfolding placed_at place_delivery
placed_at-Concludes r s none e = tt
placed_at-Concludes r s (some i) e =
    place_owned-Concludes r s i e (owner_locked r (some i) s.expected) refl

dial-Concludes :
    (w : World) (r : Router) (s : Sender) (n : ℕ) (conn : Conn)
    → Concludes r
        (record s { point = (dial w s n conn).0; loose = (dial w s n conn).1 })
        (dial w s n conn).0
unfolding dial dial_bounded
dial-Concludes w r s n none = ground arith
dial-Concludes w r s n (some c) = ground arith

try-Concludes :
    (w : World) (r : Router) (s : Sender) (n : ℕ) → Concludes r (try w s n) (try w s n).point
unfolding try
try-Concludes w r s n = ground (arith, dial-Concludes w r s n s.conn)

shaken-Concludes :
    (r : Router) (s : Sender) (n c : ℕ) (p : Router × Option Fault)
    → Concludes (shaken s n c p).0 (shaken s n c p).1 (shaken s n c p).1.point
unfolding shaken
shaken-Concludes r s n c (q, none) = tt
shaken-Concludes r s n c (q, some fault) = tt

begun_at-Concludes :
    (r : Router) (s : Sender) (n c : ℕ) (p : Router × Option Fault)
    → Concludes (begun_at s n c p).0 (begun_at s n c p).1 (begun_at s n c p).1.point
unfolding begun_at
begun_at-Concludes r s n c (q, none) = tt
begun_at-Concludes r s n c (q, some fault) = tt

wrote-Concludes :
    (r : Router) (s : Sender) (n c : ℕ) (written : Written)
    → Concludes r (wrote s n c written) (wrote s n c written).point
unfolding wrote
wrote-Concludes r s n c accepted = tt
wrote-Concludes r s n c too_large = tt
wrote-Concludes r s n c (broken fault) = tt

retried-Concludes :
    (s : Sender) (n : ℕ) (fault : Fault) (p : Router × Bool)
    → Concludes (retried s n fault p).0 (retried s n fault p).1 (retried s n fault p).1.point
unfolding retried
retried-Concludes s n fault (q, true) = tt
retried-Concludes s n fault (q, false) = refl

gate-Concludes :
    (w : World) (r : Router) (s : Sender) (n c : ℕ) (o : Option Fault)
    → w.gate ≡ o
    → (let p = advance_at w r s (connected n c) in Concludes p.0 p.1 p.1.point)
unfolding advance_at
gate-Concludes w r s n c none e = rw e tt
gate-Concludes w r s n c (some fault) e = rw e tt

advance_at-Concludes :
    (w : World) (r : Router) (s : Sender) (p : Point)
    → ((ending : Ending) → p ≢ finished ending)
    → (let q = advance_at w r s p in Concludes q.0 q.1 q.1.point)
unfolding advance_at
advance_at-Concludes w r s placing h = placed_at-Concludes r s s.req.id refl
advance_at-Concludes w r s (trying zero fault) h = tt
advance_at-Concludes w r s (trying (suc n) fault) h = try-Concludes w r s n
advance_at-Concludes w r s (shaking n c) h = shaken-Concludes r s n c _
advance_at-Concludes w r s (connected n c) h = gate-Concludes w r s n c w.gate refl
advance_at-Concludes w r s (locked n c) h = begun_at-Concludes r s n c _
advance_at-Concludes w r s (begun n c) h = wrote-Concludes r s n c w.written
advance_at-Concludes w r s (retrying n c fault) h = retried-Concludes s n fault _
advance_at-Concludes w r s (taken c) h = tt
advance_at-Concludes w r s (oversized c) h = tt
advance_at-Concludes w r s (giving_up c fault) h =
    fail_delivery_released r s.req.id s.state server_error fault
advance_at-Concludes w r s (failing fault) h =
    fail_delivery_released r s.req.id s.state (failure_code fault) fault
advance_at-Concludes w r s (finished ending) h = absurd (h ending refl)

-- A move that ends `send` leaves, if its token did not own the call, no record with that token; if it
-- gave up or both attempts failed, no record with the token of the placing; if it dropped its
-- message, a message without an id on a lane without a connection; if the reader had answered the
-- call, a lane without a connection.
pub advance-Outcome :
    (w : World) (r : Router) (s : Sender) (ending : Ending)
    → ((e : Ending) → s.point ≢ finished e)
    → (advance w r s).1.point ≡ finished ending
    → Outcome (advance w r s).0 (advance w r s).1 ending
unfolding advance
advance-Outcome w r s ending before after =
    subst (λ p. Concludes (advance_at w r s s.point).0 (advance_at w r s s.point).1 p) after
      (advance_at-Concludes w r s s.point before)
