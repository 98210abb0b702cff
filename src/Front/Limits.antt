-- ===== src/Front/Limits.antt =====
-- The waiters of the front end and its slots stay within their bounds, and each reply is its waiter's.
use native.Mathlib.Nat.{div-mul-le_self, mul-le-mul_right}
use gopls_mcp_manager.Prelude.{
  nat_eq, option_eq, string_eq, ℕ, ◌+◌, ◌*◌, ◌/◌, ◌≤◌, String, Bool, false, Option, none, some, [],
  ◌∷◌, length, Map, lookup, insert, delete, lookup-delete_self, ◌==◌, reached, pos_part, ltb,
  ltb→lt, ℤ, pos, negsuc, ◌≡◌, refl, inl, inr, Bool-cases, if_cases, arith,
}
use gopls_mcp_manager.Config.{Limits}
use gopls_mcp_manager.Requests.State.{RequestId, Request, Message, Delivery, Router}
use gopls_mcp_manager.Requests.Credits.{owner_locked}
use gopls_mcp_manager.Requests.Ingress.{prepare}
use gopls_mcp_manager.Lanes.Outcome.{finish_released}
use gopls_mcp_manager.Front.Calls.{
  Backend, enqueued, begin_call, id_of, is_response, replied, hand_over, ended_early, slot_capacity,
  end_call, take_slot, give_slot,
}

-- What a waiter holds is a message for its id.
abbrev pub IsOwn : RequestId → Option Message → Type 0
IsOwn id none = Unit
IsOwn id (some msg) = id_of msg ≡ id

abbrev pub AllOwn : Map RequestId (Option Message) → Type 0
AllOwn [] = Unit
AllOwn ((id, reply) ∷ rest) = IsOwn id reply × AllOwn rest

insert-AllOwn :
    (id : RequestId) (reply : Option Message) (m : Map RequestId (Option Message))
    → IsOwn id reply
    → AllOwn m
    → AllOwn (insert id reply m)
unfolding insert
insert-AllOwn id reply [] h k = (h, tt)
insert-AllOwn id reply ((other, old) ∷ m) h k =
    if_cases AllOwn (other == id) _ _ (λ same. (h, k.1))
      (λ differs. (k.0, insert-AllOwn id reply m h k.1))

delete-AllOwn :
    (id : RequestId) (m : Map RequestId (Option Message)) → AllOwn m → AllOwn (delete id m)
unfolding delete
delete-AllOwn id [] k = tt
delete-AllOwn id ((other, old) ∷ m) k =
    if_cases AllOwn (other == id) _ _ (λ same. delete-AllOwn id m k.1)
      (λ differs. (k.0, delete-AllOwn id m k.1))

replied-AllOwn :
    (m : Map RequestId (Option Message)) (id : RequestId) (msg : Message)
    (o : Option (Option Message))
    → id_of msg ≡ id
    → AllOwn m
    → AllOwn (replied m id msg o)
replied-AllOwn m id msg none e h = h
replied-AllOwn m id msg (some none) e h = insert-AllOwn id (some msg) m e h
replied-AllOwn m id msg (some (some other)) e h = h

length-insert :
    (id : RequestId) (reply : Option Message) (m : Map RequestId (Option Message))
    → length (insert id reply m) ≤ length m + 1
unfolding insert
length-insert id reply [] = omega arith
length-insert id reply ((other, old) ∷ m) = ground (arith, length-insert id reply m)

length-delete_le :
    (id : RequestId) (m : Map RequestId (Option Message)) → length (delete id m) ≤ length m
unfolding delete
length-delete_le id [] = omega arith
length-delete_le id ((other, old) ∷ m) = ground (arith, length-delete_le id m)

length-replaced :
    (id : RequestId) (reply held : Option Message) (m : Map RequestId (Option Message))
    → lookup id m ≡ some held
    → length (insert id reply m) ≤ length m
unfolding insert lookup
length-replaced id reply held [] e = cc
length-replaced id reply held ((other, old) ∷ m) e =
    ground (arith, e, length-replaced id reply held m)

room_for :
    (limit : ℤ) (n after : ℕ) → reached n limit ≡ false → after ≤ n + 1 → after ≤ pos_part limit
room_for (pos k) n after room le = ground arith
room_for (negsuc k) n after room le = cc

-- A waiter that is there gets no second entry.
length-replied :
    (m : Map RequestId (Option Message)) (id : RequestId) (msg : Message)
    (o : Option (Option Message))
    → lookup id m ≡ o
    → length (replied m id msg o) ≤ length m
length-replied m id msg none e = omega arith
length-replied m id msg (some none) e = length-replaced id (some msg) none m e
length-replied m id msg (some (some other)) e = omega arith

pending-enqueued : (b : Backend) (p : Router × Option Delivery) → (enqueued b p).pending ≡ b.pending
pending-enqueued b (r, none) = refl
pending-enqueued b (r, some call) = ground arith

slots-enqueued : (b : Backend) (p : Router × Option Delivery) → (enqueued b p).slots ≡ b.slots
slots-enqueued b (r, none) = refl
slots-enqueued b (r, some call) = ground arith

-- The front end through the calls, the replies and the exchanges that it serves, in any order; `limit` is the
-- session's limit on outstanding calls, which no step changes, and the router changes as it will.
pub data Serves (limit : ℤ) (capacity : ℕ) : Backend → Type 0 where
  opens : (b : Backend) → b.pending ≡ [] → b.slots ≡ 0 → Serves limit capacity b
  routes :
      (b : Backend) (r : Router)
      → Serves limit capacity b
      → Serves limit capacity (record b { router = r })
  calls :
      (b : Backend) (method params : String) (cancel : ℕ)
      → b.router.limits.session ≡ limit
      → Serves limit capacity b
      → Serves limit capacity (begin_call b method params cancel).0
  replies :
      (b : Backend) (msg : Message)
      → Serves limit capacity b
      → Serves limit capacity (hand_over b msg)
  returns :
      (b : Backend) (id : RequestId) (early : Bool) (req : Request)
      → Serves limit capacity b
      → Serves limit capacity (end_call b id early req)
  takes : (b : Backend) → Serves limit capacity b → Serves limit capacity (take_slot capacity b).0
  gives : (b : Backend) → Serves limit capacity b → Serves limit capacity (give_slot b)

pub record IsBounded (limit : ℤ) (capacity : ℕ) (b : Backend) : Type 0 where
  pub waiters : length b.pending ≤ pos_part limit
  pub own : AllOwn b.pending
  pub in_use : b.slots ≤ capacity

call-IsBounded :
    (limit : ℤ) (capacity : ℕ) (b : Backend) (method params : String) (cancel : ℕ)
    → b.router.limits.session ≡ limit
    → IsBounded limit capacity b
    → IsBounded limit capacity (begin_call b method params cancel).0
unfolding begin_call
call-IsBounded limit capacity b method params cancel same h =
    elim (Bool-cases (reached (length b.pending) b.router.limits.session)) [
      | inl full ↦ rw full (record { waiters = h.waiters; own = h.own; in_use = h.in_use })
      | inr room ↦
          (let id = some (b.sequence + 1) in
            let p =
              prepare b.router (record { id = id; method = method; params = params }) cancel in
            let counted = record b {
              sequence = b.sequence + 1;
              pending = insert id none b.pending;
            } in
            rw room (record {
              waiters = rw (pending-enqueued counted p) (
                  room_for limit (length b.pending) _ (rw same at room)
                    (length-insert id none b.pending));
              own = rw (pending-enqueued counted p) (insert-AllOwn id none b.pending tt h.own);
              in_use = rw (slots-enqueued counted p) h.in_use;
            }))
    ]

hand_over-IsBounded :
    (limit : ℤ) (capacity : ℕ) (b : Backend) (msg : Message)
    → IsBounded limit capacity b
    → IsBounded limit capacity (hand_over b msg)
unfolding hand_over
hand_over-IsBounded limit capacity b msg h =
    if_cases (IsBounded limit capacity) (is_response msg) _ _
      (λ answer. record {
        waiters = omega (
          arith,
          length-replied b.pending (id_of msg) msg (lookup (id_of msg) b.pending) refl,
          h.waiters,
        );
        own = replied-AllOwn b.pending (id_of msg) msg _ refl h.own;
        in_use = h.in_use;
      })
      (λ other. h)

take_slot-IsBounded :
    (limit : ℤ) (capacity : ℕ) (b : Backend)
    → IsBounded limit capacity b
    → IsBounded limit capacity (take_slot capacity b).0
unfolding take_slot
take_slot-IsBounded limit capacity b h =
    if_cases (λ (x : Backend × Bool). IsBounded limit capacity x.0) (ltb b.slots capacity) _ _
      (λ free. record {
        waiters = h.waiters;
        own = h.own;
        in_use = omega (arith, ltb→lt b.slots capacity free);
      })
      (λ full. record { waiters = h.waiters; own = h.own; in_use = h.in_use })

Serves-bounds :
    {limit : ℤ} {capacity : ℕ} {b : Backend} → Serves limit capacity b → IsBounded limit capacity b
unfolding end_call give_slot
Serves-bounds (opens b e s) = record {
  waiters = rw e (omega arith);
  own = rw e tt;
  in_use = rw s (omega arith);
}
Serves-bounds (routes b r run) =
    let h = Serves-bounds run in record { waiters = h.waiters; own = h.own; in_use = h.in_use }
Serves-bounds {limit} {capacity} (calls b method params cancel same run) =
    call-IsBounded limit capacity b method params cancel same (Serves-bounds run)
Serves-bounds {limit} {capacity} (replies b msg run) =
    hand_over-IsBounded limit capacity b msg (Serves-bounds run)
Serves-bounds (returns b id early req run) =
    let h = Serves-bounds run in
    record {
      waiters = omega (arith, length-delete_le id b.pending, h.waiters);
      own = delete-AllOwn id b.pending h.own;
      in_use = h.in_use;
    }
Serves-bounds {limit} {capacity} (takes b run) =
    take_slot-IsBounded limit capacity b (Serves-bounds run)
Serves-bounds (gives b run) =
    let h = Serves-bounds run in
    record { waiters = h.waiters; own = h.own; in_use = omega (arith, h.in_use) }

both : {a b c : ℕ} → a ≤ b → b ≤ c → a ≤ c
both h k = omega (arith, h, k)

within_budget : (n bytes message : ℕ) → n ≤ bytes / message → n * message ≤ bytes
within_budget n bytes message h = both (mul-le-mul_right message h) (div-mul-le_self bytes message)

-- What the front end promises of its callers and of its memory.
pub record IsServed (limits : Limits) (b : Backend) : Type 0 where
  pub waiters : length b.pending ≤ pos_part limits.session
  pub own : AllOwn b.pending
  pub exchanges : b.slots ≤ pos_part limits.session
  pub reserved : b.slots * pos_part limits.message_bytes ≤ pos_part limits.http_bytes

-- However calls, replies and exchanges come and go, the calls that wait are at most the session's
-- limit, a reply that a waiter holds is one with the waiter's own id, and the exchanges that are served
-- are at most the session's limit and, at the largest body each, within the budget of bytes.
pub Serves-IsServed :
    (limits : Limits) (b : Backend)
    → Serves limits.session (slot_capacity limits) b
    → IsServed limits b
unfolding slot_capacity
Serves-IsServed limits b run =
    let h = Serves-bounds run in
    let message = pos_part limits.message_bytes in
    record {
      waiters = h.waiters;
      own = h.own;
      exchanges = omega (arith, h.in_use);
      reserved =
          within_budget b.slots (pos_part limits.http_bytes) message (omega (arith, h.in_use));
    }

-- A call that returns, for whatever reason, leaves neither a waiter nor a record of its id.
pub end_call_released :
    (b : Backend) (id : RequestId) (early : Bool) (req : Request)
    → (lookup id (end_call b id early req).pending ≡ none)
      × (owner_locked (end_call b id early req).router id none ≡ none)
unfolding end_call
end_call_released b id early req =
    (lookup-delete_self id b.pending, finish_released (ended_early b.router req id early) id none)
