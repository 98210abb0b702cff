-- ===== src/Requests/Replies.antt =====
-- How often each request is answered.
pub mod Claims
pub mod Kept
pub mod Answers
pub mod Admitted
pub mod Once
use gopls_mcp_manager.Prelude.{
  nat_eq, option_eq, ℕ, ◌+◌, Bool, true, false, ◌≡◌, Option, some, none, List, [], ◌∷◌, ◌++◌, Map,
  lookup, insert, delete, lookup-insert, lookup-delete, option_beq_iff, ◌==◌, is_some, length, ltb,
  arith, if◌then◌else◌,
}
use gopls_mcp_manager.Requests.State.{
  RequestId, Request, Message, response, error_response, volunteered, Owed, Fault, output_full,
  Router,
}
use gopls_mcp_manager.Requests.Output.{out_capacity, errs_capacity, report_error, offer}
use gopls_mcp_manager.Requests.Session.{Event, reads}

abbrev pub named : ℕ → RequestId → ℕ
named i id = if id == some i then 1 else 0

-- Is the message an answer to the call with id `i`?
abbrev pub is_reply : ℕ → Message → ℕ
is_reply i (response id payload) = named i id
is_reply i (error_response id code fault) = named i id
is_reply i (volunteered payload) = 0

abbrev pub replies : ℕ → List Message → ℕ
replies i [] = 0
replies i (msg ∷ msgs) = is_reply i msg + replies i msgs

pub replies-append :
    (i : ℕ) (xs ys : List Message) → replies i (xs ++ ys) ≡ replies i xs + replies i ys
replies-append i [] ys = omega arith
replies-append i (x ∷ xs) ys = omega (arith, replies-append i xs ys)

-- The requests with id `i` among those that the ingress reader read.
abbrev pub requests : ℕ → List Event → ℕ
requests i [] = 0
requests i (reads req cancel ∷ es) = named i req.id + requests i es
requests i (_ ∷ es) = requests i es

abbrev pub owing : ℕ → Map RequestId Owed → ℕ
owing i awaiting = if is_some (lookup (some i) awaiting) then 1 else 0

-- What of a router bears on the answers.
pub record Voice : Type 0 where
  pub done : Bool
  pub errs : List Fault
  pub out : List Message
  pub sent : List Message
  pub awaiting : Map RequestId Owed

abbrev pub voice : Router → Voice
voice r = record {
  done = r.done;
  errs = r.errs;
  out = r.out;
  sent = r.sent;
  awaiting = r.awaiting_upstream;
}

-- While the session has not ended and reported no error, `n` requests with id `i` are answered or
-- outstanding, but for `k` that are about to be answered. Answers are in the channel or taken by the
-- writer.
abbrev pub Settles : ℕ → ℕ → ℕ → Voice → Type 0
Settles k n i v =
    v.done ≡ false → v.errs ≡ [] → n ≡ k + replies i v.sent + replies i v.out + owing i v.awaiting

-- `offer`, as the voice sees it.
unfoldable pub say : Voice → Message → Fault → Voice
say v msg fault =
    if v.done
    then v
    else if ltb (length v.out) out_capacity
    then record v { out = v.out ++ msg ∷ [] }
    else if ltb (length v.errs) errs_capacity
    then record v { errs = v.errs ++ fault ∷ [] }
    else v

pub voice-offer :
    (r : Router) (msg : Message) (fault : Fault)
    → voice (offer r msg fault) ≡ say (voice r) msg fault
unfolding offer report_error say
voice-offer r msg fault = ground arith

-- An answer that is said counts, or the session reports an error.
pub Settles-say :
    (k n i : ℕ) (v : Voice) (msg : Message) (fault : Fault)
    → Settles (is_reply i msg + k) n i v
    → Settles k n i (say v msg fault)
unfolding say
Settles-say k n i v msg fault s live clean = ground (arith, s, replies-append i v.out (msg ∷ []))

-- The record of a call that is about to be answered goes.
pub Settles-delete :
    (k n i : ℕ) (v : Voice) (id : RequestId) (owner : Owed)
    → lookup id v.awaiting ≡ some owner
    → Settles k n i v
    → Settles (named i id + k) n i (record v { awaiting = delete id v.awaiting })
Settles-delete k n i v id owner h s live clean =
    ground (arith, s live clean, lookup-delete id (some i) v.awaiting, option_beq_iff id (some i))

-- A record that stays there may change.
pub Settles-insert :
    (k n i : ℕ) (v : Voice) (id : RequestId) (owner owner' : Owed)
    → lookup id v.awaiting ≡ some owner
    → Settles k n i v
    → Settles k n i (record v { awaiting = insert id owner' v.awaiting })
Settles-insert k n i v id owner owner' h s live clean =
    ground
      (arith, s live clean, lookup-insert id (some i) owner' v.awaiting, option_beq_iff id (some i))

-- A new record stands for a request.
pub Settles-admit :
    (n i : ℕ) (v : Voice) (id : RequestId) (owner : Owed)
    → lookup id v.awaiting ≡ none
    → Settles 0 n i v
    → Settles 0 (named i id + n) i (record v { awaiting = insert id owner v.awaiting })
Settles-admit n i v id owner h s live clean =
    ground
      (arith, s live clean, lookup-insert id (some i) owner v.awaiting, option_beq_iff id (some i))
