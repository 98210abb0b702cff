-- ===== src/Transport/Budget.antt =====
-- internal/transport/sse.go: `Budget` and `readFrame`. A frame is held by its length and its capacity,
-- and whether the line that it ends in is empty so far.
use gopls_mcp_manager.Prelude.{
  ℕ, ◌+◌, ◌-◌, ◌*◌, Bool, true, ◌&&◌, Option, none, some, leb, ltb, min, max, if◌then◌else◌, List,
  [], ◌∷◌,
}

-- `Budget`. `limit` is not negative where `Limits` gives it.
pub record Budget : Type 0 where
  pub limit : ℕ
  pub used : ℕ
  pub peak : ℕ

abbrev pub new_budget : ℕ → Budget
new_budget limit = record { limit = limit; used = 0; peak = 0 }

-- `acquire`: `none` where it answers false.
unfoldable pub acquire : ℕ → Budget → Option Budget
acquire n b =
    if leb (b.used + n) b.limit
    then some (record b { used = b.used + n; peak = max b.peak (b.used + n) })
    else none

unfoldable pub release : ℕ → Budget → Budget
release n b = record b { used = b.used - n }

-- What `ReadSlice` answers: a part by its length, whether it holds more than line ends, and how it
-- ended: at a line's end, with a full buffer, at the end of the stream, or with another error.
pub data Ending : Type 0 where
  line_end buffer_full end_of_file other_error : Ending

pub record Part : Type 0 where
  pub size : ℕ
  pub blank : Bool
  pub ending : Ending

pub record Frame : Type 0 where
  pub size : ℕ
  pub capacity : ℕ

abbrev pub no_frame : Frame
no_frame = record { size = 0; capacity = 0 }

pub data Failure : Type 0 where
  message_too_large budget_exhausted read_failed : Failure

pub data Outcome : Type 0 where
  complete : Frame → Outcome
  failed : Failure → Outcome
  -- the stream has no further part yet
  waiting : Frame → Bool → Outcome

module _ (max_bytes : ℕ) where
  -- The capacity that the frame grows to.
  unfoldable pub grown : Frame → ℕ → ℕ
  grown f needed = min max_bytes (max needed (max 128 (2 * f.capacity)))

  -- The growth of the frame; both buffers are charged while the old one is copied.
  unfoldable pub reserve : Frame → ℕ → Budget → Option (Frame × Budget)
  unfolding grown
  reserve f n b =
      let needed = f.size + n in
      if leb needed f.capacity
      then some (record f { size = needed }, b)
      else elim (acquire (grown f needed) b) [
        | none ↦ none
        | some b' ↦
            some (record { size = needed; capacity = grown f needed }, release f.capacity b')
      ]

  -- A round of `readFrame` after the reservation; `rest` reads the parts that follow.
  unfoldable pub ended :
      Ending → Bool → Frame → Budget → (Bool → Outcome × Budget) → Outcome × Budget
  ended line_end empty f b rest = if empty then (complete f, b) else rest true
  ended buffer_full empty f b rest = rest empty
  ended end_of_file empty f b rest =
      if ltb 0 f.size then (complete f, b) else (failed read_failed, release f.capacity b)
  ended other_error empty f b rest = (failed read_failed, release f.capacity b)

  unfoldable pub reserved :
      Option (Frame × Budget)
      → Frame
      → Budget
      → (Frame → Budget → Outcome × Budget)
      → Outcome × Budget
  reserved none f b rest = (failed budget_exhausted, release f.capacity b)
  reserved (some (f', b')) f b rest = rest f' b'

  -- `readFrame`, on the parts that the stream brings.
  unfoldable pub read_parts : List Part → Frame → Bool → Budget → Outcome × Budget
  unfolding reserved ended
  read_parts [] f empty b = (waiting f empty, b)
  read_parts (p ∷ parts) f empty b =
      if ltb max_bytes (f.size + p.size)
      then (failed message_too_large, release f.capacity b)
      else reserved (reserve f p.size b) f b (λ f' b'.
        ended p.ending (empty && p.blank) f' b' (λ empty'. read_parts parts f' empty' b'))

  unfoldable pub read_frame : List Part → Budget → Outcome × Budget
  unfolding read_parts
  read_frame parts b = read_parts parts no_frame true b
