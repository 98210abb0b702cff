-- ===== src/Transport/Bounded.antt =====
-- internal/transport/stdio.go: `messageReader`, which bounds what the decoder of a client's messages reads.
use gopls_mcp_manager.Prelude.{
  ℕ, ◌+◌, ◌-◌, ◌≤◌, Bool, true, false, ◌≡◌, leb, min, arith, if◌then◌else◌, List, [], ◌∷◌,
}

-- `offset` is not beyond `read`: the decoder consumed no more than it was given.
pub record MessageReader : Type 0 where
  pub limit : ℕ
  pub read : ℕ
  pub offset : ℕ

-- What the connection does with it: a read into a buffer of some length, or the start of a value at
-- an offset.
pub data Use : Type 0 where
  fills : ℕ → Use
  resets : ℕ → Use

-- `answers size` is how many bytes the input gives for a buffer of that length.
module _ (answers : ℕ → ℕ) where
  -- `Read`, and whether it succeeds; it does not where it answers `ErrMessageTooLarge`.
  unfoldable pub read_into : ℕ → MessageReader → MessageReader × Bool
  read_into buffer r =
      if leb r.limit (r.read - r.offset)
      then (r, false)
      else (record r { read = r.read + answers (min buffer (r.limit - (r.read - r.offset))) }, true)

  abbrev pub used_once : Use → MessageReader → MessageReader
  used_once (resets offset) r = record r { offset = offset }
  used_once (fills buffer) r = (read_into buffer r).0

  -- The reader after some uses.
  abbrev pub used_reader : List Use → MessageReader → MessageReader
  used_reader [] r = r
  used_reader (use_one ∷ uses) r = used_reader uses (used_once use_one r)

  -- An offset is one that the decoder reached: it does not go back, nor beyond what was read.
  abbrev pub IsOffset : Use → MessageReader → Type 0
  IsOffset (resets offset) r = (r.offset ≤ offset) × (offset ≤ r.read)
  IsOffset (fills buffer) r = Unit

  abbrev pub AreOffsets : List Use → MessageReader → Type 0
  AreOffsets [] r = Unit
  AreOffsets (use_one ∷ uses) r = IsOffset use_one r × AreOffsets uses (used_once use_one r)

abbrev pub IsWithin : ℕ → MessageReader → Type 0
IsWithin limit r = (r.limit ≡ limit) × (r.offset ≤ r.read) × (r.read ≤ r.offset + limit)

used_once-IsWithin :
    (answers : ℕ → ℕ) (u : Use) (limit : ℕ) (r : MessageReader)
    → ((size : ℕ) → answers size ≤ size)
    → IsOffset answers u r
    → IsWithin limit r
    → IsWithin limit (used_once answers u r)
unfolding read_into
used_once-IsWithin answers (resets offset) limit r fits own h = ground arith
used_once-IsWithin answers (fills buffer) limit r fits own h =
    ground (arith, fits (min buffer (r.limit - (r.read - r.offset))))

pub used_reader-IsWithin :
    (answers : ℕ → ℕ) (uses : List Use) (limit : ℕ) (r : MessageReader)
    → ((size : ℕ) → answers size ≤ size)
    → AreOffsets answers uses r
    → IsWithin limit r
    → IsWithin limit (used_reader answers uses r)
used_reader-IsWithin answers [] limit r fits own h = h
used_reader-IsWithin answers (u ∷ uses) limit r fits own h =
    used_reader-IsWithin answers uses limit (used_once answers u r) fits own.1
      (used_once-IsWithin answers u limit r fits own.0 h)
