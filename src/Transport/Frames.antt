-- ===== src/Transport/Frames.antt =====
-- internal/transport/sse.go: what `readFrame` charges to the budget.
use gopls_mcp_manager.Prelude.{
  ℕ, ◌+◌, ◌≤◌, Bool, true, false, ◌&&◌, ◌≡◌, refl, Option, none, some, ltb, arith, List, [], ◌∷◌,
  Bool-cases, inl, inr, if_cases,
}
use gopls_mcp_manager.Transport.Budget.{
  Budget, acquire, release, Ending, line_end, buffer_full, end_of_file, other_error, Part, Frame,
  no_frame, Failure, message_too_large, budget_exhausted, read_failed, Outcome, complete, failed,
  waiting, grown, reserve, ended, reserved, read_parts, read_frame,
}

-- The capacity that an outcome holds.
abbrev pub charge : Outcome → ℕ
charge (complete f) = f.capacity
charge (failed e) = 0
charge (waiting f empty) = f.capacity

abbrev pub FitsFrame : ℕ → Outcome → Type 0
FitsFrame max_bytes (complete f) = (f.size ≤ f.capacity) × (f.capacity ≤ max_bytes)
FitsFrame max_bytes (failed e) = Unit
FitsFrame max_bytes (waiting f empty) = (f.size ≤ f.capacity) × (f.capacity ≤ max_bytes)

-- From a budget of which `others` is charged to other frames: the outcome's frame is charged to the
-- budget besides, which stays within its limit, the peak too.
abbrev pub IsCharged : ℕ → ℕ → ℕ → Outcome × Budget → Type 0
IsCharged max_bytes others limit (o, b) =
    (b.used ≡ others + charge o)
    × (b.limit ≡ limit)
    × (b.used ≤ b.peak)
    × (b.peak ≤ limit)
    × FitsFrame max_bytes o

module _ (max_bytes others limit : ℕ) where
  abbrev Holds : Frame → Budget → Type 0
  Holds f b =
      (b.used ≡ others + f.capacity)
      × (b.limit ≡ limit)
      × (b.used ≤ b.peak)
      × (b.peak ≤ limit)
      × (f.size ≤ f.capacity)
      × (f.capacity ≤ max_bytes)

  released :
      (e : Failure) (f : Frame) (b : Budget)
      → Holds f b
      → IsCharged max_bytes others limit (failed e, release f.capacity b)
  unfolding release
  released e f b h = ground arith

  reserve-Holds :
      (f : Frame) (n : ℕ) (b : Budget) (f' : Frame) (b' : Budget)
      → f.size + n ≤ max_bytes
      → Holds f b
      → reserve max_bytes f n b ≡ some (f', b')
      → Holds f' b'
  unfolding reserve acquire release grown
  reserve-Holds f n b f' b' fits h e = ground arith

  ended-IsCharged :
      (e : Ending) (empty : Bool) (f : Frame) (b : Budget) (rest : Bool → Outcome × Budget)
      → Holds f b
      → ((empty' : Bool) → IsCharged max_bytes others limit (rest empty'))
      → IsCharged max_bytes others limit (ended max_bytes e empty f b rest)
  unfolding ended
  ended-IsCharged line_end true f b rest h k = ground arith
  ended-IsCharged line_end false f b rest h k = k true
  ended-IsCharged buffer_full empty f b rest h k = k empty
  ended-IsCharged end_of_file empty f b rest h k =
      if_cases (IsCharged max_bytes others limit) (ltb 0 f.size) (complete f, b)
        (failed read_failed, release f.capacity b) (λ _. ground arith)
        (λ _. released read_failed f b h)
  ended-IsCharged other_error empty f b rest h k = released read_failed f b h

  reserved-IsCharged :
      (o : Option (Frame × Budget)) (f : Frame) (b : Budget)
      (rest : Frame → Budget → Outcome × Budget)
      → Holds f b
      → ((f' : Frame) (b' : Budget)
          → o ≡ some (f', b')
          → IsCharged max_bytes others limit (rest f' b'))
      → IsCharged max_bytes others limit (reserved max_bytes o f b rest)
  unfolding reserved
  reserved-IsCharged none f b rest h k = released budget_exhausted f b h
  reserved-IsCharged (some (f', b')) f b rest h k = k f' b' refl

  read_parts-IsCharged :
      (parts : List Part) (f : Frame) (empty : Bool) (b : Budget)
      → Holds f b
      → IsCharged max_bytes others limit (read_parts max_bytes parts f empty b)
  unfolding read_parts
  read_parts-IsCharged [] f empty b h = ground arith
  read_parts-IsCharged (p ∷ parts) f empty b h =
      elim (Bool-cases (ltb max_bytes (f.size + p.size))) [
        | inl large ↦ rw large (released message_too_large f b h)
        | inr fits ↦ rw fits (
            reserved-IsCharged (reserve max_bytes f p.size b) f b
              (λ f' b'.
                ended max_bytes p.ending (empty && p.blank) f' b'
                  (λ empty'. read_parts max_bytes parts f' empty' b'))
              h
              (λ f' b' e.
                let h' = reserve-Holds f p.size b f' b' (ground arith) h e in
                ended-IsCharged p.ending (empty && p.blank) f' b'
                  (λ empty'. read_parts max_bytes parts f' empty' b') h'
                  (λ empty'. read_parts-IsCharged parts f' empty' b' h')))
      ]

-- Whatever the stream brings, a frame that `readFrame` completes or still holds is within the limit
-- of a message and charged to the budget by its capacity; a read that fails gives all of it back;
-- and the budget's use, its peak included, stays within its limit.
pub read_frame-IsCharged :
    (max_bytes : ℕ) (parts : List Part) (b : Budget)
    → b.used ≤ b.peak
    → b.peak ≤ b.limit
    → IsCharged max_bytes b.used b.limit (read_frame max_bytes parts b)
unfolding read_frame
read_frame-IsCharged max_bytes parts b used peak =
    read_parts-IsCharged max_bytes b.used b.limit parts no_frame true b (ground arith)
