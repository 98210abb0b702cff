-- ===== src/Examples/Transport.antt =====
-- A frame of two lines, from a stream whose budget another frame shares.
use gopls_mcp_manager.Prelude.{ℕ, ◌≤◌, ◌≡◌, refl, if◌then◌else◌, List, [], ◌∷◌, arith, true, false}
use gopls_mcp_manager.Transport.Bounded.{
  MessageReader, Use, fills, resets, read_into, used_reader, AreOffsets, IsWithin,
  used_reader-IsWithin,
}
use gopls_mcp_manager.Transport.Budget.{Budget, Part, line_end, read_frame}
use gopls_mcp_manager.Transport.Frames.{IsCharged, read_frame-IsCharged}
use gopls_mcp_manager.Transport.Events.{
  Line, blank, field, event, malformed_field, parsed, parse_lines, parse_sse_frame, last_event,
  joined, is_well_formed, parse_sse_frame-joined,
}

abbrev shared : Budget
shared = record { limit = 1000; used = 100; peak = 300 }

abbrev parts : List Part
parts =
    record { size = 20; blank = false; ending = line_end }
    ∷ record { size = 1; blank = true; ending = line_end }
    ∷ []

read_frame-IsCharged_example : IsCharged 500 100 1000 (read_frame 500 parts shared)
read_frame-IsCharged_example = read_frame-IsCharged 500 parts shared (omega arith) (omega arith)

-- An event `x` whose data are in two lines, with an id beside it.
abbrev lines : List Line
lines =
    field "event" (120 ∷ [])
    ∷ field "data" (49 ∷ [])
    ∷ field "id" (55 ∷ [])
    ∷ field "data" (50 ∷ [])
    ∷ blank
    ∷ []

two_lines : parse_sse_frame lines ≡ event (120 ∷ []) (49 ∷ 10 ∷ 50 ∷ [])
unfolding parse_sse_frame parse_lines
two_lines = refl

parse_sse_frame-joined_example : parse_sse_frame lines ≡ (
    if is_well_formed lines then parsed (last_event [] lines) (joined lines) else malformed_field)
parse_sse_frame-joined_example = parse_sse_frame-joined lines

abbrev everything : ℕ → ℕ
everything size = size

fits : (size : ℕ) → everything size ≤ size
fits size = omega arith

abbrev unread : MessageReader
unread = record { limit = 100; read = 0; offset = 0 }

abbrev uses : List Use
uses = fills 64 ∷ resets 10 ∷ fills 512 ∷ []

own_offsets : AreOffsets everything uses unread
unfolding read_into
own_offsets = (tt, ((omega arith, omega arith), (tt, tt)))

unread-IsWithin : IsWithin 100 unread
unread-IsWithin = (refl, omega arith, omega arith)

used_reader-IsWithin_example : IsWithin 100 (used_reader everything uses unread)
used_reader-IsWithin_example =
    used_reader-IsWithin everything uses 100 unread fits own_offsets unread-IsWithin
