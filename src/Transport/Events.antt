-- ===== src/Transport/Events.antt =====
-- internal/transport/sse.go: `parseSSEFrame`, on the lines of a frame without their ends. Bytes are numbers.
use gopls_mcp_manager.Prelude.{
  ℕ, suc, zero, String, Bool, true, false, ◌&&◌, ◌≡◌, refl, arith, if◌then◌else◌, List, [], ◌∷◌,
  ◌++◌, ◌==◌, string_eq, nat_eq, ==-sound, list_eq, if_cases,
}
use mathlib.Core.List.{append_assoc, append-nil}

-- A line that is empty, one without a colon, or the key and the value with the space around it cut.
pub data Line : Type 0 where
  blank malformed : Line
  field : String → List ℕ → Line

-- A name and data, a frame that carries neither, or an error.
pub data Parsed : Type 0 where
  event : List ℕ → List ℕ → Parsed
  nothing : Parsed
  malformed_field : Parsed

abbrev pub no_bytes : List ℕ
no_bytes = []

abbrev pub parsed : List ℕ → List ℕ → Parsed
parsed name data_bytes =
    if name == no_bytes && data_bytes == no_bytes then nothing else event name data_bytes

-- `written` with one more value; `fields` is the number of values in it.
abbrev pub add_value : List ℕ → ℕ → List ℕ → List ℕ
add_value written zero value = written ++ value
add_value written (suc fields) value = written ++ 10 ∷ value

-- The loop of `parseSSEFrame`.
unfoldable pub parse_lines : List Line → List ℕ → List ℕ → ℕ → Parsed
parse_lines [] name written fields = parsed name written
parse_lines (blank ∷ lines) name written fields = parse_lines lines name written fields
parse_lines (malformed ∷ lines) name written fields = malformed_field
parse_lines (field key value ∷ lines) name written fields =
    let named = parse_lines lines value written fields in
    let added = parse_lines lines name (add_value written fields value) (suc fields) in
    let skipped = parse_lines lines name written fields in
    if key == "event" then named else if key == "data" then added else skipped

-- `parseSSEFrame`
unfoldable pub parse_sse_frame : List Line → Parsed
unfolding parse_lines
parse_sse_frame lines = parse_lines lines [] [] 0

-- The value of the last line `event`, or `name`.
abbrev pub last_event : List ℕ → List Line → List ℕ
last_event name [] = name
last_event name (field key value ∷ lines) =
    last_event (if key == "event" then value else name) lines
last_event name (_ ∷ lines) = last_event name lines

-- Each value of a line `data`, with a line end before it.
abbrev pub later_values : List Line → List ℕ
later_values [] = []
later_values (field key value ∷ lines) =
    if key == "data" then 10 ∷ value ++ later_values lines else later_values lines
later_values (_ ∷ lines) = later_values lines

-- The values of the lines `data`, with line ends between them.
abbrev pub joined : List Line → List ℕ
joined [] = []
joined (field key value ∷ lines) =
    if key == "data" then value ++ later_values lines else joined lines
joined (_ ∷ lines) = joined lines

abbrev pub is_well_formed : List Line → Bool
is_well_formed [] = true
is_well_formed (malformed ∷ lines) = false
is_well_formed (_ ∷ lines) = is_well_formed lines

event-ne-data : (key : String) → key == "event" ≡ true → key == "data" ≡ false
event-ne-data key h = rw (==-sound key "event" h) refl

parse_lines-later :
    (lines : List Line) (name written : List ℕ) (fields : ℕ)
    → is_well_formed lines ≡ true
    → parse_lines lines name written (suc fields)
      ≡ parsed (last_event name lines) (written ++ later_values lines)
unfolding parse_lines
parse_lines-later [] name written fields h = ground (arith, append-nil written)
parse_lines-later (blank ∷ lines) name written fields h =
    parse_lines-later lines name written fields h
parse_lines-later (malformed ∷ lines) name written fields h = cc
parse_lines-later (field key value ∷ lines) name written fields h = ground (
  arith,
  event-ne-data key,
  append_assoc written (10 ∷ value) (later_values lines),
  parse_lines-later lines value written fields h,
  parse_lines-later lines name written fields h,
  parse_lines-later lines name (written ++ 10 ∷ value) (suc fields) h,
)

parse_lines-first :
    (lines : List Line) (name : List ℕ)
    → is_well_formed lines ≡ true
    → parse_lines lines name [] 0 ≡ parsed (last_event name lines) (joined lines)
unfolding parse_lines
parse_lines-first [] name h = refl
parse_lines-first (blank ∷ lines) name h = parse_lines-first lines name h
parse_lines-first (malformed ∷ lines) name h = cc
parse_lines-first (field key value ∷ lines) name h = ground (
  arith,
  event-ne-data key,
  parse_lines-first lines value h,
  parse_lines-first lines name h,
  parse_lines-later lines name value 0 h,
)

parse_lines-malformed :
    (lines : List Line) (name written : List ℕ) (fields : ℕ)
    → is_well_formed lines ≡ false
    → parse_lines lines name written fields ≡ malformed_field
unfolding parse_lines
parse_lines-malformed [] name written fields h = cc
parse_lines-malformed (blank ∷ lines) name written fields h =
    parse_lines-malformed lines name written fields h
parse_lines-malformed (malformed ∷ lines) name written fields h = refl
parse_lines-malformed (field key value ∷ lines) name written fields h = ground (
  arith,
  parse_lines-malformed lines value written fields h,
  parse_lines-malformed lines name written fields h,
  parse_lines-malformed lines name (add_value written fields value) (suc fields) h,
)

-- A frame without a malformed line is an event of the last name and of the data values with line ends
-- between them, or nothing where both are empty; other keys and empty lines do not matter. A frame
-- with a malformed line is an error.
pub parse_sse_frame-joined :
    (lines : List Line)
    → parse_sse_frame lines ≡ (
        if is_well_formed lines
        then parsed (last_event [] lines) (joined lines)
        else malformed_field)
unfolding parse_sse_frame
parse_sse_frame-joined lines =
    if_cases (λ p. parse_sse_frame lines ≡ p) (is_well_formed lines)
      (parsed (last_event [] lines) (joined lines)) malformed_field
      (λ well. parse_lines-first lines [] well) (λ bad. parse_lines-malformed lines [] [] 0 bad)
