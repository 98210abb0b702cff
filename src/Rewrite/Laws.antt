-- ===== src/Rewrite/Laws.antt =====
-- What the edits keep, and what they bring about.
use gopls_mcp_manager.Prelude.{
  String, Bool, true, false, Option, none, some, ◌==◌, string_eq, if◌then◌else◌, ◌≡◌, ◌≢◌, refl,
  ◌∙◌, sym, ==-ne, ==-refl, arith,
}
use gopls_mcp_manager.Rewrite.Values.{
  Json, nothing, null, garbled, scalar, strings, object, Members, end, member, find, put, nested_of,
  edited, then_edit, rewrite_nested,
}

find-put :
    (key other : String) (value : Json) (members : Members)
    → find other (put key value members) ≡ (if key == other then value else find other members)
unfolding find put
find-put key other value end = ground (arith, string_eq.same_iff key other)
find-put key other value (member name old rest) = ground (
  arith,
  find-put key other value rest,
  string_eq.same_iff name key,
  string_eq.same_iff name other,
  string_eq.same_iff key other,
)

-- A field of a value that may be an object.
abbrev pub field : String → Json → Json
field name (object members) = find name members
field name value = nothing

-- What an edit of a nested object comes to: nothing, or new members under the key.
pub data Rewritten (params : Json) (key : String) (edit : Members → Option Members)
    : Json × Bool → Type 0 where
  kept : Rewritten params key edit (params, false)
  changed :
      (outer nested new : Members)
      → params ≡ object outer
      → nested_of (find key outer) ≡ some nested
      → edit nested ≡ some new
      → Rewritten params key edit (object (put key (object new) outer), true)

edited-Rewritten :
    (params : Json) (key : String) (edit : Members → Option Members) (outer nested : Members)
    → params ≡ object outer
    → nested_of (find key outer) ≡ some nested
    → (o : Option Members) → edit nested ≡ o
    → Rewritten params key edit (edited params key outer o)
edited-Rewritten params key edit outer nested p n none e = kept
edited-Rewritten params key edit outer nested p n (some new) e = changed outer nested new p n e

nested-Rewritten :
    (params : Json) (key : String) (edit : Members → Option Members) (outer : Members)
    → params ≡ object outer
    → (o : Option Members) → nested_of (find key outer) ≡ o
    → Rewritten params key edit (edited params key outer (then_edit edit o))
nested-Rewritten params key edit outer p none n = kept
nested-Rewritten params key edit outer p (some nested) n =
    edited-Rewritten params key edit outer nested p n (edit nested) refl

pub rewrite_nested-Rewritten :
    (params : Json) (key : String) (edit : Members → Option Members)
    → Rewritten params key edit (rewrite_nested params key edit)
unfolding rewrite_nested
rewrite_nested-Rewritten nothing key edit = kept
rewrite_nested-Rewritten null key edit = kept
rewrite_nested-Rewritten (garbled text) key edit = kept
rewrite_nested-Rewritten (scalar text) key edit = kept
rewrite_nested-Rewritten (strings texts) key edit = kept
rewrite_nested-Rewritten (object outer) key edit =
    nested-Rewritten (object outer) key edit outer refl (nested_of (find key outer)) refl

pub field-put_other :
    (key other : String) (value : Json) (members : Members)
    → key ≢ other
    → find other (put key value members) ≡ find other members
field-put_other key other value members h = rw (find-put, ==-ne key other h) refl

pub field-put_self :
    (key : String) (value : Json) (members : Members) → find key (put key value members) ≡ value
field-put_self key value members = rw (find-put, ==-refl) refl

-- The other fields of the outer object stay.
pub Rewritten-outer :
    (params : Json) (key other : String) (edit : Members → Option Members) (x : Json × Bool)
    → key ≢ other
    → Rewritten params key edit x
    → field other x.0 ≡ field other params
Rewritten-outer params key other edit x h kept = refl
Rewritten-outer params key other edit x h (changed outer nested new p n e) =
    rw (p, field-put_other key other (object new) outer h) refl

pub same_members : (a b : Members) → some a ≡ some b → a ≡ b
same_members a b h = cc

pub nested_fields :
    (value : Json) (nested : Members) (name : String)
    → nested_of value ≡ some nested
    → field name value ≡ find name nested
unfolding find
nested_fields nothing nested name h = rw⁻¹ (same_members end nested h) refl
nested_fields null nested name h = rw⁻¹ (same_members end nested h) refl
nested_fields (garbled text) nested name h = cc
nested_fields (scalar text) nested name h = cc
nested_fields (strings texts) nested name h = cc
nested_fields (object members) nested name h = rw⁻¹ (same_members members nested h) refl

-- A field of the nested object that the edit leaves stays.
pub Rewritten-inner :
    (params : Json) (key name : String) (edit : Members → Option Members) (x : Json × Bool)
    → ((old new : Members) → edit old ≡ some new → find name new ≡ find name old)
    → Rewritten params key edit x
    → field name (field key x.0) ≡ field name (field key params)
Rewritten-inner params key name edit x h kept = refl
Rewritten-inner params key name edit x h (changed outer nested new p n e) =
    rw (p, field-put_self) (h nested new e ∙ sym (nested_fields (find key outer) nested name n))
