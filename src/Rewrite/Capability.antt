-- ===== src/Rewrite/Capability.antt =====
-- The edits of `WithRootsCapability`, `WithPhysicalPaths` and `WithCompleteResultType`.
use gopls_mcp_manager.Prelude.{
  String, Bool, true, false, Option, none, some, string_eq, ◌≡◌, ◌≢◌, refl, inl, inr, Bool-cases,
  arith,
}
use gopls_mcp_manager.Rewrite.Values.{
  Json, object, Members, end, find, put, absent_json, nested_of, edited, then_edit, rewrite_nested,
  add_roots, with_roots_capability,
}
use gopls_mcp_manager.Rewrite.Laws.{
  field, Rewritten, kept, changed, rewrite_nested-Rewritten, Rewritten-outer, Rewritten-inner,
  field-put_other, field-put_self, same_members, nested_fields,
}

added :
    (old new : Members)
    → add_roots old ≡ some new
    → (absent_json (find "roots" old) ≡ true) × (put "roots" (object end) old ≡ new)
unfolding add_roots
added old new h = elim (Bool-cases (absent_json (find "roots" old))) [
  | inl absent ↦ (absent, same_members _ _ (rw absent at h))
  | inr present ↦ absurd (ground (arith, rw present at h))
]

add_roots-other :
    (name : String)
    → "roots" ≢ name
    → (old new : Members) → add_roots old ≡ some new
    → find name new ≡ find name old
add_roots-other name other old new h =
    rw⁻¹ (added old new h).1 (field-put_other "roots" name (object end) old other)

-- Where there are roots already, nothing is added.
add_roots-present :
    (members : Members) → absent_json (find "roots" members) ≡ false → add_roots members ≡ none
unfolding add_roots
add_roots-present members h = rw h refl

rewrite_nested-object :
    (params : Json) (key : String) (edit : Members → Option Members) (outer : Members)
    → params ≡ object outer
    → rewrite_nested params key edit
      ≡ edited params key outer (then_edit edit (nested_of (find key outer)))
unfolding rewrite_nested
rewrite_nested-object params key edit outer p = rw p refl

roots_present :
    (nested : Members) (outer : Members)
    → find "capabilities" outer ≡ object nested
    → absent_json (find "roots" nested) ≡ false
    → with_roots_capability (object outer) ≡ object outer
unfolding with_roots_capability
roots_present nested outer h present =
    rw
      (
        with_roots_capability,
        rewrite_nested-object (object outer) "capabilities" add_roots outer refl,
        h,
        add_roots-present nested present,
      )
      refl

stable :
    (params : Json) (x : Json × Bool)
    → Rewritten params "capabilities" add_roots x
    → with_roots_capability params ≡ x.0
    → with_roots_capability x.0 ≡ x.0
stable params x kept same = same
stable params x (changed outer nested new p n e) same =
    roots_present new (put "capabilities" (object new) outer)
      (field-put_self "capabilities" (object new) outer)
      (rw⁻¹ (added nested new e).1 (rw (field-put_self "roots" (object end) nested) refl))

with_roots_capability_idem :
    (params : Json)
    → with_roots_capability (with_roots_capability params) ≡ with_roots_capability params
unfolding with_roots_capability
with_roots_capability_idem params =
    stable params (rewrite_nested params "capabilities" add_roots)
      (rewrite_nested-Rewritten params "capabilities" add_roots) refl

not_added : (nested : Members) → add_roots nested ≡ none → absent_json (find "roots" nested) ≡ false
unfolding add_roots
not_added nested h = elim (Bool-cases (absent_json (find "roots" nested))) [
  | inl absent ↦ absurd (ground (arith, rw absent at h))
  | inr present ↦ present
]

roots_after :
    (outer nested : Members)
    → nested_of (find "capabilities" outer) ≡ some nested
    → (o : Option Members) → add_roots nested ≡ o
    → absent_json
        (field "roots" (field "capabilities" (edited (object outer) "capabilities" outer o).0))
      ≡ false
roots_after outer nested n none e =
    rw (nested_fields (find "capabilities" outer) nested "roots" n) (not_added nested e)
roots_after outer nested n (some new) e =
    rw field-put_self
      (rw⁻¹ (added nested new e).1 (rw (field-put_self "roots" (object end) nested) refl))

-- What becomes of a client's parameters: all fields but the capabilities stay, and all capabilities but the
-- roots, which are there where the capabilities are an object, null or absent.
pub record HasRoots (params after : Json) : Type 0 where
  pub fields_stay : (name : String) → "capabilities" ≢ name → field name after ≡ field name params
  pub capabilities_stay :
      (name : String)
      → "roots" ≢ name
      → field name (field "capabilities" after) ≡ field name (field "capabilities" params)
  pub roots_there :
      (outer nested : Members)
      → params ≡ object outer
      → nested_of (find "capabilities" outer) ≡ some nested
      → absent_json (field "roots" (field "capabilities" after)) ≡ false
  pub settled : with_roots_capability after ≡ after

pub with_roots_capability-HasRoots :
    (params : Json) → HasRoots params (with_roots_capability params)
unfolding with_roots_capability
with_roots_capability-HasRoots params =
    let rewritten = rewrite_nested-Rewritten params "capabilities" add_roots in
    record {
      fields_stay =
          λ name other. Rewritten-outer params "capabilities" name add_roots _ other rewritten;
      capabilities_stay = λ name other.
          Rewritten-inner params "capabilities" name add_roots _ (add_roots-other name other)
            rewritten;
      roots_there = λ outer nested p n.
          rw
            (
              with_roots_capability,
              rewrite_nested-object params "capabilities" add_roots outer p,
              n,
              p,
            )
            (roots_after outer nested n (add_roots nested) refl);
      settled = with_roots_capability_idem params;
    }
