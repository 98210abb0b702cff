-- ===== src/Rewrite/Values.antt =====
-- internal/protocol/rewrite.go, on the values that its texts stand for. An object's members come in any order,
-- and no name twice.
use gopls_mcp_manager.Prelude.{
  String, Bool, true, false, not, ◌&&◌, Option, none, some, List, ◌==◌, string_eq, is_some,
  if◌then◌else◌,
}

-- A `jsontext.Value`: no bytes, what does not parse, null, a scalar or an array by its text, a list of
-- names, or an object.
mutual
  pub data Json : Type 0 where
    nothing null : Json
    garbled scalar : String → Json
    strings : List String → Json
    object : Members → Json

  pub data Members : Type 0 where
    end : Members
    member : String → Json → Members → Members

unfoldable pub find : String → Members → Json
find key end = nothing
find key (member name value rest) = if name == key then value else find key rest

unfoldable pub put : String → Json → Members → Members
put key value end = member key value end
put key value (member name old rest) =
    if name == key then member key value rest else member name old (put key value rest)

-- `absentJSON`
abbrev pub absent_json : Json → Bool
absent_json nothing = true
absent_json null = true
absent_json value = false

-- `json.Unmarshal` into a map that is neither an error nor nil
abbrev pub as_object : Json → Option Members
as_object (object members) = some members
as_object value = none

abbrev pub nested_of : Json → Option Members
nested_of nothing = some end
nested_of null = some end
nested_of value = as_object value

abbrev pub edited : Json → String → Members → Option Members → Json × Bool
edited params key outer none = (params, false)
edited params key outer (some nested) = (object (put key (object nested) outer), true)

-- What `edit` answers: the members that it leaves, where it changes some.
abbrev pub then_edit : (Members → Option Members) → Option Members → Option Members
then_edit edit none = none
then_edit edit (some nested) = edit nested

abbrev pub rewrite_outer : Json → String → (Members → Option Members) → Option Members → Json × Bool
rewrite_outer params key edit none = (params, false)
rewrite_outer params key edit (some outer) =
    edited params key outer (then_edit edit (nested_of (find key outer)))

-- `rewriteNested`
unfoldable pub rewrite_nested : Json → String → (Members → Option Members) → Json × Bool
unfolding find put
rewrite_nested params key edit = rewrite_outer params key edit (as_object params)

-- The edit of `WithRootsCapability`
unfoldable pub add_roots : Members → Option Members
unfolding find put
add_roots capabilities =
    if absent_json (find "roots" capabilities)
    then some (put "roots" (object end) capabilities)
    else none

-- `WithRootsCapability`
unfoldable pub with_roots_capability : Json → Json
unfolding rewrite_nested add_roots
with_roots_capability params = (rewrite_nested params "capabilities" add_roots).0

unfoldable pub put_text : String → String → Members → Members
unfolding put
put_text key text members = if text == "" then members else put key (scalar text) members

unfoldable pub put_files : Option (List String) → Members → Members
unfolding put
put_files none members = members
put_files (some files) members = put "files" (strings files) members

-- The edit of `WithPhysicalPaths`
unfoldable pub set_paths : String → String → Option (List String) → Members → Option Members
unfolding put_text put_files
set_paths file dir files arguments =
    some (put_files files (put_text "dir" dir (put_text "file" file arguments)))

-- `WithPhysicalPaths`
unfoldable pub with_physical_paths : Json → String → String → Option (List String) → Json × Bool
unfolding rewrite_nested set_paths
with_physical_paths params file dir files =
    if file == "" && (dir == "" && not (is_some files))
    then (params, false)
    else rewrite_nested params "arguments" (set_paths file dir files)

abbrev pub is_missing : Json → Bool
is_missing nothing = true
is_missing value = false

-- `WithCompleteResultType`
unfoldable pub with_complete_result_type : Json → Json
unfolding find
with_complete_result_type (object members) =
    if is_missing (find "resultType" members)
    then object (member "resultType" (scalar "complete") members)
    else object members
with_complete_result_type value = value
