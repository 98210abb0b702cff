-- ===== src/Watch/Names.antt =====
-- watchroots.go: what the names of files and directories say.
use Prim.Native.Char.{Char, code}
use Prim.Native.String.{slice}
use gopls_mcp_manager.Prelude.{
  String, ◌≡◌, refl, Bool, true, false, ◌||◌, Option, none, some, List, [], ◌∷◌, ◌==◌, string_eq,
  eqb, if◌then◌else◌,
}

-- `skippedByWatcher`
unfoldable pub skipped_by_watcher : String → Bool
skipped_by_watcher name = slice name 0 1 == "." || slice name 0 1 == "_" || name == "testdata"

or_after : Option String → Char → String → Option String
or_after (some found) c rest = some found
or_after none c rest = if eqb (code c) 46 then some rest else none

-- What follows the last dot of a name: `filepath.Ext` without its dot, if there is one.
after_dot : String → Option String
unfolding or_after
after_dot String.[] = none
after_dot (String.◌∷◌ c rest) = or_after (after_dot rest) c rest

one_of : List String → Option String → Bool
one_of names none = false
one_of [] (some name) = false
one_of (x ∷ names) (some name) = x == name || one_of names (some name)

-- `watchedFile`
unfoldable pub watched_file : String → Bool
unfolding after_dot one_of
watched_file name = one_of ("go" ∷ "mod" ∷ "sum" ∷ "work" ∷ "s" ∷ []) (after_dot name)

-- `moduleFile`
unfoldable pub module_file : String → Bool
unfolding one_of
module_file name = one_of ("go.mod" ∷ "go.sum" ∷ "go.work" ∷ "go.work.sum" ∷ []) (some name)

watched_files : (watched_file "a.b.go" ≡ true)
unfolding watched_file
watched_files = refl
