-- ===== src/Watch/Filters.antt =====
-- watchroots.go: `rulePath`, `pathIncludeFunc` and `newDirFilter`. A path is the list of its segments; names are taken
-- to have no line end, which `.` does not match.
use gopls_mcp_manager.Prelude.{
  String, Bool, true, false, ◌&&◌, ◌||◌, Option, none, some, List, [], ◌∷◌, ◌++◌, ◌==◌, string_eq,
  list_eq, if◌then◌else◌,
}

abbrev pub RelPath : Type 0
RelPath = List String

-- A rule that `usableFilterRule` lets pass, by its sign and what stands between the slashes of the rest; or any other.
pub data Rule : Type 0 where
  includes excludes : List String → Rule
  unusable : Rule

drop_last : RelPath → RelPath
drop_last [] = []
drop_last (x ∷ []) = []
drop_last (x ∷ (y ∷ ys)) = x ∷ drop_last (y ∷ ys)

-- `path.Clean` of a rooted path, after the segments that it has kept.
cleaned : RelPath → List String → RelPath
unfolding drop_last
cleaned kept [] = kept
cleaned kept (x ∷ xs) =
    if x == "" || x == "."
    then cleaned kept xs
    else if x == ".."
    then cleaned (drop_last kept) xs
    else cleaned (kept ++ x ∷ []) xs

-- `rulePath`
unfoldable pub rule_path : List String → RelPath
unfolding cleaned
rule_path segments = cleaned [] segments

-- A piece of the regular expression, which a slash follows.
pub data Piece : Type 0 where
  wild : Piece
  quoted : String → Piece

abbrev pub piece : String → Piece
piece seg = if seg == "**" then wild else quoted seg

abbrev pub pieces : RelPath → List Piece
pieces [] = []
pieces (seg ∷ rest) = piece seg ∷ pieces rest

-- The regular expression of a rule: `.*`, one that begins with `^/`, or one that begins with `/` after
-- the trim of `^/.*`.
pub data Pattern : Type 0 where
  everything : Pattern
  anchored floating : List Piece → Pattern

unfoldable pub trimmed : List Piece → Pattern
trimmed [] = anchored []
trimmed (wild ∷ rest) = floating rest
trimmed (quoted seg ∷ rest) = anchored (quoted seg ∷ rest)

unfoldable pub compile : RelPath → Pattern
unfolding trimmed
compile [] = everything
compile (seg ∷ rest) = trimmed (pieces (seg ∷ rest))

-- Do the pieces match from a slash on? `.*` between two slashes takes whole segments, and at least one.
unfoldable pub match_from : List Piece → RelPath → Bool
match_from [] path = true
match_from (wild ∷ rest) [] = false
match_from (wild ∷ rest) (x ∷ path) = match_from rest path || match_from (wild ∷ rest) path
match_from (quoted seg ∷ rest) [] = false
match_from (quoted seg ∷ rest) (x ∷ path) = (seg == x) && match_from rest path

-- From any slash on.
unfoldable pub match_anywhere : List Piece → RelPath → Bool
unfolding match_from
match_anywhere rest [] = match_from rest []
match_anywhere rest (x ∷ path) = match_from rest (x ∷ path) || match_anywhere rest path

-- `MatchString` of a compiled rule
unfoldable pub match_string : Pattern → RelPath → Bool
unfolding match_from match_anywhere
match_string everything path = true
match_string (anchored rest) path = match_from rest path
match_string (floating rest) path = match_anywhere rest path

-- The loop over the matchers, with the verdict so far: the last match wins.
unfoldable pub judge : List Rule → RelPath → Bool → Bool
unfolding match_string compile rule_path
judge [] path include = include
judge (includes segments ∷ rules) path include =
    judge rules path (if match_string (compile (rule_path segments)) path then true else include)
judge (excludes segments ∷ rules) path include =
    judge rules path (if match_string (compile (rule_path segments)) path then false else include)
judge (unusable ∷ rules) path include = judge rules path include

-- `pathIncludeFunc`
unfoldable pub path_include_func : List Rule → RelPath → Bool
unfolding judge
path_include_func rules path = judge rules path true

-- `dirFilter`
pub record DirFilter : Type 0 where
  pub include : RelPath → Bool
  pub may_include : RelPath → Bool

unfoldable pub has_wild : RelPath → Bool
has_wild [] = false
has_wild (seg ∷ rest) = seg == "**" || has_wild rest

-- The first loop of `newDirFilter`: `none` is its "**".
unfoldable pub plus_paths : List Rule → List (Option RelPath)
unfolding has_wild rule_path
plus_paths [] = []
plus_paths (includes segments ∷ rules) =
    let prefix = rule_path segments in
    let rest = plus_paths rules in
    if prefix == [] || has_wild prefix then none ∷ [] else some prefix ∷ rest
plus_paths (excludes segments ∷ rules) = plus_paths rules
plus_paths (unusable ∷ rules) = plus_paths rules

-- Is a path the same as a longer one as far as it goes?
unfoldable pub is_prefix : RelPath → RelPath → Bool
is_prefix [] path = true
is_prefix (x ∷ xs) [] = false
is_prefix (x ∷ xs) (y ∷ ys) = (x == y) && is_prefix xs ys

-- `prefix == "**" || prefix == rel || strings.HasPrefix(prefix, rel+"/")`
unfoldable pub may_lead : RelPath → Option RelPath → Bool
unfolding is_prefix
may_lead rel none = true
may_lead [] (some prefix) = prefix == []
may_lead (x ∷ rel) (some prefix) = is_prefix (x ∷ rel) prefix

unfoldable pub any_leads : RelPath → List (Option RelPath) → Bool
unfolding may_lead
any_leads rel [] = false
any_leads rel (prefix ∷ plus) = may_lead rel prefix || any_leads rel plus

-- `newDirFilter`
unfoldable pub new_dir_filter : List Rule → DirFilter
unfolding plus_paths any_leads path_include_func
new_dir_filter rules = record {
  include = path_include_func rules;
  may_include = λ rel. any_leads rel (plus_paths rules);
}

-- `worthListing`
unfoldable pub worth_listing : DirFilter → RelPath → Bool
worth_listing filter rel = filter.include rel || filter.may_include rel
