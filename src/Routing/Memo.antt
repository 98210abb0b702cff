-- ===== src/Routing/Memo.antt =====
-- paths.go: the memo of the paths that calls name. The file system and git are parameters.
use gopls_mcp_manager.Prelude.{
  ℕ, ◌+◌, String, Bool, true, false, not, ◌&&◌, ◌||◌, Option, none, some, is_some, ltb, ℤ, reached,
  if◌then◌else◌, List, [], ◌∷◌, ◌++◌, length, ◌==◌, string_eq, nat_eq, contains, Map, lookup,
  insert,
}
use text.Mathlib.Text.{starts_with}

pub record PathMemo : Type 0 where
  pub worktree : String
  -- "" where it is as the client spelled it
  pub physical : String

-- `memoState` with the router's two maps; `expires` is `none` for the zero time.
pub record Memo : Type 0 where
  pub paths : Map String PathMemo
  pub worktrees : Map String String
  pub expires : Option ℕ
  pub generation : ℕ
  pub hits : ℕ
  pub misses : ℕ
  pub expirations : ℕ
  pub rollovers : ℕ
  pub aliased : Bool

abbrev pub no_memo : Memo
no_memo = record {
  paths = [];
  worktrees = [];
  expires = none;
  generation = 0;
  hits = 0;
  misses = 0;
  expirations = 0;
  rollovers = 0;
  aliased = false;
}

-- `pathArguments`
pub record PathArguments : Type 0 where
  pub file : String
  pub dir : String
  pub files : List String

-- `expireMemosLocked`
unfoldable pub expire_memos : ℕ → ℕ → Memo → Memo
expire_memos ttl now m = elim m.expires [
  | none ↦ record m { expires = some (now + ttl); generation = m.generation + 1 }
  | some expires ↦
      (if ltb now expires then m else record m {
        paths = [];
        worktrees = [];
        expirations = m.expirations + 1;
        expires = some (now + ttl);
        generation = m.generation + 1;
      })
]

-- `memoize`: the cache, and whether it was cleared.
unfoldable pub memoize {ℓ} : {V : Type ℓ} → ℤ → Map String V → String → V → Map String V × Bool
memoize entries cache key value =
    let full = not (is_some (lookup key cache)) && reached (length cache) entries in
    (insert key value (if full then [] else cache), full)

abbrev pub rolled : Bool → ℕ → ℕ
rolled cleared n = if cleared then n + 1 else n

-- The paths in the order in which both lookups take them.
abbrev pub all_paths : PathArguments → List String
all_paths args = args.file ∷ args.dir ∷ args.files

abbrev pub add_found : List String → String → List String
add_found found worktree =
    if worktree == "" || contains found worktree then found else found ++ worktree ∷ []

-- `filepath.IsAbs`
abbrev pub is_abs : String → Bool
is_abs path = starts_with path "/"

module _ (entries : ℤ) (ttl : ℕ) (containing_dir : String → String × String)
    (worktree_of_dir : String → Option String) where
  -- The end of `worktreeOf`: the answer is kept.
  unfoldable pub remember : String → String → String → String → Memo → Memo
  unfolding memoize
  remember path dir worktree physical m =
      let (worktrees, cleared) = memoize entries m.worktrees dir worktree in
      let (paths, dropped) =
        memoize entries m.paths path (record { worktree = worktree; physical = physical }) in
      record m {
        worktrees = worktrees;
        paths = paths;
        rollovers = rolled dropped (rolled cleared m.rollovers);
        aliased = m.aliased || not (physical == "");
      }

  -- `worktreeOf` after its lookup; `now` is the time then, and `cancelled` what the context says.
  unfoldable pub resolved :
      ℕ → Bool → Memo → String → String → String → Option String → String × Memo
  unfolding remember
  resolved now cancelled m path dir physical none = ("", m)
  resolved now cancelled m path dir physical (some worktree) =
      let m' = expire_memos ttl now m in
      let kept = remember path dir worktree physical m' in
      (worktree, if not cancelled && m.generation == m'.generation then kept else m')

  -- The lookup that `worktreeOf` makes for a directory.
  unfoldable pub lookup_dir : Memo → String → Option String
  lookup_dir m dir =
      if is_some (lookup dir m.worktrees) then lookup dir m.worktrees else worktree_of_dir dir

  unfoldable pub looked_up : ℕ → Bool → Memo → String → Option PathMemo → String × Memo
  unfolding resolved lookup_dir
  looked_up later cancelled m path (some memo) = (memo.worktree, m)
  looked_up later cancelled m path none =
      let (dir, spelled) = containing_dir path in
      let physical = if spelled == path then "" else spelled in
      resolved later cancelled m path dir physical (lookup_dir m dir)

  -- `worktreeOf`; `later` is the time after the lookup.
  unfoldable pub worktree_of : ℕ → ℕ → Bool → Memo → String → String × Memo
  unfolding looked_up
  worktree_of now later cancelled m path =
      let m' = expire_memos ttl now m in looked_up later cancelled m' path (lookup path m'.paths)

  -- `appendWorktreeOf`, while the context lives.
  unfoldable pub append_worktree_of : ℕ → ℕ → List String × Memo → String → List String × Memo
  unfolding worktree_of
  append_worktree_of now later (found, m) path =
      let (worktree, m') = worktree_of now later false m path in
      if is_abs path then (add_found found worktree, m') else (found, m)

  unfoldable pub append_all : ℕ → ℕ → List String × Memo → List String → List String × Memo
  unfolding append_worktree_of
  append_all now later s [] = s
  append_all now later s (path ∷ paths) =
      append_all now later (append_worktree_of now later s path) paths

  -- `toolCallWorktrees`
  unfoldable pub tool_call_worktrees : ℕ → ℕ → Memo → PathArguments → List String × Memo
  unfolding append_all
  tool_call_worktrees now later m args = append_all now later ([], m) (all_paths args)

  -- `appendMemoizedWorktree`
  unfoldable pub append_memoized : List String × Memo → String → (List String × Memo) × Bool
  append_memoized (found, m) path =
      if not (is_abs path) then ((found, m), true) else elim (lookup path m.paths) [
        | none ↦ ((found, record m { misses = m.misses + 1 }), false)
        | some memo ↦ (
          (
            if contains found memo.worktree then found else found ++ memo.worktree ∷ [],
            record m { hits = m.hits + 1 },
          ),
          true,
        )
      ]

  unfoldable pub append_cached : List String × Memo → List String → (List String × Memo) × Bool
  unfolding append_memoized
  append_cached s [] = (s, true)
  append_cached s (path ∷ paths) =
      let (s', known) = append_memoized s path in
      let rest = append_cached s' paths in if known then rest else (([], s'.1), false)

  -- `cachedWorktrees`
  unfoldable pub cached_worktrees : ℕ → Memo → PathArguments → (List String × Memo) × Bool
  unfolding append_cached
  cached_worktrees now m args = append_cached ([], expire_memos ttl now m) (all_paths args)

-- `physicalSpellings`, of one path: "" to leave it alone.
unfoldable pub physical_of : Memo → String → String
physical_of m path = elim (lookup path m.paths) [ none ↦ "" | some memo ↦ memo.physical ]

-- `files`: a clone with the spellings in place, `none` (nil) where no entry has one.
unfoldable pub physical_files : Memo → List String → Option (List String)
unfolding physical_of
physical_files m files =
    let spelled = respelled files in if any_physical files then some spelled else none
  where
    any_physical : List String → Bool
    any_physical [] = false
    any_physical (path ∷ files) = not (physical_of m path == "") || any_physical files

    respelled : List String → List String
    respelled [] = []
    respelled (path ∷ files) =
        (if physical_of m path == "" then path else physical_of m path) ∷ respelled files

-- `physicalSpellings`
unfoldable pub physical_spellings : Memo → PathArguments → String × String × Option (List String)
physical_spellings m args =
    (physical_of m args.file, physical_of m args.dir, physical_files m args.files)
