-- ===== src/Routing/Cached.antt =====
-- paths.go and routing.go: the memo of the paths against its bound and against a full lookup.
use gopls_mcp_manager.Prelude.{
  ℕ, ◌+◌, ◌≤◌, ◌<◌, String, Bool, true, false, not, ◌&&◌, ◌≡◌, refl, ap, inl, inr, Option, none,
  some, ℤ, pos, negsuc, pos_part, max, arith, if◌then◌else◌, List, [], ◌∷◌, ◌++◌, length, ◌==◌,
  string_eq, nat_eq, contains, Map, lookup, insert, Option-cases, if_cases, total-insert,
  length-total, weight, lookup-insert, Bool-cases,
}
use gopls_mcp_manager.Routing.Memo.{
  add_found, PathMemo, Memo, PathArguments, expire_memos, memoize, remember, resolved, lookup_dir,
  looked_up, worktree_of, append_worktree_of, append_all, all_paths, tool_call_worktrees,
  append_memoized, append_cached, cached_worktrees, is_abs,
}

-- Every path stands under a worktree with a name.
abbrev pub IsNamed : Map String PathMemo → Type 0
IsNamed paths =
    (path : String) (memo : PathMemo)
    → lookup path paths ≡ some memo
    → (memo.worktree == "") ≡ false

expire-twice :
    (ttl now : ℕ) (m : Memo)
    → 0 < ttl
    → expire_memos ttl now (expire_memos ttl now m) ≡ expire_memos ttl now m
unfolding expire_memos
expire-twice ttl now m h = ground arith

expire-paths :
    (ttl now : ℕ) (m : Memo) (path : String) (memo : PathMemo)
    → lookup path (expire_memos ttl now m).paths ≡ some memo
    → lookup path m.paths ≡ some memo
unfolding expire_memos lookup
expire-paths ttl now m path memo h = ground arith

module _ (entries : ℤ) (ttl : ℕ) (containing_dir : String → String × String)
    (worktree_of_dir : String → Option String) (now later : ℕ) (positive : 0 < ttl) where
  worktree_of-hit :
      (m : Memo) (path : String) (memo : PathMemo)
      → lookup path (expire_memos ttl now m).paths ≡ some memo
      → worktree_of entries ttl containing_dir worktree_of_dir now later false m path
        ≡ (memo.worktree, expire_memos ttl now m)
  unfolding worktree_of looked_up
  worktree_of-hit m path memo h = ground (arith, h)

  append_all-cached :
      (paths : List String) (found : List String) (m known : Memo)
      → (expire_memos ttl now m).paths ≡ known.paths
      → IsNamed known.paths
      → (append_cached entries ttl containing_dir worktree_of_dir (found, known) paths).1 ≡ true
      → (append_all entries ttl containing_dir worktree_of_dir now later (found, m) paths).0
        ≡ (append_cached entries ttl containing_dir worktree_of_dir (found, known) paths).0.0
  unfolding append_all append_cached append_worktree_of append_memoized
  append_all-cached [] found m known e named h = refl
  append_all-cached (path ∷ paths) found m known e named h = elim (Bool-cases (is_abs path)) [
    | inr relative ↦ ground (arith, relative, append_all-cached paths found m known e named)
    | inl absolute ↦ elim (Option-cases (lookup path known.paths)) [
      | inl missed ↦ ground (arith, absolute, missed)
      | inr (memo, held) ↦ ground (
        arith,
        absolute,
        held,
        named path memo held,
        e,
        worktree_of-hit m path memo,
        expire-twice ttl now m positive,
        ap (λ (x : Map String PathMemo). lookup path x) e,
        append_all-cached paths
            (if contains found memo.worktree then found else found ++ memo.worktree ∷ [])
            (expire_memos ttl now m) (record known { hits = known.hits + 1 }),
      )
    ]
  ]

-- Where the memo answers for all the paths of a call, and no path of the memo is without a worktree,
-- the full lookup at that time answers the same worktrees.
pub cached_worktrees-agrees :
    (entries : ℤ) (ttl : ℕ) (containing_dir : String → String × String)
    (worktree_of_dir : String → Option String) (now later : ℕ) (m : Memo) (args : PathArguments)
    → 0 < ttl
    → IsNamed m.paths
    → (cached_worktrees entries ttl containing_dir worktree_of_dir now m args).1 ≡ true
    → (tool_call_worktrees entries ttl containing_dir worktree_of_dir now later m args).0
      ≡ (cached_worktrees entries ttl containing_dir worktree_of_dir now m args).0.0
unfolding cached_worktrees tool_call_worktrees
cached_worktrees-agrees entries ttl containing_dir worktree_of_dir now later m args positive named
      h =
    append_all-cached entries ttl containing_dir worktree_of_dir now later positive (all_paths args)
      [] m (expire_memos ttl now m) refl
      (λ path memo e. named path memo (expire-paths ttl now m path memo e)) h

length-insert :
    {V : Type 0} (k : String) (v : V) (m : Map String V)
    → length (insert k v m) + weight (λ _. 1) (lookup k m) ≡ length m + 1
length-insert k v m =
    omega (arith, total-insert (λ _. 1) k v m, length-total m, length-total (insert k v m))

abbrev pub NamesWorktrees : Map String String → Type 0
NamesWorktrees worktrees =
    (dir worktree : String) → lookup dir worktrees ≡ some worktree → (worktree == "") ≡ false

-- A cache holds `CacheEntries` entries at most, and one where that is not positive.
abbrev pub bound : ℤ → ℕ
bound entries = max 1 (pos_part entries)

abbrev pub IsSound : ℤ → Memo → Type 0
IsSound entries m =
    (length m.paths ≤ bound entries)
    × (length m.worktrees ≤ bound entries)
    × IsNamed m.paths
    × NamesWorktrees m.worktrees

memoize-bound :
    {V : Type 0} (entries : ℤ) (cache : Map String V) (key : String) (value : V)
    → length cache ≤ bound entries
    → length (memoize entries cache key value).0 ≤ bound entries
unfolding memoize
memoize-bound (pos n) cache key value h =
    ground (arith, length-insert key value cache, length-insert key value [])
memoize-bound (negsuc n) cache key value h =
    ground (arith, length-insert key value cache, length-insert key value [])

memoize-IsNamed :
    (entries : ℤ) (paths : Map String PathMemo) (path : String) (memo : PathMemo)
    → (memo.worktree == "") ≡ false
    → IsNamed paths
    → IsNamed (memoize entries paths path memo).0
unfolding memoize lookup
memoize-IsNamed entries paths path memo h named p x e =
    ground (arith, lookup-insert path p memo paths, lookup-insert path p memo [], named p x)

memoize-NamesWorktrees :
    (entries : ℤ) (worktrees : Map String String) (dir worktree : String)
    → (worktree == "") ≡ false
    → NamesWorktrees worktrees
    → NamesWorktrees (memoize entries worktrees dir worktree).0
unfolding memoize lookup
memoize-NamesWorktrees entries worktrees dir worktree h named d x e =
    ground
      (arith, lookup-insert dir d worktree worktrees, lookup-insert dir d worktree [], named d x)

expire-worktrees :
    (ttl now : ℕ) (m : Memo) (dir worktree : String)
    → lookup dir (expire_memos ttl now m).worktrees ≡ some worktree
    → lookup dir m.worktrees ≡ some worktree
unfolding expire_memos lookup
expire-worktrees ttl now m dir worktree h = ground arith

expire_memos-IsSound :
    (entries : ℤ) (ttl now : ℕ) (m : Memo)
    → IsSound entries m
    → IsSound entries (expire_memos ttl now m)
expire_memos-IsSound entries ttl now m h = (
  unfold expire_memos in ground (arith, h.0),
  unfold expire_memos in ground (arith, h.1),
  (λ path memo e. h.2 path memo (expire-paths ttl now m path memo e)),
  (λ dir worktree e. h.3 dir worktree (expire-worktrees ttl now m dir worktree e)),
)

module _ (entries : ℤ) (ttl : ℕ) (containing_dir : String → String × String)
    (worktree_of_dir : String → Option String)
    (git_names : (dir worktree : String)
      → worktree_of_dir dir ≡ some worktree
      → (worktree == "") ≡ false) where
  remember-IsSound :
      (path dir worktree physical : String) (m : Memo)
      → (worktree == "") ≡ false
      → IsSound entries m
      → IsSound entries
          (remember entries ttl containing_dir worktree_of_dir path dir worktree physical m)
  unfolding remember
  remember-IsSound path dir worktree physical m w h = (
    memoize-bound entries m.paths path (record { worktree = worktree; physical = physical }) h.0,
    memoize-bound entries m.worktrees dir worktree h.1,
    memoize-IsNamed entries m.paths path (record { worktree = worktree; physical = physical }) w
        h.2,
    memoize-NamesWorktrees entries m.worktrees dir worktree w h.3,
  )

  resolved-IsSound :
      (now : ℕ) (cancelled : Bool) (m : Memo) (path dir physical : String) (o : Option String)
      → ((w : String) → o ≡ some w → (w == "") ≡ false)
      → IsSound entries m
      → IsSound entries
          (resolved entries ttl containing_dir worktree_of_dir now cancelled m path dir physical
            o).1
  unfolding resolved
  resolved-IsSound now cancelled m path dir physical none n h = h
  resolved-IsSound now cancelled m path dir physical (some w) n h =
      let m' = expire_memos ttl now m in
      let sound = expire_memos-IsSound entries ttl now m h in
      if_cases (IsSound entries) (not cancelled && m.generation == m'.generation)
        (remember entries ttl containing_dir worktree_of_dir path dir w physical m') m'
        (λ _. remember-IsSound path dir w physical m' (n w refl) sound) (λ _. sound)

  lookup_dir-named :
      (m : Memo) (dir w : String)
      → IsSound entries m
      → lookup_dir entries ttl containing_dir worktree_of_dir m dir ≡ some w
      → (w == "") ≡ false
  unfolding lookup_dir
  lookup_dir-named m dir w h e = ground (arith, h.3 dir w, git_names dir w)

  looked_up-IsSound :
      (later : ℕ) (cancelled : Bool) (m : Memo) (path : String) (o : Option PathMemo)
      → IsSound entries m
      → IsSound entries
          (looked_up entries ttl containing_dir worktree_of_dir later cancelled m path o).1
  unfolding looked_up
  looked_up-IsSound later cancelled m path (some memo) h = h
  looked_up-IsSound later cancelled m path none h =
      let (dir, spelled) = containing_dir path in
      resolved-IsSound later cancelled m path dir (if spelled == path then "" else spelled)
        (lookup_dir entries ttl containing_dir worktree_of_dir m dir)
        (λ w e. lookup_dir-named m dir w h e) h

  worktree_of-IsSound :
      (now later : ℕ) (cancelled : Bool) (m : Memo) (path : String)
      → IsSound entries m
      → IsSound entries
          (worktree_of entries ttl containing_dir worktree_of_dir now later cancelled m path).1
  unfolding worktree_of
  worktree_of-IsSound now later cancelled m path h =
      let m' = expire_memos ttl now m in
      looked_up-IsSound later cancelled m' path (lookup path m'.paths)
        (expire_memos-IsSound entries ttl now m h)

  append_all-IsSound :
      (now later : ℕ) (paths : List String) (s : List String × Memo)
      → IsSound entries s.1
      → IsSound entries (append_all entries ttl containing_dir worktree_of_dir now later s paths).1
  unfolding append_all append_worktree_of
  append_all-IsSound now later [] s h = h
  append_all-IsSound now later (path ∷ paths) (found, m) h =
      let (worktree, m') =
        worktree_of entries ttl containing_dir worktree_of_dir now later false m path in
      append_all-IsSound now later paths
        (if is_abs path then (add_found found worktree, m') else (found, m))
        (if_cases (λ (s : List String × Memo). IsSound entries s.1) (is_abs path)
          (add_found found worktree, m') (found, m)
          (λ _. worktree_of-IsSound now later false m path h) (λ _. h))

-- Where git never answers an empty name, a lookup of a call's worktrees keeps both caches within
-- their bound and no entry of them without a name.
pub tool_call_worktrees-IsSound :
    (entries : ℤ) (ttl : ℕ) (containing_dir : String → String × String)
    (worktree_of_dir : String → Option String) (now later : ℕ) (m : Memo) (args : PathArguments)
    → ((dir worktree : String) → worktree_of_dir dir ≡ some worktree → (worktree == "") ≡ false)
    → IsSound entries m
    → IsSound entries
        (tool_call_worktrees entries ttl containing_dir worktree_of_dir now later m args).1
unfolding tool_call_worktrees
tool_call_worktrees-IsSound entries ttl containing_dir worktree_of_dir now later m args git_names
      h =
    append_all-IsSound entries ttl containing_dir worktree_of_dir git_names now later
      (all_paths args) ([], m) h
