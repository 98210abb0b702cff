-- ===== src/Watch/Pruning.antt =====
-- What `mayInclude` rules out, nothing below an excluded directory needs.
use gopls_mcp_manager.Prelude.{
  String, Bool, true, false, some, List, [], ◌∷◌, ◌++◌, ◌==◌, string_eq, list_eq, ◌≡◌, refl, inl,
  inr, arith, Bool-cases,
}
use gopls_mcp_manager.Watch.Filters.{
  RelPath, Rule, includes, excludes, unusable, rule_path, Piece, wild, quoted, pieces, Pattern,
  everything, anchored, floating, compile, match_from, match_anywhere, match_string, has_wild,
  is_prefix, judge, path_include_func, plus_paths, may_lead, any_leads, new_dir_filter,
}
use gopls_mcp_manager.Watch.Matching.{compile_plain}

match_from-below :
    (ps : List Piece) (path ys : RelPath)
    → match_from ps path ≡ true
    → match_from ps (path ++ ys) ≡ true
unfolding match_from
match_from-below [] path ys h = refl
match_from-below (wild ∷ ps) [] ys h = cc
match_from-below (wild ∷ ps) (x ∷ path) ys h =
    ground (arith, match_from-below ps path ys, match_from-below (wild ∷ ps) path ys)
match_from-below (quoted seg ∷ ps) [] ys h = cc
match_from-below (quoted seg ∷ ps) (x ∷ path) ys h = ground (arith, match_from-below ps path ys)

match_anywhere-from :
    (ps : List Piece) (path : RelPath) → match_from ps path ≡ true → match_anywhere ps path ≡ true
unfolding match_anywhere
match_anywhere-from ps [] h = h
match_anywhere-from ps (x ∷ path) h = rw h refl

match_anywhere-below :
    (ps : List Piece) (path ys : RelPath)
    → match_anywhere ps path ≡ true
    → match_anywhere ps (path ++ ys) ≡ true
unfolding match_anywhere
match_anywhere-below ps [] ys h = match_anywhere-from ps ys (match_from-below ps [] ys h)
match_anywhere-below ps (x ∷ path) ys h =
    ground (arith, match_from-below ps (x ∷ path) ys, match_anywhere-below ps path ys)

-- A rule that matches a path matches all below it.
pub match_string-below :
    (p : Pattern) (path ys : RelPath)
    → match_string p path ≡ true
    → match_string p (path ++ ys) ≡ true
unfolding match_string
match_string-below everything path ys h = refl
match_string-below (anchored ps) path ys h = match_from-below ps path ys h
match_string-below (floating ps) path ys h = match_anywhere-below ps path ys h

match_from-is_prefix :
    (p path : RelPath) → has_wild p ≡ false → match_from (pieces p) path ≡ is_prefix p path
unfolding match_from is_prefix has_wild
match_from-is_prefix [] path h = refl
match_from-is_prefix (seg ∷ p) [] h = ground (arith, h)
match_from-is_prefix (seg ∷ p) (x ∷ path) h = ground (arith, h, match_from-is_prefix p path)

-- A rule without a wild segment matches its path and all below.
pub match_string-is_prefix :
    (seg : String) (p path : RelPath)
    → has_wild (seg ∷ p) ≡ false
    → match_string (compile (seg ∷ p)) path ≡ is_prefix (seg ∷ p) path
unfolding match_string
match_string-is_prefix seg p path h =
    rw (compile_plain seg p (unfold has_wild in ground (arith, h)))
      (match_from-is_prefix (seg ∷ p) path h)

prefix_of_both :
    (p rel more : RelPath)
    → is_prefix p (rel ++ more) ≡ true
    → is_prefix p rel ≡ false
    → is_prefix rel p ≡ true
unfolding is_prefix
prefix_of_both [] rel more h n = cc
prefix_of_both (x ∷ p) [] more h n = refl
prefix_of_both (x ∷ p) (y ∷ rel) more h n =
    ground (arith, h, n, prefix_of_both p rel more, string_eq.same_iff x y, string_eq.same_iff y x)

-- A rule that leads nowhere from a path matches nothing below it that it does not match itself.
leads_nowhere :
    (p : RelPath) (x : String) (rel more : RelPath)
    → (p == []) ≡ false
    → has_wild p ≡ false
    → may_lead (x ∷ rel) (some p) ≡ false
    → match_string (compile p) (x ∷ rel) ≡ false
    → match_string (compile p) (x ∷ (rel ++ more)) ≡ false
unfolding may_lead
leads_nowhere [] x rel more e w l m = cc
leads_nowhere (seg ∷ p) x rel more e w l m =
    elim (Bool-cases (match_string (compile (seg ∷ p)) (x ∷ (rel ++ more)))) [
      | inr misses ↦ misses
      | inl matches ↦
          (let matched = rw (match_string-is_prefix seg p (x ∷ (rel ++ more)) w) at matches in
            let unmatched = rw (match_string-is_prefix seg p (x ∷ rel) w) at m in
            absurd (ground (arith, prefix_of_both (seg ∷ p) (x ∷ rel) more matched unmatched, l)))
    ]

module _ (x : String) (rel more : RelPath) where
  plus_includes :
      (segments : List String) (rules : List Rule)
      → any_leads (x ∷ rel) (plus_paths (includes segments ∷ rules)) ≡ false
      → ((rule_path segments == []) ≡ false)
        × (has_wild (rule_path segments) ≡ false)
        × (may_lead (x ∷ rel) (some (rule_path segments)) ≡ false)
        × (any_leads (x ∷ rel) (plus_paths rules) ≡ false)
  unfolding plus_paths any_leads may_lead
  plus_includes segments rules n = ground (arith, n)

  judge_pruned :
      (rules : List Rule) (inner outer : Bool)
      → any_leads (x ∷ rel) (plus_paths rules) ≡ false
      → (inner ≡ true → outer ≡ true)
      → judge rules (x ∷ (rel ++ more)) inner ≡ true
      → judge rules (x ∷ rel) outer ≡ true
  unfolding judge plus_paths any_leads
  judge_pruned [] inner outer n le h = le h
  judge_pruned (unusable ∷ rules) inner outer n le h = judge_pruned rules inner outer n le h
  judge_pruned (excludes segments ∷ rules) inner outer n le h =
      judge_pruned rules _ _ n
        (ground (arith, le, match_string-below (compile (rule_path segments)) (x ∷ rel) more)) h
  judge_pruned (includes segments ∷ rules) inner outer n le h =
      let (e, w, l, rest) = plus_includes segments rules n in
      judge_pruned rules _ _ rest
        (ground (arith, le, leads_nowhere (rule_path segments) x rel more e w l)) h

  -- Where a directory is excluded and `mayInclude` answers no, nothing below it is included.
  pub new_dir_filter-prunes :
      (rules : List Rule)
      → (new_dir_filter rules).include (x ∷ rel) ≡ false
      → (new_dir_filter rules).may_include (x ∷ rel) ≡ false
      → (new_dir_filter rules).include (x ∷ (rel ++ more)) ≡ false
  unfolding new_dir_filter path_include_func
  new_dir_filter-prunes rules excluded pruned =
      ground (arith, excluded, judge_pruned rules true true pruned (λ h. h))
