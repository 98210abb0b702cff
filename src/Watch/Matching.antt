-- ===== src/Watch/Matching.antt =====
-- What the compiled rules match.
use gopls_mcp_manager.Prelude.{
  String, Bool, true, false, ◌||◌, List, [], ◌∷◌, ◌++◌, ◌==◌, string_eq, list_eq, ◌≡◌, refl, ap,
  ◌⊎◌, inl, inr, ◌↔◌, arith, Bool-cases, ==-sound, ==-refl, &&-true,
}
use gopls_mcp_manager.Watch.Filters.{
  RelPath, Piece, wild, quoted, pieces, anchored, floating, trimmed, compile, match_from,
  match_anywhere, match_string,
}

-- What a rule's pieces stand for: a name for itself, a wild piece for one segment or more.
pub data Denotes : List Piece → RelPath → Type 0 where
  end : Denotes [] []
  name :
      {ps : List Piece} {xs : RelPath} (seg : String)
      → Denotes ps xs
      → Denotes (quoted seg ∷ ps) (seg ∷ xs)
  last :
      {ps : List Piece} {xs : RelPath} (seg : String)
      → Denotes ps xs
      → Denotes (wild ∷ ps) (seg ∷ xs)
  more :
      {ps : List Piece} {xs : RelPath} (seg : String)
      → Denotes (wild ∷ ps) xs
      → Denotes (wild ∷ ps) (seg ∷ xs)

-- A path that the pieces stand for, or that is below one.
abbrev pub Below : List Piece → RelPath → Type 0
Below ps path = (xs : RelPath) × (ys : RelPath) × (path ≡ xs ++ ys) × Denotes ps xs

Below-name :
    (seg : String) (ps : List Piece) (path : RelPath)
    → Below ps path
    → Below (quoted seg ∷ ps) (seg ∷ path)
Below-name seg ps path (xs, ys, e, d) = (seg ∷ xs, ys, ap (◌∷◌ seg) e, name seg d)

Below-last :
    (seg : String) (ps : List Piece) (path : RelPath)
    → Below ps path
    → Below (wild ∷ ps) (seg ∷ path)
Below-last seg ps path (xs, ys, e, d) = (seg ∷ xs, ys, ap (◌∷◌ seg) e, last seg d)

Below-more :
    (seg : String) (ps : List Piece) (path : RelPath)
    → Below (wild ∷ ps) path
    → Below (wild ∷ ps) (seg ∷ path)
Below-more seg ps path (xs, ys, e, d) = (seg ∷ xs, ys, ap (◌∷◌ seg) e, more seg d)

||-cases : (a b : Bool) → (a || b) ≡ true → (a ≡ true) ⊎ (b ≡ true)
||-cases true b h = inl refl
||-cases false b h = inr h

match_from-Below : (ps : List Piece) (path : RelPath) → match_from ps path ≡ true → Below ps path
unfolding match_from
match_from-Below [] path h = ([], path, refl, end)
match_from-Below (wild ∷ ps) [] h = cc
match_from-Below (wild ∷ ps) (x ∷ path) h =
    elim (||-cases (match_from ps path) (match_from (wild ∷ ps) path) h) [
      | inl here ↦ Below-last x ps path (match_from-Below ps path here)
      | inr later ↦ Below-more x ps path (match_from-Below (wild ∷ ps) path later)
    ]
match_from-Below (quoted seg ∷ ps) [] h = cc
match_from-Below (quoted seg ∷ ps) (x ∷ path) h = elim (Bool-cases (seg == x)) [
  | inl same ↦
      rw⁻¹ (==-sound seg x same)
        (Below-name seg ps path (match_from-Below ps path ((&&-true (seg == x) _ h).1)))
  | inr other ↦ absurd (ground (arith, h))
]

Denotes-match_from :
    {ps : List Piece} {xs : RelPath} (ys : RelPath)
    → Denotes ps xs
    → match_from ps (xs ++ ys) ≡ true
unfolding match_from
Denotes-match_from ys end = refl
Denotes-match_from ys (name seg d) = rw (==-refl, Denotes-match_from ys d) refl
Denotes-match_from ys (last seg d) = rw (Denotes-match_from ys d) refl
Denotes-match_from ys (more seg d) = ground (arith, Denotes-match_from ys d)

match_from_iff : (ps : List Piece) (path : RelPath) → (match_from ps path ≡ true) ↔ Below ps path
match_from_iff ps path =
    (match_from-Below ps path, λ (xs, ys, e, d). rw e (Denotes-match_from ys d))

-- A path that ends in one below the pieces.
abbrev pub Inside : List Piece → RelPath → Type 0
Inside ps path =
    (before : RelPath) × (inside : RelPath) × (path ≡ before ++ inside) × Below ps inside

match_anywhere-Inside :
    (ps : List Piece) (path : RelPath) → match_anywhere ps path ≡ true → Inside ps path
unfolding match_anywhere
match_anywhere-Inside ps [] h = ([], [], refl, match_from-Below ps [] h)
match_anywhere-Inside ps (x ∷ path) h =
    elim (||-cases (match_from ps (x ∷ path)) (match_anywhere ps path) h) [
      | inl here ↦ ([], x ∷ path, refl, match_from-Below ps (x ∷ path) here)
      | inr later ↦
          (let (before, inside, e, below) = match_anywhere-Inside ps path later in
            (x ∷ before, inside, ap (◌∷◌ x) e, below))
    ]

match_anywhere_here :
    (ps : List Piece) (path : RelPath) → match_from ps path ≡ true → match_anywhere ps path ≡ true
unfolding match_anywhere
match_anywhere_here ps [] h = h
match_anywhere_here ps (x ∷ path) h = rw h refl

Inside-match_anywhere :
    (ps : List Piece) (before inside : RelPath)
    → match_from ps inside ≡ true
    → match_anywhere ps (before ++ inside) ≡ true
unfolding match_anywhere
Inside-match_anywhere ps [] inside h = match_anywhere_here ps inside h
Inside-match_anywhere ps (x ∷ before) inside h =
    ground (arith, Inside-match_anywhere ps before inside h)

-- The paths that a rule's path names: all, those from its first segment on, or, where that is wild, those
-- at any depth.
pub data Names : RelPath → RelPath → Type 0 where
  all : {path : RelPath} → Names [] path
  from_root :
      {rest path : RelPath} (seg : String)
      → (seg == "**") ≡ false
      → Below (pieces (seg ∷ rest)) path
      → Names (seg ∷ rest) path
  at_any_depth :
      {rest path : RelPath} (seg : String)
      → (seg == "**") ≡ true
      → Inside (pieces rest) path
      → Names (seg ∷ rest) path

pub compile_plain :
    (seg : String) (rest : RelPath)
    → (seg == "**") ≡ false
    → compile (seg ∷ rest) ≡ anchored (pieces (seg ∷ rest))
unfolding compile trimmed
compile_plain seg rest plain = rw plain refl

compile_wild :
    (seg : String) (rest : RelPath)
    → (seg == "**") ≡ true
    → compile (seg ∷ rest) ≡ floating (pieces rest)
unfolding compile trimmed
compile_wild seg rest wildcard = rw wildcard refl

match_string-Names :
    (rule path : RelPath) → match_string (compile rule) path ≡ true → Names rule path
unfolding match_string
match_string-Names [] path h = all
match_string-Names (seg ∷ rest) path h = elim (Bool-cases (seg == "**")) [
  | inl wildcard ↦
      at_any_depth seg wildcard
        (match_anywhere-Inside (pieces rest) path (rw (compile_wild seg rest wildcard) at h))
  | inr plain ↦
      from_root seg plain
        (match_from-Below (pieces (seg ∷ rest)) path (rw (compile_plain seg rest plain) at h))
]

Names-match_string :
    {rule path : RelPath} → Names rule path → match_string (compile rule) path ≡ true
unfolding match_string
Names-match_string all = unfold compile in refl
Names-match_string (from_root {rest = rest} {path = path} seg plain below) =
    rw (compile_plain seg rest plain) ((match_from_iff (pieces (seg ∷ rest)) path).1 below)
Names-match_string (at_any_depth {rest = rest} seg wildcard (before, inside, e, below)) =
    rw (compile_wild seg rest wildcard, e)
      (Inside-match_anywhere (pieces rest) before inside
        ((match_from_iff (pieces rest) inside).1 below))

-- The compiled rule matches exactly the paths that it names: from its first segment on, or at any
-- depth where that is `**`, the path that it spells and all below it, where a later `**` stands for
-- one segment or more.
pub match_string_iff :
    (rule path : RelPath) → (match_string (compile rule) path ≡ true) ↔ Names rule path
match_string_iff rule path = (match_string-Names rule path, λ n. Names-match_string n)
