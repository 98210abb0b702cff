-- ===== src/Config/Valid.antt =====
-- Which limits a configuration may have.
use gopls_mcp_manager.Prelude.{
  String, true, false, ◌≡◌, Option, none, some, List, [], ◌∷◌, ℤ, pos, is_positive, ◌==◌, string_eq,
  arith, Bool-cases, inl, inr, if_cases,
}
use gopls_mcp_manager.Config.{Limits, default, with_defaults}
use gopls_mcp_manager.Config.Environment.{
  Setting, Loaded, loaded, invalid, and_then, set_target, is_below, int_value, load_int, load_ints,
  execution_value, load_execution, cache_ttl_value, load_cache_ttl, check_budgets, load_filters,
  filters_value, from_env, int_settings, max_outstanding, max_outstanding_per_lane, max_lanes,
  max_cache_entries, max_message_bytes, http_body_budget, sse_buffer_budget, max_servers,
  log_trim_bytes, max_open_files, execution_timeout, cache_ttl_setting, metrics_setting,
  directory_filters_setting,
}

-- Each bound that a router or a registry takes at face value is positive.
abbrev pub IsPositive : Limits → Type 0
IsPositive l =
    (is_positive l.per_lane ≡ true)
    × (is_positive l.session ≡ true)
    × (is_positive l.lanes ≡ true)
    × (is_positive l.cache_entries ≡ true)
    × (is_positive l.cache_ttl ≡ true)
    × (is_positive l.message_bytes ≡ true)
    × (is_positive l.http_bytes ≡ true)
    × (is_positive l.sse_bytes ≡ true)
    × (is_positive l.shared_servers ≡ true)
    × (is_positive l.log_bytes ≡ true)
    × (is_positive l.open_files ≡ true)

with_defaults-IsPositive : (l : Limits) → IsPositive (with_defaults l)
unfolding with_defaults
with_defaults-IsPositive l = ground arith

with_defaults-same : (l : Limits) → IsPositive l → with_defaults l ≡ l
unfolding with_defaults
with_defaults-same l h = ground (arith, h)

-- `WithDefaults` answers limits that are positive, and changes no limits that are.
pub with_defaults-normal :
    (l : Limits) → IsPositive (with_defaults l) × (IsPositive l → with_defaults l ≡ l)
with_defaults-normal l = (with_defaults-IsPositive l, with_defaults-same l)

-- What `FromEnv` sees to: each bound is positive, the execution timeout is not negative, and each
-- byte budget holds one message of the maximum size.
abbrev pub IsValid : Limits → Type 0
IsValid l =
    IsPositive l
    × (is_below l.execution (pos 0) ≡ false)
    × (is_below l.http_bytes l.message_bytes ≡ false)
    × (is_below l.sse_bytes l.message_bytes ≡ false)

-- A property of the limits, where there are any.
abbrev Holds : (Limits → Type 0) → Loaded → Type 0
Holds P (loaded l) = P l
Holds P (invalid e) = Unit

abbrev HasBounds : Limits → Type 0
HasBounds l = IsPositive l × (is_below l.execution (pos 0) ≡ false)

and_then-Holds :
    (P Q : Limits → Type 0) (x : Loaded) (f : Limits → Loaded)
    → Holds P x
    → ((l : Limits) → P l → Holds Q (f l))
    → Holds Q (and_then x f)
and_then-Holds P Q (loaded l) f h k = k l h
and_then-Holds P Q (invalid e) f h k = tt

module _ (env : Setting → String) (read_int read_duration : String → Option ℤ)
    (parse_filters : String → Option (List String)) where
  set_target-HasBounds :
      (s : Setting) (n : ℤ) (l : Limits)
      → is_positive n ≡ true
      → HasBounds l
      → HasBounds (set_target s n l)
  set_target-HasBounds max_outstanding n l p h = ground (arith, h, p)
  set_target-HasBounds max_outstanding_per_lane n l p h = ground (arith, h, p)
  set_target-HasBounds max_lanes n l p h = ground (arith, h, p)
  set_target-HasBounds max_cache_entries n l p h = ground (arith, h, p)
  set_target-HasBounds max_message_bytes n l p h = ground (arith, h, p)
  set_target-HasBounds http_body_budget n l p h = ground (arith, h, p)
  set_target-HasBounds sse_buffer_budget n l p h = ground (arith, h, p)
  set_target-HasBounds max_servers n l p h = ground (arith, h, p)
  set_target-HasBounds log_trim_bytes n l p h = ground (arith, h, p)
  set_target-HasBounds max_open_files n l p h = ground (arith, h, p)
  set_target-HasBounds execution_timeout n l p h = ground (arith, h, p)
  set_target-HasBounds cache_ttl_setting n l p h = ground (arith, h, p)
  set_target-HasBounds metrics_setting n l p h = ground (arith, h, p)
  set_target-HasBounds directory_filters_setting n l p h = ground (arith, h, p)

  int_value-Holds :
      (s : Setting) (l : Limits) (o : Option ℤ)
      → HasBounds l
      → Holds HasBounds (int_value env read_int read_duration parse_filters s l o)
  int_value-Holds s l none h = tt
  int_value-Holds s l (some n) h = elim (Bool-cases (is_positive n)) [
    | inl p ↦ rw p (set_target-HasBounds s n l p h)
    | inr p ↦ rw p tt
  ]

  load_int-Holds :
      (s : Setting) (l : Limits)
      → HasBounds l
      → Holds HasBounds (load_int env read_int read_duration parse_filters s l)
  unfolding load_int
  load_int-Holds s l h =
      if_cases (Holds HasBounds) (env s == "") (loaded l)
        (int_value env read_int read_duration parse_filters s l (read_int (env s))) (λ _. h)
        (λ _. int_value-Holds s l (read_int (env s)) h)

  load_ints-Holds :
      (settings : List Setting) (l : Limits)
      → HasBounds l
      → Holds HasBounds (load_ints env read_int read_duration parse_filters settings l)
  unfolding load_ints
  load_ints-Holds [] l h = h
  load_ints-Holds (s ∷ settings) l h =
      and_then-Holds HasBounds HasBounds (load_int env read_int read_duration parse_filters s l)
        (load_ints env read_int read_duration parse_filters settings) (load_int-Holds s l h)
        (λ l'. load_ints-Holds settings l')

  execution_value-Holds :
      (l : Limits) (o : Option ℤ)
      → HasBounds l
      → Holds HasBounds (execution_value env read_int read_duration parse_filters l o)
  execution_value-Holds l none h = tt
  execution_value-Holds l (some n) h = elim (Bool-cases (is_below n (pos 0))) [
    | inl p ↦ rw p tt
    | inr p ↦ rw p (h.0, p)
  ]

  load_execution-Holds :
      (l : Limits)
      → HasBounds l
      → Holds HasBounds (load_execution env read_int read_duration parse_filters l)
  unfolding load_execution
  load_execution-Holds l h =
      if_cases (Holds HasBounds) (env execution_timeout == "") (loaded l)
        (execution_value env read_int read_duration parse_filters l
          (read_duration (env execution_timeout)))
        (λ _. h) (λ _. execution_value-Holds l (read_duration (env execution_timeout)) h)

  cache_ttl_value-Holds :
      (l : Limits) (o : Option ℤ)
      → HasBounds l
      → Holds HasBounds (cache_ttl_value env read_int read_duration parse_filters l o)
  cache_ttl_value-Holds l none h = tt
  cache_ttl_value-Holds l (some n) h = elim (Bool-cases (is_positive n)) [
    | inl p ↦ rw p (ground (arith, h, p))
    | inr p ↦ rw p tt
  ]

  load_cache_ttl-Holds :
      (l : Limits)
      → HasBounds l
      → Holds HasBounds (load_cache_ttl env read_int read_duration parse_filters l)
  unfolding load_cache_ttl
  load_cache_ttl-Holds l h =
      if_cases (Holds HasBounds) (env cache_ttl_setting == "") (loaded l)
        (cache_ttl_value env read_int read_duration parse_filters l
          (read_duration (env cache_ttl_setting)))
        (λ _. h) (λ _. cache_ttl_value-Holds l (read_duration (env cache_ttl_setting)) h)

  check_budgets-Holds :
      (l : Limits)
      → HasBounds l
      → Holds IsValid (check_budgets env read_int read_duration parse_filters l)
  unfolding check_budgets
  check_budgets-Holds l h = elim (Bool-cases (is_below l.http_bytes l.message_bytes)) [
    | inl p ↦ rw p tt
    | inr p ↦ rw p (elim (Bool-cases (is_below l.sse_bytes l.message_bytes)) [
      | inl q ↦ rw q tt
      | inr q ↦ rw q (h.0, h.1, p, q)
    ])
  ]

  filters_value-Holds :
      (l : Limits) (o : Option (List String))
      → IsValid l
      → Holds IsValid (filters_value env read_int read_duration parse_filters l o)
  filters_value-Holds l none h = tt
  filters_value-Holds l (some filters) h = h

  load_filters-Holds :
      (l : Limits)
      → IsValid l
      → Holds IsValid (load_filters env read_int read_duration parse_filters l)
  unfolding load_filters
  load_filters-Holds l h =
      filters_value-Holds (record l { metrics = env metrics_setting == "1" })
        (parse_filters (env directory_filters_setting)) h

  from_env-Holds : Holds IsValid (from_env env read_int read_duration parse_filters)
  unfolding from_env
  from_env-Holds =
      and_then-Holds HasBounds IsValid
        (load_ints env read_int read_duration parse_filters int_settings default)
        (λ l. and_then (load_execution env read_int read_duration parse_filters l) (λ l'.
          and_then (load_cache_ttl env read_int read_duration parse_filters l') (λ l''.
            and_then (check_budgets env read_int read_duration parse_filters l'')
              (load_filters env read_int read_duration parse_filters))))
        (load_ints-Holds int_settings default (ground arith))
        (λ l h.
          and_then-Holds HasBounds IsValid
            (load_execution env read_int read_duration parse_filters l)
            (λ l'. and_then (load_cache_ttl env read_int read_duration parse_filters l') (λ l''.
              and_then (check_budgets env read_int read_duration parse_filters l'')
                (load_filters env read_int read_duration parse_filters)))
            (load_execution-Holds l h)
            (λ l' h'.
              and_then-Holds HasBounds IsValid
                (load_cache_ttl env read_int read_duration parse_filters l')
                (λ l''.
                  and_then (check_budgets env read_int read_duration parse_filters l'')
                    (load_filters env read_int read_duration parse_filters))
                (load_cache_ttl-Holds l' h')
                (λ l'' h''.
                  and_then-Holds IsValid IsValid
                    (check_budgets env read_int read_duration parse_filters l'')
                    (load_filters env read_int read_duration parse_filters)
                    (check_budgets-Holds l'' h'') load_filters-Holds)))

-- Limits that `FromEnv` answers are valid: each bound is positive, the execution timeout is not
-- negative, and each byte budget holds one message of the maximum size. `WithDefaults` leaves them
-- as they are.
pub from_env-IsValid :
    (env : Setting → String) (read_int read_duration : String → Option ℤ)
    (parse_filters : String → Option (List String)) (l : Limits)
    → from_env env read_int read_duration parse_filters ≡ loaded l
    → IsValid l × (with_defaults l ≡ l)
from_env-IsValid env read_int read_duration parse_filters l h =
    let valid : IsValid l = rw h at (from_env-Holds env read_int read_duration parse_filters) in
    (valid, with_defaults-same l valid.0)
