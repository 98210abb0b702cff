-- ===== src/Config/Environment.antt =====
-- internal/config/limits.go: `FromEnv`. `parse_filters` is `ParseDirectoryFilters`.
use gopls_mcp_manager.Prelude.{
  String, Bool, true, false, Option, none, some, List, [], ◌∷◌, ℤ, pos, negsuc, is_positive, ltb,
  if◌then◌else◌, ◌==◌, string_eq,
}
use gopls_mcp_manager.Config.{Limits, default}

-- The environment's settings; "" is one that is not set. `read_int` is `strconv.Atoi` and `read_duration` is
-- `time.ParseDuration`, `none` on an error.
pub data Setting : Type 0 where
  max_outstanding max_outstanding_per_lane max_lanes max_cache_entries max_message_bytes : Setting
  http_body_budget sse_buffer_budget max_servers log_trim_bytes max_open_files : Setting
  execution_timeout cache_ttl_setting metrics_setting directory_filters_setting : Setting

pub data Invalid : Type 0 where
  not_positive not_a_duration too_small : Setting → Invalid
  bad_filters : Invalid

-- `limits` as the error leaves them are not used by its caller.
pub data Loaded : Type 0 where
  loaded : Limits → Loaded
  invalid : Invalid → Loaded

abbrev pub and_then : Loaded → (Limits → Loaded) → Loaded
and_then (loaded l) f = f l
and_then (invalid e) f = invalid e

-- `target` of each integer setting.
abbrev pub set_target : Setting → ℤ → Limits → Limits
set_target max_outstanding n l = record l { session = n }
set_target max_outstanding_per_lane n l = record l { per_lane = n }
set_target max_lanes n l = record l { lanes = n }
set_target max_cache_entries n l = record l { cache_entries = n }
set_target max_message_bytes n l = record l { message_bytes = n }
set_target http_body_budget n l = record l { http_bytes = n }
set_target sse_buffer_budget n l = record l { sse_bytes = n }
set_target max_servers n l = record l { shared_servers = n }
set_target log_trim_bytes n l = record l { log_bytes = n }
set_target max_open_files n l = record l { open_files = n }
set_target other n l = l

abbrev pub int_settings : List Setting
int_settings =
    max_outstanding ∷ max_outstanding_per_lane ∷ max_lanes ∷ max_cache_entries ∷ max_message_bytes
    ∷ http_body_budget ∷ sse_buffer_budget ∷ max_servers ∷ log_trim_bytes ∷ max_open_files ∷ []

-- `a < b`
abbrev pub is_below : ℤ → ℤ → Bool
is_below (pos a) (pos b) = ltb a b
is_below (pos a) (negsuc b) = false
is_below (negsuc a) (pos b) = true
is_below (negsuc a) (negsuc b) = ltb b a

module _ (env : Setting → String) (read_int read_duration : String → Option ℤ)
    (parse_filters : String → Option (List String)) where
  abbrev pub int_value : Setting → Limits → Option ℤ → Loaded
  int_value s l none = invalid (not_positive s)
  int_value s l (some n) =
      if is_positive n then loaded (set_target s n l) else invalid (not_positive s)

  unfoldable pub load_int : Setting → Limits → Loaded
  load_int s l = if env s == "" then loaded l else int_value s l (read_int (env s))

  unfoldable pub load_ints : List Setting → Limits → Loaded
  unfolding load_int
  load_ints [] l = loaded l
  load_ints (s ∷ settings) l = and_then (load_int s l) (load_ints settings)

  abbrev pub execution_value : Limits → Option ℤ → Loaded
  execution_value l none = invalid (not_a_duration execution_timeout)
  execution_value l (some n) =
      if is_below n (pos 0)
      then invalid (not_a_duration execution_timeout)
      else loaded (record l { execution = n })

  unfoldable pub load_execution : Limits → Loaded
  load_execution l =
      if env execution_timeout == ""
      then loaded l
      else execution_value l (read_duration (env execution_timeout))

  abbrev pub cache_ttl_value : Limits → Option ℤ → Loaded
  cache_ttl_value l none = invalid (not_a_duration cache_ttl_setting)
  cache_ttl_value l (some n) =
      if is_positive n
      then loaded (record l { cache_ttl = n })
      else invalid (not_a_duration cache_ttl_setting)

  unfoldable pub load_cache_ttl : Limits → Loaded
  load_cache_ttl l =
      if env cache_ttl_setting == ""
      then loaded l
      else cache_ttl_value l (read_duration (env cache_ttl_setting))

  unfoldable pub check_budgets : Limits → Loaded
  check_budgets l =
      if is_below l.http_bytes l.message_bytes
      then invalid (too_small http_body_budget)
      else if is_below l.sse_bytes l.message_bytes
      then invalid (too_small sse_buffer_budget)
      else loaded l

  abbrev pub filters_value : Limits → Option (List String) → Loaded
  filters_value l none = invalid bad_filters
  filters_value l (some filters) = loaded (record l { directory_filters = filters })

  unfoldable pub load_filters : Limits → Loaded
  load_filters l =
      filters_value (record l { metrics = env metrics_setting == "1" })
        (parse_filters (env directory_filters_setting))

  -- `FromEnv`
  unfoldable pub from_env : Loaded
  unfolding load_ints load_execution load_cache_ttl check_budgets load_filters
  from_env = and_then (load_ints int_settings default) (λ l.
      and_then (load_execution l)
        (λ l'. and_then (load_cache_ttl l') (λ l''. and_then (check_budgets l'') load_filters)))
