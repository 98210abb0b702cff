-- ===== src/Examples/Config.antt =====
-- An environment that sets nothing, and limits that are not set.
use gopls_mcp_manager.Prelude.{String, ◌≡◌, refl, Option, none, some, List, [], ℤ, pos}
use gopls_mcp_manager.Config.{default, with_defaults}
use gopls_mcp_manager.Config.Environment.{
  Setting, loaded, from_env, load_ints, load_int, load_execution, load_cache_ttl, check_budgets,
  load_filters,
}
use gopls_mcp_manager.Config.Valid.{IsPositive, IsValid, with_defaults-normal, from_env-IsValid}

abbrev unset : Setting → String
unset s = ""

abbrev no_number : String → Option ℤ
no_number raw = none

abbrev no_filters : String → Option (List String)
no_filters raw = some []

nothing_set : from_env unset no_number no_number no_filters ≡ loaded default
unfolding from_env load_ints load_int load_execution load_cache_ttl check_budgets load_filters
nothing_set = refl

from_env-IsValid_example : IsValid default × (with_defaults default ≡ default)
from_env-IsValid_example = from_env-IsValid unset no_number no_number no_filters default nothing_set

with_defaults-normal_example :
    IsPositive (with_defaults (record default { lanes = pos 0 }))
    × (IsPositive (record default { lanes = pos 0 })
        → with_defaults (record default { lanes = pos 0 }) ≡ record default { lanes = pos 0 })
with_defaults-normal_example = with_defaults-normal (record default { lanes = pos 0 })
