-- ===== src/Examples/Rewrite.antt =====
-- An initialize without capabilities, and a call whose file has another spelling.
use gopls_mcp_manager.Prelude.{none}
use gopls_mcp_manager.Rewrite.Values.{
  Json, null, scalar, object, end, member, with_roots_capability, with_physical_paths,
}
use gopls_mcp_manager.Rewrite.Capability.{HasRoots, with_roots_capability-HasRoots}
use gopls_mcp_manager.Rewrite.Paths.{IsRespelled, with_physical_paths-IsRespelled}

abbrev initialize_params : Json
initialize_params =
    object (member "clientInfo" (scalar "\"editor\"") (member "capabilities" null end))

with_roots_capability-HasRoots_example :
    HasRoots initialize_params (with_roots_capability initialize_params)
with_roots_capability-HasRoots_example = with_roots_capability-HasRoots initialize_params

abbrev call_params : Json
call_params = object (
    member "name" (scalar "go_diagnostics")
      (member "arguments" (object (member "file" (scalar "/link/a.go") end)) end))

with_physical_paths-IsRespelled_example :
    IsRespelled call_params "/real/a.go" "" none
      (with_physical_paths call_params "/real/a.go" "" none)
with_physical_paths-IsRespelled_example =
    with_physical_paths-IsRespelled call_params "/real/a.go" "" none
