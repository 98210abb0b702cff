-- ===== src/Registry/Ports.antt =====
-- manager.go: the port that a new server is given.
use gopls_mcp_manager.Prelude.{
  ℕ, zero, suc, ◌+◌, ◌-◌, ◌%◌, Bool, false, not, ◌&&◌, ◌||◌, Option, none, some, List, [], ◌∷◌,
  ◌==◌, int_eq, pos, if◌then◌else◌,
}
use gopls_mcp_manager.Registry.State.{Record, first_port, port_count}

-- `basePort`; `sum` is the first eight bytes of the worktree's SHA-256.
unfoldable pub base_port : ℕ → ℕ
base_port sum = first_port + sum % port_count

-- `nextPort`
unfoldable pub next_port : ℕ → ℕ
next_port port = first_port + (port - first_port + 1) % port_count

-- `used[port]`
unfoldable pub is_used : List Record → ℕ → Bool
is_used [] port = false
is_used (r ∷ records) port = r.port == pos port || is_used records port

module _ (records : List Record) (unavailable : ℕ → Bool) where
  -- The loop of `allocatePort`, with the rounds left.
  unfoldable pub search_port : ℕ → ℕ → Option ℕ
  search_port zero port = none
  search_port (suc n) port =
      let rest = search_port n (next_port port) in
      if not (is_used records port) && not (unavailable port) then some port else rest

  -- `allocatePort`; `none` is its error.
  unfoldable pub allocate_port : ℕ → Option ℕ
  unfolding search_port
  allocate_port sum = search_port port_count (base_port sum)
