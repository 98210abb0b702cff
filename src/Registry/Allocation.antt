-- ===== src/Registry/Allocation.antt =====
-- The search for a port finds a free one, and fails only where none is.
use gopls_mcp_manager.Prelude.{
  ℕ, zero, suc, ◌+◌, ◌-◌, ◌%◌, ◌≤◌, ◌<◌, Bool, true, false, ◌||◌, ◌≡◌, none, some, List, arith,
}
use gopls_mcp_manager.Registry.State.{Record, first_port, last_port, port_count}
use gopls_mcp_manager.Registry.Ports.{base_port, next_port, is_used, search_port, allocate_port}

abbrev pub InRange : ℕ → Type 0
InRange port = (first_port ≤ port) × (port ≤ last_port)

base_port-InRange : (sum : ℕ) → InRange (base_port sum)
unfolding base_port
base_port-InRange sum = (omega arith, omega arith)

next_port-InRange : (port : ℕ) → InRange (next_port port)
unfolding next_port
next_port-InRange port = (omega arith, omega arith)

-- The port that the search reaches after `k` rounds.
abbrev reached_port : ℕ → ℕ → ℕ
reached_port port k = first_port + (port - first_port + k) % port_count

reached_next : (port k : ℕ) → reached_port (next_port port) k ≡ reached_port port (suc k)
unfolding next_port
reached_next port k = omega arith

reached_start : (port : ℕ) → InRange port → reached_port port 0 ≡ port
reached_start port h = omega arith

module _ (records : List Record) (unavailable : ℕ → Bool) where
  abbrev pub blocked : ℕ → Bool
  blocked port = is_used records port || unavailable port

  search_port_sound :
      (n port p : ℕ)
      → InRange port
      → search_port records unavailable n port ≡ some p
      → InRange p × (is_used records p ≡ false) × (unavailable p ≡ false)
  unfolding search_port
  search_port_sound zero port p h e = cc
  search_port_sound (suc n) port p h e =
      ground (arith, search_port_sound n (next_port port) p (next_port-InRange port))

  search_port_complete :
      (n port k : ℕ)
      → InRange port
      → search_port records unavailable n port ≡ none
      → k < n
      → blocked (reached_port port k) ≡ true
  unfolding search_port
  search_port_complete zero port k h e lt = elim lt [ ]
  search_port_complete (suc n) port zero h e lt = rw (reached_start port h) (ground arith)
  search_port_complete (suc n) port (suc k) h e lt = rw (← reached_next port k) (
      search_port_complete n (next_port port) k (next_port-InRange port) (ground arith)
        (omega arith))

  -- A port that `allocatePort` answers is in the range of the manager, no record holds it, and it
  -- was available.
  pub allocate_port_sound :
      (sum p : ℕ)
      → allocate_port records unavailable sum ≡ some p
      → InRange p × (is_used records p ≡ false) × (unavailable p ≡ false)
  unfolding allocate_port
  allocate_port_sound sum p e =
      search_port_sound port_count (base_port sum) p (base_port-InRange sum) e

  rounds_to :
      (base p : ℕ)
      → InRange base
      → InRange p
      → (k : ℕ) × (k < port_count) × (reached_port base k ≡ p)
  rounds_to base p h q = ((p + port_count - base) % port_count, omega arith, omega arith)

  -- `allocatePort` fails only where each port of the range is held by a record or not available:
  -- from any start, its rounds visit all of them.
  pub allocate_port_complete :
      (sum p : ℕ)
      → allocate_port records unavailable sum ≡ none
      → first_port ≤ p
      → p ≤ last_port
      → (is_used records p || unavailable p) ≡ true
  unfolding allocate_port
  allocate_port_complete sum p e low high =
      let (k, lt, there) = rounds_to (base_port sum) p (base_port-InRange sum) (low, high) in
      rw there at (search_port_complete port_count (base_port sum) k (base_port-InRange sum) e lt)
