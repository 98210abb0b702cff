-- ===== src/Registry/State.antt =====
-- `record` and `serverID` (registry.go), and the tests of a line that `readMap` makes.
use gopls_mcp_manager.Prelude.{
  ℕ, String, Bool, true, false, not, ◌&&◌, ◌≡◌, ◌↔◌, KeyEq, ◌==◌, nat_eq, string_eq, int_eq, ℤ, pos,
  negsuc, leb, is_positive, arith,
}

abbrev pub first_port : ℕ
first_port = 61100

abbrev pub last_port : ℕ
last_port = 65100

-- `portCount`: `lastPort - firstPort + 1`
abbrev pub port_count : ℕ
port_count = 4001

-- `record`. Times are in unix seconds, one in milliseconds. `uses` is a float64 that is not
-- negative, by its bit pattern, which has the order of the numbers.
pub record Record : Type 0 where
  pub worktree : String
  pub port : ℤ
  pub pid : ℤ
  pub started_at : ℤ
  pub started_at_milli : ℤ
  pub terminating : Bool
  pub uses : ℕ
  pub used_at : ℤ

abbrev pub bool_beq : Bool → Bool → Bool
bool_beq true b = b
bool_beq false b = not b

-- Go's `==` on records.
abbrev pub record_beq : Record → Record → Bool
record_beq a b =
    a.worktree == b.worktree
    && (a.port == b.port
        && (a.pid == b.pid
            && (a.started_at == b.started_at
                && (a.started_at_milli == b.started_at_milli
                    && (bool_beq a.terminating b.terminating
                        && (a.uses == b.uses && a.used_at == b.used_at))))))

pub record_beq_self : (r : Record) → record_beq r r ≡ true
record_beq_self r = ground (
  arith,
  string_eq.same_iff r.worktree r.worktree,
  int_eq.same_iff r.port r.port,
  int_eq.same_iff r.pid r.pid,
  int_eq.same_iff r.started_at r.started_at,
  int_eq.same_iff r.started_at_milli r.started_at_milli,
  nat_eq.same_iff r.uses r.uses,
  int_eq.same_iff r.used_at r.used_at,
)

pub record_beq_iff : (a b : Record) → (record_beq a b ≡ true) ↔ (a ≡ b)
record_beq_iff a b = (
  λ h. ground (
    arith,
    string_eq.same_iff a.worktree b.worktree,
    int_eq.same_iff a.port b.port,
    int_eq.same_iff a.pid b.pid,
    int_eq.same_iff a.started_at b.started_at,
    int_eq.same_iff a.started_at_milli b.started_at_milli,
    nat_eq.same_iff a.uses b.uses,
    int_eq.same_iff a.used_at b.used_at,
  ),
  λ h. rw h (record_beq_self b),
)

instance abbrev pub record_eq : KeyEq Record
record_eq = record { same = record_beq; same_iff = record_beq_iff }

-- What `readMap` asks of a record that it decoded.
abbrev pub is_managed : Record → Bool
is_managed r = not (r.worktree == "") && (is_positive r.pid && in_range r.port)
  where
    in_range : ℤ → Bool
    in_range (pos p) = leb first_port p && leb p last_port
    in_range (negsuc p) = false
