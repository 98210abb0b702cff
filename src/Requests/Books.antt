-- ===== src/Requests/Books.antt =====
-- What the tracker's accounts say: the records and the counts that must agree with them.
pub mod Tally
pub mod Credits
pub mod Terminal
pub mod Placement
pub mod Steps
pub mod Answers
pub mod Reachable
use gopls_mcp_manager.Prelude.{
  nat_eq, string_eq, option_eq, pair_eq, ℕ, ◌+◌, ◌≤◌, String, ◌≡◌, ◌≢◌, none, length, Map, lookup,
  IsUnique, total, pos_part, ◌==◌, if◌then◌else◌,
}
use gopls_mcp_manager.Config.{Limits}
use gopls_mcp_manager.Requests.State.{RequestId, OperationKey, Owed, Operation, Router}
use gopls_mcp_manager.Requests.Credits.{count}

pub record Books : Type 0 where
  pub limits : Limits
  pub awaiting : Map RequestId Owed
  pub per_worktree : Map String ℕ
  pub operations : Map OperationKey Operation
  pub operations_per_worktree : Map String ℕ
  pub admitted : ℕ
  pub completed : ℕ
  pub rejected : ℕ
  pub peak : ℕ
  pub rejections : Map String ℕ

abbrev pub books : Router → Books
books r = record {
  limits = r.limits;
  awaiting = r.awaiting_upstream;
  per_worktree = r.per_worktree;
  operations = r.operations;
  operations_per_worktree = r.operations_per_worktree;
  admitted = r.usage.admitted;
  completed = r.usage.completed;
  rejected = r.usage.rejected;
  peak = r.usage.peak;
  rejections = r.usage.rejections;
}

abbrev pub runs_on : String → Owed → ℕ
runs_on w owner = if owner.worktree == w then 1 else 0

abbrev pub taken_on : String → Operation → ℕ
taken_on w op = if op.worktree == w then 1 else 0

abbrev pub self : ℕ → ℕ
self n = n

-- Every count is the number of the records that it stands for, and every limit is respected.
pub record IsBalanced (b : Books) : Type 0 where
  pub unique_awaiting : IsUnique b.awaiting
  pub unique_operations : IsUnique b.operations
  pub tracked : lookup none b.awaiting ≡ none
  pub tally : (w : String) → w ≢ "" → count w b.per_worktree ≡ total (runs_on w) b.awaiting
  pub taken : (w : String) → count w b.operations_per_worktree ≡ total (taken_on w) b.operations
  pub ledger : b.admitted ≡ b.completed + length b.awaiting
  pub breakdown : total self b.rejections ≡ b.rejected
  pub within_session : length b.awaiting ≤ pos_part b.limits.session
  pub within_lane : (w : String) → count w b.per_worktree ≤ pos_part b.limits.per_lane
  pub within_operations : length b.operations ≤ pos_part b.limits.session
  pub within_taken : (w : String) → count w b.operations_per_worktree ≤ pos_part b.limits.per_lane
  pub peaked : length b.awaiting ≤ b.peak
