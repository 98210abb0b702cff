-- ===== src/Lanes.antt =====
-- lane.go: a worktree's lane, which sends each delivery to the worktree's gopls.
pub mod Send
pub mod Refinement
pub mod Progress
pub mod Custody
pub mod Outcome
pub mod Cancellations
