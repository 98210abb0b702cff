-- ===== src/Routing.antt =====
-- routing.go and paths.go: which worktree's gopls a call goes to, and the memo of the paths.
pub mod Memo
pub mod Cached
pub mod Target
pub mod Resolved
