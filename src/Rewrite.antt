-- ===== src/Rewrite.antt =====
-- internal/protocol/rewrite.go: the edits of a client's parameters and of a tool's result.
pub mod Values
pub mod Laws
pub mod Capability
pub mod Paths
