-- ===== src/Registry.antt =====
-- registry.go and manager.go: the records of the running servers, in one file that the managers of
-- all processes share.
pub mod State
pub mod Store
pub mod Sweep
pub mod Claim
pub mod Ports
pub mod Allocation
pub mod Probe
pub mod Judgement
pub mod Budget
pub mod Eviction
pub mod Uses
pub mod Pending
pub mod Ensure
pub mod Admission
