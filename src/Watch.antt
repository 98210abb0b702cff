-- ===== src/Watch.antt =====
-- watchroots.go: the directories that a gopls is told to watch.
pub mod Names
pub mod Filters
pub mod Matching
pub mod Pruning
pub mod Planner
pub mod Coverage
pub mod Walks
pub mod Plan
pub mod Cleanness
pub mod Roots
pub mod Sound
pub mod Snapshots
pub mod Recorded
pub mod Generations
