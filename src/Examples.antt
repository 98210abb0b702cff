-- ===== src/Examples.antt =====
-- The theorems at concrete inputs.
mod Tracker
mod Registry
mod Routing
mod Transport
mod Config
mod Lanes
mod Watch
mod Rewrite
mod Front
