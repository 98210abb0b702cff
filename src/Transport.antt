-- ===== src/Transport.antt =====
-- internal/transport: the byte budget of the upstream streams, their frames, and the bound on a client's messages.
pub mod Budget
pub mod Frames
pub mod Events
pub mod Bounded
