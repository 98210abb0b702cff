-- ===== src/Front.antt =====
-- http.go and main.go: the HTTP front end, and the grammar of the command line.
pub mod Arguments
pub mod Calls
pub mod Limits
