-- ===== src/Requests.antt =====
-- requests.go: the tracker of the calls that a session owes an answer, and of the operations that
-- its upstreams have taken.
pub mod State
pub mod Credits
pub mod Output
pub mod Terminal
pub mod Admission
pub mod Ingress
pub mod Session
pub mod Tokens
pub mod Books
pub mod Replies
