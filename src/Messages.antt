-- ===== src/Messages.antt =====
-- primary/src/messages.rs: the messages of the primaries, their digests, and their verification.
pub mod Types
pub mod Errors
pub mod Digests
pub mod Voters
pub mod Certificates
pub mod Verify
pub mod Quorums
pub mod Bytes
pub mod Binding
pub mod Winning
pub mod Recovery
pub mod Reports
pub mod Coordination
pub mod Sorting
