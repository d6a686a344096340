-- ===== src/Core.antt =====
-- primary/src/core.rs: the consensus engine of a primary.
pub mod Leader
pub mod State
pub mod Slots
pub mod Epochs
pub mod ViewChange
pub mod Views
pub mod Timeouts
pub mod Tickets
pub mod Proposing
pub mod Queue
pub mod Coverage
pub mod Validity
pub mod Voting
pub mod Accepted
pub mod Ballots
pub mod Forged
pub mod Tally
pub mod Certifying
pub mod Phases
pub mod HandOver
pub mod Commits
pub mod Collection
pub mod Collected
pub mod Expiring
pub mod Committed
pub mod Certificates
pub mod Requests
pub mod Overwritten
pub mod Headers
pub mod Quiet
pub mod Kept
pub mod VotesOnce
pub mod Silent
