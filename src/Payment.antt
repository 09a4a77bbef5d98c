-- ===== src/Payment.antt =====
-- crates/payment-service: the life of a payment from its creation to its capture, refund,
-- cancellation or dispute, over the tables that the service owns.
pub mod World
pub mod Statements
pub mod Ledger
pub mod StateMachine
pub mod External
pub mod Orchestrator
pub mod Dispute
pub mod Effects
pub mod Frames
pub mod Rows
pub mod Transactions
pub mod Invariant
pub mod Steps
pub mod Histories
pub mod Keys
pub mod Commits
pub mod Examples
pub mod Lifecycle
pub mod Replies
pub mod Unposted
pub mod Refusals
pub mod Refunds
pub mod Outcomes
pub mod Safety
pub mod Replay
pub mod Listings
pub mod Pages
pub mod Handlers
pub mod Served
