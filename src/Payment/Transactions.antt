-- ===== src/Payment/Transactions.antt =====
-- What each transaction does to the payments table, and that the rows stay in order.
pub mod Opening
pub mod Positive
pub mod Charging
pub mod Refunding
pub mod Books
