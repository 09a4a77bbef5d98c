-- ===== src/Acquirer.antt =====
-- crates/acquirer-router: the routing of charges, captures and refunds over the acquirers, with a
-- circuit breaker for each.
pub mod CircuitBreaker
pub mod Breakers
pub mod Router
pub mod Routing
pub mod Ordering
pub mod Examples
