-- ===== src/Router.antt =====
-- internal/router: which provider serves the next request.
pub mod CircuitBreaker
pub mod RateLimit
pub mod Provider
pub mod Walk
pub mod Priority
pub mod RoundRobin
pub mod Smart
pub mod Multi
pub mod Single
pub mod Interface
