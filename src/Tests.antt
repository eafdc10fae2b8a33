-- ===== src/Tests.antt =====
-- Runs of the model at concrete inputs.
pub mod Data
mod Routers
mod Services
mod Stores
mod Adapters
mod Handlers
mod Redis
mod Polls
mod Edges
