-- ===== src/Transport.antt =====
-- internal/adapter/transport: the WebSocket hub and its clients, the HTTP middleware and handlers.
pub mod Hub
pub mod Middleware
pub mod Handlers
pub mod Replies
pub mod PriceHandlers
pub mod AlertHandlers
pub mod AdminHandlers
