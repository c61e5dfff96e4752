-- ===== src/Server.antt =====
-- Package server.
pub mod Dispatch
pub mod Handlers
pub mod Hub
pub mod Logger
pub mod Middleware
pub mod Quic
pub mod RateLimit
pub mod Registry
pub mod Serving
pub mod Tcp
pub mod Toy
mod Tests
