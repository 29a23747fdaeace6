-- ===== src/Relay.antt =====
-- internal/relay: the relay server.
pub mod TcpFrame
pub mod Session
pub mod Metrics
pub mod Router
pub mod SessionManager
pub mod TcpHandler
pub mod RateLimits
pub mod HttpApi
