-- ===== src/Adapter.antt =====
-- internal/adapter: the program that runs beside the game and talks to the relay server.
pub mod Peer
pub mod PeerManager
pub mod RelayConnection
pub mod GpgnetServer
pub mod IceRestart
pub mod RpcHandler
pub mod IceTraffic
pub mod IceSignal
pub mod RpcServer
pub mod RelayHttp
pub mod Startup
pub mod IceCandidate
pub mod IceExchange
pub mod IceLifecycle
pub mod Status
pub mod Notifications
pub mod IcePeer
