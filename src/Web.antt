-- ===== src/Web.antt =====
-- webbridge and bridge.go: the handlers of web requests.
pub mod Framing
pub mod Socket
pub mod Query
pub mod Response
pub mod Http
pub mod Bridges
pub mod WebSocket
