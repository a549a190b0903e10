-- ===== src/Transcoding.antt =====
-- transcoding/http.go: how HTTP requests and responses are bound to messages.
pub mod Paths
pub mod Bind
pub mod Requests
