-- ===== src/Tests.antt =====
-- Runs of the definitions at concrete inputs, and the theorems applied at inputs that meet their
-- hypotheses.
mod Services
mod Patterns
mod HttpRule
mod Adapter
mod Pool
mod Web
mod Forwarder
mod Trie
mod Reflection
mod Population
mod Transcoding
mod WebSocket
