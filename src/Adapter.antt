-- ===== src/Adapter.antt =====
-- grpcadapter: what is forwarded between a client and a target.
pub mod Metadata
pub mod Pool
pub mod Timeout
pub mod Forwarder
