-- ===== src/Reflection.antt =====
-- reflection: the descriptions of targets that gRPC reflection gives.
pub mod Client
pub mod Files
pub mod Resolver
