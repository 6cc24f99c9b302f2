-- ===== src/Pq/Tests.antt =====
-- The post-quantum profile on concrete values.
pub mod Codec
pub mod Primitives
pub mod Handshakes
pub mod Sessions
