-- ===== src/Pq.antt =====
-- protocols/protocols-mpq, the post-quantum profile. Its wire format, record layer, digest, AES-GCM
-- framing and Modbus PDUs are the code of the pre-shared key profile in the same words, so that the
-- modules of `Psk` stand for them.
pub mod Suite
pub mod Certificates
pub mod Keys
pub mod Content
pub mod Handshake
pub mod Endpoints
pub mod Tests
