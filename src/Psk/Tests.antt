-- ===== src/Psk/Tests.antt =====
-- Runs of the model on small inputs.
pub mod Wire
pub mod Line
pub mod Session
pub mod Crypto
pub mod Handshake
pub mod Endpoints
