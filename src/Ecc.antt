-- ===== src/Ecc.antt =====
-- protocols/protocols-ECC/secure_modbus, the certificate profile.
pub mod Crypto
pub mod Frame
pub mod Tlv
pub mod Tests
pub mod Sac
pub mod Suite
pub mod Certificates
pub mod Content
pub mod Pki
pub mod Registers
pub mod Line
pub mod Session
pub mod Master
