-- ===== src/Psk.antt =====
-- protocols/protocols-psw/modbus_security_psk.py, the PSK and password protocol.
pub mod Ber
pub mod Apdu
pub mod Rtu
pub mod Payload
pub mod Frame
pub mod Registers
pub mod Records
pub mod Sm3
pub mod Sm2
pub mod Keys
pub mod Cipher
pub mod Content
pub mod Handshake
pub mod Endpoints
pub mod Tests
