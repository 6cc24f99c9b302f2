-- ===== src/Crc.antt =====
-- `crc16_modbus`, the checksum of a Modbus RTU frame. The function stands in the same words in
-- protocols/protocols-psw/modbus_security_psk.py, protocols/protocols-mpq/modbus_security_pq.py and
-- protocols/protocols-ECC/secure_modbus/frame.py.
pub mod Detect
pub mod Tests
use modbus_serial_security_p.Base.{
  ℕ, zero, suc, ◌+◌, ◌/◌, ◌%◌, List, [], ◌∷◌, bit_and, bit_xor, Bytes, ltb, if◌then◌else◌,
}

-- One round of the inner loop: `if crc & 1: crc = (crc >> 1) ^ 0xA001 else: crc >>= 1`.
crc_bit : ℕ → ℕ
crc_bit crc = if ltb 0 (bit_and crc 1) then bit_xor (crc / 2) 0xA001 else crc / 2

-- `for _ in range(n)`
crc_bits : ℕ → ℕ → ℕ
crc_bits zero crc = crc
crc_bits (suc n) crc = crc_bits n (crc_bit crc)

-- The body of the outer loop for one byte.
crc_byte : ℕ → ℕ → ℕ
crc_byte crc byte = crc_bits 8 (bit_xor crc byte)

crc_loop : ℕ → Bytes → ℕ
crc_loop crc [] = crc
crc_loop crc (byte ∷ rest) = crc_loop (crc_byte crc byte) rest

unfoldable pub crc16_modbus : Bytes → ℕ
unfolding crc_loop crc_byte crc_bits crc_bit
crc16_modbus data' = crc_loop 0xFFFF data' % 65536
