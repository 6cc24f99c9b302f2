-- ===== src/Crc/Tests.antt =====
-- The checksum at known frames.
use modbus_serial_security_p.Base.{◌≡◌, refl, [], ◌∷◌}
use modbus_serial_security_p.Crc.{crc16_modbus}

-- The request 01 03 00 00 00 0A of the Modbus documentation has the checksum 0xCDC5.
crc_of_request : crc16_modbus (0x01 ∷ 0x03 ∷ 0x00 ∷ 0x00 ∷ 0x00 ∷ 0x0A ∷ []) ≡ 0xCDC5
unfolding crc16_modbus
crc_of_request = refl
