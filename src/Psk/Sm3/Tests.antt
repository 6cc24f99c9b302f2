-- ===== src/Psk/Sm3/Tests.antt =====
-- The digest of the standard's first example, "abc".
use modbus_serial_security_p.Base.{◌≡◌, refl, [], ◌∷◌, ok, to_bytes, from_bytes, be_bytes}
use modbus_serial_security_p.Psk.Sm3.{sm3}

sm3_abc :
    sm3 (0x61 ∷ 0x62 ∷ 0x63 ∷ [])
    ≡ ok (be_bytes 32 0x66c7f0f462eeedd9d1f2d46bdc10e4e24167c4875cf2f7a2297da02b8f4ba8e0)
unfolding sm3 to_bytes from_bytes be_bytes
sm3_abc = refl
