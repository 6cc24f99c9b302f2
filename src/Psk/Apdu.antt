-- ===== src/Psk/Apdu.antt =====
-- The class `APDU`: a tag of three bytes, a BER length and a payload.
pub mod Laws
use modbus_serial_security_p.Base.{
  ℕ, ◌+◌, ◌++◌, not, Bytes, length, take, slice, ltb, ◌==◌, Result, ok, ◌>>=◌, ◌>>◌, raise_if,
  value_error, protocol_error, too_short, length_mismatch,
}
use modbus_serial_security_p.Psk.Ber.{encode_ber_length, decode_ber_length}

pub record Apdu : Type 0 where
  pub tag : Bytes
  pub payload : Bytes

unfoldable pub encode : Apdu → Result Bytes
encode a = do
  raise_if (not (length a.tag == 3)) value_error
  len ← encode_ber_length (length a.payload)
  ok (a.tag ++ (len ++ a.payload))

unfoldable pub decode : Bytes → Result Apdu
decode raw = do
  raise_if (ltb (length raw) 4) (protocol_error too_short)
  (len, offset) ← decode_ber_length raw 3
  raise_if (not (offset + len == length raw)) (protocol_error length_mismatch)
  ok (record { tag = take 3 raw; payload = slice raw offset (offset + len) })
