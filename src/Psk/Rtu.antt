-- ===== src/Psk/Rtu.antt =====
-- The class `RtuFrame`: an address, a function code, a payload and the checksum, low byte first.
pub mod Laws
pub mod Corruption
use modbus_serial_security_p.Base.{
  ℕ, ◌-◌, [], ◌∷◌, ◌++◌, not, Bytes, length, take, drop, ltb, ◌==◌, Result, ok, ◌>>=◌, ◌>>◌,
  raise_if, to_byte_string, to_bytes_little, from_bytes_little, index, protocol_error, too_short,
  bad_crc,
}
use modbus_serial_security_p.Crc.{crc16_modbus}

pub record RtuFrame : Type 0 where
  pub slave_id : ℕ
  pub function : ℕ
  pub payload : Bytes

unfoldable pub encode : RtuFrame → Result Bytes
encode f = do
  head ← to_byte_string (f.slave_id ∷ f.function ∷ [])
  let body = head ++ f.payload
  crc ← to_bytes_little 2 (crc16_modbus body)
  ok (body ++ crc)

-- `data[:-2]` and `data[-2:]` are split at two from the end.
unfoldable pub decode : Bytes → Result RtuFrame
decode raw = do
  raise_if (ltb (length raw) 4) (protocol_error too_short)
  let body = take (length raw - 2) raw
  let expected = from_bytes_little (drop (length raw - 2) raw)
  raise_if (not (crc16_modbus body == expected)) (protocol_error bad_crc)
  slave_id ← index body 0
  function ← index body 1
  ok (record { slave_id = slave_id; function = function; payload = drop 2 body })
