-- ===== src/Psk/Rtu/Laws.antt =====
-- `RtuFrame.decode` on what `RtuFrame.encode` writes.
use modbus_serial_security_p.Base.{
  ◌+◌, ◌-◌, ◌<◌, ◌≡◌, ap, ◌∙◌, ◌++◌, arith, Bytes, length, take, drop, length-append, take-append,
  drop-append, ok, ◌∷◌, to_byte_string, to_bytes_little, from_bytes_little,
  from_bytes_little-le_bytes, le_bytes, length-le_bytes, index,
}
use modbus_serial_security_p.Crc.{crc16_modbus}
use modbus_serial_security_p.Crc.Detect.{crc16_modbus-lt}
use modbus_serial_security_p.Psk.Rtu.{RtuFrame, encode, decode}

abbrev pub body_of : RtuFrame → Bytes
body_of f = f.slave_id ∷ f.function ∷ f.payload

abbrev pub checked : Bytes → Bytes
checked body = body ++ le_bytes 2 (crc16_modbus body)

crc_bytes : (bs : Bytes) → to_bytes_little 2 (crc16_modbus bs) ≡ ok (le_bytes 2 (crc16_modbus bs))
unfolding to_bytes_little
crc_bytes bs = ground (arith, crc16_modbus-lt bs)

-- What a successful encoding is.
pub encode_eq_ok :
    (f : RtuFrame) (raw : Bytes)
    → encode f ≡ ok raw
    → (f.slave_id < 256) × (f.function < 256) × (raw ≡ checked (body_of f))
unfolding encode to_byte_string
encode_eq_ok f raw h = ground (arith, crc_bytes (body_of f))

pub encode_fields :
    (f : RtuFrame) → f.slave_id < 256 → f.function < 256 → encode f ≡ ok (checked (body_of f))
unfolding encode to_byte_string
encode_fields f hs hf = ground (arith, crc_bytes (body_of f))

-- Where the frame is split: two bytes from the end.
pub length-checked : (body : Bytes) → length (checked body) ≡ length body + 2
length-checked body = omega (
  arith,
  length-append body (le_bytes 2 (crc16_modbus body)),
  length-le_bytes 2 (crc16_modbus body),
)

pub checked_body : (body : Bytes) → take (length (checked body) - 2) (checked body) ≡ body
checked_body body =
    take-append body (le_bytes 2 (crc16_modbus body)) (length (checked body) - 2)
      (omega (arith, length-checked body))

pub checked_crc :
    (body : Bytes)
    → from_bytes_little (drop (length (checked body) - 2) (checked body)) ≡ crc16_modbus body
checked_crc body =
    ap from_bytes_little (
      drop-append body (le_bytes 2 (crc16_modbus body)) (length (checked body) - 2)
        (omega (arith, length-checked body)))
    ∙ from_bytes_little-le_bytes 2 (crc16_modbus body) (omega (arith, crc16_modbus-lt body))

pub decode-checked : (f : RtuFrame) → decode (checked (body_of f)) ≡ ok f
unfolding decode index
decode-checked f =
    ground (arith, length-checked (body_of f), checked_body (body_of f), checked_crc (body_of f))

-- Every frame that `encode` accepts is read back by `decode` from the bytes it wrote.
pub decode-encode : (f : RtuFrame) (raw : Bytes) → encode f ≡ ok raw → decode raw ≡ ok f
decode-encode f raw h = rw ((encode_eq_ok f raw h).2) (decode-checked f)
