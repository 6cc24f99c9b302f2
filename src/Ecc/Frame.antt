-- ===== src/Ecc/Frame.antt =====
-- RTU frames and APDUs of protocols/protocols-ECC/secure_modbus/frame.py, up to the bytes that go to
-- the line and come from it. `crc16_modbus` is the function of the module Crc.
pub mod Laws
use modbus_serial_security_p.Base.{
  ℕ, ◌-◌, not, Bool, false, Option, none, some, [], ◌∷◌, ◌++◌, Bytes, length, take, drop, slice,
  ltb, leb, ◌==◌, Result, ok, ◌>>=◌, ◌>>◌, raise_if, to_byte_string, to_bytes, from_bytes,
  to_bytes_little, from_bytes_little, index, value_error, protocol_error, too_short, bad_crc,
  length_mismatch, wrong_address, wrong_function,
}
use modbus_serial_security_p.Crc.{crc16_modbus}

-- SECURE_FUNCTION_CODE
abbrev pub secure_function_code : ℕ
secure_function_code = 0x00

unfoldable pub build_rtu_frame : ℕ → ℕ → Bytes → Result Bytes
build_rtu_frame address function_code payload = do
  raise_if (not (leb address 247)) value_error
  head ← to_byte_string (address ∷ function_code ∷ [])
  let body = head ++ payload
  crc ← to_bytes_little 2 (crc16_modbus body)
  ok (body ++ crc)

-- Address, function code and payload.
unfoldable pub parse_rtu_frame : Bytes → Result (ℕ × ℕ × Bytes)
parse_rtu_frame frame = do
  raise_if (ltb (length frame) 4) (protocol_error too_short)
  let body = take (length frame - 2) frame
  let got_crc = from_bytes_little (drop (length frame - 2) frame)
  raise_if (not (got_crc == crc16_modbus body)) (protocol_error bad_crc)
  address ← index body 0
  function_code ← index body 1
  ok (address, function_code, drop 2 body)

unfoldable pub build_apdu : ℕ → Bytes → Result Bytes
build_apdu tag payload = do
  raise_if (ltb 0xFFFF (length payload)) value_error
  head ← to_byte_string (tag ∷ [])
  len ← to_bytes 2 (length payload)
  ok (head ++ (len ++ payload))

unfoldable pub parse_apdu : Bytes → Result (ℕ × Bytes)
parse_apdu data' = do
  raise_if (ltb (length data') 3) (protocol_error too_short)
  tag ← index data' 0
  let len = from_bytes (slice data' 1 3)
  let payload = drop 3 data'
  raise_if (not (length payload == len)) (protocol_error length_mismatch)
  ok (tag, payload)

-- The bytes that `send_secure_apdu` writes.
unfoldable pub secure_frame : ℕ → ℕ → Bytes → Result Bytes
secure_frame address tag payload = do
  apdu ← build_apdu tag payload
  build_rtu_frame address secure_function_code apdu

-- `expected_address is not None and address != expected_address`
abbrev is_unexpected_address : Option ℕ → ℕ → Bool
is_unexpected_address none address = false
is_unexpected_address (some expected) address = not (address == expected)

-- What `recv_secure_apdu` makes of a packet: address, tag and body.
unfoldable pub open_secure_frame : Bytes → Option ℕ → Result (ℕ × ℕ × Bytes)
open_secure_frame packet expected_address = do
  (address, function_code, payload) ← parse_rtu_frame packet
  raise_if (is_unexpected_address expected_address address) (protocol_error wrong_address)
  raise_if (not (function_code == secure_function_code)) (protocol_error wrong_function)
  (tag, body) ← parse_apdu payload
  ok (address, tag, body)
