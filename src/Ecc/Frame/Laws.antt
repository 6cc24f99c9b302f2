-- ===== src/Ecc/Frame/Laws.antt =====
-- `open_secure_frame` on what `secure_frame` returns.
use modbus_serial_security_p.Base.{
  ℕ, ◌≡◌, ◌<◌, refl, sym, arith, none, some, ◌∷◌, ◌++◌, Bytes, length, ok, >>=-eq-ok,
  to_byte_string, to_bytes_lem, be_bytes, from_bytes-be_bytes, to_bytes_little, le_bytes, index,
}
use modbus_serial_security_p.Crc.{crc16_modbus}
use modbus_serial_security_p.Crc.Detect.{crc16_modbus-lt}
use modbus_serial_security_p.Psk.Rtu.Laws.{checked, length-checked, checked_body, checked_crc}
use modbus_serial_security_p.Ecc.Frame.{
  secure_function_code, build_rtu_frame, parse_rtu_frame, build_apdu, parse_apdu, secure_frame,
  open_secure_frame,
}

crc_written : (bs : Bytes) → to_bytes_little 2 (crc16_modbus bs) ≡ ok (le_bytes 2 (crc16_modbus bs))
unfolding to_bytes_little
crc_written bs = ground (arith, crc16_modbus-lt bs)

build_rtu_frame_eq_ok :
    (address function_code : ℕ) (payload raw : Bytes)
    → build_rtu_frame address function_code payload ≡ ok raw
    → raw ≡ checked (address ∷ function_code ∷ payload)
unfolding build_rtu_frame to_byte_string
build_rtu_frame_eq_ok address function_code payload raw h =
    ground (arith, crc_written (address ∷ function_code ∷ payload))

-- A frame that `send_secure_apdu` builds starts with its address and the function code.
pub secure_frame_start :
    (address tag : ℕ) (payload raw : Bytes)
    → secure_frame address tag payload ≡ ok raw
    → (rest : Bytes) × (raw ≡ address ∷ secure_function_code ∷ rest)
unfolding secure_frame
secure_frame_start address tag payload raw h =
    let (apdu, ea, er) =
      >>=-eq-ok (build_apdu tag payload) (build_rtu_frame address secure_function_code) h in
    (_, build_rtu_frame_eq_ok address secure_function_code apdu raw er)

parse_checked :
    (address function_code : ℕ) (payload : Bytes)
    → parse_rtu_frame (checked (address ∷ function_code ∷ payload))
      ≡ ok (address, function_code, payload)
unfolding parse_rtu_frame index
parse_checked address function_code payload =
    let body = address ∷ function_code ∷ payload in
    ground (arith, length-checked body, checked_body body, checked_crc body)

parse_apdu-build_apdu :
    (tag : ℕ) (payload raw : Bytes)
    → build_apdu tag payload ≡ ok raw
    → parse_apdu raw ≡ ok (tag, payload)
parse_apdu-build_apdu tag payload raw h = rw (sym shape) written
  where
    parts : (raw ≡ tag ∷ (be_bytes 2 (length payload) ++ payload)) × (length payload < 65536)
    parts = unfold build_apdu to_byte_string in ground (arith, to_bytes_lem 2 (length payload))

    shape : tag ∷ (be_bytes 2 (length payload) ++ payload) ≡ raw
    shape = sym (parts.0)

    written : parse_apdu (tag ∷ (be_bytes 2 (length payload) ++ payload)) ≡ ok (tag, payload)
    written =
        unfold parse_apdu index be_bytes in
        ground (arith, from_bytes-be_bytes 2 (length payload) (omega (arith, parts.1)))

-- A frame that `send_secure_apdu` builds is read as its address, tag and payload, where no address
-- or its own is expected.
pub open-secure_frame :
    (address tag : ℕ) (payload raw : Bytes)
    → secure_frame address tag payload ≡ ok raw
    → (open_secure_frame raw none ≡ ok (address, tag, payload))
      × (open_secure_frame raw (some address) ≡ ok (address, tag, payload))
unfolding secure_frame open_secure_frame
open-secure_frame address tag payload raw h =
    let (apdu, ea, er) =
      >>=-eq-ok (build_apdu tag payload) (build_rtu_frame address secure_function_code) h in
    let shape = build_rtu_frame_eq_ok address secure_function_code apdu raw er in
    let read = parse_checked address secure_function_code apdu in
    let inner = parse_apdu-build_apdu tag payload apdu ea in
    (rw (shape, read, inner) refl, rw (shape, read, inner) (ground arith))
