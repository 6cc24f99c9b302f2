-- ===== src/Psk/Frame/Safety.antt =====
-- `parse_apdu_frame` and the decoders below it on arbitrary input.
use modbus_serial_security_p.Base.{
  ℕ, ◌-◌, ◌≤◌, Option, Bytes, length, arith, IsProtocolSafe, returns, >>=-IsProtocolSafe,
  guard-IsProtocolSafe, if-IsProtocolSafe, index-IsProtocolSafe, leb, ltb, take, ◌+◌, ◌==◌, ◌||◌,
  not, bit_and, drop, from_bytes_little, missing_length, length_form, truncated_length, too_short,
  length_mismatch, bad_crc, wrong_address, wrong_function, length-take,
}
use modbus_serial_security_p.Crc.{crc16_modbus}
use modbus_serial_security_p.Psk.Ber.{decode_ber_length}
use modbus_serial_security_p.Psk.Apdu
use modbus_serial_security_p.Psk.Rtu
use modbus_serial_security_p.Psk.Frame.{is_unexpected, function_security, parse_apdu_frame}

ber-IsProtocolSafe : (raw : Bytes) (offset : ℕ) → IsProtocolSafe (decode_ber_length raw offset)
unfolding decode_ber_length
ber-IsProtocolSafe raw offset =
    guard-IsProtocolSafe (leb (length raw) offset) missing_length λ within.
      >>=-IsProtocolSafe _ (index-IsProtocolSafe raw offset (ground arith)) λ first _.
        let count = bit_and first 0x7F in
        if-IsProtocolSafe (ltb first 0x80) (returns _) (
          guard-IsProtocolSafe (count == 0 || ltb 2 count) length_form λ _.
            guard-IsProtocolSafe (ltb (length raw) (offset + 1 + count)) truncated_length
              λ _. returns _)

pub apdu-IsProtocolSafe : (raw : Bytes) → IsProtocolSafe (Apdu.decode raw)
unfolding Apdu.decode
apdu-IsProtocolSafe raw = guard-IsProtocolSafe (ltb (length raw) 4) too_short λ _.
    >>=-IsProtocolSafe _ (ber-IsProtocolSafe raw 3) λ (len, offset) _.
      guard-IsProtocolSafe (not (offset + len == length raw)) length_mismatch λ _. returns _

pub rtu-IsProtocolSafe : (raw : Bytes) → IsProtocolSafe (Rtu.decode raw)
unfolding Rtu.decode
rtu-IsProtocolSafe raw =
    let body = take (length raw - 2) raw in
    let expected = from_bytes_little (drop (length raw - 2) raw) in
    guard-IsProtocolSafe (ltb (length raw) 4) too_short λ long.
      guard-IsProtocolSafe (not (crc16_modbus body == expected)) bad_crc λ _.
        let size : 2 ≤ length body = ground (arith, length-take (length raw - 2) raw) in
        >>=-IsProtocolSafe _ (index-IsProtocolSafe body 0 (omega (arith, size))) λ _ _.
          >>=-IsProtocolSafe _ (index-IsProtocolSafe body 1 (omega (arith, size))) λ _ _. returns _

-- Whatever bytes arrive and whichever slave is expected, parsing a frame returns an APDU or raises
-- a `ProtocolError`, and no other exception.
pub parse_apdu_frame-IsProtocolSafe :
    (raw : Bytes) (expected : Option ℕ) → IsProtocolSafe (parse_apdu_frame raw expected)
unfolding parse_apdu_frame
parse_apdu_frame-IsProtocolSafe raw expected =
    >>=-IsProtocolSafe _ (rtu-IsProtocolSafe raw) λ frame _.
      guard-IsProtocolSafe (is_unexpected expected frame.slave_id) wrong_address λ _.
        guard-IsProtocolSafe (not (frame.function == function_security)) wrong_function
          λ _. apdu-IsProtocolSafe frame.payload
