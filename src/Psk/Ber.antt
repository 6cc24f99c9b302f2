-- ===== src/Psk/Ber.antt =====
-- The length field of an APDU: `encode_ber_length` and `decode_ber_length`.
pub mod RoundTrip
use modbus_serial_security_p.Base.{
  ℕ, ◌+◌, Bool, ◌||◌, List, [], ◌∷◌, bit_and, Bytes, length, slice, ltb, leb, ◌==◌, if◌then◌else◌,
  Result, ok, err, ◌>>=◌, ◌>>◌, raise_if, to_byte_string, to_bytes, from_bytes, index, value_error,
  protocol_error, missing_length, length_form, truncated_length,
}

-- The length of a byte string is never negative, so the first test of the source never passes.
unfoldable pub encode_ber_length : ℕ → Result Bytes
encode_ber_length n =
    if ltb n 0x80
    then to_byte_string (n ∷ [])
    else if leb n 0xFF
    then (do low ← to_byte_string (n ∷ []); ok (0x81 ∷ low))
    else if leb n 0xFFFF
    then (do low ← to_bytes 2 n; ok (0x82 ∷ low))
    else err value_error

-- The long form, whose first byte names `count` length bytes.
abbrev decode_long : Bytes → ℕ → ℕ → Result (ℕ × ℕ)
decode_long raw offset count = do
  raise_if (count == 0 || ltb 2 count) (protocol_error length_form)
  raise_if (ltb (length raw) (offset + 1 + count)) (protocol_error truncated_length)
  ok (from_bytes (slice raw (offset + 1) (offset + 1 + count)), offset + 1 + count)

-- The length that stands at `offset`, and the offset behind it.
unfoldable pub decode_ber_length : Bytes → ℕ → Result (ℕ × ℕ)
decode_ber_length raw offset = do
  raise_if (leb (length raw) offset) (protocol_error missing_length)
  first ← index raw offset
  if ltb first 0x80 then ok (first, offset + 1) else decode_long raw offset (bit_and first 0x7F)
