-- ===== src/Psk/Apdu/Laws.antt =====
-- `APDU.encode`, and `APDU.decode` on what it writes.
use modbus_serial_security_p.Base.{
  ℕ, ◌+◌, ◌-◌, ◌≤◌, ◌<◌, ◌≡◌, ap, ◌≢◌, ◌⊎◌, subst, value_error, ◌∙◌, refl, ◌++◌, arith, Bytes,
  length, take, slice, length-append, take-append, take_all, slice-shift, drop-append, ok, err,
}
use modbus_serial_security_p.Psk.Ber.{encode_ber_length, decode_ber_length}
use modbus_serial_security_p.Psk.Ber.RoundTrip.{
  decode-encode_ber_length, encode_ber_length_lem, length-encode_ber_length, ber_bytes,
}
use modbus_serial_security_p.Psk.Apdu.{Apdu, encode, decode}

-- What a successful encoding is.
pub encode_eq_ok :
    (a : Apdu) (raw : Bytes)
    → encode a ≡ ok raw
    → (len : Bytes) × (length a.tag ≡ 3)
      × (encode_ber_length (length a.payload) ≡ ok len)
      × (raw ≡ a.tag ++ (len ++ a.payload))
unfolding encode
encode_eq_ok a raw h = ground arith

decode_parts :
    (raw : Bytes) (len offset : ℕ)
    → 4 ≤ length raw
    → decode_ber_length raw 3 ≡ ok (len, offset)
    → offset + len ≡ length raw
    → decode raw ≡ ok (record { tag = take 3 raw; payload = slice raw offset (offset + len) })
unfolding decode
decode_parts raw len offset h e s = ground arith

slice_tail :
    (tag len payload : Bytes)
    → length tag ≡ 3
    → slice (tag ++ (len ++ payload)) (3 + length len) (3 + length len + length payload) ≡ payload
slice_tail tag len payload three =
    slice-shift tag (len ++ payload) (3 + length len) (3 + length len + length payload) (length len)
      (length len + length payload) (omega arith) (omega arith)
    ∙ rw (drop-append len payload (length len) refl)
        (take_all payload (length len + length payload - length len) (omega arith))

decode_written :
    (a : Apdu) (len : Bytes)
    → length a.tag ≡ 3
    → encode_ber_length (length a.payload) ≡ ok len
    → decode (a.tag ++ (len ++ a.payload)) ≡ ok a
decode_written a len three e =
    decode_parts raw (length a.payload) (3 + length len) (omega (arith, size, enough)) start
      (omega (arith, size))
    ∙ ap ok (λ i. record {
      tag = take-append a.tag (len ++ a.payload) 3 (omega arith) i;
      payload = slice_tail a.tag len a.payload three i;
    })
  where
    raw : Bytes
    raw = a.tag ++ (len ++ a.payload)

    size : length raw ≡ 3 + length len + length a.payload
    size = omega (arith, length-append a.tag (len ++ a.payload), length-append len a.payload)

    enough : 1 ≤ length len
    enough = length-encode_ber_length _ len e

    start : decode_ber_length raw 3 ≡ ok (length a.payload, 3 + length len)
    start =
        subst (λ (k : ℕ). decode_ber_length raw k ≡ ok (length a.payload, k + length len)) three
          (decode-encode_ber_length a.tag a.payload len (length a.payload) e)

-- Every APDU that `encode` accepts is read back by `decode` from the bytes it wrote.
pub decode-encode : (a : Apdu) (raw : Bytes) → encode a ≡ ok raw → decode raw ≡ ok a
decode-encode a raw h =
    let (len, three, e, shape) = encode_eq_ok a raw h in rw shape (decode_written a len three e)

-- `encode` succeeds exactly for a tag of three bytes and a payload of at most 65535 bytes, and
-- every other APDU is a ValueError.
pub encode_domain :
    (a : Apdu)
    → ((length a.tag ≡ 3)
        × (length a.payload < 65536)
        × (encode a ≡ ok (a.tag ++ (ber_bytes (length a.payload) ++ a.payload))))
      ⊎ (((length a.tag ≢ 3) ⊎ (65536 ≤ length a.payload)) × (encode a ≡ err value_error))
unfolding encode
encode_domain a = ground (arith, encode_ber_length_lem (length a.payload))
