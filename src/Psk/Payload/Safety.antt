-- ===== src/Psk/Payload/Safety.antt =====
-- The payload decoders on arbitrary input.
use modbus_serial_security_p.Base.{
  ℕ, zero, suc, ◌+◌, Bytes, length, [], arith, IsProtocolSafe, returns, >>=-IsProtocolSafe,
  guard-IsProtocolSafe, index-IsProtocolSafe, leb, ltb, not, ◌==◌, from_bytes, slice, too_short,
  truncated_header, truncated_value, missing_count, request_mismatch, trailing_bytes,
}
use modbus_serial_security_p.Psk.Payload.{Items, set_item, decode_items, decode_req, decode_cnf}

decode_items-IsProtocolSafe :
    (count : ℕ) (raw : Bytes) (offset : ℕ) (sent : Items)
    → IsProtocolSafe (decode_items count raw offset sent)
unfolding decode_items
decode_items-IsProtocolSafe zero raw offset sent = returns _
decode_items-IsProtocolSafe (suc count) raw offset sent =
    let len = from_bytes (slice raw (offset + 1) (offset + 3)) in
    guard-IsProtocolSafe (ltb (length raw) (offset + 3)) truncated_header λ long.
      >>=-IsProtocolSafe _ (index-IsProtocolSafe raw offset (ground arith)) λ data_type _.
        guard-IsProtocolSafe (ltb (length raw) (offset + 3 + len)) truncated_value λ _.
          decode_items-IsProtocolSafe count raw (offset + 3 + len)
            (set_item sent data_type (slice raw (offset + 3) (offset + 3 + len)))

-- Whatever bytes arrive, decoding a request payload returns or raises a `ProtocolError`.
pub decode_req-IsProtocolSafe : (raw : Bytes) → IsProtocolSafe (decode_req raw)
unfolding decode_req
decode_req-IsProtocolSafe raw = guard-IsProtocolSafe (ltb (length raw) 3) too_short λ long.
    >>=-IsProtocolSafe _ (index-IsProtocolSafe raw 0 (ground arith)) λ _ _.
      >>=-IsProtocolSafe _ (index-IsProtocolSafe raw 1 (ground arith)) λ count _.
        >>=-IsProtocolSafe _ (decode_items-IsProtocolSafe count raw 2 []) λ (sent, offset) _.
          guard-IsProtocolSafe (leb (length raw) offset) missing_count λ within.
            >>=-IsProtocolSafe _ (index-IsProtocolSafe raw offset (ground arith)) λ n _.
              guard-IsProtocolSafe (not (offset + 1 + n == length raw)) request_mismatch
                λ _. returns _

-- Whatever bytes arrive, decoding a confirmation payload returns or raises a `ProtocolError`.
pub decode_cnf-IsProtocolSafe : (raw : Bytes) → IsProtocolSafe (decode_cnf raw)
unfolding decode_cnf
decode_cnf-IsProtocolSafe raw = guard-IsProtocolSafe (ltb (length raw) 2) too_short λ long.
    >>=-IsProtocolSafe _ (index-IsProtocolSafe raw 0 (ground arith)) λ _ _.
      >>=-IsProtocolSafe _ (index-IsProtocolSafe raw 1 (ground arith)) λ count _.
        >>=-IsProtocolSafe _ (decode_items-IsProtocolSafe count raw 2 []) λ (sent, offset) _.
          guard-IsProtocolSafe (not (offset == length raw)) trailing_bytes λ _. returns _
