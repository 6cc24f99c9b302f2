-- ===== src/Psk/Payload/RoundTrip.antt =====
-- `decode_req` and `decode_cnf` on what `encode_req` and `encode_cnf` write.
use modbus_serial_security_p.Base.{
  ℕ, ◌+◌, ◌-◌, ◌≤◌, ◌<◌, ◌≡◌, ap, ◌∙◌, refl, ◌++◌, arith, Bytes, length, length-append, append-nil,
  take_all, ok, [], ◌∷◌, to_byte_string, to_byte_string_eq_ok, index, index-shift, slice,
  slice-shift,
}
use modbus_serial_security_p.Psk.Payload.{
  Items, DataPayload, encode_items, decode_items, encode_req, encode_cnf, decode_req, decode_cnf,
}
use modbus_serial_security_p.Psk.Payload.Items.{IsDict, decode_items_all, set_items-nil}

encode_req_eq_ok :
    (p : DataPayload) (raw : Bytes)
    → encode_req p ≡ ok raw
    → (enc : Bytes) × (encode_items p.send ≡ ok enc)
      × (raw ≡ p.system_mask ∷ length p.send ∷ (enc ++ (length p.request ∷ p.request)))
unfolding encode_req to_byte_string
encode_req_eq_ok p raw h = ground (arith, to_byte_string_eq_ok p.request p.request)

encode_cnf_eq_ok :
    (p : DataPayload) (raw : Bytes)
    → encode_cnf p ≡ ok raw
    → (enc : Bytes) × (encode_items p.send ≡ ok enc) × (raw ≡ p.system_mask ∷ length p.send ∷ enc)
unfolding encode_cnf to_byte_string
encode_cnf_eq_ok p raw h = ground arith

items_read :
    (items : Items) (mask : ℕ) (enc ys : Bytes)
    → IsDict items
    → encode_items items ≡ ok enc
    → decode_items (length items) (mask ∷ length items ∷ (enc ++ ys)) 2 []
      ≡ ok (items, 2 + length enc)
items_read items mask enc ys d e =
    decode_items_all items (mask ∷ length items ∷ []) ys enc [] e
    ∙ ap (λ (l : Items). ok (l, 2 + length enc)) (set_items-nil items d)

decode_req_parts :
    (raw : Bytes) (p : DataPayload) (count offset n : ℕ)
    → 3 ≤ length raw
    → index raw 0 ≡ ok p.system_mask
    → index raw 1 ≡ ok count
    → decode_items count raw 2 [] ≡ ok (p.send, offset)
    → offset < length raw
    → index raw offset ≡ ok n
    → offset + 1 + n ≡ length raw
    → slice raw (offset + 1) (offset + 1 + n) ≡ p.request
    → decode_req raw ≡ ok p
unfolding decode_req
decode_req_parts raw p count offset n h1 h2 h3 h4 h5 h6 h7 h8 = ground arith

decode_cnf_parts :
    (raw : Bytes) (mask count : ℕ) (sent : Items)
    → 2 ≤ length raw
    → index raw 0 ≡ ok mask
    → index raw 1 ≡ ok count
    → decode_items count raw 2 [] ≡ ok (sent, length raw)
    → decode_cnf raw ≡ ok (record { system_mask = mask; send = sent; request = [] })
unfolding decode_cnf
decode_cnf_parts raw mask count sent h1 h2 h3 h4 = ground arith

req_written :
    (p : DataPayload) (enc : Bytes)
    → IsDict p.send
    → encode_items p.send ≡ ok enc
    → decode_req (p.system_mask ∷ length p.send ∷ (enc ++ (length p.request ∷ p.request))) ≡ ok p
unfolding index
req_written p enc d e =
    decode_req_parts raw p (length p.send) (2 + length enc) (length p.request) (omega (arith, size))
      refl refl (items_read p.send p.system_mask enc (length p.request ∷ p.request) d e)
      (omega (arith, size))
      (index-shift front (length p.request ∷ p.request) (2 + length enc) 0 (omega arith))
      (omega (arith, size))
      (slice-shift front (length p.request ∷ p.request) (2 + length enc + 1)
          (2 + length enc + 1 + length p.request) 1 (1 + length p.request) (omega arith)
          (omega arith)
        ∙ take_all p.request (1 + length p.request - 1) (omega arith))
  where
    front : Bytes
    front = p.system_mask ∷ length p.send ∷ enc

    raw : Bytes
    raw = front ++ (length p.request ∷ p.request)

    size : length raw ≡ 3 + length enc + length p.request
    size = omega (arith, length-append front (length p.request ∷ p.request))

cnf_written :
    (p : DataPayload) (enc : Bytes)
    → IsDict p.send
    → encode_items p.send ≡ ok enc
    → decode_cnf (p.system_mask ∷ length p.send ∷ enc) ≡ ok (record p { request = [] })
unfolding index
cnf_written p enc d e =
    decode_cnf_parts (p.system_mask ∷ length p.send ∷ enc) p.system_mask (length p.send) p.send
      (omega arith) refl refl
      (rw append-nil at (items_read p.send p.system_mask enc [] d e)
        ∙ ap (λ (n : ℕ). ok (p.send, n)) {x = 2 + length enc} (omega arith))

-- Every request payload over a dict that `encode_req` accepts is read back by `decode_req`: the
-- mask, the items in their order, and the requested types.
pub decode_req-encode_req :
    (p : DataPayload) (raw : Bytes) → IsDict p.send → encode_req p ≡ ok raw → decode_req raw ≡ ok p
decode_req-encode_req p raw d h =
    let (enc, e, shape) = encode_req_eq_ok p raw h in rw shape (req_written p enc d e)

-- Every confirmation payload over a dict that `encode_cnf` accepts is read back by `decode_cnf`,
-- with no requested types.
pub decode_cnf-encode_cnf :
    (p : DataPayload) (raw : Bytes)
    → IsDict p.send
    → encode_cnf p ≡ ok raw
    → decode_cnf raw ≡ ok (record p { request = [] })
decode_cnf-encode_cnf p raw d h =
    let (enc, e, shape) = encode_cnf_eq_ok p raw h in rw shape (cnf_written p enc d e)
