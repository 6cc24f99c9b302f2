-- ===== src/Ecc/Tlv/RoundTrip.antt =====
-- `decode_data_message` on what `encode_data_message` writes.
use modbus_serial_security_p.Base.{
  ℕ, ◌+◌, ◌-◌, ◌%◌, ◌≡◌, ◌<◌, refl, sym, ◌∙◌, arith, List, [], ◌∷◌, ◌++◌, map, Bytes, length, drop,
  take_all, slice, IsByte, IsBytes, All, Result-cases, Error, inl, inr, ok, err, to_byte_string,
  to_byte_string_lem, length-drop, index,
}
use modbus_serial_security_p.Psk.Payload.{
  DataPayload, Items, encode_items, encode_req, decode_items, decode_req,
}
use modbus_serial_security_p.Psk.Payload.Items.{IsDict}
use modbus_serial_security_p.Psk.Payload.RoundTrip.{decode_req-encode_req}
use modbus_serial_security_p.Ecc.Tlv.{
  DataMessage, low_byte, encode_values, encode_data_message, decode_data_message,
}

-- Datatypes of one byte.
abbrev pub HasByteKeys : Items → Type 0
HasByteKeys items = All (λ item. IsByte item.0) items

abbrev as_payload : DataMessage → DataPayload
as_payload m = record { system_mask = m.system_id_bitmask; send = m.values; request = m.requests }

low_bytes : (xs : List ℕ) → IsBytes xs → map low_byte xs ≡ xs
low_bytes [] h = refl
low_bytes (x ∷ xs) (hx, h) = λ i. (same i ∷ low_bytes xs h i)
  where
    same : low_byte x ≡ x
    same = omega arith

values_as_items :
    (items : Items) (enc : Bytes)
    → HasByteKeys items
    → encode_values items ≡ ok enc
    → encode_items items ≡ ok enc
unfolding encode_values encode_items to_byte_string
values_as_items [] enc h e = e
values_as_items ((k, v) ∷ rest) enc (hk, h) e = elim (Result-cases (encode_values rest)) [
  | inl (tail, et) ↦ ground (arith, values_as_items rest tail h et)
  | inr (x, et) ↦ ground arith
]

small : (x : ℕ) → x < 256 → x % 256 ≡ x
small x h = omega arith

message_as_payload :
    (m : DataMessage) (raw : Bytes)
    → IsByte m.system_id_bitmask
    → HasByteKeys m.values
    → length m.values < 256
    → length m.requests < 256
    → IsBytes m.requests
    → encode_data_message m ≡ ok raw
    → encode_req (as_payload m) ≡ ok raw
unfolding encode_data_message encode_req
message_as_payload m raw hm hk hv hr hb e = elim (Result-cases (encode_values m.values)) [
  | inl (enc, ev) ↦
      rw
        (
          to_byte_string_lem (m.system_id_bitmask ∷ length m.values ∷ [])
              (omega arith, (omega arith, tt)),
          values_as_items m.values enc hk ev,
          to_byte_string_lem (length m.requests ∷ []) (omega arith, tt),
          to_byte_string_lem m.requests hb,
        )
        (sym (shape enc ev) ∙ e)
  | inr (x, ev) ↦ absurd (cc (stuck x ev))
]
  where
    shape :
        (enc : Bytes)
        → encode_values m.values ≡ ok enc
        → encode_data_message m
          ≡ ok (m.system_id_bitmask ∷ length m.values ∷ (enc ++ (length m.requests ∷ m.requests)))
    shape enc ev =
        rw
          (
            ev,
            low_bytes m.requests hb,
            small m.system_id_bitmask hm,
            small (length m.values) hv,
            small (length m.requests) hr,
          )
          refl

    stuck : (x : Error) → encode_values m.values ≡ err x → encode_data_message m ≡ err x
    stuck x ev = rw ev refl

slice_to_end : (raw : Bytes) (lo hi : ℕ) → hi ≡ length raw → slice raw lo hi ≡ drop lo raw
slice_to_end raw lo hi h = take_all (drop lo raw) (hi - lo) (omega (arith, length-drop lo raw))

payload_read :
    (raw : Bytes) (p : DataPayload)
    → decode_req raw ≡ ok p
    → decode_data_message raw
      ≡ ok (record { system_id_bitmask = p.system_mask; values = p.send; requests = p.request })
unfolding decode_req decode_data_message
payload_read raw p h = elim (Result-cases (index raw 1)) [
  | inr (x, e1) ↦ ground arith
  | inl (count, e1) ↦ elim (Result-cases (decode_items count raw 2 [])) [
    | inr (x, e2) ↦ ground arith
    | inl ((sent, pos), e2) ↦ elim (Result-cases (index raw pos)) [
      | inr (x, e3) ↦ ground arith
      | inl (rc, e3) ↦ ground (arith, slice_to_end raw (pos + 1) (pos + 1 + rc))
    ]
  ]
]

-- A message over a dict that `encode_data_message` accepts, with a mask, datatypes and requests of
-- one byte and fewer than 256 of each, is read back by `decode_data_message`.
pub decode-encode_data_message :
    (m : DataMessage) (raw : Bytes)
    → IsByte m.system_id_bitmask
    → IsDict m.values
    → HasByteKeys m.values
    → length m.values < 256
    → length m.requests < 256
    → IsBytes m.requests
    → encode_data_message m ≡ ok raw
    → decode_data_message raw ≡ ok m
decode-encode_data_message m raw hm d hk hv hr hb e =
    payload_read raw (as_payload m)
      (decode_req-encode_req (as_payload m) raw d (message_as_payload m raw hm hk hv hr hb e))
