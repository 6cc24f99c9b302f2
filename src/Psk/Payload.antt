-- ===== src/Psk/Payload.antt =====
-- The class `DataPayload`: a system mask, a dict of typed items and, in a request, a list of types.
pub mod Items
pub mod RoundTrip
pub mod Safety
use modbus_serial_security_p.Base.{
  ℕ, zero, suc, ◌+◌, not, Bool, List, [], ◌∷◌, ◌++◌, Option, none, some, Bytes, length, slice, drop,
  ltb, leb, ◌==◌, if◌then◌else◌, Result, ok, ◌>>=◌, ◌>>◌, raise_if, to_byte_string, to_bytes,
  from_bytes, index, protocol_error, too_short, truncated_header, truncated_value, missing_count,
  request_mismatch, trailing_bytes,
}

-- A dict from data types to values, in the order of insertion.
abbrev pub Items : Type 0
Items = List (ℕ × Bytes)

-- `send.get(key)`
unfoldable pub get : ℕ → Items → Option Bytes
get key [] = none
get key ((k, v) ∷ rest) = if k == key then some v else get key rest

-- `sent[key] = value`: an old key keeps its place.
unfoldable pub set_item : Items → ℕ → Bytes → Items
set_item [] key value = (key, value) ∷ []
set_item ((k, v) ∷ rest) key value =
    if k == key then (k, value) ∷ rest else (k, v) ∷ set_item rest key value

pub record DataPayload : Type 0 where
  pub system_mask : ℕ
  pub send : Items
  pub request : List ℕ

-- The loop over `self.send.items()`.
unfoldable pub encode_items : Items → Result Bytes
encode_items [] = ok []
encode_items ((data_type, value) ∷ rest) = do
  head ← to_byte_string (data_type ∷ [])
  len ← to_bytes 2 (length value)
  tail ← encode_items rest
  ok (head ++ (len ++ (value ++ tail)))

unfoldable pub encode_req : DataPayload → Result Bytes
encode_req p = do
  head ← to_byte_string (p.system_mask ∷ length p.send ∷ [])
  items ← encode_items p.send
  count ← to_byte_string (length p.request ∷ [])
  request ← to_byte_string p.request
  ok (head ++ (items ++ (count ++ request)))

unfoldable pub encode_cnf : DataPayload → Result Bytes
encode_cnf p = do
  head ← to_byte_string (p.system_mask ∷ length p.send ∷ [])
  items ← encode_items p.send
  ok (head ++ items)

-- `for _ in range(count)` of both decoders, with the offset behind the last item.
unfoldable pub decode_items : ℕ → Bytes → ℕ → Items → Result (Items × ℕ)
decode_items zero raw offset sent = ok (sent, offset)
decode_items (suc count) raw offset sent = do
  raise_if (ltb (length raw) (offset + 3)) (protocol_error truncated_header)
  data_type ← index raw offset
  let len = from_bytes (slice raw (offset + 1) (offset + 3))
  raise_if (ltb (length raw) (offset + 3 + len)) (protocol_error truncated_value)
  decode_items count raw (offset + 3 + len)
      (set_item sent data_type (slice raw (offset + 3) (offset + 3 + len)))

unfoldable pub decode_req : Bytes → Result DataPayload
decode_req raw = do
  raise_if (ltb (length raw) 3) (protocol_error too_short)
  system_mask ← index raw 0
  count ← index raw 1
  (sent, offset) ← decode_items count raw 2 []
  raise_if (leb (length raw) offset) (protocol_error missing_count)
  request_count ← index raw offset
  raise_if (not (offset + 1 + request_count == length raw)) (protocol_error request_mismatch)
  ok (record {
    system_mask = system_mask;
    send = sent;
    request = slice raw (offset + 1) (offset + 1 + request_count);
  })

unfoldable pub decode_cnf : Bytes → Result DataPayload
decode_cnf raw = do
  raise_if (ltb (length raw) 2) (protocol_error too_short)
  system_mask ← index raw 0
  count ← index raw 1
  (sent, offset) ← decode_items count raw 2 []
  raise_if (not (offset == length raw)) (protocol_error trailing_bytes)
  ok (record { system_mask = system_mask; send = sent; request = [] })
