-- ===== src/Ecc/Tlv.antt =====
-- Data messages of protocols/protocols-ECC/secure_modbus/tlv.py. The loop over the items is that of
-- `DataPayload.decode_req`, in the same words.
pub mod RoundTrip
use modbus_serial_security_p.Base.{
  ℕ, ◌+◌, ◌%◌, not, List, [], ◌∷◌, ◌++◌, map, Bytes, length, drop, ltb, leb, ◌==◌, Result, ok,
  ◌>>=◌, ◌>>◌, raise_if, to_bytes, index, value_error, protocol_error, too_short, missing_count,
  request_mismatch,
}
use modbus_serial_security_p.Psk.Payload.{Items, decode_items}

pub record DataMessage : Type 0 where
  pub system_id_bitmask : ℕ
  pub values : Items
  pub requests : List ℕ

abbrev pub low_byte : ℕ → ℕ
low_byte x = x % 256

-- The loop over `values.items()`.
unfoldable pub encode_values : Items → Result Bytes
encode_values [] = ok []
encode_values ((datatype_id, value) ∷ rest) = do
  raise_if (ltb 0xFFFF (length value)) value_error
  len ← to_bytes 2 (length value)
  tail ← encode_values rest
  ok (low_byte datatype_id ∷ (len ++ (value ++ tail)))

unfoldable pub encode_data_message : DataMessage → Result Bytes
encode_data_message m = do
  items ← encode_values m.values
  ok (
      low_byte m.system_id_bitmask
      ∷ low_byte (length m.values)
      ∷ (items ++ (low_byte (length m.requests) ∷ map low_byte m.requests)))

unfoldable pub decode_data_message : Bytes → Result DataMessage
decode_data_message data' = do
  raise_if (ltb (length data') 3) (protocol_error too_short)
  system_id_bitmask ← index data' 0
  value_count ← index data' 1
  (values, pos) ← decode_items value_count data' 2 []
  raise_if (leb (length data') pos) (protocol_error missing_count)
  request_count ← index data' pos
  raise_if (not (pos + 1 + request_count == length data')) (protocol_error request_mismatch)
  ok (record {
    system_id_bitmask = system_id_bitmask;
    values = values;
    requests = drop (pos + 1) data';
  })
