-- ===== src/Ecc/Tests.antt =====
-- Secure frames and data messages on concrete bytes.
pub mod Devices
pub mod Sessions
pub mod Authentication
use modbus_serial_security_p.Base.{
  ◌≡◌, refl, arith, none, some, [], ◌∷◌, Bytes, ok, to_byte_string, to_bytes, be_bytes,
  to_bytes_little, le_bytes,
}
use modbus_serial_security_p.Crc.{crc16_modbus}
use modbus_serial_security_p.Ecc.Frame.{
  secure_frame, build_apdu, build_rtu_frame, open_secure_frame,
}
use modbus_serial_security_p.Ecc.Frame.Laws.{open-secure_frame}
use modbus_serial_security_p.Ecc.Tlv.{
  DataMessage, encode_values, encode_data_message, decode_data_message,
}
use modbus_serial_security_p.Ecc.Tlv.RoundTrip.{decode-encode_data_message}

abbrev secure_raw : Bytes
secure_raw = 5 ∷ 0 ∷ 1 ∷ 0 ∷ 1 ∷ 9 ∷ 192 ∷ 36 ∷ []

secure_built : secure_frame 5 1 (9 ∷ []) ≡ ok secure_raw
unfolding secure_frame build_apdu build_rtu_frame to_byte_string to_bytes be_bytes to_bytes_little
    le_bytes crc16_modbus
secure_built = refl

open-secure_frame_example :
    (open_secure_frame secure_raw none ≡ ok (5, 1, 9 ∷ []))
    × (open_secure_frame secure_raw (some 5) ≡ ok (5, 1, 9 ∷ []))
open-secure_frame_example = open-secure_frame 5 1 (9 ∷ []) secure_raw secure_built

abbrev message : DataMessage
message = record { system_id_bitmask = 1; values = (1, 8 ∷ []) ∷ []; requests = 2 ∷ [] }

abbrev message_raw : Bytes
message_raw = 1 ∷ 1 ∷ 1 ∷ 0 ∷ 1 ∷ 8 ∷ 1 ∷ 2 ∷ []

message_encoded : encode_data_message message ≡ ok message_raw
unfolding encode_data_message encode_values to_bytes be_bytes
message_encoded = refl

decode-encode_data_message_example : decode_data_message message_raw ≡ ok message
decode-encode_data_message_example =
    decode-encode_data_message message message_raw (omega arith) (tt, tt) (omega arith, tt)
      (omega arith) (omega arith) (omega arith, tt) message_encoded
