-- ===== src/Psk/Tests/Wire.antt =====
-- Frames, APDUs, payloads and PDUs on concrete bytes.
use modbus_serial_security_p.Base.{
  ◌≡◌, ◌≤◌, refl, arith, [], ◌∷◌, none, some, Bytes, ok, err, length, be_bytes, to_bytes,
  to_bytes_little, le_bytes, to_byte_string, protocol_error, bad_crc, IsProtocolSafe,
}
use modbus_serial_security_p.Crc.{crc16_modbus}
use modbus_serial_security_p.Psk.Ber.{encode_ber_length}
use modbus_serial_security_p.Psk.Apdu
use modbus_serial_security_p.Psk.Apdu.{Apdu}
use modbus_serial_security_p.Psk.Rtu
use modbus_serial_security_p.Psk.Rtu.{RtuFrame}
use modbus_serial_security_p.Psk.Rtu.Corruption.{decode_changed_byte}
use modbus_serial_security_p.Psk.Frame.{build_apdu_frame, parse_apdu_frame}
use modbus_serial_security_p.Psk.Frame.Laws.{parse-build_apdu_frame}
use modbus_serial_security_p.Psk.Frame.Safety.{parse_apdu_frame-IsProtocolSafe}
use modbus_serial_security_p.Psk.Payload.{
  DataPayload, encode_req, encode_cnf, encode_items, decode_req,
}
use modbus_serial_security_p.Psk.Payload.Items.{IsDict}
use modbus_serial_security_p.Psk.Payload.RoundTrip.{decode_req-encode_req}
use modbus_serial_security_p.Psk.Payload.Safety.{decode_req-IsProtocolSafe}
use modbus_serial_security_p.Psk.Registers.{
  read_holding_registers_pdu, handle_modbus_pdu, parse_register_response,
}
use modbus_serial_security_p.Psk.Registers.Read.{read_transaction}

-- A request to slave 1 for one register, as it stands on the line.
abbrev read_frame : RtuFrame
read_frame = record { slave_id = 1; function = 3; payload = 0 ∷ 0 ∷ 0 ∷ 1 ∷ [] }

abbrev read_raw : Bytes
read_raw = 1 ∷ 3 ∷ 0 ∷ 0 ∷ 0 ∷ 1 ∷ 0x84 ∷ 0x0a ∷ []

read_encoded : Rtu.encode read_frame ≡ ok read_raw
unfolding Rtu.encode to_byte_string crc16_modbus to_bytes_little le_bytes
read_encoded = refl

-- The third byte becomes 9.
decode_changed_byte_example :
    Rtu.decode (1 ∷ 3 ∷ 9 ∷ 0 ∷ 0 ∷ 1 ∷ 0x84 ∷ 0x0a ∷ []) ≡ err (protocol_error bad_crc)
decode_changed_byte_example =
    decode_changed_byte read_frame (1 ∷ 3 ∷ []) (0 ∷ 0 ∷ 1 ∷ 0x84 ∷ 0x0a ∷ []) 0 9 read_encoded
      (omega arith) (omega arith) (omega arith)

abbrev hello_tag : Bytes
hello_tag = 0x9f ∷ 0x90 ∷ 0x01 ∷ []

abbrev hello_payload : Bytes
hello_payload = 5 ∷ 6 ∷ []

ber_300 : encode_ber_length 300 ≡ ok (0x82 ∷ 1 ∷ 44 ∷ [])
unfolding encode_ber_length to_bytes be_bytes
ber_300 = refl

abbrev hello : Apdu
hello = record { tag = hello_tag; payload = hello_payload }

abbrev hello_raw : Bytes
hello_raw = 1 ∷ 0 ∷ 0x9f ∷ 0x90 ∷ 0x01 ∷ 2 ∷ 5 ∷ 6 ∷ 127 ∷ 27 ∷ []

hello_built : build_apdu_frame 1 hello_tag hello_payload ≡ ok hello_raw
unfolding build_apdu_frame Apdu.encode Rtu.encode encode_ber_length to_byte_string crc16_modbus
    to_bytes_little le_bytes
hello_built = refl

parse-build_apdu_frame_example :
    (parse_apdu_frame hello_raw none ≡ ok hello) × (parse_apdu_frame hello_raw (some 1) ≡ ok hello)
parse-build_apdu_frame_example =
    parse-build_apdu_frame 1 hello_tag hello_payload hello_raw hello_built

parse_apdu_frame-IsProtocolSafe_example :
    IsProtocolSafe (parse_apdu_frame (1 ∷ 0 ∷ 0x9f ∷ []) (some 1))
parse_apdu_frame-IsProtocolSafe_example =
    parse_apdu_frame-IsProtocolSafe (1 ∷ 0 ∷ 0x9f ∷ []) (some 1)

-- One item of type 3 and one of type 5, and a request for type 7.
abbrev status_payload : DataPayload
status_payload = record { system_mask = 1; send = (3, 8 ∷ 9 ∷ []) ∷ (5, []) ∷ []; request = 7 ∷ [] }

abbrev status_raw : Bytes
status_raw = 1 ∷ 2 ∷ 3 ∷ 0 ∷ 2 ∷ 8 ∷ 9 ∷ 5 ∷ 0 ∷ 0 ∷ 1 ∷ 7 ∷ []

abbrev confirm_raw : Bytes
confirm_raw = 1 ∷ 2 ∷ 3 ∷ 0 ∷ 2 ∷ 8 ∷ 9 ∷ 5 ∷ 0 ∷ 0 ∷ []

status_encoded : encode_req status_payload ≡ ok status_raw
unfolding encode_req encode_items to_byte_string to_bytes be_bytes
status_encoded = refl

confirm_encoded : encode_cnf status_payload ≡ ok confirm_raw
unfolding encode_cnf encode_items to_byte_string to_bytes be_bytes
confirm_encoded = refl

status_IsDict : IsDict status_payload.send
status_IsDict = ((omega arith, tt), (tt, tt))

decode_req-encode_req_example : decode_req status_raw ≡ ok status_payload
decode_req-encode_req_example =
    decode_req-encode_req status_payload status_raw status_IsDict status_encoded

decode_req-IsProtocolSafe_example : IsProtocolSafe (decode_req (1 ∷ 255 ∷ 3 ∷ 0 ∷ []))
decode_req-IsProtocolSafe_example = decode_req-IsProtocolSafe (1 ∷ 255 ∷ 3 ∷ 0 ∷ [])

read_pdu : read_holding_registers_pdu 1 2 ≡ ok (3 ∷ 0 ∷ 1 ∷ 0 ∷ 2 ∷ [])
unfolding read_holding_registers_pdu to_bytes be_bytes
read_pdu = refl

-- The second register is one above 16 bits.
read_transaction_example :
    (response : Bytes) × (handle_modbus_pdu (3 ∷ 0 ∷ 1 ∷ 0 ∷ 2 ∷ []) (10 ∷ 65537 ∷ 30 ∷ [])
      ≡ ok response)
    × (length response ≤ 252)
    × (parse_register_response response ≡ ok (1 ∷ 30 ∷ []))
read_transaction_example =
    read_transaction 1 2 (10 ∷ 65537 ∷ 30 ∷ []) (3 ∷ 0 ∷ 1 ∷ 0 ∷ 2 ∷ []) read_pdu
