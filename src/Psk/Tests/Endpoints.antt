-- ===== src/Psk/Tests/Endpoints.antt =====
-- One exchange after the handshake, and the loop of the slave, on concrete values.
use modbus_serial_security_p.Base.{
  ◌≡◌, refl, arith, [], ◌∷◌, ◌++◌, Bytes, ok, replicate, to_bytes, be_bytes, from_bytes, le_bytes,
  to_byte_string, to_bytes_little, from_bytes_little, index, bytes_eq,
}
use modbus_serial_security_p.Crc.{crc16_modbus}
use modbus_serial_security_p.Psk.Ber.{encode_ber_length, decode_ber_length}
use modbus_serial_security_p.Psk.Apdu
use modbus_serial_security_p.Psk.Rtu
use modbus_serial_security_p.Psk.Frame.{build_apdu_frame, parse_apdu_frame}
use modbus_serial_security_p.Psk.Registers.{read_holding_registers_pdu, handle_modbus_pdu}
use modbus_serial_security_p.Psk.Sm3.{sm3}
use modbus_serial_security_p.Psk.Cipher.{
  nonce_of, associated_data, aes_gcm_encrypt, aes_gcm_decrypt,
}
use modbus_serial_security_p.Psk.Content.{
  SessionContext, build_encrypted_data_send, parse_encrypted_data_send,
}
use modbus_serial_security_p.Psk.Content.Delivery.{IsInStep, after_send, after_receive}
use modbus_serial_security_p.Psk.Endpoints.{serve_reply, read_reply, serve_loop}
use modbus_serial_security_p.Psk.Endpoints.Loop.{serve_loop_enough}
use modbus_serial_security_p.Psk.Endpoints.Exchange.{read_exchange}
use modbus_serial_security_p.Psk.Tests.Line.{slow_line, slow_laws}
use modbus_serial_security_p.Psk.Tests.Session.{
  plain_cipher, plain_laws, master_side, slave_side, sides-IsInStep, pdu, pdu_frame, pdu_built,
}

abbrev reply_frame : Bytes
reply_frame =
    1
    ∷ 0
    ∷ 0x9f
    ∷ 0x90
    ∷ 0x11
    ∷ 20
    ∷ 2
    ∷ 3
    ∷ 0
    ∷ 0
    ∷ 0
    ∷ 1
    ∷ (replicate 10 0 ++ (3 ∷ 2 ∷ 0 ∷ 10 ∷ 175 ∷ 57 ∷ []))

reading : read_holding_registers_pdu 0 1 ≡ ok pdu
unfolding read_holding_registers_pdu to_bytes be_bytes
reading = refl

back-IsInStep : IsInStep slave_side master_side
back-IsInStep = record {
  sends_gcm = refl;
  receives_gcm = refl;
  same_keys = refl;
  same_counter = refl;
}

replied :
    serve_reply plain_cipher 1 (10 ∷ 20 ∷ []) pdu_frame slave_side
    ≡ (ok reply_frame, after_send (after_receive slave_side))
unfolding serve_reply parse_encrypted_data_send parse_apdu_frame Rtu.decode Apdu.decode
    decode_ber_length index bytes_eq from_bytes_little handle_modbus_pdu aes_gcm_decrypt
    build_encrypted_data_send aes_gcm_encrypt nonce_of to_bytes be_bytes associated_data sm3
    from_bytes build_apdu_frame Apdu.encode Rtu.encode encode_ber_length to_byte_string crc16_modbus
    to_bytes_little le_bytes
replied = refl

read_exchange_example :
    (m'' : SessionContext) × (read_reply plain_cipher 1 reply_frame (after_send master_side)
      ≡ (ok (10 ∷ []), m''))
    × IsInStep m'' (after_send (after_receive slave_side))
    × IsInStep (after_send (after_receive slave_side)) m''
read_exchange_example =
    read_exchange plain_cipher plain_laws 1 0 1 (10 ∷ 20 ∷ []) pdu pdu_frame reply_frame master_side
      (after_send master_side) slave_side (after_send (after_receive slave_side)) sides-IsInStep
      back-IsInStep reading pdu_built replied

-- A line on which one record of three bytes arrives.
serve_loop_enough_example :
    serve_loop plain_cipher slow_line 9 1 (10 ∷ []) ((0 ∷ 3 ∷ 7 ∷ 8 ∷ 9 ∷ [], []), slave_side)
    ≡ serve_loop plain_cipher slow_line 6 1 (10 ∷ []) ((0 ∷ 3 ∷ 7 ∷ 8 ∷ 9 ∷ [], []), slave_side)
serve_loop_enough_example =
    serve_loop_enough slow_line slow_laws plain_cipher 1 (10 ∷ []) 6 9 (0 ∷ 3 ∷ 7 ∷ 8 ∷ 9 ∷ [], [])
      slave_side (omega arith) (omega arith)
