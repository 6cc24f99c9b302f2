-- ===== src/Pq/Tests/Sessions.antt =====
-- Protected PDUs and one exchange of a post-quantum session, with a cipher that encrypts nothing.
use modbus_serial_security_p.Base.{
  ◌≡◌, refl, false, [], ◌∷◌, ◌++◌, Bytes, ok, replicate, to_bytes, be_bytes, from_bytes, le_bytes,
  to_byte_string, to_bytes_little, from_bytes_little, index, bytes_eq,
}
use modbus_serial_security_p.Base.Json.{pos}
use modbus_serial_security_p.Crc.{crc16_modbus}
use modbus_serial_security_p.Psk.Ber.{encode_ber_length, decode_ber_length}
use modbus_serial_security_p.Psk.Apdu
use modbus_serial_security_p.Psk.Rtu
use modbus_serial_security_p.Psk.Frame.{build_apdu_frame, parse_apdu_frame}
use modbus_serial_security_p.Psk.Registers.{read_holding_registers_pdu, handle_modbus_pdu}
use modbus_serial_security_p.Psk.Sm3.{sm3}
use modbus_serial_security_p.Psk.Keys.{ContentKeys}
use modbus_serial_security_p.Psk.Cipher.{
  nonce_of, associated_data, aes_gcm_encrypt, aes_gcm_decrypt,
}
use modbus_serial_security_p.Psk.Content.{master, slave, mode_aes_gcm}
use modbus_serial_security_p.Psk.Tests.Session.{plain_cipher, plain_laws, pdu, pdu_frame}
use modbus_serial_security_p.Pq.Content.{
  PqSessionContext, build_encrypted_data_send, parse_encrypted_data_send,
}
use modbus_serial_security_p.Pq.Content.Delivery.{
  IsInStep, after_send, after_receive, parse-build_pq_data_send,
}
use modbus_serial_security_p.Pq.Endpoints.{serve_reply, read_reply}
use modbus_serial_security_p.Pq.Endpoints.Exchange.{read_pq_exchange}

abbrev test_keys : ContentKeys
test_keys = record { ck = 1 ∷ []; civ = 2 ∷ 3 ∷ []; bck = 4 ∷ []; bciv = 5 ∷ 6 ∷ [] }

abbrev master_side : PqSessionContext
master_side = record {
  role = master;
  server_id = pos 1;
  client_id = pos 2;
  mode = mode_aes_gcm;
  kemsk = [];
  kemsk_b = [];
  auth_key = [];
  keys = test_keys;
  send_counter = 1;
  recv_counter = 1;
}

abbrev slave_side : PqSessionContext
slave_side = record master_side { role = slave }

sides-IsInStep : IsInStep master_side slave_side
sides-IsInStep = record {
  sends_gcm = refl;
  receives_gcm = refl;
  same_keys = refl;
  same_counter = refl;
}

pdu_built :
    build_encrypted_data_send plain_cipher 1 pdu false master_side
    ≡ (ok pdu_frame, after_send master_side)
unfolding build_encrypted_data_send aes_gcm_encrypt nonce_of to_bytes be_bytes associated_data sm3
    from_bytes build_apdu_frame Apdu.encode Rtu.encode encode_ber_length to_byte_string crc16_modbus
    to_bytes_little le_bytes
pdu_built = refl

parse-build_pq_data_send_example :
    (after_send master_side ≡ after_send master_side)
    × (parse_encrypted_data_send plain_cipher pdu_frame 1 false slave_side
        ≡ (ok pdu, after_receive slave_side))
    × IsInStep (after_send master_side) (after_receive slave_side)
parse-build_pq_data_send_example =
    parse-build_pq_data_send plain_cipher plain_laws 1 pdu pdu_frame false master_side
      (after_send master_side) slave_side sides-IsInStep pdu_built

abbrev reply_frame : Bytes
reply_frame =
    1
    ∷ 0
    ∷ 0x9f
    ∷ 0x90
    ∷ 0x11
    ∷ 20
    ∷ 2
    ∷ 3
    ∷ 0
    ∷ 0
    ∷ 0
    ∷ 1
    ∷ (replicate 10 0 ++ (3 ∷ 2 ∷ 0 ∷ 10 ∷ 175 ∷ 57 ∷ []))

reading : read_holding_registers_pdu 0 1 ≡ ok pdu
unfolding read_holding_registers_pdu to_bytes be_bytes
reading = refl

back-IsInStep : IsInStep slave_side master_side
back-IsInStep = record {
  sends_gcm = refl;
  receives_gcm = refl;
  same_keys = refl;
  same_counter = refl;
}

replied :
    serve_reply plain_cipher 1 (10 ∷ 20 ∷ []) pdu_frame slave_side
    ≡ (ok reply_frame, after_send (after_receive slave_side))
unfolding serve_reply parse_encrypted_data_send parse_apdu_frame Rtu.decode Apdu.decode
    decode_ber_length index bytes_eq from_bytes_little handle_modbus_pdu aes_gcm_decrypt
    build_encrypted_data_send aes_gcm_encrypt nonce_of to_bytes be_bytes associated_data sm3
    from_bytes build_apdu_frame Apdu.encode Rtu.encode encode_ber_length to_byte_string crc16_modbus
    to_bytes_little le_bytes
replied = refl

read_pq_exchange_example :
    (m'' : PqSessionContext) × (read_reply plain_cipher 1 reply_frame (after_send master_side)
      ≡ (ok (10 ∷ []), m''))
    × IsInStep m'' (after_send (after_receive slave_side))
    × IsInStep (after_send (after_receive slave_side)) m''
read_pq_exchange_example =
    read_pq_exchange plain_cipher plain_laws 1 0 1 (10 ∷ 20 ∷ []) pdu pdu_frame reply_frame
      master_side (after_send master_side) slave_side (after_send (after_receive slave_side))
      sides-IsInStep back-IsInStep reading pdu_built replied
