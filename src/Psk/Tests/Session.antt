-- ===== src/Psk/Tests/Session.antt =====
-- Keys and protected PDUs with a concrete cipher.
use modbus_serial_security_p.Base.{
  ℕ, bytes_eq_refl, drop-append, ◌+◌, ◌-◌, ◌^◌, ◌≡◌, ◌<◌, refl, arith, [], ◌∷◌, ◌++◌, some, false,
  Bytes, ok, err, length, take, drop, replicate, length-append, take-append, length-take, bytes_eq,
  if◌then◌else◌, invalid_tag, to_bytes, be_bytes, from_bytes,
}
use modbus_serial_security_p.Base.{le_bytes, to_byte_string, to_bytes_little}
use modbus_serial_security_p.Crc.{crc16_modbus}
use modbus_serial_security_p.Psk.Ber.{encode_ber_length}
use modbus_serial_security_p.Psk.Apdu
use modbus_serial_security_p.Psk.Rtu
use modbus_serial_security_p.Psk.Frame.{build_apdu_frame}
use modbus_serial_security_p.Psk.Sm3.{sm3}
use modbus_serial_security_p.Psk.Cipher.{associated_data}
use modbus_serial_security_p.Psk.Keys.{ContentKeys, private_from_password}
use modbus_serial_security_p.Psk.Cipher.{Aead, nonce_of, aes_gcm_encrypt}
use modbus_serial_security_p.Psk.Cipher.Laws.{AeadLaws, nonce_ok, nonce_bytes, nonce_of_injective}
use modbus_serial_security_p.Psk.Content.{
  SessionContext, master, slave, mode_aes_gcm, build_encrypted_data_send, parse_encrypted_data_send,
}
use modbus_serial_security_p.Psk.Content.Delivery.{
  IsInStep, after_send, after_receive, parse-build_encrypted_data_send,
}
use modbus_serial_security_p.Psk.Content.Stream.{send_stream, receive_stream, receive-send_stream}

-- A cipher that encrypts nothing and whose code shows the nonce.
abbrev pub nonce_code : Bytes → Bytes
nonce_code nonce = take 16 (nonce ++ replicate 16 0)

pub length-nonce_code : (nonce : Bytes) → length (nonce_code nonce) ≡ 16
length-nonce_code nonce =
    omega (arith, length-take 16 (nonce ++ replicate 16 0), length-append nonce (replicate 16 0))

abbrev pub plain_cipher : Aead
plain_cipher = record {
  encrypt = λ key nonce plain ad. plain ++ nonce_code nonce;
  decrypt = λ key nonce data' ad.
      if bytes_eq (drop (length data' - 16) data') (nonce_code nonce)
      then ok (take (length data' - 16) data')
      else err invalid_tag;
}

pub plain_decrypt :
    (key nonce plain ad : Bytes)
    → plain_cipher.decrypt key nonce (plain_cipher.encrypt key nonce plain ad) ad ≡ ok plain
plain_decrypt key nonce plain ad =
    rw
      (
        drop-append plain (nonce_code nonce) (length (plain ++ nonce_code nonce) - 16) cut,
        take-append plain (nonce_code nonce) (length (plain ++ nonce_code nonce) - 16) cut,
        bytes_eq_refl (nonce_code nonce),
      )
      refl
  where
    cut : length (plain ++ nonce_code nonce) - 16 ≡ length plain
    cut = omega (arith, length-append plain (nonce_code nonce), length-nonce_code nonce)

abbrev pub plain_laws : AeadLaws plain_cipher
plain_laws = record {
  decrypt_encrypt = plain_decrypt;
  length_encrypt = λ key nonce plain ad.
      omega (arith, length-append plain (nonce_code nonce), length-nonce_code nonce);
}

abbrev test_keys : ContentKeys
test_keys = record { ck = 1 ∷ []; civ = 2 ∷ 3 ∷ []; bck = 4 ∷ []; bciv = 5 ∷ 6 ∷ [] }

nonce_of_injective_example : (◌≡◌ {A = ℕ} 7 7) × (7 < 2 ^ 32)
nonce_of_injective_example =
    nonce_of_injective test_keys false 7 7 (nonce_bytes test_keys false 7)
      (nonce_ok test_keys false 7 (omega arith)) (nonce_ok test_keys false 7 (omega arith))

abbrev test_code : Bytes
test_code = 2 ∷ 3 ∷ 0 ∷ 0 ∷ 0 ∷ 7 ∷ replicate 10 0

test_encrypted : aes_gcm_encrypt plain_cipher test_keys 7 (9 ∷ []) false ≡ ok (test_code, 9 ∷ [])
unfolding aes_gcm_encrypt nonce_of to_bytes be_bytes associated_data sm3 from_bytes
test_encrypted = refl

abbrev pub master_side : SessionContext
master_side = record {
  role = master;
  server_id = 1;
  client_id = 2;
  mode = mode_aes_gcm;
  dhsk = [];
  keys = test_keys;
  local_point = [];
  peer_point = [];
  send_counter = 1;
  recv_counter = 1;
}

abbrev pub slave_side : SessionContext
slave_side = record master_side { role = slave }

pub sides-IsInStep : IsInStep master_side slave_side
sides-IsInStep = record {
  sends_gcm = refl;
  receives_gcm = refl;
  same_keys = refl;
  same_counter = refl;
}

abbrev pub pdu : Bytes
pdu = 3 ∷ 0 ∷ 0 ∷ 0 ∷ 1 ∷ []

abbrev pub pdu_frame : Bytes
pdu_frame =
    1
    ∷ 0
    ∷ 0x9f
    ∷ 0x90
    ∷ 0x11
    ∷ 21
    ∷ 2
    ∷ 3
    ∷ 0
    ∷ 0
    ∷ 0
    ∷ 1
    ∷ (replicate 10 0 ++ (3 ∷ 0 ∷ 0 ∷ 0 ∷ 1 ∷ 111 ∷ 104 ∷ []))

pub pdu_built :
    build_encrypted_data_send plain_cipher 1 pdu master_side
    ≡ (ok pdu_frame, after_send master_side)
unfolding build_encrypted_data_send aes_gcm_encrypt nonce_of to_bytes be_bytes associated_data sm3
    from_bytes build_apdu_frame Apdu.encode Rtu.encode encode_ber_length to_byte_string crc16_modbus
    to_bytes_little le_bytes
pdu_built = refl

parse-build_encrypted_data_send_example :
    (after_send master_side ≡ after_send master_side)
    × (parse_encrypted_data_send plain_cipher pdu_frame 1 slave_side
        ≡ (ok pdu, after_receive slave_side))
    × IsInStep (after_send master_side) (after_receive slave_side)
parse-build_encrypted_data_send_example =
    parse-build_encrypted_data_send plain_cipher plain_laws 1 pdu pdu_frame master_side
      (after_send master_side) slave_side sides-IsInStep pdu_built

stream_sent :
    send_stream plain_cipher 1 (pdu ∷ []) master_side
    ≡ (ok (pdu_frame ∷ []), after_send master_side)
unfolding send_stream
stream_sent = rw pdu_built refl

receive-send_stream_example :
    (r' : SessionContext) × (receive_stream plain_cipher 1 (pdu_frame ∷ []) slave_side
      ≡ (ok (pdu ∷ []), r'))
    × IsInStep (after_send master_side) r'
    × (r'.recv_counter ≡ slave_side.recv_counter + 1)
receive-send_stream_example =
    receive-send_stream plain_cipher plain_laws 1 (pdu ∷ []) (pdu_frame ∷ []) master_side
      (after_send master_side) slave_side sides-IsInStep stream_sent

abbrev test_random : Bytes
test_random = replicate 32 7

abbrev test_private : ℕ
test_private = 25881874857484955369525028980126092460815294435029772173424785007589015839952

test_private_lem :
    private_from_password (1 ∷ []) (some test_random) [] ≡ ok (test_private, test_random)
unfolding private_from_password sm3 from_bytes to_bytes be_bytes
test_private_lem = refl
