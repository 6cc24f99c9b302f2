-- ===== src/Psk/Tests/Handshake.antt =====
-- A whole handshake on concrete passwords and random values.
use modbus_serial_security_p.Base.{
  ℕ, ◌≡◌, ◌≢◌, ◌⊎◌, refl, [], ◌∷◌, some, Bytes, ok, replicate, to_bytes, be_bytes, from_bytes,
  to_byte_string, index, bytes_eq, err, index_error, overflow_error, IsProtocolSafe, ◌^◌, ◌≤◌,
  arith,
}
use modbus_serial_security_p.Psk.Sm3.{sm3}
use modbus_serial_security_p.Psk.Sm2.{
  sm2_mul, mul_loop, sm2_add, sm2_inverse, pow_mod, encode_point, decode_point,
}
use modbus_serial_security_p.Psk.Payload.{
  DataPayload, encode_req, encode_cnf, encode_items, decode_req, decode_cnf, decode_items, set_item,
  get,
}
use modbus_serial_security_p.Psk.Keys.{
  private_from_password, derive_content_keys, compute_server_auth, compute_master_auth, ContentKeys,
}
use modbus_serial_security_p.Psk.Content.{SessionContext, master, slave, mode_aes_gcm}
use modbus_serial_security_p.Psk.Content.Delivery.{IsInStep}
use modbus_serial_security_p.Psk.Handshake.{
  type_mode, type_client_id, require_point, require, session_context,
}
use modbus_serial_security_p.Psk.Handshake.Master.{
  Offer, Peer, master_offer, master_accept, master_finish,
}
use modbus_serial_security_p.Psk.Handshake.Slave.{
  Answer, Final, slave_answer, slave_respond, slave_finish,
}
use modbus_serial_security_p.Psk.Handshake.Escapes.{slave_answer_escapes, slave_finish_escapes}
use modbus_serial_security_p.Psk.Handshake.Agreement.{
  SameCodes, data_req, data_cnf, handshake_agreement, handshake-IsInStep,
}

abbrev password : Bytes
password = 1 ∷ []

abbrev random_m : Bytes
random_m = replicate 32 7

abbrev random_s : Bytes
random_s = replicate 32 9

abbrev random_b : Bytes
random_b = replicate 32 5

abbrev test_rh : Bytes
test_rh =
    be_bytes 64
      0x4cb4969202f48ea2a941ee37926ba5891a6839ebea878616758e3af15e79fb5a1dcbff9d65c697e03ea0d40720985f1a4f5dfd72b1ddb9f118a84fbd3042a67a

abbrev test_rm : Bytes
test_rm =
    be_bytes 64
      0x1e2753329bfa10bbe6456000b063fa6e10064e0c2e3d52415c3187e4e6d8193e691587e93ee0448dea958dfe3de708c9a3c72de999326a2c92df9109955272be

abbrev test_dhsk : Bytes
test_dhsk =
    be_bytes 64
      0x77dcceb43d68198e4ad4dccb4d9a45449afc406228dba7945f2885dc9b115a8154716ba26035a21b17b5909fef007413c10d60e22f4fe7d86920747d6ee604b5

abbrev test_offer_payload : Bytes
test_offer_payload =
    be_bytes 76
      0x01021600404cb4969202f48ea2a941ee37926ba5891a6839ebea878616758e3af15e79fb5a1dcbff9d65c697e03ea0d40720985f1a4f5dfd72b1ddb9f118a84fbd3042a67a18000101021619

abbrev test_answer_payload : Bytes
test_answer_payload =
    be_bytes 115
      0x01031600401e2753329bfa10bbe6456000b063fa6e10064e0c2e3d52415c3187e4e6d8193e691587e93ee0448dea958dfe3de708c9a3c72de999326a2c92df9109955272be1900205649ff7fe4497132e193391ce443c0ace9ed345fc74fe522d1a3e38246304d4d0200080000000000000003

abbrev test_final_payload : Bytes
test_final_payload =
    be_bytes 84
      0x01031900203c3b64113afa60c37e5bb37c654831cea5fa35b2a8a80f9999d3f67d32a330301700200505050505050505050505050505050505050505050505050505050505050505010008000000000000000400

abbrev test_offer : Offer
test_offer = record {
  private = 25881874857484955369525028980126092460815294435029772173424785007589015839952;
  rh = test_rh;
  payload = test_offer_payload;
}

abbrev test_answer : Answer
test_answer = record {
  rh = test_rh;
  rm = test_rm;
  mode = mode_aes_gcm;
  dhsk = test_dhsk;
  payload = test_answer_payload;
}

abbrev test_peer : Peer
test_peer = record { rm = test_rm; server_id = 3; dhsk = test_dhsk }

abbrev test_final : Final
test_final = record { client_id = 4; r_b = random_b }

abbrev agreed_keys : ContentKeys
agreed_keys = record {
  ck = be_bytes 16 0xdbaca979ba6d971765784fba18b82c32;
  civ = be_bytes 16 0x5b5d423da35b57b4cd4ef3f3c4fd2d3d;
  bck = be_bytes 16 0x49eed65c96339dce5b423cae9408fcae;
  bciv = be_bytes 16 0x87f9e5f2e7b6e83ff38d70883b404f12;
}

abbrev master_context : SessionContext
master_context = record {
  role = master;
  server_id = 3;
  client_id = 4;
  mode = mode_aes_gcm;
  dhsk = test_dhsk;
  keys = agreed_keys;
  local_point = test_rh;
  peer_point = test_rm;
  send_counter = 1;
  recv_counter = 1;
}

abbrev slave_context : SessionContext
slave_context = record master_context { role = slave; local_point = test_rm; peer_point = test_rh }

offer_ok : master_offer password random_m ≡ ok test_offer
unfolding master_offer encode_req private_from_password sm3 from_bytes to_bytes be_bytes
    require_point sm2_mul mul_loop sm2_add sm2_inverse pow_mod encode_point decode_point
    encode_items to_byte_string
offer_ok = refl

answer_ok : slave_answer password random_s 3 (data_req test_offer_payload) ≡ ok test_answer
unfolding slave_answer slave_respond decode_req decode_items set_item get index bytes_eq require
    encode_cnf compute_server_auth private_from_password sm3 from_bytes to_bytes be_bytes
    require_point sm2_mul mul_loop sm2_add sm2_inverse pow_mod encode_point decode_point
    encode_items to_byte_string
answer_ok = refl

accept_ok : master_accept test_offer (data_cnf test_answer_payload) ≡ ok test_peer
unfolding master_accept decode_cnf decode_items set_item get index bytes_eq require
    compute_server_auth private_from_password sm3 from_bytes to_bytes be_bytes require_point sm2_mul
    mul_loop sm2_add sm2_inverse pow_mod encode_point decode_point encode_items to_byte_string
accept_ok = refl

finish_ok : master_finish test_offer test_peer 4 random_b ≡ ok test_final_payload
unfolding master_finish encode_req compute_master_auth private_from_password sm3 from_bytes to_bytes
    be_bytes require_point sm2_mul mul_loop sm2_add sm2_inverse pow_mod encode_point decode_point
    encode_items to_byte_string
finish_ok = refl

final_ok : slave_finish test_answer (data_req test_final_payload) ≡ ok test_final
unfolding slave_finish decode_req decode_items set_item get index bytes_eq require
    compute_master_auth private_from_password sm3 from_bytes to_bytes be_bytes require_point sm2_mul
    mul_loop sm2_add sm2_inverse pow_mod encode_point decode_point encode_items to_byte_string
final_ok = refl

master_context_ok :
    session_context master 3 4 mode_aes_gcm test_dhsk random_b test_rh test_rm ≡ ok master_context
unfolding session_context derive_content_keys sm3 from_bytes to_bytes be_bytes
master_context_ok = refl

slave_context_ok :
    session_context slave 3 4 mode_aes_gcm test_dhsk random_b test_rm test_rh ≡ ok slave_context
unfolding session_context derive_content_keys sm3 from_bytes to_bytes be_bytes
slave_context_ok = refl

handshake_agreement_example :
    (test_rh ≡ test_rh)
    × (test_rm ≡ test_rm)
    × (◌≡◌ {A = ℕ} 3 3)
    × (◌≡◌ {A = ℕ} 4 4)
    × (random_b ≡ random_b)
    × (mode_aes_gcm ≡ mode_aes_gcm)
    × SameCodes test_rh test_rm test_dhsk test_dhsk 3 4
handshake_agreement_example =
    handshake_agreement password random_m password random_s random_b test_final_payload 3 4
      test_offer test_answer test_peer test_final offer_ok answer_ok accept_ok finish_ok final_ok

handshake-IsInStep_example :
    (IsInStep master_context slave_context × IsInStep slave_context master_context)
    ⊎ ((test_dhsk ≢ test_dhsk) × SameCodes test_rh test_rm test_dhsk test_dhsk 3 4)
handshake-IsInStep_example =
    handshake-IsInStep password random_m password random_s random_b test_final_payload 3 4
      test_offer test_answer test_peer test_final master_context slave_context offer_ok answer_ok
      accept_ok finish_ok final_ok master_context_ok slave_context_ok

-- A data request with an empty mode.
abbrev empty_mode : Bytes
empty_mode = 1 ∷ 2 ∷ 22 ∷ 0 ∷ 0 ∷ 24 ∷ 0 ∷ 0 ∷ 0 ∷ []

slave_answer_escapes_example :
    IsProtocolSafe (slave_answer password random_s 3 (data_req empty_mode))
    ⊎ (((request : DataPayload) × (decode_req empty_mode ≡ ok request)
          × (get type_mode request.send ≡ some []))
        × (slave_answer password random_s 3 (data_req empty_mode) ≡ err index_error))
slave_answer_escapes_example =
    slave_answer_escapes password random_s 3 (data_req empty_mode) (omega arith) refl (omega arith)

empty_mode_raises : slave_answer password random_s 3 (data_req empty_mode) ≡ err index_error
unfolding slave_answer decode_req decode_items set_item get index bytes_eq require from_bytes
empty_mode_raises = refl

abbrev empty_answer : Answer
empty_answer = record { rh = []; rm = []; mode = mode_aes_gcm; dhsk = []; payload = [] }

-- A final message whose client identifier has nine bytes.
abbrev long_id : Bytes
long_id = 1 ∷ 3 ∷ 25 ∷ 0 ∷ 0 ∷ 23 ∷ 0 ∷ 0 ∷ 1 ∷ 0 ∷ 9 ∷ 1 ∷ 0 ∷ 0 ∷ 0 ∷ 0 ∷ 0 ∷ 0 ∷ 0 ∷ 0 ∷ 0 ∷ []

slave_finish_escapes_example :
    IsProtocolSafe (slave_finish empty_answer (data_req long_id))
    ⊎ (((request : DataPayload) × (client_id_b : Bytes) × (decode_req long_id ≡ ok request)
          × (get type_client_id request.send ≡ some client_id_b)
          × (2 ^ 64 ≤ from_bytes client_id_b))
        × (slave_finish empty_answer (data_req long_id) ≡ err overflow_error))
slave_finish_escapes_example = slave_finish_escapes empty_answer (data_req long_id) (omega arith)

long_id_raises : slave_finish empty_answer (data_req long_id) ≡ err overflow_error
unfolding slave_finish decode_req decode_items set_item get index bytes_eq require from_bytes
    compute_master_auth to_bytes
long_id_raises = refl
