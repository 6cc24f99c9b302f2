-- ===== src/Psk/Handshake/Slave.antt =====
-- What the slave does between two messages of `run_slave_handshake`.
use modbus_serial_security_p.Base.{
  ℕ, not, none, some, [], ◌∷◌, Bytes, length, ◌==◌, bytes_eq, Result, ok, ◌>>=◌, ◌>>◌, raise_if,
  to_bytes, from_bytes, index, protocol_error, nonempty_payload, unsupported_mode,
  failed_verification, bad_random,
}
use modbus_serial_security_p.Psk.Apdu.{Apdu}
use modbus_serial_security_p.Psk.Payload.{DataPayload, get, encode_cnf, decode_req}
use modbus_serial_security_p.Psk.Sm2.{sm2_g, sm2_mul, encode_point, decode_point}
use modbus_serial_security_p.Psk.Keys.{
  private_from_password, compute_server_auth, compute_master_auth,
}
use modbus_serial_security_p.Psk.Content.{mode_aes_gcm}
use modbus_serial_security_p.Psk.Handshake.{
  system_id_version_1, tag_ss_sk_open_req, tag_ss_sk_data_req, type_client_id, type_server_id,
  type_rh_rm, type_r_b, type_mode, type_s_m_s_h, type_status, status_ok, expect_tag, require_point,
  require,
}

unfoldable pub slave_open : Apdu → Result (Unit {0})
slave_open open_req = do
  expect_tag tag_ss_sk_open_req open_req
  raise_if (not (length open_req.payload == 0)) (protocol_error nonempty_payload)

-- What the slave keeps of the first data request, and the payload of its answer.
pub record Answer : Type 0 where
  pub rh : Bytes
  pub rm : Bytes
  pub mode : ℕ
  pub dhsk : Bytes
  pub payload : Bytes

abbrev pub answer_response : Bytes → Bytes → Bytes → DataPayload
answer_response rm s_m server_id_b = record {
  system_mask = system_id_version_1;
  send = (type_rh_rm, rm) ∷ (type_s_m_s_h, s_m) ∷ (type_server_id, server_id_b) ∷ [];
  request = [];
}

-- From the decoding of R_H on.
unfoldable pub slave_respond : Bytes → Bytes → ℕ → Bytes → ℕ → Result Answer
slave_respond password urandom server_id rh mode_byte = do
  peer_point ← decode_point rh
  (private, random) ← private_from_password password none urandom
  local_point ← require_point (sm2_mul private (some sm2_g))
  shared ← require_point (sm2_mul private (some peer_point))
  rm ← encode_point local_point
  dhsk ← encode_point shared
  s_m ← compute_server_auth rh rm dhsk server_id
  server_id_b ← to_bytes 8 server_id
  payload ← encode_cnf (answer_response rm s_m server_id_b)
  ok (record { rh = rh; rm = rm; mode = mode_byte; dhsk = dhsk; payload = payload })

unfoldable pub slave_answer : Bytes → Bytes → ℕ → Apdu → Result Answer
slave_answer password urandom server_id first_req = do
  expect_tag tag_ss_sk_data_req first_req
  request ← decode_req first_req.payload
  rh ← require (get type_rh_rm request.send)
  mode ← require (get type_mode request.send)
  mode_byte ← index mode 0
  raise_if (not (mode_byte == mode_aes_gcm)) (protocol_error unsupported_mode)
  slave_respond password urandom server_id rh mode_byte

-- The identifier of the master and its random value r_B.
pub record Final : Type 0 where
  pub client_id : ℕ
  pub r_b : Bytes

unfoldable pub slave_finish : Answer → Apdu → Result Final
slave_finish answer final_req = do
  expect_tag tag_ss_sk_data_req final_req
  final_payload ← decode_req final_req.payload
  s_h ← require (get type_s_m_s_h final_payload.send)
  r_b ← require (get type_r_b final_payload.send)
  client_id_b ← require (get type_client_id final_payload.send)
  let client_id = from_bytes client_id_b
  expected_s_h ← compute_master_auth answer.rh answer.rm answer.dhsk client_id
  raise_if (not (bytes_eq s_h expected_s_h)) (protocol_error failed_verification)
  raise_if (not (length r_b == 32)) (protocol_error bad_random)
  ok (record { client_id = client_id; r_b = r_b })

-- The payload that confirms the handshake.
unfoldable pub status_payload : Result Bytes
status_payload = encode_cnf (record {
  system_mask = system_id_version_1;
  send = (type_status, status_ok ∷ []) ∷ [];
  request = [];
})
