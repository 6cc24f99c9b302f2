-- ===== src/Psk/Handshake/Master.antt =====
-- What the master does between two messages of `run_master_handshake`.
use modbus_serial_security_p.Base.{
  ℕ, Bool, false, not, Option, none, some, [], ◌∷◌, Bytes, bit_and, ltb, bytes_eq, Result, ok,
  ◌>>=◌, ◌>>◌, raise_if, to_bytes, from_bytes, protocol_error, unsupported_version,
  failed_verification, bad_status,
}
use modbus_serial_security_p.Psk.Apdu.{Apdu}
use modbus_serial_security_p.Psk.Payload.{DataPayload, get, encode_req, decode_cnf}
use modbus_serial_security_p.Psk.Sm2.{sm2_g, sm2_mul, encode_point, decode_point}
use modbus_serial_security_p.Psk.Keys.{
  private_from_password, compute_server_auth, compute_master_auth,
}
use modbus_serial_security_p.Psk.Content.{mode_aes_gcm}
use modbus_serial_security_p.Psk.Handshake.{
  system_id_version_1, tag_ss_sk_open_cnf, tag_ss_sk_data_cnf, type_client_id, type_server_id,
  type_rh_rm, type_r_b, type_mode, type_s_m_s_h, type_status, status_ok, expect_tag, require_point,
  require,
}

-- `len(payload) == 1 and payload[0] & SYSTEM_ID_VERSION_1`
unfoldable pub supports_version : Bytes → Bool
supports_version [] = false
supports_version (version ∷ []) = ltb 0 (bit_and version system_id_version_1)
supports_version (version ∷ more ∷ rest) = false

unfoldable pub master_open : Apdu → Result (Unit {0})
master_open open_cnf = do
  expect_tag tag_ss_sk_open_cnf open_cnf
  raise_if (not (supports_version open_cnf.payload)) (protocol_error unsupported_version)

-- The private number, the point R_H, and the payload of the first data request.
pub record Offer : Type 0 where
  pub private : ℕ
  pub rh : Bytes
  pub payload : Bytes

abbrev pub offer_request : Bytes → DataPayload
offer_request rh = record {
  system_mask = system_id_version_1;
  send = (type_rh_rm, rh) ∷ (type_mode, mode_aes_gcm ∷ []) ∷ [];
  request = type_rh_rm ∷ type_s_m_s_h ∷ [];
}

unfoldable pub master_offer : Bytes → Bytes → Result Offer
master_offer password urandom = do
  (private, random) ← private_from_password password none urandom
  local_point ← require_point (sm2_mul private (some sm2_g))
  rh ← encode_point local_point
  payload ← encode_req (offer_request rh)
  ok (record { private = private; rh = rh; payload = payload })

-- What the master learns from the answer to its offer.
pub record Peer : Type 0 where
  pub rm : Bytes
  pub server_id : ℕ
  pub dhsk : Bytes

unfoldable pub master_accept : Offer → Apdu → Result Peer
master_accept offer first_cnf = do
  expect_tag tag_ss_sk_data_cnf first_cnf
  response ← decode_cnf first_cnf.payload
  rm ← require (get type_rh_rm response.send)
  s_m ← require (get type_s_m_s_h response.send)
  server_id_b ← require (get type_server_id response.send)
  let server_id = from_bytes server_id_b
  peer_point ← decode_point rm
  shared ← require_point (sm2_mul offer.private (some peer_point))
  dhsk ← encode_point shared
  expected_s_m ← compute_server_auth offer.rh rm dhsk server_id
  raise_if (not (bytes_eq s_m expected_s_m)) (protocol_error failed_verification)
  ok (record { rm = rm; server_id = server_id; dhsk = dhsk })

abbrev pub final_request : Bytes → Bytes → Bytes → DataPayload
final_request s_h r_b client_id_b = record {
  system_mask = system_id_version_1;
  send = (type_s_m_s_h, s_h) ∷ (type_r_b, r_b) ∷ (type_client_id, client_id_b) ∷ [];
  request = [];
}

-- The payload of the final data request.
unfoldable pub master_finish : Offer → Peer → ℕ → Bytes → Result Bytes
master_finish offer peer client_id r_b = do
  s_h ← compute_master_auth offer.rh peer.rm peer.dhsk client_id
  client_id_b ← to_bytes 8 client_id
  encode_req (final_request s_h r_b client_id_b)

-- `send.get(20, bytes([STATUS_OK])) == bytes([STATUS_OK])`
unfoldable pub is_status_ok : Option Bytes → Bool
is_status_ok none = bytes_eq (status_ok ∷ []) (status_ok ∷ [])
is_status_ok (some status) = bytes_eq status (status_ok ∷ [])

unfoldable pub master_status : Apdu → Result (Unit {0})
master_status final_cnf = do
  expect_tag tag_ss_sk_data_cnf final_cnf
  status_payload ← decode_cnf final_cnf.payload
  raise_if (not (is_status_ok (get type_status status_payload.send))) (protocol_error bad_status)
