-- ===== src/Pq/Handshake/Master.antt =====
-- What the master does between two messages of `run_master_handshake`.
use modbus_serial_security_p.Base.{
  ℕ, not, Bool, true, false, if◌then◌else◌, ◌==◌, List, none, some, [], ◌∷◌, Bytes, length, Result,
  ok, err, ◌>>=◌, ◌>>◌, raise_if, protocol_error, nonempty_payload, missing_certificates,
  certificate_fields, missing_request, key_error, value_error,
}
use modbus_serial_security_p.Base.Json.{ℤ, Members, item_of, unb64}
use modbus_serial_security_p.Psk.Apdu.{Apdu}
use modbus_serial_security_p.Psk.Payload.{DataPayload, get, encode_cnf, decode_req}
use modbus_serial_security_p.Psk.Content.{mode_aes_gcm}
use modbus_serial_security_p.Psk.Handshake.{system_id_version_1, type_mode, expect_tag}
use modbus_serial_security_p.Pq.Suite.{Suite}
use modbus_serial_security_p.Pq.Certificates.{
  client, server, DeviceMaterial, Draws, key_broadcast_public, encaps, make_device_material,
  verify_device_certificate,
}
use modbus_serial_security_p.Pq.Handshake.{
  tag_ss_open_req, tag_ss_data_req, type_client_brand_cert, type_server_brand_cert,
  type_client_dev_cert, type_server_dev_cert, type_akh, type_kem_c, type_kem_bc,
}

unfoldable pub master_open : Apdu → Result (Unit {0})
master_open open_req = do
  expect_tag tag_ss_open_req open_req
  raise_if (not (length open_req.payload == 0)) (protocol_error nonempty_payload)

-- `send.get(a)` and `send.get(b)`, where `None` for either is refused.
unfoldable pub certificate_chain : ℕ → ℕ → DataPayload → Result (Bytes × Bytes)
certificate_chain dev_type brand_type request = elim (get dev_type request.send) [
  | none ↦ err (protocol_error missing_certificates)
  | some dev_cert ↦ elim (get brand_type request.send) [
    | none ↦ err (protocol_error missing_certificates)
    | some brand_cert ↦ ok (dev_cert, brand_cert)
  ]
]

-- `except (KeyError, ValueError)`
unfoldable pub rescue_missing : Result Bytes → Result Bytes
rescue_missing (ok a) = ok a
rescue_missing (err key_error) = err (protocol_error certificate_fields)
rescue_missing (err value_error) = err (protocol_error certificate_fields)
rescue_missing (err e) = err e

-- What the random calls of the master draw.
pub record MasterDraws : Type 0 where
  pub unicast : Bytes
  pub broadcast : Bytes
  pub material : Draws

-- What the master keeps, and the payload of its answer.
pub record Response : Type 0 where
  pub server_id : ℤ
  pub kemsk : Bytes
  pub kemsk_b : Bytes
  pub payload : Bytes

abbrev pub response_payload : Bytes → Bytes → DeviceMaterial → DataPayload
response_payload kem_c kem_bc client_material = record {
  system_mask = system_id_version_1;
  send =
      (type_kem_c, kem_c)
      ∷ (type_kem_bc, kem_bc)
      ∷ (type_mode, mode_aes_gcm ∷ [])
      ∷ (type_client_dev_cert, client_material.device_cert)
      ∷ (type_client_brand_cert, client_material.brand_cert)
      ∷ [];
  request = [];
}

-- `TYPE_AKH in akh_payload.request`
unfoldable pub requests_type : ℕ → List ℕ → Bool
requests_type t [] = false
requests_type t (x ∷ xs) = if x == t then true else requests_type t xs

module _ (suite : Suite) where
  -- `_unb64(server_cert["broadcast_ml_kem_public_key"])`
  unfoldable pub broadcast_key : Members → Result Bytes
  broadcast_key server_cert = do
    encoded ← item_of key_broadcast_public server_cert
    unb64 suite.base64 encoded

  unfoldable pub master_respond : MasterDraws → ℕ → Apdu → Result Response
  master_respond draws client_id first_req = do
    expect_tag tag_ss_data_req first_req
    request ← decode_req first_req.payload
    (dev_cert, brand_cert) ← certificate_chain type_server_dev_cert type_server_brand_cert request
    verified ← verify_device_certificate suite dev_cert brand_cert server
    broadcast_public ← rescue_missing (broadcast_key verified.fields)
    (kem_c, kemsk) ← encaps suite draws.unicast verified.kem_public
    (kem_bc, kemsk_b) ← encaps suite draws.broadcast broadcast_public
    client_material ← make_device_material suite draws.material client client_id
    payload ← encode_cnf (response_payload kem_c kem_bc client_material)
    ok (record {
      server_id = verified.device_id;
      kemsk = kemsk;
      kemsk_b = kemsk_b;
      payload = payload;
    })

abbrev pub akh_payload : Bytes → DataPayload
akh_payload auth_key = record {
  system_mask = system_id_version_1;
  send = (type_akh, auth_key) ∷ [];
  request = [];
}

-- `auth_key = compute_auth_key(…)` with the payload that carries it.
unfoldable pub master_authenticate : Bytes → Apdu → Result Bytes
master_authenticate auth_key akh_req = do
  expect_tag tag_ss_data_req akh_req
  payload ← decode_req akh_req.payload
  raise_if (not (requests_type type_akh payload.request)) (protocol_error missing_request)
  encode_cnf (akh_payload auth_key)
