-- ===== src/Pq/Handshake/Slave.antt =====
-- What the slave does between two messages of `run_slave_handshake`.
use modbus_serial_security_p.Base.{
  ℕ, not, [], ◌∷◌, Bytes, replicate, length, ◌==◌, bytes_eq, Result, ok, ◌>>=◌, ◌>>◌, raise_if,
  index, protocol_error, unsupported_mode, unsupported_version, invalid_akh, failed_verification,
}
use modbus_serial_security_p.Base.Json.{ℤ, pos}
use modbus_serial_security_p.Psk.Apdu.{Apdu}
use modbus_serial_security_p.Psk.Payload.{DataPayload, get, decode_cnf}
use modbus_serial_security_p.Psk.Content.{mode_aes_gcm}
use modbus_serial_security_p.Psk.Handshake.{system_id_version_1, type_mode, expect_tag, require}
use modbus_serial_security_p.Psk.Handshake.Master.{supports_version}
use modbus_serial_security_p.Pq.Suite.{Suite}
use modbus_serial_security_p.Pq.Certificates.{
  client, DeviceMaterial, decaps, verify_device_certificate,
}
use modbus_serial_security_p.Pq.Keys.{compute_auth_key}
use modbus_serial_security_p.Pq.Handshake.{
  tag_ss_open_cnf, tag_ss_data_cnf, type_client_brand_cert, type_server_brand_cert,
  type_client_dev_cert, type_server_dev_cert, type_akh, type_kem_c, type_kem_bc,
}

unfoldable pub slave_open : Apdu → Result (Unit {0})
slave_open open_cnf = do
  expect_tag tag_ss_open_cnf open_cnf
  raise_if (not (supports_version open_cnf.payload)) (protocol_error unsupported_version)

abbrev pub certificate_request : DeviceMaterial → DataPayload
certificate_request server_material = record {
  system_mask = system_id_version_1;
  send =
      (type_server_dev_cert, server_material.device_cert)
      ∷ (type_server_brand_cert, server_material.brand_cert)
      ∷ [];
  request =
      type_kem_c ∷ type_kem_bc ∷ type_mode ∷ type_client_dev_cert ∷ type_client_brand_cert ∷ [];
}

-- What the slave learns from the answer to its request.
pub record Secrets : Type 0 where
  pub client_id : ℤ
  pub mode : ℕ
  pub kemsk : Bytes
  pub kemsk_b : Bytes
  pub auth_key : Bytes

module _ (suite : Suite) where
  unfoldable pub slave_accept : DeviceMaterial → ℕ → Apdu → Result Secrets
  slave_accept server_material server_id first_cnf = do
    expect_tag tag_ss_data_cnf first_cnf
    response ← decode_cnf first_cnf.payload
    kem_c ← require (get type_kem_c response.send)
    kem_bc ← require (get type_kem_bc response.send)
    mode ← require (get type_mode response.send)
    client_dev_cert ← require (get type_client_dev_cert response.send)
    client_brand_cert ← require (get type_client_brand_cert response.send)
    raise_if (not (length mode == 1)) (protocol_error unsupported_mode)
    mode_byte ← index mode 0
    raise_if (not (mode_byte == mode_aes_gcm)) (protocol_error unsupported_mode)
    verified ← verify_device_certificate suite client_dev_cert client_brand_cert client
    kemsk ← decaps suite server_material.kem_secret kem_c
    kemsk_b ← decaps suite server_material.broadcast_kem_secret kem_bc
    auth_key ← compute_auth_key (pos server_id) verified.device_id kemsk
    ok (record {
      client_id = verified.device_id;
      mode = mode_byte;
      kemsk = kemsk;
      kemsk_b = kemsk_b;
      auth_key = auth_key;
    })

  -- An AKH of zeros says that the master has none.
  unfoldable pub slave_confirm : Secrets → Apdu → Result (Unit {0})
  slave_confirm secrets final_cnf = do
    expect_tag tag_ss_data_cnf final_cnf
    final_payload ← decode_cnf final_cnf.payload
    akh ← require (get type_akh final_payload.send)
    raise_if (bytes_eq akh (replicate suite.kem.plaintext_size 0)) (protocol_error invalid_akh)
    raise_if (not (bytes_eq akh secrets.auth_key)) (protocol_error failed_verification)

-- `DataPayload(system_mask=…, send={}, request=(TYPE_AKH,))`
abbrev pub akh_request : DataPayload
akh_request = record { system_mask = system_id_version_1; send = []; request = type_akh ∷ [] }
