-- ===== src/Pq/Handshake/Confirm.antt =====
-- What the slave knows of a master that it has confirmed.
use modbus_serial_security_p.Base.{
  ℕ, ◌≡◌, ◌∙◌, sym, ap, inl, inr, arith, false, some, Option, Bytes, replicate, bytes_eq,
  bytes_eq→eq, ok, Option-cases, none, Result-cases, true,
}
use modbus_serial_security_p.Base.Json.{pos}
use modbus_serial_security_p.Psk.Apdu.{Apdu}
use modbus_serial_security_p.Psk.Payload.{DataPayload, get, decode_cnf}
use modbus_serial_security_p.Psk.Content.{mode_aes_gcm}
use modbus_serial_security_p.Psk.Handshake.{require}
use modbus_serial_security_p.Pq.Suite.{Suite}
use modbus_serial_security_p.Pq.Certificates.{
  client, DeviceMaterial, Verified, decaps, verify_device_certificate,
}
use modbus_serial_security_p.Pq.Keys.{compute_auth_key}
use modbus_serial_security_p.Pq.Handshake.{
  type_akh, type_client_dev_cert, type_client_brand_cert, type_kem_c,
}
use modbus_serial_security_p.Pq.Handshake.Slave.{Secrets, slave_accept, slave_confirm}

require_eq_ok : (o : Option Bytes) (v : Bytes) → require o ≡ ok v → o ≡ some v
unfolding require
require_eq_ok none v h = cc
require_eq_ok (some w) v h = cc

-- The AKH that the master sent.
confirmed_key :
    (suite : Suite) (secrets : Secrets) (final : Apdu)
    → slave_confirm suite secrets final ≡ ok tt
    → (payload : DataPayload) × (decode_cnf final.payload ≡ ok payload)
      × (get type_akh payload.send ≡ some secrets.auth_key)
      × (bytes_eq secrets.auth_key (replicate suite.kem.plaintext_size 0) ≡ false)
unfolding slave_confirm require
confirmed_key suite secrets final h = elim (Result-cases (decode_cnf final.payload)) [
  | inr (e, d) ↦ absurd (ground arith)
  | inl (payload, d) ↦ elim (Option-cases (get type_akh payload.send)) [
    | inl missing ↦ absurd (ground arith)
    | inr (akh, g) ↦
        let same : bytes_eq akh secrets.auth_key ≡ true = ground arith in
        let eq = bytes_eq→eq akh secrets.auth_key same in
        (payload, d, g ∙ ap some eq, rw (sym eq) (ground arith))
  ]
]

-- The certificate, the identifier and the key that the slave accepted.
accepted_master :
    (suite : Suite) (sm : DeviceMaterial) (server_id : ℕ) (first : Apdu) (secrets : Secrets)
    → slave_accept suite sm server_id first ≡ ok secrets
    → (response : DataPayload) × (dev brand kem_c : Bytes) × (v : Verified) × (decode_cnf
          first.payload
        ≡ ok response)
      × (get type_client_dev_cert response.send ≡ some dev)
      × (get type_client_brand_cert response.send ≡ some brand)
      × (verify_device_certificate suite dev brand client ≡ ok v)
      × (get type_kem_c response.send ≡ some kem_c)
      × (decaps suite sm.kem_secret kem_c ≡ ok secrets.kemsk)
      × (compute_auth_key (pos server_id) v.device_id secrets.kemsk ≡ ok secrets.auth_key)
      × (secrets.client_id ≡ v.device_id)
      × (secrets.mode ≡ mode_aes_gcm)
unfolding slave_accept require
accepted_master suite sm server_id first secrets h =
    elim (Result-cases (decode_cnf first.payload)) [
      | inr (e, d) ↦ absurd (ground arith)
      | inl (response, d) ↦ elim (Option-cases (get type_kem_c response.send)) [
        | inl missing ↦ absurd (ground arith)
        | inr (kem_c, gk) ↦ elim (Option-cases (get type_client_dev_cert response.send)) [
          | inl missing ↦ absurd (ground arith)
          | inr (dev, gd) ↦ elim (Option-cases (get type_client_brand_cert response.send)) [
            | inl missing ↦ absurd (ground arith)
            | inr (brand, gb) ↦
                elim (Result-cases (verify_device_certificate suite dev brand client)) [
                  | inr (e, r) ↦ absurd (ground arith)
                  | inl (v, r) ↦ (
                    response,
                    dev,
                    brand,
                    kem_c,
                    v,
                    d,
                    gd,
                    gb,
                    r,
                    gk,
                    ground arith,
                    ground arith,
                    ground arith,
                    ground arith,
                  )
                ]
          ]
        ]
      ]
    ]

-- A slave that accepts a master's answer and confirms it has verified the certificate of a client,
-- has the identifier of that certificate for its peer, and was sent the authentication key of both
-- identifiers and of the secret that it decapsulated, which is not the key of zeros; the mode is
-- AES-GCM.
pub slave_confirm_sound :
    (suite : Suite) (sm : DeviceMaterial) (server_id : ℕ) (first final : Apdu) (secrets : Secrets)
    → slave_accept suite sm server_id first ≡ ok secrets
    → slave_confirm suite secrets final ≡ ok tt
    → (response payload : DataPayload) × (dev brand kem_c kemsk auth_key : Bytes) × (v : Verified)
      × (decode_cnf first.payload ≡ ok response)
      × (get type_client_dev_cert response.send ≡ some dev)
      × (get type_client_brand_cert response.send ≡ some brand)
      × (verify_device_certificate suite dev brand client ≡ ok v)
      × (get type_kem_c response.send ≡ some kem_c)
      × (decaps suite sm.kem_secret kem_c ≡ ok kemsk)
      × (compute_auth_key (pos server_id) v.device_id kemsk ≡ ok auth_key)
      × (decode_cnf final.payload ≡ ok payload)
      × (get type_akh payload.send ≡ some auth_key)
      × (bytes_eq auth_key (replicate suite.kem.plaintext_size 0) ≡ false)
      × (secrets.client_id ≡ v.device_id)
      × (secrets.mode ≡ mode_aes_gcm)
slave_confirm_sound suite sm server_id first final secrets ha hc =
    let (response, dev, brand, kem_c, v, d, gd, gb, r, gk, dk, ak, id, mode) =
      accepted_master suite sm server_id first secrets ha in
    let (payload, dp, gp, nz) = confirmed_key suite secrets final hc in
    (
      response, payload, dev, brand, kem_c, secrets.kemsk, secrets.auth_key, v, d, gd, gb, r, gk,
      dk, ak, dp, gp, nz, id, mode,
    )
