-- ===== src/Pq/Handshake/Agreement/Handlers.antt =====
-- Each handler of the handshake on the message that the other side sends.
use modbus_serial_security_p.Base.{
  ℕ, ◌<◌, ◌≡◌, refl, arith, true, false, [], ◌∷◌, ◌++◌, Bytes, replicate, length, All, IsByte,
  IsBytes, bytes_eq, bytes_eq_refl, ==_refl, ok, err, index, to_byte_string_lem, to_bytes_lem,
  be_bytes, protocol_error, invalid_akh,
}
use modbus_serial_security_p.Base.Json.{pos}
use modbus_serial_security_p.Psk.Apdu.{Apdu}
use modbus_serial_security_p.Psk.Payload.{
  Items, DataPayload, get, encode_items, encode_req, encode_cnf, decode_req, decode_cnf,
}
use modbus_serial_security_p.Psk.Payload.Items.{IsDict}
use modbus_serial_security_p.Psk.Payload.RoundTrip.{decode_req-encode_req, decode_cnf-encode_cnf}
use modbus_serial_security_p.Psk.Content.{mode_aes_gcm}
use modbus_serial_security_p.Psk.Handshake.{require}
use modbus_serial_security_p.Pq.Suite.{Suite}
use modbus_serial_security_p.Pq.Certificates.{
  client, server, DeviceMaterial, Draws, encaps, decaps, make_device_material,
}
use modbus_serial_security_p.Pq.Certificates.Laws.{
  SuiteLaws, issued, issued_broadcast, verify-make_device_material, material_keys,
}
use modbus_serial_security_p.Pq.Keys.{compute_auth_key}
use modbus_serial_security_p.Pq.Handshake.{tag_ss_data_req, tag_ss_data_cnf}
use modbus_serial_security_p.Pq.Handshake.Master.{
  MasterDraws, response_payload, certificate_chain, rescue_missing, broadcast_key, master_respond,
  requests_type, akh_payload, master_authenticate,
}
use modbus_serial_security_p.Pq.Handshake.Slave.{
  certificate_request, Secrets, slave_accept, slave_confirm, akh_request,
}

abbrev pub data_req : Bytes → Apdu
data_req payload = record { tag = tag_ss_data_req; payload = payload }

abbrev pub data_cnf : Bytes → Apdu
data_cnf payload = record { tag = tag_ss_data_cnf; payload = payload }

-- A value that an item of a payload can hold.
abbrev pub FitsItem : Bytes → Type 0
FitsItem value = length value < 65536

abbrev AreEncodable : Items → Type 0
AreEncodable items = All (λ item. IsByte item.0 × FitsItem item.1) items

encode_items_total :
    (items : Items) → AreEncodable items → (enc : Bytes) × (encode_items items ≡ ok enc)
unfolding encode_items
encode_items_total [] h = ([], refl)
encode_items_total ((k, v) ∷ rest) ((hk, hv), h) =
    let (tail, e) = encode_items_total rest h in
    (
      (k ∷ []) ++ (be_bytes 2 (length v) ++ (v ++ tail)),
      rw (to_byte_string_lem (k ∷ []) (hk, tt), to_bytes_lem 2 (length v) (omega arith), e) refl,
    )

encode_req_total :
    (p : DataPayload)
    → IsByte p.system_mask
    → length p.send < 256
    → AreEncodable p.send
    → length p.request < 256
    → IsBytes p.request
    → (raw : Bytes) × (encode_req p ≡ ok raw)
unfolding encode_req
encode_req_total p hm hl hs hr hb =
    let (enc, e) = encode_items_total p.send hs in
    (
      (p.system_mask ∷ length p.send ∷ []) ++ (enc ++ ((length p.request ∷ []) ++ p.request)),
      rw
          (
            to_byte_string_lem (p.system_mask ∷ length p.send ∷ []) (hm, (hl, tt)),
            e,
            to_byte_string_lem (length p.request ∷ []) (hr, tt),
            to_byte_string_lem p.request hb,
          )
          refl,
    )

encode_cnf_total :
    (p : DataPayload)
    → IsByte p.system_mask
    → length p.send < 256
    → AreEncodable p.send
    → (raw : Bytes) × (encode_cnf p ≡ ok raw)
unfolding encode_cnf
encode_cnf_total p hm hl hs =
    let (enc, e) = encode_items_total p.send hs in
    (
      (p.system_mask ∷ length p.send ∷ []) ++ enc,
      rw (to_byte_string_lem (p.system_mask ∷ length p.send ∷ []) (hm, (hl, tt)), e) refl,
    )

module _ (suite : Suite) (laws : SuiteLaws suite) where
  open suite use {kem}

  -- The ciphertext and the secret for the key of a server.
  abbrev pub agreed : Draws → Bytes → Bytes × Bytes
  agreed draws random = kem.encrypt random (kem.generate_keypair draws.key_pair).0

  abbrev pub agreed_broadcast : Draws → Bytes → Bytes × Bytes
  agreed_broadcast draws random = kem.encrypt random (kem.generate_keypair draws.broadcast_pair).0

  encaps_ok :
      (random seed : Bytes)
      → encaps suite random (kem.generate_keypair seed).0
        ≡ ok (kem.encrypt random (kem.generate_keypair seed).0)
  unfolding encaps
  encaps_ok random seed = ground (arith, laws.length_kem_public seed)

  decaps_ok :
      (random seed secret : Bytes)
      → secret ≡ (kem.generate_keypair seed).1
      → decaps suite secret (kem.encrypt random (kem.generate_keypair seed).0).0
        ≡ ok (kem.encrypt random (kem.generate_keypair seed).0).1
  unfolding decaps
  decaps_ok random seed secret e =
      rw
        (
          e,
          laws.length_kem_secret seed,
          ==_refl kem.secret_key_size,
          laws.length_ciphertext random (kem.generate_keypair seed).0,
          ==_refl kem.ciphertext_size,
          laws.decrypt_encrypt seed random,
        )
        refl

  -- The slave's request is encoded, and the master reads it.
  request_sent :
      (sm : DeviceMaterial)
      → FitsItem sm.device_cert
      → FitsItem sm.brand_cert
      → (raw : Bytes) × (encode_req (certificate_request sm) ≡ ok raw)
        × (decode_req raw ≡ ok (certificate_request sm))
  request_sent sm hd hb =
      let (raw, e) =
        encode_req_total (certificate_request sm) (omega arith) (omega arith)
          ((omega arith, hd), ((omega arith, hb), tt)) (omega arith)
          (omega arith, (omega arith, (omega arith, (omega arith, (omega arith, tt))))) in
      (raw, e, decode_req-encode_req (certificate_request sm) raw ((omega arith, tt), (tt, tt)) e)

  response_sent :
      (kem_c kem_bc : Bytes) (cm : DeviceMaterial)
      → FitsItem kem_c
      → FitsItem kem_bc
      → FitsItem cm.device_cert
      → FitsItem cm.brand_cert
      → (raw : Bytes) × (encode_cnf (response_payload kem_c kem_bc cm) ≡ ok raw)
        × (decode_cnf raw ≡ ok (response_payload kem_c kem_bc cm))
  response_sent kem_c kem_bc cm h1 h2 h3 h4 =
      let (raw, e) =
        encode_cnf_total (response_payload kem_c kem_bc cm) (omega arith) (omega arith) (
          (omega arith, h1),
          (
            (omega arith, h2),
            ((omega arith, omega arith), ((omega arith, h3), ((omega arith, h4), tt))),
          ),
        ) in
      (raw, e, decode_cnf-encode_cnf (response_payload kem_c kem_bc cm) raw distinct e)
    where
      distinct : IsDict (response_payload kem_c kem_bc cm).send
      distinct = (
        (omega arith, (omega arith, (omega arith, (omega arith, tt)))),
        (
          (omega arith, (omega arith, (omega arith, tt))),
          ((omega arith, (omega arith, tt)), ((omega arith, tt), (tt, tt))),
        ),
      )

  broadcast_read :
      (draws : Draws) (server_id : ℕ)
      → rescue_missing (broadcast_key suite (issued suite laws draws server server_id))
        ≡ ok (kem.generate_keypair draws.broadcast_pair).0
  unfolding rescue_missing broadcast_key
  broadcast_read draws server_id =
      rw
        (
          issued_broadcast suite laws draws server_id,
          laws.base64_laws.decode_encode (kem.generate_keypair draws.broadcast_pair).0,
        )
        refl

  -- The master's answer to the request of a slave.
  pub request_answered :
      (draws_m : MasterDraws) (draws_s : Draws) (server_id client_id : ℕ) (sm cm : DeviceMaterial)
      → make_device_material suite draws_s server server_id ≡ ok sm
      → make_device_material suite draws_m.material client client_id ≡ ok cm
      → FitsItem sm.device_cert
      → FitsItem sm.brand_cert
      → FitsItem cm.device_cert
      → FitsItem cm.brand_cert
      → kem.ciphertext_size < 65536
      → (raw payload : Bytes) × (encode_req (certificate_request sm) ≡ ok raw)
        × (master_respond suite draws_m client_id (data_req raw)
            ≡ ok (record {
              server_id = pos server_id;
              kemsk = (agreed draws_s draws_m.unicast).1;
              kemsk_b = (agreed_broadcast draws_s draws_m.broadcast).1;
              payload = payload;
            }))
        × (decode_cnf payload
            ≡ ok (
                response_payload
                  (agreed draws_s draws_m.unicast).0
                  (agreed_broadcast draws_s draws_m.broadcast).0
                  cm))
  unfolding master_respond certificate_chain get bytes_eq
  request_answered draws_m draws_s server_id client_id sm cm hs hc h1 h2 h3 h4 h5 =
      let (raw, er, dr) = request_sent sm h1 h2 in
      let (payload, ep, dp) =
        response_sent (agreed draws_s draws_m.unicast).0
          (agreed_broadcast draws_s draws_m.broadcast).0 cm
          (omega (
            arith,
            laws.length_ciphertext draws_m.unicast (kem.generate_keypair draws_s.key_pair).0,
            h5,
          ))
          (omega (
            arith,
            laws.length_ciphertext draws_m.broadcast
                (kem.generate_keypair draws_s.broadcast_pair).0,
            h5,
          ))
          h3 h4 in
      (
        raw,
        payload,
        er,
        rw
            (
              dr,
              verify-make_device_material suite laws draws_s server server_id sm hs,
              broadcast_read draws_s server_id,
              encaps_ok draws_m.unicast draws_s.key_pair,
              encaps_ok draws_m.broadcast draws_s.broadcast_pair,
              hc,
              ep,
            )
            refl,
        dp,
      )

  -- What the slave makes of that answer.
  abbrev pub agreed_secrets : MasterDraws → Draws → ℕ → Bytes → Secrets
  agreed_secrets draws_m draws_s client_id auth_key = record {
    client_id = pos client_id;
    mode = mode_aes_gcm;
    kemsk = (agreed draws_s draws_m.unicast).1;
    kemsk_b = (agreed_broadcast draws_s draws_m.broadcast).1;
    auth_key = auth_key;
  }

  pub response_accepted :
      (draws_m : MasterDraws) (draws_s : Draws) (server_id client_id : ℕ) (sm cm : DeviceMaterial)
      (payload auth_key : Bytes)
      → make_device_material suite draws_s server server_id ≡ ok sm
      → make_device_material suite draws_m.material client client_id ≡ ok cm
      → decode_cnf payload
        ≡ ok (
            response_payload
              (agreed draws_s draws_m.unicast).0
              (agreed_broadcast draws_s draws_m.broadcast).0
              cm)
      → compute_auth_key (pos server_id) (pos client_id) (agreed draws_s draws_m.unicast).1
        ≡ ok auth_key
      → slave_accept suite sm server_id (data_cnf payload)
        ≡ ok (agreed_secrets draws_m draws_s client_id auth_key)
  unfolding slave_accept require get index bytes_eq
  response_accepted draws_m draws_s server_id client_id sm cm payload auth_key hs hc d ha =
      let (es, eb) = material_keys suite laws draws_s server_id sm hs in
      rw
        (
          d,
          verify-make_device_material suite laws draws_m.material client client_id cm hc,
          decaps_ok draws_m.unicast draws_s.key_pair sm.kem_secret es,
          decaps_ok draws_m.broadcast draws_s.broadcast_pair sm.broadcast_kem_secret eb,
          ha,
        )
        refl

-- The request for the AKH and its answer.
pub akh_asked :
    (auth_key : Bytes)
    → FitsItem auth_key
    → (raw final : Bytes) × (encode_req akh_request ≡ ok raw)
      × (master_authenticate auth_key (data_req raw) ≡ ok final)
      × (decode_cnf final ≡ ok (akh_payload auth_key))
unfolding master_authenticate requests_type bytes_eq
akh_asked auth_key h =
    let (raw, er) =
      encode_req_total akh_request (omega arith) (omega arith) tt (omega arith) (omega arith, tt) in
    let dr = decode_req-encode_req akh_request raw tt er in
    let (final, ef) =
      encode_cnf_total (akh_payload auth_key) (omega arith) (omega arith) ((omega arith, h), tt) in
    (
      raw,
      final,
      er,
      rw (dr, ef) refl,
      decode_cnf-encode_cnf (akh_payload auth_key) final (tt, tt) ef,
    )

pub akh_confirmed :
    (suite : Suite) (secrets : Secrets) (final : Bytes)
    → decode_cnf final ≡ ok (akh_payload secrets.auth_key)
    → bytes_eq secrets.auth_key (replicate suite.kem.plaintext_size 0) ≡ false
    → slave_confirm suite secrets (data_cnf final) ≡ ok tt
unfolding slave_confirm get require bytes_eq
akh_confirmed suite secrets final d h = rw (d, h, bytes_eq_refl secrets.auth_key) refl

pub akh_refused :
    (suite : Suite) (secrets : Secrets) (final : Bytes)
    → decode_cnf final ≡ ok (akh_payload secrets.auth_key)
    → bytes_eq secrets.auth_key (replicate suite.kem.plaintext_size 0) ≡ true
    → slave_confirm suite secrets (data_cnf final) ≡ err (protocol_error invalid_akh)
unfolding slave_confirm get require bytes_eq
akh_refused suite secrets final d h = rw (d, h) refl
