-- ===== src/Pq/Handshake/Agreement.antt =====
-- A handshake of the post-quantum profile whose messages arrive as they were sent.
pub mod Handlers
use modbus_serial_security_p.Base.{
  ℕ, ◌^◌, ◌<◌, ◌≡◌, ◌⊎◌, inl, inr, refl, sym, ap, ◌∙◌, arith, true, false, Bytes, replicate, length,
  bytes_eq, bytes_eq→eq, Bool-cases, Result, ok, err, ◌>>=◌, ◌>>◌, protocol_error, invalid_akh,
}
use modbus_serial_security_p.Base.Json.{ℤ, pos}
use modbus_serial_security_p.Psk.Apdu.{Apdu}
use modbus_serial_security_p.Psk.Payload.{encode_req}
use modbus_serial_security_p.Psk.Keys.{ContentKeys}
use modbus_serial_security_p.Psk.Content.{Role, master, slave, mode_aes_gcm}
use modbus_serial_security_p.Pq.Suite.{Suite}
use modbus_serial_security_p.Pq.Certificates.{
  client, server, DeviceMaterial, Draws, make_device_material,
}
use modbus_serial_security_p.Pq.Certificates.Laws.{SuiteLaws, material_small}
use modbus_serial_security_p.Pq.Keys.{derive_pq_content_keys, compute_auth_key}
use modbus_serial_security_p.Pq.Keys.Laws.{derive_pq_content_keys_total, compute_auth_key_total}
use modbus_serial_security_p.Pq.Content.{PqSessionContext}
use modbus_serial_security_p.Pq.Content.Delivery.{IsInStep}
use modbus_serial_security_p.Pq.Handshake.{pq_session_context}
use modbus_serial_security_p.Pq.Handshake.Master.{
  MasterDraws, Response, master_respond, master_authenticate,
}
use modbus_serial_security_p.Pq.Handshake.Slave.{
  certificate_request, Secrets, slave_accept, slave_confirm, akh_request,
}
use Handlers.{
  data_req, data_cnf, FitsItem, agreed, agreed_secrets, request_answered, response_accepted,
  akh_asked, agreed_broadcast, akh_confirmed, akh_refused,
}

-- The handlers of both sides in the order of the messages, each given what the other side sent.
unfoldable pub exchange :
    Suite → MasterDraws → Draws → ℕ → ℕ → Result (PqSessionContext × PqSessionContext)
exchange suite draws_m draws_s server_id client_id = do
  server_material ← make_device_material suite draws_s server server_id
  request ← encode_req (certificate_request server_material)
  response ← master_respond suite draws_m client_id (data_req request)
  secrets ← slave_accept suite server_material server_id (data_cnf response.payload)
  auth_key ← compute_auth_key response.server_id (pos client_id) response.kemsk
  akh ← encode_req akh_request
  final ← master_authenticate auth_key (data_req akh)
  slave_confirm suite secrets (data_cnf final)
  m ←
      pq_session_context suite master response.server_id (pos client_id) mode_aes_gcm response.kemsk
        response.kemsk_b auth_key
  s ←
      pq_session_context suite slave (pos server_id) secrets.client_id secrets.mode secrets.kemsk
        secrets.kemsk_b secrets.auth_key
  ok (m, s)

abbrev context_of : Role → ℕ → ℕ → Bytes → Bytes → Bytes → ContentKeys → PqSessionContext
context_of role server_id client_id kemsk kemsk_b auth_key keys = record {
  role = role;
  server_id = pos server_id;
  client_id = pos client_id;
  mode = mode_aes_gcm;
  kemsk = kemsk;
  kemsk_b = kemsk_b;
  auth_key = auth_key;
  keys = keys;
  send_counter = 1;
  recv_counter = 1;
}

module _ (suite : Suite) (laws : SuiteLaws suite) where
  open suite use {kem}

  context_made :
      (role : Role) (server_id client_id : ℕ) (kemsk kemsk_b auth_key : Bytes) (keys : ContentKeys)
      → derive_pq_content_keys suite kemsk kemsk_b (pos server_id) (pos client_id) ≡ ok keys
      → pq_session_context suite role
          (pos server_id)
          (pos client_id)
          mode_aes_gcm
          kemsk
          kemsk_b
          auth_key
        ≡ ok (context_of role server_id client_id kemsk kemsk_b auth_key keys)
  unfolding pq_session_context
  context_made role server_id client_id kemsk kemsk_b auth_key keys h = rw h refl

  -- With certificates and ciphertexts that fit an item of a payload and secrets of fewer than 2 ^ 60
  -- bytes, the handshake between a slave and a master that make their device material completes:
  -- its handlers, each given what the other side sent, build two contexts that name both
  -- identifiers and are in step in both directions. The one exception is an authentication key of
  -- zeros, which the slave refuses.
  pub exchange_completes :
      (draws_m : MasterDraws) (draws_s : Draws) (server_id client_id : ℕ) (sm cm : DeviceMaterial)
      → make_device_material suite draws_s server server_id ≡ ok sm
      → make_device_material suite draws_m.material client client_id ≡ ok cm
      → FitsItem sm.device_cert
      → FitsItem sm.brand_cert
      → FitsItem cm.device_cert
      → FitsItem cm.brand_cert
      → kem.ciphertext_size < 65536
      → kem.plaintext_size < 2 ^ 60
      → ((m s : PqSessionContext) × (exchange suite draws_m draws_s server_id client_id ≡ ok (m, s))
          × IsInStep m s
          × IsInStep s m
          × (s.client_id ≡ pos client_id)
          × (m.server_id ≡ pos server_id))
        ⊎ ((compute_auth_key
                (pos server_id)
                (pos client_id)
                (agreed suite laws draws_s draws_m.unicast).1
              ≡ ok (replicate kem.plaintext_size 0))
            × (exchange suite draws_m draws_s server_id client_id
                ≡ err (protocol_error invalid_akh)))
  unfolding exchange
  exchange_completes draws_m draws_s server_id client_id sm cm hs hc h1 h2 h3 h4 h5 h6 =
      let secret = agreed suite laws draws_s draws_m.unicast in
      let secret_b = agreed_broadcast suite laws draws_s draws_m.broadcast in
      let n1 = laws.length_secret draws_m.unicast (kem.generate_keypair draws_s.key_pair).0 in
      let n2 =
        laws.length_secret draws_m.broadcast (kem.generate_keypair draws_s.broadcast_pair).0 in
      let fs = material_small suite laws draws_s server server_id sm hs in
      let fc = material_small suite laws draws_m.material client client_id cm hc in
      let (raw, payload, er, respond, dp) =
        request_answered suite laws draws_m draws_s server_id client_id sm cm hs hc h1 h2 h3 h4
          h5 in
      let (auth_key, ea, la, _) =
        compute_auth_key_total secret.1 server_id client_id (omega (arith, n1, h6)) fs fc in
      let (keys, ek, _, _, _, _) =
        derive_pq_content_keys_total suite secret.1 secret_b.1 server_id client_id n1 n2 h6 fs fc in
      let accept =
        response_accepted suite laws draws_m draws_s server_id client_id sm cm payload auth_key hs
          hc dp ea in
      let (akh, final, eq, authenticate, df) = akh_asked auth_key (omega (arith, la)) in
      elim (Bool-cases (bytes_eq auth_key (replicate kem.plaintext_size 0))) [
        | inl zeros ↦ inr (
          rw (sym (bytes_eq→eq auth_key (replicate kem.plaintext_size 0) zeros)) ea,
          rw
              (
                hs,
                er,
                respond,
                accept,
                ea,
                eq,
                authenticate,
                akh_refused suite (agreed_secrets suite laws draws_m draws_s client_id auth_key)
                    final df zeros,
              )
              refl,
        )
        | inr other ↦ inl (
          context_of master server_id client_id secret.1 secret_b.1 auth_key keys,
          context_of slave server_id client_id secret.1 secret_b.1 auth_key keys,
          rw
              (
                hs,
                er,
                respond,
                accept,
                ea,
                eq,
                authenticate,
                akh_confirmed suite (agreed_secrets suite laws draws_m draws_s client_id auth_key)
                    final df other,
                context_made master server_id client_id secret.1 secret_b.1 auth_key keys ek,
                context_made slave server_id client_id secret.1 secret_b.1 auth_key keys ek,
              )
              refl,
          record { sends_gcm = refl; receives_gcm = refl; same_keys = refl; same_counter = refl },
          record { sends_gcm = refl; receives_gcm = refl; same_keys = refl; same_counter = refl },
          refl,
          refl,
        )
      ]
