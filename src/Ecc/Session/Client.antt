-- ===== src/Ecc/Session/Client.antt =====
-- The client's half of the ECC handshake: `client_authenticate`, `client_init_sac`,
-- `client_update_content_key` and `client_handshake`. What the code draws is an argument.
pub mod Verified
use modbus_serial_security_p.Base.{
  ℕ, not, ◌&&◌, ◌||◌, Bool, true, false, some, [], ◌∷◌, Bytes, replicate, bytes_eq, if◌then◌else◌,
  protocol_error, missing_certificates, failed_verification, missing_request, wrong_identity,
}
use modbus_serial_security_p.Base.Action.{Action, pure, lift, raise_if, ◌>>=◌, ◌>>◌}
use modbus_serial_security_p.Psk.Payload.{get}
use modbus_serial_security_p.Ecc.Suite.{
  EccSuite, digest, derive_dhsk, derive_auth_key, derive_sac_keys, derive_content_keys,
}
use modbus_serial_security_p.Ecc.Certificates.{DeviceIdentity, cert_to_bytes, verify_peer_chain}
use modbus_serial_security_p.Ecc.Pki.{server_text}
use modbus_serial_security_p.Ecc.Sac.{SacChannel}
use modbus_serial_security_p.Ecc.Tlv.{DataMessage, encode_data_message, decode_data_message}
use modbus_serial_security_p.Ecc.Line.{Transport}
use modbus_serial_security_p.Ecc.Session.{
  World, session_of, update, send, recv, send_sac, recv_sac, save_context, load_context,
  require_value, same_option, requests_type, has_value, value_or, message_of, system_id_v1,
  status_ok, apdu_open_req, apdu_open_cnf, apdu_data_req, apdu_data_cnf, apdu_sync_req,
  apdu_sync_cnf, apdu_sac_data_req, apdu_sac_data_cnf, apdu_sac_sync_req, apdu_sac_sync_cnf,
  dt_client_id, dt_server_id, dt_client_brand_cert, dt_server_brand_cert, dt_kp, dt_dhph, dt_dhpm,
  dt_client_dev_cert, dt_server_dev_cert, dt_rm, dt_rh, dt_ns_h, dt_ns_m, dt_akh, dt_status,
}

-- The ephemeral key, the eight bytes for the channel and the 32 bytes for the content key.
pub record ClientDraws : Type 0 where
  pub ephemeral : Bytes
  pub channel_nonce : Bytes
  pub key_nonce : Bytes

-- A channel with counters at their defaults.
abbrev pub new_channel : Bytes × Bytes → SacChannel
new_channel keys = record { sak = keys.0; sek = keys.1; send_counter = 1; recv_counter = 1 }

module _ (suite : EccSuite) (transport : Transport) where
  abbrev pub Step : Type 0 → Type 0
  Step A = Action (World suite transport) A

  -- `session.send(tag, encode_data_message(values, requests))`
  unfoldable pub send_message : ℕ → DataMessage → Step (Unit {0})
  send_message tag m = do payload ← lift (encode_data_message m); send suite transport tag payload

  -- `decode_data_message(session.recv(tag))`
  unfoldable pub recv_message : ℕ → Step DataMessage
  recv_message tag = do body ← recv suite transport tag; lift (decode_data_message body)

  abbrev pub akh_message : Bytes → DataMessage
  akh_message akh = message_of ((dt_akh, akh) ∷ []) []

  -- `True` where the old context was accepted and the function returns.
  unfoldable pub client_resume : DataMessage → Step Bool
  unfolding send_message
  client_resume request =
      if not (requests_type dt_akh request.requests && has_value dt_server_id request.values)
      then pure false
      else do
        loaded ← load_context suite transport
        server_id ← lift (require_value dt_server_id request.values)
        session ← session_of suite transport
        if not loaded
            then pure false
            else if same_option (some server_id) session.peer_id
            then (send_message apdu_data_cnf
                  (akh_message (value_or session.auth_key (replicate 32 0)))
                >> pure true)
            else (send_message apdu_data_cnf (akh_message (replicate 32 0)) >> pure false)

  abbrev pub certificates_message : DeviceIdentity → Bytes → DataMessage
  certificates_message identity dhph =
      message_of
        ((dt_dhph, dhph)
          ∷ (dt_client_dev_cert, cert_to_bytes suite identity.device_cert)
          ∷ (dt_client_brand_cert, cert_to_bytes suite identity.brand_cert)
          ∷ [])
        []

  -- The full authentication, from the certificates of the server on.
  unfoldable pub client_full : ClientDraws → DataMessage → Step (Unit {0})
  unfolding send_message recv_message
  client_full draws request = do
    raise_if
        (not (has_value dt_server_dev_cert request.values)
          || not (has_value dt_server_brand_cert request.values))
        (protocol_error missing_certificates)
    session ← session_of suite transport
    brand_cert ← lift (require_value dt_server_brand_cert request.values)
    dev_cert ← lift (require_value dt_server_dev_cert request.values)
    server_id ← lift (verify_peer_chain suite session.identity brand_cert dev_cert server_text)
    update suite transport (λ s. record s { peer_id = some server_id })
    let dhph = suite.curve.public_key draws.ephemeral
    send_message apdu_data_cnf (certificates_message session.identity dhph)
    response ← recv_message apdu_data_req
    dhpm ← lift (require_value dt_dhpm response.values)
    rm ← lift (require_value dt_rm response.values)
    peer_key ← lift (suite.curve.from_encoded_point dhpm)
    shared ← lift (suite.curve.exchange draws.ephemeral peer_key)
    let client_id = session.identity.device_id
    let dhsk = derive_dhsk suite shared client_id server_id
    update suite transport (λ s. record s { dhsk = some dhsk })
    raise_if (not (bytes_eq rm (digest suite (dhph ∷ dhpm ∷ dhsk ∷ server_id ∷ []) 32)))
        (protocol_error failed_verification)
    let rh = digest suite (dhpm ∷ dhph ∷ dhsk ∷ client_id ∷ []) 32
    let auth_key = derive_auth_key suite dhsk client_id server_id
    update suite transport (λ s. record s { auth_key = some auth_key })
    send_message apdu_data_cnf (message_of ((dt_rh, rh) ∷ []) [])
    request_akh ← recv_message apdu_data_req
    raise_if (not (requests_type dt_akh request_akh.requests)) (protocol_error missing_request)
    send_message apdu_data_cnf (akh_message auth_key)
    save_context suite transport

  unfoldable pub client_authenticate : ClientDraws → Step (Unit {0})
  unfolding client_resume client_full recv_message
  client_authenticate draws = do
    empty ← recv suite transport apdu_open_req
    send suite transport apdu_open_cnf (system_id_v1 ∷ [])
    request ← recv_message apdu_data_req
    resumed ← client_resume request
    if resumed then pure tt else client_full draws request

  unfoldable pub client_init_sac : ClientDraws → Step (Unit {0})
  unfolding send_message recv_message
  client_init_sac draws = do
    msg ← recv_message apdu_data_req
    session ← session_of suite transport
    raise_if (not (same_option (get dt_server_id msg.values) session.peer_id))
        (protocol_error wrong_identity)
    ns_m ← lift (require_value dt_ns_m msg.values)
    let ns_h = draws.channel_nonce
    send_message apdu_data_cnf
        (message_of ((dt_client_id, session.identity.device_id) ∷ (dt_ns_h, ns_h) ∷ []) [])
    update suite transport λ s. record s {
      sac = some (
          new_channel
            (derive_sac_keys suite (value_or s.dhsk []) (value_or s.auth_key []) ns_h ns_m));
    }
    empty ← recv suite transport apdu_sync_req
    send suite transport apdu_sync_cnf (status_ok ∷ [])

  unfoldable pub client_update_content_key : ClientDraws → Step (Unit {0})
  client_update_content_key draws = do
    body ← recv_sac suite transport apdu_sac_data_req
    msg ← lift (decode_data_message body)
    session ← session_of suite transport
    raise_if (not (same_option (get dt_server_id msg.values) session.peer_id))
        (protocol_error wrong_identity)
    kp ← lift (require_value dt_kp msg.values)
    let kp_client = digest suite (draws.key_nonce ∷ []) 32
    let client_id = session.identity.device_id
    let (ck, civ, bck, bciv) =
        derive_content_keys suite kp (value_or session.peer_id []) kp_client client_id
    update suite transport
        λ s. record s { ck = some ck; civ = some civ; bck = some bck; bciv = some bciv }
    answer ← lift (
        encode_data_message (
          message_of
            ((dt_client_id, client_id) ∷ (dt_kp, kp_client) ∷ (dt_status, status_ok ∷ []) ∷ []) []))
    send_sac suite transport apdu_sac_data_cnf answer
    sync ← recv_sac suite transport apdu_sac_sync_req
    send_sac suite transport apdu_sac_sync_cnf (status_ok ∷ [])

  unfoldable pub client_handshake : ClientDraws → Step (Unit {0})
  unfolding client_authenticate client_init_sac client_update_content_key
  client_handshake draws =
      client_authenticate draws >> (client_init_sac draws >> client_update_content_key draws)
