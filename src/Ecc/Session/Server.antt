-- ===== src/Ecc/Session/Server.antt =====
-- The server's half of the ECC handshake: `server_authenticate`, `server_init_sac`,
-- `server_update_content_key` and `server_handshake`. What the code draws is an argument.
pub mod Authentic
use modbus_serial_security_p.Base.{
  not, Bool, false, some, [], ◌∷◌, Bytes, bit_and, ltb, bytes_eq, if◌then◌else◌, protocol_error,
  unsupported_version, failed_verification, wrong_identity, rejected, bad_status, invalid_akh,
}
use modbus_serial_security_p.Base.Action.{pure, lift, raise_if, ◌>>=◌, ◌>>◌}
use modbus_serial_security_p.Psk.Payload.{get}
use modbus_serial_security_p.Ecc.Suite.{
  EccSuite, digest, derive_dhsk, derive_auth_key, derive_sac_keys, derive_content_keys,
}
use modbus_serial_security_p.Ecc.Certificates.{DeviceIdentity, cert_to_bytes, verify_peer_chain}
use modbus_serial_security_p.Ecc.Pki.{client_text}
use modbus_serial_security_p.Ecc.Tlv.{DataMessage, encode_data_message, decode_data_message}
use modbus_serial_security_p.Ecc.Line.{Transport}
use modbus_serial_security_p.Ecc.Session.{
  session_of, update, send, recv, send_sac, recv_sac, save_context, load_context, require_value,
  same_option, value_or, message_of, system_id_v1, status_ok, apdu_open_req, apdu_open_cnf,
  apdu_data_req, apdu_data_cnf, apdu_sync_req, apdu_sync_cnf, apdu_sac_data_req, apdu_sac_data_cnf,
  apdu_sac_sync_req, apdu_sac_sync_cnf, dt_client_id, dt_server_id, dt_client_brand_cert,
  dt_server_brand_cert, dt_kp, dt_dhph, dt_dhpm, dt_client_dev_cert, dt_server_dev_cert, dt_rm,
  dt_rh, dt_ns_h, dt_ns_m, dt_akh, dt_status,
}
use modbus_serial_security_p.Ecc.Session.Client.{Step, new_channel, send_message, recv_message}

pub record ServerDraws : Type 0 where
  pub ephemeral : Bytes
  pub channel_nonce : Bytes
  pub key_nonce : Bytes

-- `open_cnf and open_cnf[0] & SYSTEM_ID_V1`
unfoldable pub supports_version : Bytes → Bool
supports_version [] = false
supports_version (version ∷ rest) = ltb 0 (bit_and version system_id_v1)

module _ (suite : EccSuite) (transport : Transport) where
  -- `True` where the client has shown the key of the old context and the function returns.
  unfoldable pub server_resume : Step suite transport Bool
  server_resume = do
    loaded ← load_context suite transport
    session ← session_of suite transport
    if not loaded then pure false else do
      send_message suite transport apdu_data_req
          (message_of ((dt_server_id, session.identity.device_id) ∷ []) (dt_akh ∷ []))
      response ← recv_message suite transport apdu_data_cnf
      pure (same_option (get dt_akh response.values) session.auth_key)

  abbrev pub chain_message : DeviceIdentity → DataMessage
  chain_message identity =
      message_of
        ((dt_server_dev_cert, cert_to_bytes suite identity.device_cert)
          ∷ (dt_server_brand_cert, cert_to_bytes suite identity.brand_cert)
          ∷ [])
        (dt_dhph ∷ dt_client_dev_cert ∷ dt_client_brand_cert ∷ [])

  -- The certificates of the client, with its identifier and its public value.
  unfoldable pub server_chain : Step suite transport (Bytes × Bytes)
  server_chain = do
    session ← session_of suite transport
    send_message suite transport apdu_data_req (chain_message session.identity)
    client_msg ← recv_message suite transport apdu_data_cnf
    brand_cert ← lift (require_value dt_client_brand_cert client_msg.values)
    dev_cert ← lift (require_value dt_client_dev_cert client_msg.values)
    client_id ← lift (verify_peer_chain suite session.identity brand_cert dev_cert client_text)
    update suite transport (λ s. record s { peer_id = some client_id })
    dhph ← lift (require_value dt_dhph client_msg.values)
    pure (client_id, dhph)

  -- The exchange, up to the key that the client confirms with RH.
  unfoldable pub server_key : ServerDraws → Bytes → Bytes → Step suite transport Bytes
  server_key draws client_id dhph = do
    session ← session_of suite transport
    let dhpm = suite.curve.public_key draws.ephemeral
    peer_key ← lift (suite.curve.from_encoded_point dhph)
    shared ← lift (suite.curve.exchange draws.ephemeral peer_key)
    let server_id = session.identity.device_id
    let dhsk = derive_dhsk suite shared client_id server_id
    update suite transport (λ s. record s { dhsk = some dhsk })
    let rm = digest suite (dhph ∷ dhpm ∷ dhsk ∷ server_id ∷ []) 32
    send_message suite transport apdu_data_req
        (message_of ((dt_dhpm, dhpm) ∷ (dt_rm, rm) ∷ []) (dt_status ∷ []))
    client_rh ← recv_message suite transport apdu_data_cnf
    rh ← lift (require_value dt_rh client_rh.values)
    raise_if (not (bytes_eq rh (digest suite (dhpm ∷ dhph ∷ dhsk ∷ client_id ∷ []) 32)))
        (protocol_error failed_verification)
    let auth_key = derive_auth_key suite dhsk client_id server_id
    update suite transport (λ s. record s { auth_key = some auth_key })
    pure auth_key

  -- The code that the client shows last.
  unfoldable pub server_confirm : Bytes → Step suite transport (Unit {0})
  server_confirm auth_key = do
    send_message suite transport apdu_data_req (message_of [] (dt_akh ∷ []))
    akh_msg ← recv_message suite transport apdu_data_cnf
    raise_if (not (same_option (get dt_akh akh_msg.values) (some auth_key)))
        (protocol_error invalid_akh)
    save_context suite transport

  unfoldable pub server_full : ServerDraws → Step suite transport (Unit {0})
  unfolding server_chain server_key server_confirm
  server_full draws = do
    (client_id, dhph) ← server_chain
    auth_key ← server_key draws client_id dhph
    server_confirm auth_key

  unfoldable pub server_authenticate : ServerDraws → Step suite transport (Unit {0})
  unfolding server_resume server_full
  server_authenticate draws = do
    send suite transport apdu_open_req []
    open_cnf ← recv suite transport apdu_open_cnf
    raise_if (not (supports_version open_cnf)) (protocol_error unsupported_version)
    resumed ← server_resume
    if resumed then pure tt else server_full draws

  unfoldable pub server_init_sac : ServerDraws → Step suite transport (Unit {0})
  server_init_sac draws = do
    session ← session_of suite transport
    let ns_m = draws.channel_nonce
    send_message suite transport apdu_data_req (
        message_of ((dt_server_id, session.identity.device_id) ∷ (dt_ns_m, ns_m) ∷ [])
          (dt_client_id ∷ dt_ns_h ∷ []))
    msg ← recv_message suite transport apdu_data_cnf
    raise_if (not (same_option (get dt_client_id msg.values) session.peer_id))
        (protocol_error wrong_identity)
    ns_h ← lift (require_value dt_ns_h msg.values)
    update suite transport λ s. record s {
      sac = some (
          new_channel
            (derive_sac_keys suite (value_or s.dhsk []) (value_or s.auth_key []) ns_h ns_m));
    }
    send suite transport apdu_sync_req []
    status ← recv suite transport apdu_sync_cnf
    raise_if (not (bytes_eq status (status_ok ∷ []))) (protocol_error rejected)

  unfoldable pub server_update_content_key : ServerDraws → Step suite transport (Unit {0})
  server_update_content_key draws = do
    session ← session_of suite transport
    let kp = digest suite (draws.key_nonce ∷ []) 32
    let server_id = session.identity.device_id
    request ← lift (
        encode_data_message (
          message_of ((dt_server_id, server_id) ∷ (dt_kp, kp) ∷ [])
            (dt_client_id ∷ dt_status ∷ [])))
    send_sac suite transport apdu_sac_data_req request
    body ← recv_sac suite transport apdu_sac_data_cnf
    msg ← lift (decode_data_message body)
    raise_if (not (same_option (get dt_client_id msg.values) session.peer_id))
        (protocol_error wrong_identity)
    raise_if (not (same_option (get dt_status msg.values) (some (status_ok ∷ []))))
        (protocol_error bad_status)
    kp_client ← lift (require_value dt_kp msg.values)
    let (ck, civ, bck, bciv) =
        derive_content_keys suite kp server_id kp_client (value_or session.peer_id [])
    update suite transport
        λ s. record s { ck = some ck; civ = some civ; bck = some bck; bciv = some bciv }
    send_sac suite transport apdu_sac_sync_req []
    status ← recv_sac suite transport apdu_sac_sync_cnf
    raise_if (not (bytes_eq status (status_ok ∷ []))) (protocol_error rejected)

  unfoldable pub server_handshake : ServerDraws → Step suite transport (Unit {0})
  unfolding server_authenticate server_init_sac server_update_content_key
  server_handshake draws =
      server_authenticate draws >> (server_init_sac draws >> server_update_content_key draws)
