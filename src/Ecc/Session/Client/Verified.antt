-- ===== src/Ecc/Session/Client/Verified.antt =====
-- What the client has verified when its authentication with certificates returns: `client_full`.
use modbus_serial_security_p.Base.{
  ℕ, ◌≡◌, refl, sym, ap, ◌∙◌, subst, arith, not, ◌||◌, true, false, some, [], ◌∷◌, Bytes, bytes_eq,
  bytes_eq→eq, ok, protocol_error, failed_verification, missing_request, missing_certificates,
}
use modbus_serial_security_p.Psk.Payload.{Items}
use modbus_serial_security_p.Ecc.Suite.{EccSuite, digest, derive_dhsk, derive_auth_key}
use modbus_serial_security_p.Ecc.Certificates.{DeviceIdentity, verify_peer_chain}
use modbus_serial_security_p.Ecc.Pki.{server_text}
use modbus_serial_security_p.Ecc.Line.{Transport}
use modbus_serial_security_p.Ecc.Tlv.{DataMessage}
use modbus_serial_security_p.Ecc.Session.{
  World, SecureSession, require_value, requests_type, has_value, message_of, apdu_data_req,
  apdu_data_cnf, dt_server_brand_cert, dt_server_dev_cert, dt_dhpm, dt_rm, dt_rh, dt_akh,
}
use modbus_serial_security_p.Ecc.Session.Ensures.{
  lifts, looks, sends, receives, checks, updates, Ensures, IsReceived, save_context-Ensures,
}
use modbus_serial_security_p.Ecc.Session.Client.{
  ClientDraws, akh_message, certificates_message, client_full,
}

module _ (suite : EccSuite) (transport : Transport) (identity : DeviceIdentity) (address : ℕ)
    (draws : ClientDraws) (request : DataMessage) where
  abbrev secret : Bytes → Bytes → Bytes
  secret shared server_id = derive_dhsk suite shared identity.device_id server_id

  -- The certificates in the request, which have been accepted.
  pub record IsAccepted (server_id : Bytes) : Type 0 where
    pub brand : Bytes
    pub device : Bytes
    pub has_brand : require_value dt_server_brand_cert request.values ≡ ok brand
    pub has_device : require_value dt_server_dev_cert request.values ≡ ok device
    pub accepted : verify_peer_chain suite identity brand device server_text ≡ ok server_id

  abbrev pub IsServer : Bytes → SecureSession → Type 0
  IsServer server_id s =
      ((s.identity ≡ identity) × (s.address ≡ address))
      × (s.peer_id ≡ some server_id)
      × IsAccepted server_id

  -- The keys of the exchange with a server, which the server has confirmed.
  pub record HasKeys (server_id auth_key : Bytes) (s : SecureSession) : Type 0 where
    pub server : IsServer server_id s
    pub dhpm : Bytes
    pub point : Bytes
    pub shared : Bytes
    pub loaded : suite.curve.from_encoded_point dhpm ≡ ok point
    pub exchanged : suite.curve.exchange draws.ephemeral point ≡ ok shared
    pub has_secret : s.dhsk ≡ some (secret shared server_id)
    pub has_key : s.auth_key ≡ some auth_key
    pub derived :
        auth_key ≡ derive_auth_key suite (secret shared server_id) identity.device_id server_id
    pub answer : DataMessage
    pub answered : IsReceived suite transport address apdu_data_req answer
    pub shown : require_value dt_dhpm answer.values ≡ ok dhpm
    pub confirmed :
        require_value dt_rm answer.values
        ≡ ok (
            digest suite
              (suite.curve.public_key draws.ephemeral
                ∷ dhpm
                ∷ secret shared server_id
                ∷ server_id
                ∷ [])
              32)

  confirmed_value :
      (values : Items) (rm expected : Bytes)
      → require_value dt_rm values ≡ ok rm
      → not (bytes_eq rm expected) ≡ false
      → require_value dt_rm values ≡ ok expected
  confirmed_value values rm expected e b =
      let same : bytes_eq rm expected ≡ true = ground arith in
      e ∙ ap ok (bytes_eq→eq rm expected same)

  keyed :
      (server_id dhpm point shared rm device_id : Bytes) (answer : DataMessage) (s : SecureSession)
      → device_id ≡ identity.device_id
      → IsServer server_id s
      → suite.curve.from_encoded_point dhpm ≡ ok point
      → suite.curve.exchange draws.ephemeral point ≡ ok shared
      → s.dhsk ≡ some (derive_dhsk suite shared device_id server_id)
      → IsReceived suite transport address apdu_data_req answer
      → require_value dt_dhpm answer.values ≡ ok dhpm
      → require_value dt_rm answer.values ≡ ok rm
      → not (
          bytes_eq rm (
            digest suite
              (suite.curve.public_key draws.ephemeral
                ∷ dhpm
                ∷ derive_dhsk suite shared device_id server_id
                ∷ server_id
                ∷ [])
              32))
        ≡ false
      → HasKeys server_id
          (derive_auth_key suite (derive_dhsk suite shared device_id server_id) device_id server_id)
          (record s {
            auth_key = some (
                derive_auth_key suite
                  (derive_dhsk suite shared device_id server_id)
                  device_id
                  server_id);
          })
  keyed server_id dhpm point shared rm device_id answer s own_id server loaded exchanged has
        received p q compared =
      record {
        server = server;
        dhpm = dhpm;
        point = point;
        shared = shared;
        loaded = loaded;
        exchanged = exchanged;
        has_secret = has ∙ ap (λ x. some (derive_dhsk suite shared x server_id)) own_id;
        has_key = refl;
        derived =
            ap (λ x. derive_auth_key suite (derive_dhsk suite shared x server_id) x server_id)
              own_id;
        answer = answer;
        answered = received;
        shown = p;
        confirmed =
            confirmed_value answer.values rm _ q compared
            ∙ ap
                (λ x. ok (
                  digest suite
                    (suite.curve.public_key draws.ephemeral
                      ∷ dhpm
                      ∷ derive_dhsk suite shared x server_id
                      ∷ server_id
                      ∷ [])
                    32))
                own_id;
      }

  client_full-Ensures :
      Ensures suite transport
        (λ s. (s.identity ≡ identity) × (s.address ≡ address))
        (client_full suite transport draws request)
        (λ _ s. (server_id auth_key : Bytes) × HasKeys server_id auth_key s)
  unfolding client_full
  client_full-Ensures =
      let dhph = suite.curve.public_key draws.ephemeral in
      checks suite transport
        (not (has_value dt_server_dev_cert request.values)
          || not (has_value dt_server_brand_cert request.values))
        (protocol_error missing_certificates)
        λ _. looks suite transport λ session.
          lifts suite transport (require_value dt_server_brand_cert request.values) λ brand.
            lifts suite transport (require_value dt_server_dev_cert request.values) λ device.
              lifts suite transport
                (verify_peer_chain suite session.identity brand device server_text)
                λ server_id.
                  let secret_of = λ (shared : Bytes).
                    derive_dhsk suite shared session.identity.device_id server_id in
                  updates suite transport
                    (λ s. IsServer server_id s × (session.identity ≡ identity))
                    (λ s. record s { peer_id = some server_id })
                    (λ s h.
                      let (((((own, there), same), b), d), v) = h in
                      let here : session.identity ≡ identity =
                        ap (λ (x : SecureSession). x.identity) same ∙ own.0 in
                      (
                        (
                          own,
                          refl,
                          record {
                            brand = brand;
                            device = device;
                            has_brand = b;
                            has_device = d;
                            accepted =
                                ap
                                  (λ (x : DeviceIdentity).
                                    verify_peer_chain suite x brand device server_text)
                                  (sym here)
                                ∙ v;
                          },
                        ),
                        here,
                      ))
                    λ _.
                      sends suite transport apdu_data_cnf
                        (certificates_message suite transport session.identity dhph)
                        λ _. receives suite transport apdu_data_req λ response.
                          lifts suite transport (require_value dt_dhpm response.values) λ dhpm.
                            lifts suite transport (require_value dt_rm response.values) λ rm.
                              lifts suite transport (suite.curve.from_encoded_point dhpm) λ point.
                                lifts suite transport (suite.curve.exchange draws.ephemeral point)
                                  λ shared.
                                    updates suite transport
                                      (λ s.
                                        IsServer server_id s
                                        × (session.identity ≡ identity)
                                        × IsReceived suite transport address apdu_data_req response
                                        × (require_value dt_dhpm response.values ≡ ok dhpm)
                                        × (require_value dt_rm response.values ≡ ok rm)
                                        × (suite.curve.from_encoded_point dhpm ≡ ok point)
                                        × (suite.curve.exchange draws.ephemeral point ≡ ok shared)
                                        × (s.dhsk ≡ some (secret_of shared)))
                                      (λ s. record s { dhsk = some (secret_of shared) })
                                      (λ s h.
                                        let (
                                          (((((server, here), received), p), q), loaded),
                                          exchanged,
                                        ) =
                                          h in
                                        (
                                          server,
                                          here,
                                          subst
                                              (λ (a : ℕ).
                                                IsReceived suite transport a apdu_data_req response)
                                              server.0.1 received,
                                          p,
                                          q,
                                          loaded,
                                          exchanged,
                                          refl,
                                        ))
                                      λ _.
                                        checks suite transport
                                          (not (
                                            bytes_eq rm (
                                              digest suite
                                                (dhph ∷ dhpm ∷ secret_of shared ∷ server_id ∷ [])
                                                32)))
                                          (protocol_error failed_verification)
                                          λ _.
                                            let auth_key =
                                              derive_auth_key suite (secret_of shared)
                                                session.identity.device_id server_id in
                                            updates suite transport (HasKeys server_id auth_key)
                                              (λ s. record s { auth_key = some auth_key })
                                              (λ s h.
                                                let (
                                                  (
                                                    server, here, received, p, q, loaded, exchanged,
                                                    has,
                                                  ),
                                                  compared,
                                                ) =
                                                  h in
                                                keyed server_id dhpm point shared rm
                                                  session.identity.device_id response s
                                                  (ap (λ (x : DeviceIdentity). x.device_id) here)
                                                  server loaded exchanged has received p q compared)
                                              λ _.
                                                sends suite transport apdu_data_cnf
                                                  (message_of
                                                    ((
                                                      dt_rh,
                                                      digest suite
                                                          (dhpm
                                                            ∷ dhph
                                                            ∷ secret_of shared
                                                            ∷ session.identity.device_id
                                                            ∷ [])
                                                          32,
                                                    )
                                                      ∷ [])
                                                    [])
                                                  λ _.
                                                    receives suite transport apdu_data_req
                                                      λ request_akh.
                                                        checks suite transport
                                                          (not (
                                                            requests_type dt_akh
                                                            request_akh.requests))
                                                          (protocol_error missing_request)
                                                          λ _.
                                                            sends suite transport apdu_data_cnf
                                                            (akh_message suite transport auth_key)
                                                            λ _. record {
                                                            ensured = λ w w' x h e.
                                                            let kept =
                                                            (save_context-Ensures suite transport
                                                            (HasKeys server_id auth_key)).ensured
                                                            w w' x h.0.0 e in
                                                            (server_id, auth_key, kept);
                                                            }

-- Where the authentication of a server by the certificates of its request returns, the client has
-- accepted their chain, its session holds the identifier of the certificate and the keys that are
-- derived from the exchange with the point that the server sent, and the message with this point
-- had the RM that belongs to these keys.
pub client_full_sound :
    (suite : EccSuite) (transport : Transport) (draws : ClientDraws) (request : DataMessage)
    (w w' : World suite transport)
    → client_full suite transport draws request w ≡ (ok tt, w')
    → (server_id auth_key : Bytes) × HasKeys suite transport w.session.identity w.session.address
        draws request server_id auth_key w'.session
client_full_sound suite transport draws request w w' h =
    (client_full-Ensures suite transport w.session.identity w.session.address draws request).ensured
      w w' tt (refl, refl) h
