-- ===== src/Ecc/Session/Server/Authentic.antt =====
-- What the server has verified when its authentication with certificates returns: `server_chain`,
-- `server_key`, `server_confirm`.
use modbus_serial_security_p.Base.{
  ℕ, ◌≡◌, refl, sym, ap, ◌∙◌, subst, arith, not, true, false, Option, none, some, [], ◌∷◌, Bytes,
  bytes_eq, bytes_eq→eq, inl, inr, ok, protocol_error, failed_verification, invalid_akh,
  Option-cases,
}
use modbus_serial_security_p.Psk.Payload.{Items, get}
use modbus_serial_security_p.Ecc.Suite.{EccSuite, digest, derive_dhsk, derive_auth_key}
use modbus_serial_security_p.Ecc.Certificates.{DeviceIdentity, verify_peer_chain}
use modbus_serial_security_p.Ecc.Pki.{client_text}
use modbus_serial_security_p.Ecc.Line.{Transport}
use modbus_serial_security_p.Ecc.Tlv.{DataMessage}
use modbus_serial_security_p.Ecc.Session.{
  World, SecureSession, require_value, message_of, same_option, apdu_data_req, apdu_data_cnf,
  dt_client_brand_cert, dt_client_dev_cert, dt_dhph, dt_dhpm, dt_rm, dt_rh, dt_akh, dt_status,
}
use modbus_serial_security_p.Ecc.Session.Ensures.{
  lifts, looks, sends, receives, checks, updates, Ensures, IsReceived, >>=-Ensures, pure-Ensures,
  save_context-Ensures,
}
use modbus_serial_security_p.Ecc.Session.Server.{
  ServerDraws, chain_message, server_chain, server_key, server_confirm, server_full,
}

module _ (suite : EccSuite) (transport : Transport) (identity : DeviceIdentity) (address : ℕ) where
  abbrev pub IsOwn : SecureSession → Type 0
  IsOwn s = (s.identity ≡ identity) × (s.address ≡ address)

  -- A message of the client that holds its certificates and its public value DHPH, where the
  -- certificates have been accepted.
  pub record IsAccepted (client_id dhph : Bytes) : Type 0 where
    pub message : DataMessage
    pub brand : Bytes
    pub device : Bytes
    pub received : IsReceived suite transport address apdu_data_cnf message
    pub has_brand : require_value dt_client_brand_cert message.values ≡ ok brand
    pub has_device : require_value dt_client_dev_cert message.values ≡ ok device
    pub has_dhph : require_value dt_dhph message.values ≡ ok dhph
    pub accepted : verify_peer_chain suite identity brand device client_text ≡ ok client_id

  abbrev pub IsClient : Bytes → Bytes → SecureSession → Type 0
  IsClient client_id dhph s = IsOwn s × (s.peer_id ≡ some client_id) × IsAccepted client_id dhph

  server_chain-Ensures :
      Ensures suite transport IsOwn (server_chain suite transport) (λ r s. IsClient r.0 r.1 s)
  unfolding server_chain
  server_chain-Ensures = looks suite transport λ session.
      sends suite transport apdu_data_req (chain_message suite transport session.identity) λ _.
        receives suite transport apdu_data_cnf λ client_msg.
          lifts suite transport (require_value dt_client_brand_cert client_msg.values) λ brand.
            lifts suite transport (require_value dt_client_dev_cert client_msg.values) λ device.
              lifts suite transport
                (verify_peer_chain suite session.identity brand device client_text)
                λ client_id.
                  updates suite transport
                    (λ s.
                      IsOwn s
                      × (s.peer_id ≡ some client_id)
                      × IsReceived suite transport address apdu_data_cnf client_msg
                      × (require_value dt_client_brand_cert client_msg.values ≡ ok brand)
                      × (require_value dt_client_dev_cert client_msg.values ≡ ok device)
                      × (verify_peer_chain suite identity brand device client_text ≡ ok client_id))
                    (λ s. record s { peer_id = some client_id })
                    (λ s h.
                      let (((((own, same), r), b), d), v) = h in
                      (
                        own,
                        refl,
                        subst (λ (a : ℕ). IsReceived suite transport a apdu_data_cnf client_msg)
                            own.1 r,
                        b,
                        d,
                        ap
                              (λ (x : DeviceIdentity).
                                verify_peer_chain suite x brand device client_text)
                              (sym own.0 ∙ sym (ap (λ (x : SecureSession). x.identity) same))
                            ∙ v,
                      ))
                    λ _. lifts suite transport (require_value dt_dhph client_msg.values) λ dhph.
                      pure-Ensures suite transport (λ r s. IsClient r.0 r.1 s) (client_id, dhph)
                        (λ s h.
                          let ((own, peer, r, b, d, v), p) = h in
                          (
                            own,
                            peer,
                            record {
                              message = client_msg;
                              brand = brand;
                              device = device;
                              received = r;
                              has_brand = b;
                              has_device = d;
                              has_dhph = p;
                              accepted = v;
                            },
                          ))

  -- The key of the exchange with a client, which the client has confirmed.
  abbrev pub secret : Bytes → Bytes → Bytes
  secret shared client_id = derive_dhsk suite shared client_id identity.device_id

  pub record IsKeyed (draws : ServerDraws) (client_id auth_key : Bytes) (s : SecureSession)
      : Type 0 where
    pub dhph : Bytes
    pub client : IsClient client_id dhph s
    pub point : Bytes
    pub shared : Bytes
    pub loaded : suite.curve.from_encoded_point dhph ≡ ok point
    pub exchanged : suite.curve.exchange draws.ephemeral point ≡ ok shared
    pub has_secret : s.dhsk ≡ some (secret shared client_id)
    pub has_key : s.auth_key ≡ some auth_key
    pub derived :
        auth_key ≡ derive_auth_key suite (secret shared client_id) client_id identity.device_id
    pub answer : DataMessage
    pub answered : IsReceived suite transport address apdu_data_cnf answer
    pub confirmed :
        get dt_rh answer.values
        ≡ some (
            digest suite
              (suite.curve.public_key draws.ephemeral
                ∷ dhph
                ∷ secret shared client_id
                ∷ client_id
                ∷ [])
              32)

  -- The RH of an answer that has been compared.
  confirmed_value :
      (values : Items) (rh expected : Bytes)
      → require_value dt_rh values ≡ ok rh
      → not (bytes_eq rh expected) ≡ false
      → get dt_rh values ≡ some expected
  unfolding require_value
  confirmed_value values rh expected e b = elim (Option-cases (get dt_rh values)) [
    | inl h ↦ absurd (ground arith)
    | inr (v, h) ↦
        let same : bytes_eq rh expected ≡ true = ground arith in
        let read : v ≡ rh = ground arith in h ∙ ap some (read ∙ bytes_eq→eq rh expected same)
  ]

  keyed :
      (draws : ServerDraws) (client_id dhph point shared rh device_id : Bytes)
      (answer : DataMessage) (s : SecureSession)
      → device_id ≡ identity.device_id
      → IsClient client_id dhph s
      → suite.curve.from_encoded_point dhph ≡ ok point
      → suite.curve.exchange draws.ephemeral point ≡ ok shared
      → s.dhsk ≡ some (derive_dhsk suite shared client_id device_id)
      → IsReceived suite transport s.address apdu_data_cnf answer
      → require_value dt_rh answer.values ≡ ok rh
      → not (
          bytes_eq rh (
            digest suite
              (suite.curve.public_key draws.ephemeral
                ∷ dhph
                ∷ derive_dhsk suite shared client_id device_id
                ∷ client_id
                ∷ [])
              32))
        ≡ false
      → IsKeyed draws client_id
          (derive_auth_key suite (derive_dhsk suite shared client_id device_id) client_id device_id)
          (record s {
            auth_key = some (
                derive_auth_key suite
                  (derive_dhsk suite shared client_id device_id)
                  client_id
                  device_id);
          })
  keyed draws client_id dhph point shared rh device_id answer s device client loaded exchanged has
        received read compared =
      record {
        client = client;
        dhph = dhph;
        point = point;
        shared = shared;
        loaded = loaded;
        exchanged = exchanged;
        has_secret = has ∙ ap (λ x. some (derive_dhsk suite shared client_id x)) device;
        has_key = refl;
        derived =
            ap (λ x. derive_auth_key suite (derive_dhsk suite shared client_id x) client_id x)
              device;
        answer = answer;
        answered =
            subst (λ (a : ℕ). IsReceived suite transport a apdu_data_cnf answer) client.0.1
              received;
        confirmed =
            confirmed_value answer.values rh _ read compared
            ∙ ap
                (λ x. some (
                  digest suite
                    (suite.curve.public_key draws.ephemeral
                      ∷ dhph
                      ∷ derive_dhsk suite shared client_id x
                      ∷ client_id
                      ∷ [])
                    32))
                device;
      }

  server_key-Ensures :
      (draws : ServerDraws) (client_id dhph : Bytes)
      → Ensures suite transport
          (IsClient client_id dhph)
          (server_key suite transport draws client_id dhph)
          (IsKeyed draws client_id)
  unfolding server_key
  server_key-Ensures draws client_id dhph =
      let dhpm = suite.curve.public_key draws.ephemeral in
      looks suite transport λ session.
        lifts suite transport (suite.curve.from_encoded_point dhph) λ point.
          lifts suite transport (suite.curve.exchange draws.ephemeral point) λ shared.
            let dhsk = derive_dhsk suite shared client_id session.identity.device_id in
            updates suite transport
              (λ s.
                IsClient client_id dhph s
                × (session.identity ≡ identity)
                × (suite.curve.from_encoded_point dhph ≡ ok point)
                × (suite.curve.exchange draws.ephemeral point ≡ ok shared)
                × (s.dhsk ≡ some dhsk))
              (λ s. record s { dhsk = some dhsk })
              (λ s h.
                let (((client, same), loaded), exchanged) = h in
                (
                  client,
                  ap (λ (x : SecureSession). x.identity) same ∙ client.0.0,
                  loaded,
                  exchanged,
                  refl,
                ))
              λ _.
                sends suite transport apdu_data_req
                  (message_of
                    ((dt_dhpm, dhpm)
                      ∷ (
                        dt_rm,
                        digest suite (dhph ∷ dhpm ∷ dhsk ∷ session.identity.device_id ∷ []) 32,
                      )
                      ∷ [])
                    (dt_status ∷ []))
                  λ _. receives suite transport apdu_data_cnf λ answer.
                    lifts suite transport (require_value dt_rh answer.values) λ rh.
                      checks suite transport
                        (not (bytes_eq rh (digest suite (dhpm ∷ dhph ∷ dhsk ∷ client_id ∷ []) 32)))
                        (protocol_error failed_verification)
                        λ _.
                          updates suite transport
                            (IsKeyed draws client_id
                              (derive_auth_key suite dhsk client_id session.identity.device_id))
                            (λ s. record s {
                              auth_key =
                                  some (
                                    derive_auth_key suite dhsk client_id
                                      session.identity.device_id);
                            })
                            (λ s h.
                              let (
                                (((client, own, loaded, exchanged, has), received), read),
                                compared,
                              ) =
                                h in
                              keyed draws client_id dhph point shared rh session.identity.device_id
                                answer s (ap (λ (x : DeviceIdentity). x.device_id) own) client
                                loaded exchanged has received read compared)
                            λ _. pure-Ensures suite transport (IsKeyed draws client_id) _ (λ s h. h)

  -- The message in which the client has shown the key.
  abbrev pub IsShown : Bytes → Type 0
  IsShown auth_key =
      (message : DataMessage) × IsReceived suite transport address apdu_data_cnf message
      × (get dt_akh message.values ≡ some auth_key)

  shown_value :
      (o : Option Bytes) (auth_key : Bytes)
      → not (same_option o (some auth_key)) ≡ false
      → o ≡ some auth_key
  shown_value none auth_key h = absurd cc
  shown_value (some akh) auth_key h =
      let same : bytes_eq akh auth_key ≡ true = ground arith in
      ap some (bytes_eq→eq akh auth_key same)

  server_confirm-Ensures :
      (draws : ServerDraws) (client_id auth_key : Bytes)
      → Ensures suite transport
          (IsKeyed draws client_id auth_key)
          (server_confirm suite transport auth_key)
          (λ _ s. IsKeyed draws client_id auth_key s × IsShown auth_key)
  unfolding server_confirm
  server_confirm-Ensures draws client_id auth_key =
      sends suite transport apdu_data_req (message_of [] (dt_akh ∷ [])) λ _.
        receives suite transport apdu_data_cnf λ akh_msg.
          checks suite transport (not (same_option (get dt_akh akh_msg.values) (some auth_key)))
            (protocol_error invalid_akh)
            λ _. record {
              ensured = λ w w' x h e.
                  let ((keyed, received), compared) = h in
                  let kept =
                    (save_context-Ensures suite transport
                        (IsKeyed draws client_id auth_key)).ensured
                      w w' x keyed e in
                  (
                    kept,
                    (
                      akh_msg,
                      subst (λ (a : ℕ). IsReceived suite transport a apdu_data_cnf akh_msg)
                          keyed.client.0.1 received,
                      shown_value (get dt_akh akh_msg.values) auth_key compared,
                    ),
                  );
            }

  server_full-Ensures :
      (draws : ServerDraws)
      → Ensures suite transport IsOwn (server_full suite transport draws) (λ _ s.
        (client_id auth_key : Bytes) × IsKeyed draws client_id auth_key s × IsShown auth_key)
  unfolding server_full
  server_full-Ensures draws =
      >>=-Ensures suite transport (server_chain suite transport) _ (server_chain-Ensures) λ r.
        >>=-Ensures suite transport (server_key suite transport draws r.0 r.1) _
          (server_key-Ensures draws r.0 r.1)
          λ auth_key. record {
            ensured = λ w w' x h e.
                let (keyed, shown) =
                  (server_confirm-Ensures draws r.0 auth_key).ensured w w' x h e in
                (r.0, auth_key, keyed, shown);
          }

-- Where the authentication of a client by its certificates returns, the line has delivered a message
-- with a chain that the server has accepted and with a point DHPH, the session of the server holds
-- the identifier of the certificate and the keys that are derived from the exchange with this point,
-- and the line has delivered the RH and the AKH that belong to these keys.
pub server_full_sound :
    (suite : EccSuite) (transport : Transport) (draws : ServerDraws) (w w' : World suite transport)
    → server_full suite transport draws w ≡ (ok tt, w')
    → (client_id auth_key : Bytes) × IsKeyed suite transport w.session.identity w.session.address
        draws client_id auth_key w'.session
      × IsShown suite transport w.session.identity w.session.address auth_key
server_full_sound suite transport draws w w' h =
    (server_full-Ensures suite transport w.session.identity w.session.address draws).ensured w w' tt
      (refl, refl) h
