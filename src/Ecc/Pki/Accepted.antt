-- ===== src/Ecc/Pki/Accepted.antt =====
-- The certificates of the demo hierarchy of protocols/protocols-ECC/secure_modbus/pki.py, checked by
-- `verify_peer_chain`.
use modbus_serial_security_p.Base.{
  ◌≡◌, refl, ap, ◌∙◌, arith, true, [], ◌∷◌, Bytes, length, bytes_eq, bytes_eq_refl, ok,
}
use modbus_serial_security_p.Base.Json.{Json, text, JsonLaws, Base64Laws, is_plain}
use modbus_serial_security_p.Ecc.Suite.{EccSuite, from_hex, from_hex_json}
use modbus_serial_security_p.Ecc.Certificates.{
  DeviceIdentity, sign_json, verify_json, certificate_body, make_certificate, body_item,
  cert_public_key, verify_certificate, verify_signatures, verify_fields, verify_peer_chain,
  load_identity,
}
use modbus_serial_security_p.Ecc.Pki.{
  DemoKeys, init_demo_pki, client_identity, server_identity, client_text, server_text, root_demo,
  brand_demo, root_text, brand_text, demo_client_id, demo_server_id,
}

-- What the code relies on.
pub record EccLaws (suite : EccSuite) : Type 0 where
  pub json_laws : JsonLaws suite.json
  pub base64_laws : Base64Laws suite.base64
  pub loads_key :
      (key : Bytes)
      → suite.curve.from_encoded_point (suite.curve.public_key key)
        ≡ ok (suite.curve.public_key key)
  pub verifies :
      (random key message : Bytes)
      → suite.curve.verify
          (suite.curve.public_key key)
          (suite.curve.sign random key message)
          message
        ≡ ok tt
  pub equal_texts : (a : Bytes) → suite.equal (text a) (text a) ≡ true

module _ (suite : EccSuite) (laws : EccLaws suite) where
  open suite use {curve, json, base64}

  made_key :
      (random subject key issuer issuer_key cert_type : Bytes)
      → cert_public_key suite
          (make_certificate suite random subject (curve.public_key key) issuer issuer_key cert_type)
        ≡ ok (curve.public_key key)
  unfolding cert_public_key body_item make_certificate bytes_eq
  made_key random subject key issuer issuer_key cert_type =
      rw (laws.base64_laws.decode_encode (curve.public_key key), laws.loads_key key) refl

  made_signed :
      (random subject public issuer issuer_key cert_type : Bytes)
      → verify_certificate suite
          (curve.public_key issuer_key)
          (make_certificate suite random subject public issuer issuer_key cert_type)
        ≡ ok tt
  unfolding verify_certificate verify_json make_certificate sign_json bytes_eq
  made_signed random subject public issuer issuer_key cert_type =
      let message = json.dumps (certificate_body suite subject public issuer cert_type) in
      rw
        (
          laws.base64_laws.decode_encode (curve.sign random issuer_key message),
          laws.verifies random issuer_key message,
        )
        refl

  made_plain :
      (random subject public issuer issuer_key cert_type : Bytes)
      → json.loads
          (json.dumps (make_certificate suite random subject public issuer issuer_key cert_type))
        ≡ ok (make_certificate suite random subject public issuer issuer_key cert_type)
  unfolding make_certificate sign_json is_plain
  made_plain random subject public issuer issuer_key cert_type =
      laws.json_laws.loads_dumps
        (make_certificate suite random subject public issuer issuer_key cert_type) refl

  fields_accepted :
      (identity : DeviceIdentity)
      (random root_id root_key brand_id brand_key device_text device_key cert_type peer_id : Bytes)
      (root_type brand_type : Bytes)
      → identity.root_cert
        ≡ make_certificate suite random root_id
            (curve.public_key root_key)
            root_id
            root_key
            root_type
      → from_hex device_text ≡ ok peer_id
      → length peer_id ≡ 8
      → verify_fields suite identity
          (make_certificate suite random brand_id
            (curve.public_key brand_key)
            root_id
            root_key
            brand_type)
          (make_certificate suite random device_text
            (curve.public_key device_key)
            brand_id
            brand_key
            cert_type)
          cert_type
        ≡ ok peer_id
  unfolding verify_fields body_item make_certificate bytes_eq from_hex_json
  fields_accepted identity random root_id root_key brand_id brand_key device_text device_key
        cert_type peer_id root_type brand_type er eh size =
      rw
        (er, laws.equal_texts root_id, laws.equal_texts brand_id, bytes_eq_refl cert_type, eh, size)
        refl

  chain_accepted :
      (identity : DeviceIdentity)
      (random root_id root_key brand_id brand_key device_text device_key cert_type peer_id : Bytes)
      (root_type brand_type : Bytes)
      → identity.root_cert
        ≡ make_certificate suite random root_id
            (curve.public_key root_key)
            root_id
            root_key
            root_type
      → from_hex device_text ≡ ok peer_id
      → length peer_id ≡ 8
      → verify_peer_chain suite identity
          (json.dumps (
            make_certificate suite random brand_id
              (curve.public_key brand_key)
              root_id
              root_key
              brand_type))
          (json.dumps (
            make_certificate suite random device_text
              (curve.public_key device_key)
              brand_id
              brand_key
              cert_type))
          cert_type
        ≡ ok peer_id
  unfolding verify_peer_chain verify_signatures
  chain_accepted identity random root_id root_key brand_id brand_key device_text device_key
        cert_type peer_id root_type brand_type er eh size =
      rw
        (
          made_plain random brand_id (curve.public_key brand_key) root_id root_key brand_type,
          made_plain random device_text (curve.public_key device_key) brand_id brand_key cert_type,
          ap (cert_public_key suite) er
              ∙ made_key random root_id root_key root_id root_key root_type,
          made_signed random brand_id (curve.public_key brand_key) root_id root_key brand_type,
          made_key random brand_id brand_key root_id root_key brand_type,
          made_signed random device_text (curve.public_key device_key) brand_id brand_key cert_type,
        )
        (fields_accepted identity random root_id root_key brand_id brand_key device_text device_key
          cert_type peer_id root_type brand_type er eh size)

  loaded :
      (role key : Bytes) (device brand root : Json) (identity : DeviceIdentity)
      → load_identity suite role key device brand root ≡ ok identity
      → (identity.root_cert ≡ root)
        × (identity.brand_cert ≡ brand)
        × (identity.device_cert ≡ device)
  unfolding load_identity
  loaded role key device brand root identity h = ground arith

  abbrev root_of : DemoKeys → Json
  root_of keys =
      make_certificate suite keys.signing root_demo (curve.public_key keys.root_key) root_demo
        keys.root_key root_text

  abbrev brand_of : DemoKeys → Json
  brand_of keys =
      make_certificate suite keys.signing brand_demo (curve.public_key keys.brand_key) root_demo
        keys.root_key brand_text

  client_files :
      (keys : DemoKeys) (identity : DeviceIdentity)
      → client_identity suite (init_demo_pki suite keys) ≡ ok identity
      → load_identity suite client_text keys.client_key
          (make_certificate suite keys.signing demo_client_id
            (curve.public_key keys.client_key)
            brand_demo
            keys.brand_key
            client_text)
          (brand_of keys)
          (root_of keys)
        ≡ ok identity
  unfolding client_identity init_demo_pki
  client_files keys identity h = h

  server_files :
      (keys : DemoKeys) (identity : DeviceIdentity)
      → server_identity suite (init_demo_pki suite keys) ≡ ok identity
      → load_identity suite server_text keys.server_key
          (make_certificate suite keys.signing demo_server_id
            (curve.public_key keys.server_key)
            brand_demo
            keys.brand_key
            server_text)
          (brand_of keys)
          (root_of keys)
        ≡ ok identity
  unfolding server_identity init_demo_pki
  server_files keys identity h = h

  -- In the demo hierarchy, each of the two devices accepts the certificates of the other, with the
  -- identifier that these name.
  pub demo_chains_accepted :
      (keys : DemoKeys) (client_side server_side : DeviceIdentity)
      → client_identity suite (init_demo_pki suite keys) ≡ ok client_side
      → server_identity suite (init_demo_pki suite keys) ≡ ok server_side
      → (verify_peer_chain suite client_side
            (json.dumps server_side.brand_cert)
            (json.dumps server_side.device_cert)
            server_text
          ≡ ok (0x11 ∷ 0x12 ∷ 0x13 ∷ 0x14 ∷ 0x15 ∷ 0x16 ∷ 0x17 ∷ 0x18 ∷ []))
        × (verify_peer_chain suite server_side
              (json.dumps client_side.brand_cert)
              (json.dumps client_side.device_cert)
              client_text
            ≡ ok (1 ∷ 2 ∷ 3 ∷ 4 ∷ 5 ∷ 6 ∷ 7 ∷ 8 ∷ []))
  unfolding from_hex
  demo_chains_accepted keys client_side server_side hc hs =
      let (rc, bc, dc) =
        loaded client_text keys.client_key _ _ _ client_side (client_files keys client_side hc) in
      let (rs, bs, ds) =
        loaded server_text keys.server_key _ _ _ server_side (server_files keys server_side hs) in
      (
        rw (bs, ds)
            (chain_accepted client_side keys.signing root_demo keys.root_key brand_demo
              keys.brand_key demo_server_id keys.server_key server_text
              (0x11 ∷ 0x12 ∷ 0x13 ∷ 0x14 ∷ 0x15 ∷ 0x16 ∷ 0x17 ∷ 0x18 ∷ []) root_text brand_text rc
              refl refl),
        rw (bc, dc)
            (chain_accepted server_side keys.signing root_demo keys.root_key brand_demo
              keys.brand_key demo_client_id keys.client_key client_text
              (1 ∷ 2 ∷ 3 ∷ 4 ∷ 5 ∷ 6 ∷ 7 ∷ 8 ∷ []) root_text brand_text rs refl refl),
      )
