-- ===== src/Ecc/Certificates/Laws.antt =====
-- What `verify_peer_chain` has checked.
use modbus_serial_security_p.Base.{
  ◌≡◌, arith, true, some, Bytes, length, Result, ok, Result-cases, inl, inr,
}
use modbus_serial_security_p.Base.Json.{Json, subscript, is_text, unb64}
use modbus_serial_security_p.Ecc.Suite.{EccSuite, from_hex_json}
use modbus_serial_security_p.Ecc.Certificates.{
  DeviceIdentity, key_body, key_issuer_id, key_signature, key_subject_id, key_type, verify_json,
  body_item, cert_public_key, verify_certificate, verify_signatures, verify_fields,
  verify_peer_chain, rescue_signature,
}

module _ (suite : EccSuite) where
  open suite use {curve, json, base64, equal}

  -- A certificate whose signature a key verifies.
  pub record IsSigned (public_key : Bytes) (cert : Json) : Type 0 where
    pub body : Json
    pub signature : Bytes
    pub signature_b64 : Json
    pub has_body : subscript key_body cert ≡ ok body
    pub has_signature : subscript key_signature cert ≡ ok signature_b64
    pub decoded : unb64 base64 signature_b64 ≡ ok signature
    pub verifies : curve.verify public_key signature (json.dumps body) ≡ ok tt

  verify_certificate_eq_ok :
      (public_key : Bytes) (cert : Json)
      → verify_certificate suite public_key cert ≡ ok tt
      → IsSigned public_key cert
  unfolding verify_certificate verify_json
  verify_certificate_eq_ok public_key cert h = elim (Result-cases (subscript key_body cert)) [
    | inr (e, r) ↦ absurd (ground arith)
    | inl (body, r) ↦ elim (Result-cases (subscript key_signature cert)) [
      | inr (e, s) ↦ absurd (ground arith)
      | inl (b64, s) ↦ elim (Result-cases (unb64 base64 b64)) [
        | inr (e, u) ↦ absurd (ground arith)
        | inl (signature, u) ↦ record {
          body = body;
          signature = signature;
          signature_b64 = b64;
          has_body = r;
          has_signature = s;
          decoded = u;
          verifies = ground arith;
        }
      ]
    ]
  ]

  -- What the checks of a chain have found.
  pub record IsChain (identity : DeviceIdentity) (brand device : Json)
      (expected_type peer_id : Bytes) : Type 0 where
    pub root_public : Bytes
    pub brand_public : Bytes
    pub issuer : Json
    pub root_subject : Json
    pub device_issuer : Json
    pub brand_subject : Json
    pub device_type : Json
    pub subject : Json
    pub root_key : cert_public_key suite identity.root_cert ≡ ok root_public
    pub brand_signed : IsSigned root_public brand
    pub brand_key : cert_public_key suite brand ≡ ok brand_public
    pub device_signed : IsSigned brand_public device
    pub names_root :
        (body_item suite key_issuer_id brand ≡ ok issuer)
        × (body_item suite key_subject_id identity.root_cert ≡ ok root_subject)
        × (equal issuer root_subject ≡ true)
    pub names_brand :
        (body_item suite key_issuer_id device ≡ ok device_issuer)
        × (body_item suite key_subject_id brand ≡ ok brand_subject)
        × (equal device_issuer brand_subject ≡ true)
    pub names_type :
        (body_item suite key_type device ≡ ok device_type)
        × (is_text expected_type (some device_type) ≡ true)
    pub names_device :
        (body_item suite key_subject_id device ≡ ok subject) × (from_hex_json subject ≡ ok peer_id)
    pub eight_bytes : length peer_id ≡ 8

  verify_signatures_eq_ok :
      (root_public : Bytes) (brand device : Json)
      → verify_signatures suite root_public brand device ≡ ok tt
      → (brand_public : Bytes) × IsSigned root_public brand
        × (cert_public_key suite brand ≡ ok brand_public)
        × IsSigned brand_public device
  unfolding verify_signatures
  verify_signatures_eq_ok root_public brand device h =
      elim (Result-cases (cert_public_key suite brand)) [
        | inr (e, r) ↦ absurd (ground arith)
        | inl (brand_public, r) ↦ (
          brand_public,
          verify_certificate_eq_ok root_public brand (ground arith),
          r,
          verify_certificate_eq_ok brand_public device (ground arith),
        )
      ]

  rescue_signature_eq_ok : (r : Result (Unit {0})) → rescue_signature r ≡ ok tt → r ≡ ok tt
  rescue_signature_eq_ok r h = ground arith

  verify_fields_eq_ok :
      (identity : DeviceIdentity) (brand device : Json) (expected_type peer_id : Bytes)
      → verify_fields suite identity brand device expected_type ≡ ok peer_id
      → (issuer root_subject device_issuer brand_subject device_type subject : Json) × ((body_item
              suite key_issuer_id brand
            ≡ ok issuer)
          × (body_item suite key_subject_id identity.root_cert ≡ ok root_subject)
          × (equal issuer root_subject ≡ true))
        × ((body_item suite key_issuer_id device ≡ ok device_issuer)
            × (body_item suite key_subject_id brand ≡ ok brand_subject)
            × (equal device_issuer brand_subject ≡ true))
        × ((body_item suite key_type device ≡ ok device_type)
            × (is_text expected_type (some device_type) ≡ true))
        × ((body_item suite key_subject_id device ≡ ok subject)
            × (from_hex_json subject ≡ ok peer_id))
        × (length peer_id ≡ 8)
  unfolding verify_fields
  verify_fields_eq_ok identity brand device expected_type peer_id h =
      elim (Result-cases (body_item suite key_issuer_id brand)) [
        | inr (e, r) ↦ absurd (ground arith)
        | inl (issuer, r1) ↦
            elim (Result-cases (body_item suite key_subject_id identity.root_cert)) [
              | inr (e, r) ↦ absurd (ground arith)
              | inl (root_subject, r2) ↦
                  elim (Result-cases (body_item suite key_issuer_id device)) [
                    | inr (e, r) ↦ absurd (ground arith)
                    | inl (device_issuer, r3) ↦
                        elim (Result-cases (body_item suite key_subject_id brand)) [
                          | inr (e, r) ↦ absurd (ground arith)
                          | inl (brand_subject, r4) ↦
                              elim (Result-cases (body_item suite key_type device)) [
                                | inr (e, r) ↦ absurd (ground arith)
                                | inl (device_type, r5) ↦
                                    elim (Result-cases (body_item suite key_subject_id device)) [
                                      | inr (e, r) ↦ absurd (ground arith)
                                      | inl (subject, r6) ↦ (
                                        issuer,
                                        root_subject,
                                        device_issuer,
                                        brand_subject,
                                        device_type,
                                        subject,
                                        (r1, r2, ground arith),
                                        (r3, r4, ground arith),
                                        (r5, ground arith),
                                        (r6, ground arith),
                                        ground arith,
                                      )
                                    ]
                              ]
                        ]
                  ]
            ]
      ]

  -- Where `verify_peer_chain` returns an identifier, it has read two certificates: the key of the
  -- root certificate verifies the signature of the first, whose key verifies that of the second, the
  -- issuers are the subjects of the certificates above, the second names the expected type, and the
  -- identifier is its subject and has eight bytes.
  pub verify_peer_chain_sound :
      (identity : DeviceIdentity) (brand_data device_data expected_type peer_id : Bytes)
      → verify_peer_chain suite identity brand_data device_data expected_type ≡ ok peer_id
      → (brand device : Json) × (json.loads brand_data ≡ ok brand)
        × (json.loads device_data ≡ ok device)
        × IsChain identity brand device expected_type peer_id
  unfolding verify_peer_chain
  verify_peer_chain_sound identity brand_data device_data expected_type peer_id h =
      elim (Result-cases (json.loads brand_data)) [
        | inr (e, r) ↦ absurd (ground arith)
        | inl (brand, rb) ↦ elim (Result-cases (json.loads device_data)) [
          | inr (e, r) ↦ absurd (ground arith)
          | inl (device, rd) ↦ elim (Result-cases (cert_public_key suite identity.root_cert)) [
            | inr (e, r) ↦ absurd (ground arith)
            | inl (root_public, rr) ↦
                let (bp, signed_brand, key, signed_device) =
                  verify_signatures_eq_ok root_public brand device
                    (rescue_signature_eq_ok _ (rescued brand device root_public rb rd rr)) in
                let (i, rs, di, bs, dt, s, n1, n2, n3, n4, n5) =
                  verify_fields_eq_ok identity brand device expected_type peer_id
                    (checked brand device root_public rb rd rr) in
                (
                  brand,
                  device,
                  rb,
                  rd,
                  record {
                    root_public = root_public;
                    brand_public = bp;
                    issuer = i;
                    root_subject = rs;
                    device_issuer = di;
                    brand_subject = bs;
                    device_type = dt;
                    subject = s;
                    root_key = rr;
                    brand_signed = signed_brand;
                    brand_key = key;
                    device_signed = signed_device;
                    names_root = n1;
                    names_brand = n2;
                    names_type = n3;
                    names_device = n4;
                    eight_bytes = n5;
                  },
                )
          ]
        ]
      ]
    where
      rescued :
          (brand device : Json) (root_public : Bytes)
          → json.loads brand_data ≡ ok brand
          → json.loads device_data ≡ ok device
          → cert_public_key suite identity.root_cert ≡ ok root_public
          → rescue_signature (verify_signatures suite root_public brand device) ≡ ok tt
      rescued brand device root_public rb rd rr = unfold verify_peer_chain in ground arith

      checked :
          (brand device : Json) (root_public : Bytes)
          → json.loads brand_data ≡ ok brand
          → json.loads device_data ≡ ok device
          → cert_public_key suite identity.root_cert ≡ ok root_public
          → verify_fields suite identity brand device expected_type ≡ ok peer_id
      checked brand device root_public rb rd rr = unfold verify_peer_chain in ground arith
