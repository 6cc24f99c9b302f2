-- ===== src/Ecc/Certificates.antt =====
-- Certificates of protocols/protocols-ECC/secure_modbus/crypto.py, and the demo hierarchy of pki.py.
pub mod Laws
use modbus_serial_security_p.Base.{
  ℕ, not, Bool, [], ◌∷◌, Bytes, length, ◌==◌, Result, ok, err, ◌>>=◌, ◌>>◌, raise_if, some,
  protocol_error, certificate_signature, certificate_issuer, certificate_kind, id_length,
  invalid_signature,
}
use modbus_serial_security_p.Base.Json.{
  ℤ, pos, Json, integer, text, object, Members, no_member, member, item_of, subscript, is_text,
  unb64,
}
use modbus_serial_security_p.Ecc.Suite.{EccSuite, from_hex_json}

abbrev pub key_body : Bytes
key_body = b'b' ∷ b'o' ∷ b'd' ∷ b'y' ∷ []

abbrev pub key_curve : Bytes
key_curve = b'c' ∷ b'u' ∷ b'r' ∷ b'v' ∷ b'e' ∷ []

-- "issuer_id"
abbrev pub key_issuer_id : Bytes
key_issuer_id = b'i' ∷ b's' ∷ b's' ∷ b'u' ∷ b'e' ∷ b'r' ∷ b'_' ∷ b'i' ∷ b'd' ∷ []

-- "public_key"
abbrev pub key_public_key : Bytes
key_public_key = b'p' ∷ b'u' ∷ b'b' ∷ b'l' ∷ b'i' ∷ b'c' ∷ b'_' ∷ b'k' ∷ b'e' ∷ b'y' ∷ []

abbrev pub key_signature : Bytes
key_signature = b's' ∷ b'i' ∷ b'g' ∷ b'n' ∷ b'a' ∷ b't' ∷ b'u' ∷ b'r' ∷ b'e' ∷ []

-- "subject_id"
abbrev pub key_subject_id : Bytes
key_subject_id = b's' ∷ b'u' ∷ b'b' ∷ b'j' ∷ b'e' ∷ b'c' ∷ b't' ∷ b'_' ∷ b'i' ∷ b'd' ∷ []

abbrev pub key_type : Bytes
key_type = b't' ∷ b'y' ∷ b'p' ∷ b'e' ∷ []

abbrev pub key_version : Bytes
key_version = b'v' ∷ b'e' ∷ b'r' ∷ b's' ∷ b'i' ∷ b'o' ∷ b'n' ∷ []

-- "secp256r1"
abbrev pub curve_text : Bytes
curve_text = b's' ∷ b'e' ∷ b'c' ∷ b'p' ∷ b'2' ∷ b'5' ∷ b'6' ∷ b'r' ∷ b'1' ∷ []

pub record DeviceIdentity : Type 0 where
  pub role : Bytes
  pub device_id : Bytes
  pub device_key : Bytes
  pub device_cert : Json
  pub brand_cert : Json
  pub root_cert : Json

-- `except InvalidSignature as exc: raise ProtocolError(…)`
abbrev pub rescue_signature {ℓ} : {A : Type ℓ} → Result A → Result A
rescue_signature (ok a) = ok a
rescue_signature (err invalid_signature) = err (protocol_error certificate_signature)
rescue_signature (err e) = err e

module _ (suite : EccSuite) where
  open suite use {curve, json, base64, equal}

  -- The text of the signature.
  unfoldable pub sign_json : Bytes → Bytes → Json → Json
  sign_json random key body = text (base64.b64encode (curve.sign random key (json.dumps body)))

  unfoldable pub verify_json : Bytes → Json → Json → Result (Unit {0})
  verify_json public_key body signature_b64 = do
    signature ← unb64 base64 signature_b64
    curve.verify public_key signature (json.dumps body)

  abbrev pub certificate_body : Bytes → Bytes → Bytes → Bytes → Json
  certificate_body subject_id subject_public_key issuer_id cert_type = object (
      member key_curve (text curve_text) (
        member key_issuer_id (text issuer_id) (
          member key_public_key (text (base64.b64encode subject_public_key)) (
            member key_subject_id (text subject_id) (
              member key_type (text cert_type) (member key_version (integer (pos 1)) no_member))))))

  unfoldable pub make_certificate : Bytes → Bytes → Bytes → Bytes → Bytes → Bytes → Json
  unfolding sign_json
  make_certificate random subject_id subject_public_key issuer_id issuer_key cert_type =
      let body = certificate_body subject_id subject_public_key issuer_id cert_type in
      object
        (member key_body body (member key_signature (sign_json random issuer_key body) no_member))

  abbrev pub cert_to_bytes : Json → Bytes
  cert_to_bytes cert = json.dumps cert

  abbrev pub cert_from_bytes : Bytes → Result Json
  cert_from_bytes raw = json.loads raw

  -- `cert["body"][key]`
  unfoldable pub body_item : Bytes → Json → Result Json
  body_item key cert = do body ← subscript key_body cert; subscript key body

  unfoldable pub cert_public_key : Json → Result Bytes
  unfolding body_item
  cert_public_key cert = do
    encoded ← body_item key_public_key cert
    point ← unb64 base64 encoded
    curve.from_encoded_point point

  -- `verify_json(public_key, cert["body"], cert["signature"])`
  unfoldable pub verify_certificate : Bytes → Json → Result (Unit {0})
  unfolding verify_json
  verify_certificate public_key cert = do
    body ← subscript key_body cert
    signature ← subscript key_signature cert
    verify_json public_key body signature

  -- The body of the `try` block.
  unfoldable pub verify_signatures : Bytes → Json → Json → Result (Unit {0})
  unfolding cert_public_key verify_certificate
  verify_signatures root_public brand device = do
    verify_certificate root_public brand
    brand_public ← cert_public_key brand
    verify_certificate brand_public device

  -- The checks behind the signatures.
  unfoldable pub verify_fields : DeviceIdentity → Json → Json → Bytes → Result Bytes
  unfolding body_item
  verify_fields identity brand device expected_type = do
    brand_issuer ← body_item key_issuer_id brand
    root_subject ← body_item key_subject_id identity.root_cert
    raise_if (not (equal brand_issuer root_subject)) (protocol_error certificate_issuer)
    device_issuer ← body_item key_issuer_id device
    brand_subject ← body_item key_subject_id brand
    raise_if (not (equal device_issuer brand_subject)) (protocol_error certificate_issuer)
    device_type ← body_item key_type device
    raise_if (not (is_text expected_type (some device_type))) (protocol_error certificate_kind)
    subject ← body_item key_subject_id device
    peer_id ← from_hex_json subject
    raise_if (not (length peer_id == 8)) (protocol_error id_length)
    ok peer_id

  unfoldable pub verify_peer_chain : DeviceIdentity → Bytes → Bytes → Bytes → Result Bytes
  unfolding cert_public_key verify_signatures verify_fields
  verify_peer_chain identity brand_data device_data expected_type = do
    brand ← cert_from_bytes brand_data
    device ← cert_from_bytes device_data
    root_public ← cert_public_key identity.root_cert
    rescue_signature (verify_signatures root_public brand device)
    verify_fields identity brand device expected_type

  -- What `load_identity` returns for the files of a role.
  unfoldable pub load_identity : Bytes → Bytes → Json → Json → Json → Result DeviceIdentity
  unfolding body_item
  load_identity role device_key device_cert brand_cert root_cert = do
    subject ← body_item key_subject_id device_cert
    device_id ← from_hex_json subject
    ok (record {
      role = role;
      device_id = device_id;
      device_key = device_key;
      device_cert = device_cert;
      brand_cert = brand_cert;
      root_cert = root_cert;
    })
