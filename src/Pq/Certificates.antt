-- ===== src/Pq/Certificates.antt =====
-- Certificates and key encapsulation of protocols/protocols-mpq/modbus_security_pq.py.
pub mod Laws
pub mod Escapes
pub mod Sound
use modbus_serial_security_p.Base.{
  ℕ, ◌^◌, not, Bool, true, false, ◌||◌, Option, none, some, [], ◌∷◌, Bytes, length, leb, ◌==◌,
  bytes_eq, if◌then◌else◌, Result, ok, err, ◌>>=◌, ◌>>◌, raise_if, value_error, key_error,
  type_error, attribute_error, protocol_error, key_length, certificate_encoding, certificate_kind,
  certificate_signature, certificate_role, certificate_fields, certificate_mode, ciphertext_length,
  decapsulation_failed,
}
use modbus_serial_security_p.Base.Json.{
  ℤ, Json, null, boolean, integer, real, text, array, object, no_value, value, Members, no_member,
  member, find_member, remove_member, put_member, item_of, is_text, contains, unb64,
}
use modbus_serial_security_p.Pq.Suite.{Suite, rescue_values, rescue_all, hex16}

abbrev pub key_algorithm : Bytes
key_algorithm = b'a' ∷ b'l' ∷ b'g' ∷ b'o' ∷ b'r' ∷ b'i' ∷ b't' ∷ b'h' ∷ b'm' ∷ []

-- "brand_sign_public_key"
abbrev pub key_brand_public : Bytes
key_brand_public =
    b'b' ∷ b'r' ∷ b'a' ∷ b'n' ∷ b'd' ∷ b'_' ∷ b's' ∷ b'i' ∷ b'g' ∷ b'n' ∷ b'_' ∷ b'p' ∷ b'u' ∷ b'b'
    ∷ b'l' ∷ b'i' ∷ b'c' ∷ b'_' ∷ b'k' ∷ b'e' ∷ b'y' ∷ []

-- "broadcast_ml_kem_public_key"
abbrev pub key_broadcast_public : Bytes
key_broadcast_public =
    b'b' ∷ b'r' ∷ b'o' ∷ b'a' ∷ b'd' ∷ b'c' ∷ b'a' ∷ b's' ∷ b't' ∷ b'_' ∷ b'm' ∷ b'l' ∷ b'_' ∷ b'k'
    ∷ b'e' ∷ b'm' ∷ b'_' ∷ b'p' ∷ b'u' ∷ b'b' ∷ b'l' ∷ b'i' ∷ b'c' ∷ b'_' ∷ b'k' ∷ b'e' ∷ b'y' ∷ []

-- "device_id"
abbrev pub key_device_id : Bytes
key_device_id = b'd' ∷ b'e' ∷ b'v' ∷ b'i' ∷ b'c' ∷ b'e' ∷ b'_' ∷ b'i' ∷ b'd' ∷ []

-- "encryption_capability"
abbrev pub key_capability : Bytes
key_capability =
    b'e' ∷ b'n' ∷ b'c' ∷ b'r' ∷ b'y' ∷ b'p' ∷ b't' ∷ b'i' ∷ b'o' ∷ b'n' ∷ b'_' ∷ b'c' ∷ b'a' ∷ b'p'
    ∷ b'a' ∷ b'b' ∷ b'i' ∷ b'l' ∷ b'i' ∷ b't' ∷ b'y' ∷ []

abbrev pub key_issuer : Bytes
key_issuer = b'i' ∷ b's' ∷ b's' ∷ b'u' ∷ b'e' ∷ b'r' ∷ []

abbrev pub key_kind : Bytes
key_kind = b'k' ∷ b'i' ∷ b'n' ∷ b'd' ∷ []

-- "ml_kem_public_key"
abbrev pub key_kem_public : Bytes
key_kem_public =
    b'm' ∷ b'l' ∷ b'_' ∷ b'k' ∷ b'e' ∷ b'm' ∷ b'_' ∷ b'p' ∷ b'u' ∷ b'b' ∷ b'l' ∷ b'i' ∷ b'c' ∷ b'_'
    ∷ b'k' ∷ b'e' ∷ b'y' ∷ []

abbrev pub key_role : Bytes
key_role = b'r' ∷ b'o' ∷ b'l' ∷ b'e' ∷ []

-- "signature"
abbrev pub key_signature : Bytes
key_signature = b's' ∷ b'i' ∷ b'g' ∷ b'n' ∷ b'a' ∷ b't' ∷ b'u' ∷ b'r' ∷ b'e' ∷ []

-- "subject"
abbrev pub key_subject : Bytes
key_subject = b's' ∷ b'u' ∷ b'b' ∷ b'j' ∷ b'e' ∷ b'c' ∷ b't' ∷ []

abbrev pub brand_text : Bytes
brand_text = b'b' ∷ b'r' ∷ b'a' ∷ b'n' ∷ b'd' ∷ []

abbrev pub device_text : Bytes
device_text = b'd' ∷ b'e' ∷ b'v' ∷ b'i' ∷ b'c' ∷ b'e' ∷ []

abbrev pub client_text : Bytes
client_text = b'c' ∷ b'l' ∷ b'i' ∷ b'e' ∷ b'n' ∷ b't' ∷ []

abbrev pub server_text : Bytes
server_text = b's' ∷ b'e' ∷ b'r' ∷ b'v' ∷ b'e' ∷ b'r' ∷ []

-- MODE_NAMES[MODE_AES_GCM]
abbrev pub aes_gcm_text : Bytes
aes_gcm_text = b'a' ∷ b'e' ∷ b's' ∷ b'_' ∷ b'g' ∷ b'c' ∷ b'm' ∷ []

-- "ML-DSA-44"
abbrev pub ml_dsa_text : Bytes
ml_dsa_text = b'M' ∷ b'L' ∷ b'-' ∷ b'D' ∷ b'S' ∷ b'A' ∷ b'-' ∷ b'4' ∷ b'4' ∷ []

-- "Demo Modbus 6.4 Brand"
abbrev pub brand_subject : Bytes
brand_subject =
    b'D' ∷ b'e' ∷ b'm' ∷ b'o' ∷ b' ' ∷ b'M' ∷ b'o' ∷ b'd' ∷ b'b' ∷ b'u' ∷ b's' ∷ b' ' ∷ b'6' ∷ b'.'
    ∷ b'4' ∷ b' ' ∷ b'B' ∷ b'r' ∷ b'a' ∷ b'n' ∷ b'd' ∷ []

-- "Demo ROT"
abbrev pub root_subject : Bytes
root_subject = b'D' ∷ b'e' ∷ b'm' ∷ b'o' ∷ b' ' ∷ b'R' ∷ b'O' ∷ b'T' ∷ []

pub data DeviceRole : Type 0 where
  client server : DeviceRole

abbrev pub role_text : DeviceRole → Bytes
role_text client = client_text
role_text server = server_text

pub record DeviceMaterial : Type 0 where
  pub role : DeviceRole
  pub device_id : ℕ
  pub kem_secret : Bytes
  pub kem_public : Bytes
  pub brand_cert : Bytes
  pub device_cert : Bytes
  pub broadcast_kem_secret : Bytes

-- What the random calls of `make_device_material` draw.
pub record Draws : Type 0 where
  pub brand_signing : Bytes
  pub key_pair : Bytes
  pub broadcast_pair : Bytes
  pub device_signing : Bytes

-- The identifier, the public key and the fields of a verified device certificate.
pub record Verified : Type 0 where
  pub device_id : ℤ
  pub kem_public : Bytes
  pub fields : Members

module _ (suite : Suite) where
  open suite use {kem, dsa, json, base64, int_of_text, anchor}

  unfoldable pub validate_secret_key : Bytes → Result (Unit {0})
  validate_secret_key secret_key =
      raise_if (not (length secret_key == dsa.secret_key_size)) value_error

  -- `_signed_json`, over the fields of a dict.
  unfoldable pub signed_json : Bytes → Members → Bytes → Result Bytes
  signed_json random fields secret_key = do
    validate_secret_key secret_key
    let signature = dsa.sign random secret_key (json.dumps (object fields))
    ok (json.dumps (object (put_member key_signature (text (base64.b64encode signature)) fields)))

  -- `cert.pop("signature")`: a list wants a number, and the other values have no `pop`.
  unfoldable pub pop_signature : Json → Result (Json × Members)
  pop_signature (object members) = do
    signature ← item_of key_signature members
    ok (signature, remove_member key_signature members)
  pop_signature (array values) = err type_error
  pop_signature v = err attribute_error

  unfoldable pub read_certificate : Bytes → Result (Members × Bytes)
  read_certificate raw = do
    parsed ← json.loads raw
    (signature_b64, cert) ← pop_signature parsed
    signature ← unb64 base64 signature_b64
    ok (cert, signature)

  -- `_verify_signed_json`
  unfoldable pub verify_signed_json : Bytes → Bytes → Bytes → Result Members
  verify_signed_json raw public_key expected_kind = do
    raise_if (not (length public_key == dsa.public_key_size)) (protocol_error key_length)
    (cert, signature) ← rescue_values certificate_encoding (read_certificate raw)
    raise_if (not (is_text expected_kind (find_member key_kind cert)))
        (protocol_error certificate_kind)
    verified ←
        rescue_all certificate_signature
          (dsa.verify public_key (json.dumps (object cert)) signature)
    raise_if (not verified) (protocol_error certificate_signature)
    ok cert

  unfoldable pub encaps : Bytes → Bytes → Result (Bytes × Bytes)
  encaps random public_key = do
    raise_if (not (length public_key == kem.public_key_size)) (protocol_error key_length)
    ok (kem.encrypt random public_key)

  unfoldable pub decaps : Bytes → Bytes → Result Bytes
  decaps secret_key ciphertext = do
    raise_if (not (length secret_key == kem.secret_key_size)) (protocol_error key_length)
    raise_if (not (length ciphertext == kem.ciphertext_size)) (protocol_error ciphertext_length)
    rescue_all decapsulation_failed (kem.decrypt secret_key ciphertext)

  -- The fields of the brand certificate.
  abbrev pub brand_fields : Members
  brand_fields = member key_algorithm (text ml_dsa_text) (
      member key_brand_public (text (base64.b64encode anchor.brand_public)) (
        member key_issuer (text root_subject)
          (member key_kind (text brand_text) (member key_subject (text brand_subject) no_member))))

  -- The fields of a device certificate, before the one for broadcasts.
  abbrev pub device_fields : DeviceRole → ℕ → Bytes → Members
  device_fields role device_id kem_public = member key_algorithm (text ml_dsa_text) (
      member key_device_id (text (hex16 device_id)) (
        member key_capability (array (value (text aes_gcm_text) no_value)) (
          member key_issuer (text brand_subject) (
            member key_kind (text device_text) (
              member key_kem_public (text (base64.b64encode kem_public))
                (member key_role (text (role_text role)) no_member))))))

  -- `if role == "server": …`: the broadcast secret and the fields.
  abbrev pub with_broadcast : DeviceRole → Bytes → Members → Bytes × Members
  with_broadcast client random fields = ([], fields)
  with_broadcast server random fields = (
    (kem.generate_keypair random).1,
    put_member key_broadcast_public (text (base64.b64encode (kem.generate_keypair random).0))
        fields,
  )

  unfoldable pub make_device_material : Draws → DeviceRole → ℕ → Result DeviceMaterial
  make_device_material draws role device_id = do
    raise_if (not (leb device_id 0xFFFFFFFFFFFFFFFF)) value_error
    brand_cert ← signed_json draws.brand_signing brand_fields anchor.root_secret
    let pair = kem.generate_keypair draws.key_pair
    let broadcast = with_broadcast role draws.broadcast_pair (device_fields role device_id pair.0)
    device_cert ← signed_json draws.device_signing broadcast.1 anchor.brand_secret
    ok (record {
      role = role;
      device_id = device_id;
      kem_secret = pair.1;
      kem_public = pair.0;
      brand_cert = brand_cert;
      device_cert = device_cert;
      broadcast_kem_secret = broadcast.0;
    })

  -- `int(str(v), 0)`: what `str` makes of the other values is no integer literal.
  unfoldable pub int_of : Json → Result ℤ
  int_of (text t) = int_of_text t
  int_of (integer z) = ok z
  int_of v = err value_error

  -- The identifier and the public key of a device certificate.
  unfoldable pub device_keys : Members → Result (ℤ × Bytes)
  device_keys device = do
    id_value ← item_of key_device_id device
    device_id ← int_of id_value
    public_value ← item_of key_kem_public device
    kem_public ← unb64 base64 public_value
    ok (device_id, kem_public)

  -- `device.get("encryption_capability", [])`
  abbrev pub capability_of : Members → Json
  capability_of device = elim (find_member key_capability device) [
    | none ↦ array no_value
    | some v ↦ v
  ]

  unfoldable pub verify_device_certificate : Bytes → Bytes → DeviceRole → Result Verified
  verify_device_certificate device_cert brand_cert expected_role = do
    brand ← verify_signed_json brand_cert anchor.root_public brand_text
    public_value ← item_of key_brand_public brand
    brand_public ← unb64 base64 public_value
    device ← verify_signed_json device_cert brand_public device_text
    raise_if (not (is_text (role_text expected_role) (find_member key_role device)))
        (protocol_error certificate_role)
    (device_id, kem_public) ← rescue_values certificate_fields (device_keys device)
    capable ← contains aes_gcm_text (capability_of device)
    raise_if (not capable) (protocol_error certificate_mode)
    raise_if (not (length kem_public == kem.public_key_size)) (protocol_error key_length)
    ok (record { device_id = device_id; kem_public = kem_public; fields = device })
