-- ===== src/Pq/Certificates/Laws.antt =====
-- Certificates of `make_device_material` under `verify_device_certificate`, and the checks of both.
use modbus_serial_security_p.Base.{
  ℕ, ◌^◌, ◌<◌, ◌≡◌, refl, arith, true, Bytes, length, ==_refl, bytes_eq, ok,
}
use modbus_serial_security_p.Base.Json.{
  pos, text, object, Members, JsonLaws, Base64Laws, is_plain, find_member, item_of, put_member,
  remove_member, is_text, contains,
}
use modbus_serial_security_p.Pq.Suite.{Suite, hex16}
use modbus_serial_security_p.Pq.Certificates.{
  aes_gcm_text, capability_of, key_brand_public, key_broadcast_public, DeviceMaterial, DeviceRole,
  client, server, Draws, Verified, role_text, key_signature, key_kind, key_role, brand_text,
  device_text, validate_secret_key, signed_json, pop_signature, read_certificate,
  verify_signed_json, brand_fields, device_fields, with_broadcast, make_device_material,
  device_keys, int_of, verify_device_certificate,
}

-- What the code relies on.
pub record SuiteLaws (suite : Suite) : Type 0 where
  pub json_laws : JsonLaws suite.json
  pub base64_laws : Base64Laws suite.base64
  pub int_of_hex : (n : ℕ) → n < 2 ^ 64 → suite.int_of_text (hex16 n) ≡ ok (pos n)
  pub root_verifies :
      (random message : Bytes)
      → suite.dsa.verify suite.anchor.root_public message
          (suite.dsa.sign random suite.anchor.root_secret message)
        ≡ ok true
  pub brand_verifies :
      (random message : Bytes)
      → suite.dsa.verify suite.anchor.brand_public message
          (suite.dsa.sign random suite.anchor.brand_secret message)
        ≡ ok true
  pub length_root_public : length suite.anchor.root_public ≡ suite.dsa.public_key_size
  pub length_root_secret : length suite.anchor.root_secret ≡ suite.dsa.secret_key_size
  pub length_brand_public : length suite.anchor.brand_public ≡ suite.dsa.public_key_size
  pub length_brand_secret : length suite.anchor.brand_secret ≡ suite.dsa.secret_key_size
  pub length_kem_public :
      (seed : Bytes) → length (suite.kem.generate_keypair seed).0 ≡ suite.kem.public_key_size
  pub length_kem_secret :
      (seed : Bytes) → length (suite.kem.generate_keypair seed).1 ≡ suite.kem.secret_key_size
  pub length_ciphertext :
      (random public : Bytes)
      → length (suite.kem.encrypt random public).0 ≡ suite.kem.ciphertext_size
  pub length_secret :
      (random public : Bytes)
      → length (suite.kem.encrypt random public).1 ≡ suite.kem.plaintext_size
  pub decrypt_encrypt :
      (seed random : Bytes)
      → suite.kem.decrypt
          (suite.kem.generate_keypair seed).1
          (suite.kem.encrypt random (suite.kem.generate_keypair seed).0).0
        ≡ ok (suite.kem.encrypt random (suite.kem.generate_keypair seed).0).1

module _ (suite : Suite) (laws : SuiteLaws suite) where
  open suite use {kem, dsa, json, base64, anchor}
  open laws use {json_laws, base64_laws}

  -- What a signer that has a key of the right length writes.
  signed : Bytes → Members → Bytes → Members
  signed random fields secret_key =
      put_member key_signature
        (text (base64.b64encode (dsa.sign random secret_key (json.dumps (object fields))))) fields

  signed_json_ok :
      (random : Bytes) (fields : Members) (secret_key : Bytes)
      → length secret_key ≡ dsa.secret_key_size
      → signed_json suite random fields secret_key
        ≡ ok (json.dumps (object (signed random fields secret_key)))
  unfolding signed_json validate_secret_key signed
  signed_json_ok random fields secret_key size = ground arith

  verify_signed :
      (random : Bytes) (fields : Members) (secret_key public_key kind : Bytes)
      → length public_key ≡ dsa.public_key_size
      → ((message : Bytes)
          → dsa.verify public_key message (dsa.sign random secret_key message) ≡ ok true)
      → is_plain (object (signed random fields secret_key)) ≡ true
      → item_of key_signature (signed random fields secret_key)
        ≡ ok (text (base64.b64encode (dsa.sign random secret_key (json.dumps (object fields)))))
      → remove_member key_signature (signed random fields secret_key) ≡ fields
      → is_text kind (find_member key_kind fields) ≡ true
      → verify_signed_json suite
          (json.dumps (object (signed random fields secret_key)))
          public_key
          kind
        ≡ ok fields
  unfolding verify_signed_json read_certificate pop_signature
  verify_signed random fields secret_key public_key kind size verifies plain signature rest
        is_kind =
      rw
        (
          size,
          ==_refl dsa.public_key_size,
          json_laws.loads_dumps (object (signed random fields secret_key)) plain,
          signature,
          base64_laws.decode_encode (dsa.sign random secret_key (json.dumps (object fields))),
          rest,
          is_kind,
          verifies (json.dumps (object fields)),
        )
        refl

  brand_verified :
      (random : Bytes)
      → verify_signed_json suite
          (json.dumps (object (signed random (brand_fields suite) anchor.root_secret)))
          anchor.root_public
          brand_text
        ≡ ok (brand_fields suite)
  unfolding signed is_plain bytes_eq
  brand_verified random =
      verify_signed random (brand_fields suite) anchor.root_secret anchor.root_public brand_text
        laws.length_root_public (laws.root_verifies random) refl refl refl refl

  -- The fields of the certificate of a device.
  pub issued : Draws → DeviceRole → ℕ → Members
  issued draws role device_id =
      (with_broadcast suite role draws.broadcast_pair
        (device_fields suite role device_id (kem.generate_keypair draws.key_pair).0)).1

  device_verified :
      (draws : Draws) (role : DeviceRole) (device_id : ℕ) (random : Bytes)
      → verify_signed_json suite
          (json.dumps (object (signed random (issued draws role device_id) anchor.brand_secret)))
          anchor.brand_public
          device_text
        ≡ ok (issued draws role device_id)
  unfolding signed is_plain issued bytes_eq
  device_verified draws client device_id random =
      verify_signed random (issued draws client device_id) anchor.brand_secret anchor.brand_public
        device_text laws.length_brand_public (laws.brand_verifies random) refl refl refl refl
  device_verified draws server device_id random =
      verify_signed random (issued draws server device_id) anchor.brand_secret anchor.brand_public
        device_text laws.length_brand_public (laws.brand_verifies random) refl refl refl refl

  material_eq_ok :
      (draws : Draws) (role : DeviceRole) (device_id : ℕ) (m : DeviceMaterial)
      → make_device_material suite draws role device_id ≡ ok m
      → (device_id < 2 ^ 64)
        × (m.kem_secret ≡ (kem.generate_keypair draws.key_pair).1)
        × (m.broadcast_kem_secret
            ≡ (with_broadcast suite role draws.broadcast_pair
                (device_fields suite role device_id (kem.generate_keypair draws.key_pair).0)).0)
        × (m.brand_cert
            ≡ json.dumps
                (object (signed draws.brand_signing (brand_fields suite) anchor.root_secret)))
        × (m.device_cert
            ≡ json.dumps (
                object
                  (signed draws.device_signing (issued draws role device_id) anchor.brand_secret)))
  unfolding make_device_material issued
  material_eq_ok draws role device_id m h = ground (
    arith,
    signed_json_ok draws.brand_signing (brand_fields suite) anchor.root_secret
        laws.length_root_secret,
    signed_json_ok draws.device_signing (issued draws role device_id) anchor.brand_secret
        laws.length_brand_secret,
  )

  -- What `verify_device_certificate` returns for the certificates of a device.
  abbrev pub verified_device : Draws → DeviceRole → ℕ → Verified
  verified_device draws role device_id = record {
    device_id = pos device_id;
    kem_public = (kem.generate_keypair draws.key_pair).0;
    fields = issued draws role device_id;
  }

  issued_keys :
      (draws : Draws) (role : DeviceRole) (device_id : ℕ)
      → device_id < 2 ^ 64
      → device_keys suite (issued draws role device_id)
        ≡ ok (pos device_id, (kem.generate_keypair draws.key_pair).0)
  unfolding device_keys int_of issued bytes_eq
  issued_keys draws client device_id small =
      rw
        (
          laws.int_of_hex device_id small,
          base64_laws.decode_encode (kem.generate_keypair draws.key_pair).0,
        )
        refl
  issued_keys draws server device_id small =
      rw
        (
          laws.int_of_hex device_id small,
          base64_laws.decode_encode (kem.generate_keypair draws.key_pair).0,
        )
        refl

  brand_key :
      item_of key_brand_public (brand_fields suite)
      ≡ ok (text (base64.b64encode anchor.brand_public))
  unfolding bytes_eq
  brand_key = refl

  issued_role :
      (draws : Draws) (role : DeviceRole) (device_id : ℕ)
      → is_text (role_text role) (find_member key_role (issued draws role device_id)) ≡ true
  unfolding bytes_eq issued
  issued_role draws client device_id = refl
  issued_role draws server device_id = refl

  issued_capable :
      (draws : Draws) (role : DeviceRole) (device_id : ℕ)
      → contains aes_gcm_text (capability_of suite (issued draws role device_id)) ≡ ok true
  unfolding bytes_eq issued
  issued_capable draws client device_id = refl
  issued_capable draws server device_id = refl

  certificates_verified :
      (draws : Draws) (role : DeviceRole) (device_id : ℕ) (m : DeviceMaterial)
      → device_id < 2 ^ 64
      → m.brand_cert
        ≡ json.dumps (object (signed draws.brand_signing (brand_fields suite) anchor.root_secret))
      → m.device_cert
        ≡ json.dumps
            (object (signed draws.device_signing (issued draws role device_id) anchor.brand_secret))
      → verify_device_certificate suite m.device_cert m.brand_cert role
        ≡ ok (verified_device draws role device_id)
  unfolding verify_device_certificate
  certificates_verified draws role device_id m small eb ed =
      rw
        (
          eb,
          ed,
          brand_verified draws.brand_signing,
          brand_key,
          base64_laws.decode_encode anchor.brand_public,
          device_verified draws role device_id draws.device_signing,
          issued_role draws role device_id,
          issued_keys draws role device_id small,
          issued_capable draws role device_id,
          laws.length_kem_public draws.key_pair,
          ==_refl kem.public_key_size,
        )
        refl

  -- The certificates that `make_device_material` makes for a device of either role are accepted by
  -- `verify_device_certificate` for that role, with the identifier, the public key and the fields of
  -- the device.
  pub verify-make_device_material :
      (draws : Draws) (role : DeviceRole) (device_id : ℕ) (m : DeviceMaterial)
      → make_device_material suite draws role device_id ≡ ok m
      → verify_device_certificate suite m.device_cert m.brand_cert role
        ≡ ok (verified_device draws role device_id)
  verify-make_device_material draws role device_id m h =
      let (small, es, eb, brand, device) = material_eq_ok draws role device_id m h in
      certificates_verified draws role device_id m small brand device

  -- The field for broadcasts of a server's certificate.
  pub issued_broadcast :
      (draws : Draws) (server_id : ℕ)
      → item_of key_broadcast_public (issued draws server server_id)
        ≡ ok (text (base64.b64encode (kem.generate_keypair draws.broadcast_pair).0))
  unfolding issued bytes_eq
  issued_broadcast draws server_id = refl

  -- The secrets of a server, and the identifier of any device.
  pub material_keys :
      (draws : Draws) (server_id : ℕ) (m : DeviceMaterial)
      → make_device_material suite draws server server_id ≡ ok m
      → (m.kem_secret ≡ (kem.generate_keypair draws.key_pair).1)
        × (m.broadcast_kem_secret ≡ (kem.generate_keypair draws.broadcast_pair).1)
  material_keys draws server_id m h =
      let (small, es, eb, brand, device) = material_eq_ok draws server server_id m h in (es, eb)

  pub material_small :
      (draws : Draws) (role : DeviceRole) (device_id : ℕ) (m : DeviceMaterial)
      → make_device_material suite draws role device_id ≡ ok m
      → device_id < 2 ^ 64
  material_small draws role device_id m h = (material_eq_ok draws role device_id m h).0
