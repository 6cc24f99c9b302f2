-- ===== src/Pq/Certificates/Sound.antt =====
-- What `verify_device_certificate` of protocols/protocols-mpq/modbus_security_pq.py has checked.
use modbus_serial_security_p.Base.{
  ◌≡◌, refl, sym, ap, ◌∙◌, arith, true, Bytes, length, ok, Result-cases, inl, inr,
}
use modbus_serial_security_p.Base.Json.{
  ℤ, Json, null, boolean, integer, real, text, array, object, Members, find_member, item_of,
  remove_member, is_text, unb64, contains,
}
use modbus_serial_security_p.Pq.Suite.{Suite}
use modbus_serial_security_p.Pq.Certificates.{
  aes_gcm_text, capability_of, key_brand_public, key_device_id, key_kem_public, DeviceRole,
  Verified, role_text, key_signature, key_kind, key_role, brand_text, device_text, pop_signature,
  read_certificate, verify_signed_json, device_keys, int_of, verify_device_certificate,
}

module _ (suite : Suite) where
  open suite use {kem, dsa, json, base64, anchor}

  -- The bytes of a certificate are the JSON of an object of the expected kind; without the member
  -- for the signature it has the given fields, and the key verifies the signature over their JSON.
  pub record IsSigned (raw public_key kind : Bytes) (fields : Members) : Type 0 where
    pub members : Members
    pub signature_text : Json
    pub signature : Bytes
    pub parsed : json.loads raw ≡ ok (object members)
    pub has_signature : item_of key_signature members ≡ ok signature_text
    pub decoded : unb64 base64 signature_text ≡ ok signature
    pub others : fields ≡ remove_member key_signature members
    pub of_kind : is_text kind (find_member key_kind fields) ≡ true
    pub key_size : length public_key ≡ dsa.public_key_size
    pub verified : dsa.verify public_key (json.dumps (object fields)) signature ≡ ok true

  pop_signature_eq_ok :
      (v signature_text : Json) (fields : Members)
      → pop_signature suite v ≡ ok (signature_text, fields)
      → (members : Members) × (v ≡ object members)
        × (item_of key_signature members ≡ ok signature_text)
        × (fields ≡ remove_member key_signature members)
  unfolding pop_signature
  pop_signature_eq_ok null signature_text fields h = absurd (ground arith)
  pop_signature_eq_ok (boolean b) signature_text fields h = absurd (ground arith)
  pop_signature_eq_ok (integer z) signature_text fields h = absurd (ground arith)
  pop_signature_eq_ok (real r) signature_text fields h = absurd (ground arith)
  pop_signature_eq_ok (text t) signature_text fields h = absurd (ground arith)
  pop_signature_eq_ok (array vs) signature_text fields h = absurd (ground arith)
  pop_signature_eq_ok (object members) signature_text fields h =
      elim (Result-cases (item_of key_signature members)) [
        | inr (e, r) ↦ absurd (ground arith)
        | inl (t, r) ↦ (members, refl, ground arith, ground arith)
      ]

  read_certificate_eq_ok :
      (raw signature : Bytes) (fields : Members)
      → read_certificate suite raw ≡ ok (fields, signature)
      → (v signature_text : Json) × (json.loads raw ≡ ok v)
        × (pop_signature suite v ≡ ok (signature_text, fields))
        × (unb64 base64 signature_text ≡ ok signature)
  unfolding read_certificate
  read_certificate_eq_ok raw signature fields h = elim (Result-cases (json.loads raw)) [
    | inr (e, r) ↦ absurd (ground arith)
    | inl (v, r) ↦ elim (Result-cases (pop_signature suite v)) [
      | inr (e, q) ↦ absurd (ground arith)
      | inl ((t, cert), q) ↦ elim (Result-cases (unb64 base64 t)) [
        | inr (e, u) ↦ absurd (ground arith)
        | inl (bs, u) ↦
            let same : cert ≡ fields = ground arith in
            let same' : bs ≡ signature = ground arith in
            (v, t, r, q ∙ ap (λ x. ok (t, x)) same, u ∙ ap ok same')
      ]
    ]
  ]

  IsSigned-read_certificate :
      (raw public_key kind signature : Bytes) (fields : Members)
      → read_certificate suite raw ≡ ok (fields, signature)
      → is_text kind (find_member key_kind fields) ≡ true
      → length public_key ≡ dsa.public_key_size
      → dsa.verify public_key (json.dumps (object fields)) signature ≡ ok true
      → IsSigned raw public_key kind fields
  IsSigned-read_certificate raw public_key kind signature fields r of_kind key_size verified =
      let (v, t, loaded, popped, decoded) = read_certificate_eq_ok raw signature fields r in
      let (members, shape, item, rest) = pop_signature_eq_ok v t fields popped in
      record {
        members = members;
        signature_text = t;
        signature = signature;
        parsed = loaded ∙ ap ok shape;
        has_signature = item;
        decoded = decoded;
        others = rest;
        of_kind = of_kind;
        key_size = key_size;
        verified = verified;
      }

  verify_signed_json_eq_ok :
      (raw public_key kind : Bytes) (fields : Members)
      → verify_signed_json suite raw public_key kind ≡ ok fields
      → IsSigned raw public_key kind fields
  unfolding verify_signed_json
  verify_signed_json_eq_ok raw public_key kind fields h =
      elim (Result-cases (read_certificate suite raw)) [
        | inr (e, r) ↦ absurd (ground arith)
        | inl ((cert, signature), r) ↦
            let same : cert ≡ fields = ground arith in
            IsSigned-read_certificate raw public_key kind signature fields
              (r ∙ ap (λ (x : Members). ok (x, signature)) same) (ground arith) (ground arith)
              (ground arith)
      ]

  device_keys_eq_ok :
      (fields : Members) (device_id : ℤ) (kem_public : Bytes)
      → device_keys suite fields ≡ ok (device_id, kem_public)
      → (id_value public_value : Json) × (item_of key_device_id fields ≡ ok id_value)
        × (int_of suite id_value ≡ ok device_id)
        × (item_of key_kem_public fields ≡ ok public_value)
        × (unb64 base64 public_value ≡ ok kem_public)
  unfolding device_keys
  device_keys_eq_ok fields device_id kem_public h =
      elim (Result-cases (item_of key_device_id fields)) [
        | inr (e, r) ↦ absurd (ground arith)
        | inl (id_value, r) ↦ elim (Result-cases (int_of suite id_value)) [
          | inr (e, i) ↦ absurd (ground arith)
          | inl (z, i) ↦ elim (Result-cases (item_of key_kem_public fields)) [
            | inr (e, q) ↦ absurd (ground arith)
            | inl (public_value, q) ↦ (id_value, public_value, r, ground arith, q, ground arith)
          ]
        ]
      ]

  -- What has been checked where a certificate is accepted for a role: both certificates, the role,
  -- and where identifier and public key come from.
  pub record IsCertified (device_cert brand_cert : Bytes) (role : DeviceRole) (v : Verified)
      : Type 0 where
    pub brand : Members
    pub brand_value : Json
    pub brand_public : Bytes
    pub id_value : Json
    pub public_value : Json
    pub brand_signed : IsSigned brand_cert anchor.root_public brand_text brand
    pub has_brand_key : item_of key_brand_public brand ≡ ok brand_value
    pub brand_key : unb64 base64 brand_value ≡ ok brand_public
    pub device_signed : IsSigned device_cert brand_public device_text v.fields
    pub has_role : is_text (role_text role) (find_member key_role v.fields) ≡ true
    pub has_id : item_of key_device_id v.fields ≡ ok id_value
    pub names_id : int_of suite id_value ≡ ok v.device_id
    pub has_public : item_of key_kem_public v.fields ≡ ok public_value
    pub holds_public : unb64 base64 public_value ≡ ok v.kem_public
    pub capable : contains aes_gcm_text (capability_of suite v.fields) ≡ ok true
    pub public_size : length v.kem_public ≡ kem.public_key_size

-- Where `verify_device_certificate` accepts a certificate for a role, both byte strings are JSON
-- objects of the kinds for a brand and for a device, the root key verifies the signature that the
-- first holds over its other members, the key that the first holds verifies the signature that the
-- second holds over its other members, and these are the fields returned; they name the role and
-- AES-GCM, and the identifier and the public key returned are those they hold, the key with the
-- length of an ML-KEM-768 key.
pub verify_device_certificate_sound :
    (suite : Suite) (device_cert brand_cert : Bytes) (role : DeviceRole) (v : Verified)
    → verify_device_certificate suite device_cert brand_cert role ≡ ok v
    → IsCertified suite device_cert brand_cert role v
unfolding verify_device_certificate
verify_device_certificate_sound suite device_cert brand_cert role v h =
    elim (Result-cases (verify_signed_json suite brand_cert suite.anchor.root_public brand_text)) [
      | inr (e, r) ↦ absurd (ground arith)
      | inl (brand, r) ↦ elim (Result-cases (item_of key_brand_public brand)) [
        | inr (e, i) ↦ absurd (ground arith)
        | inl (brand_value, i) ↦ elim (Result-cases (unb64 suite.base64 brand_value)) [
          | inr (e, u) ↦ absurd (ground arith)
          | inl (brand_public, u) ↦
              elim (Result-cases (verify_signed_json suite device_cert brand_public device_text)) [
                | inr (e, d) ↦ absurd (ground arith)
                | inl (device, d) ↦ elim (Result-cases (device_keys suite device)) [
                  | inr (e, k) ↦ absurd (ground arith)
                  | inl ((z, key), k) ↦
                      elim (Result-cases (contains aes_gcm_text (capability_of suite device))) [
                        | inr (e, c) ↦ absurd (ground arith)
                        | inl (b, c) ↦
                            let same : device ≡ v.fields = ground arith in
                            let same_id : z ≡ v.device_id = ground arith in
                            let same_key : key ≡ v.kem_public = ground arith in
                            let (id_value, public_value, has_id, names, has_public, holds) =
                              device_keys_eq_ok suite v.fields v.device_id v.kem_public (
                                ap (device_keys suite) (sym same)
                                ∙ k
                                ∙ (λ j. ok (same_id j, same_key j))) in
                            record {
                              brand = brand;
                              brand_value = brand_value;
                              brand_public = brand_public;
                              id_value = id_value;
                              public_value = public_value;
                              brand_signed =
                                  verify_signed_json_eq_ok suite brand_cert suite.anchor.root_public
                                    brand_text brand r;
                              has_brand_key = i;
                              brand_key = u;
                              device_signed =
                                  verify_signed_json_eq_ok suite device_cert brand_public
                                    device_text v.fields (d ∙ ap ok same);
                              has_role = ground arith;
                              has_id = has_id;
                              names_id = names;
                              has_public = has_public;
                              holds_public = holds;
                              capable =
                                  ap (λ x. contains aes_gcm_text (capability_of suite x)) (sym same)
                                  ∙ c
                                  ∙ ap ok (ground arith);
                              public_size = ground arith;
                            }
                      ]
                ]
              ]
        ]
      ]
    ]
