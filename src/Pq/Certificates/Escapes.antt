-- ===== src/Pq/Certificates/Escapes.antt =====
-- The exceptions of `_verify_signed_json`.
use modbus_serial_security_p.Base.{
  ◌≡◌, ◌≢◌, ◌⊎◌, inl, inr, refl, sym, arith, Bool, true, false, not, Bytes, length, Result, ok, err,
  Error, Result-cases, value_error, attribute_error, key_error, type_error, key_length,
  certificate_encoding, certificate_kind, certificate_signature, Bool-cases, ◌==◌,
  guard-IsProtocolSafe, ◌>>=◌, ◌>>◌, raise_if, protocol_error, IsProtocolSafe, returns, raises,
  Reason,
}
use modbus_serial_security_p.Base.Json.{
  Json, null, boolean, integer, real, text, array, object, Members, JsonCodec, Base64, find_member,
  item_of, unb64, remove_member, is_text,
}
use modbus_serial_security_p.Pq.Suite.{Suite, rescue_values, rescue_all}
use modbus_serial_security_p.Pq.Certificates.{
  key_signature, key_kind, pop_signature, read_certificate, verify_signed_json,
}

-- `json.loads` and `b64decode` raise subclasses of ValueError only.
pub record RaisesValueError (json : JsonCodec) (base64 : Base64) : Type 0 where
  pub loads_raises : (raw : Bytes) (e : Error) → json.loads raw ≡ err e → e ≡ value_error
  pub decode_raises : (t : Bytes) (e : Error) → base64.b64decode t ≡ err e → e ≡ value_error

-- JSON that is neither a dict nor a list, and a dict whose signature is no text.
abbrev pub IsOddCertificate : Json → Type 0
IsOddCertificate (object members) =
    (v : Json) × (item_of key_signature members ≡ ok v) × ((t : Bytes) → v ≢ text t)
IsOddCertificate (array values) = (◌≡◌ {A = Bool} true false)
IsOddCertificate v = Unit

abbrev Safe {ℓ} : {A : Type ℓ} → Json → Result A → Type ℓ
Safe parsed r = IsProtocolSafe r ⊎ (IsOddCertificate parsed × (r ≡ err attribute_error))

-- The part behind the parser: what `except (KeyError, TypeError, ValueError)` leaves.
signature_read :
    (base64 : Base64) (v : Json)
    → ((t : Bytes) (e : Error) → base64.b64decode t ≡ err e → e ≡ value_error)
    → ((s : Bytes) × (unb64 base64 v ≡ ok s))
      ⊎ ((unb64 base64 v ≡ err value_error)
          ⊎ ((unb64 base64 v ≡ err attribute_error) × ((t : Bytes) → v ≢ text t)))
signature_read base64 (text t) h = elim (Result-cases (base64.b64decode t)) [
  | inl (s, e) ↦ inl (s, e)
  | inr (x, e) ↦ inr (inl (rw (sym (h t x e)) e))
]
signature_read base64 null h = inr (inr (refl, λ t e. cc))
signature_read base64 (boolean b) h = inr (inr (refl, λ t e. cc))
signature_read base64 (integer z) h = inr (inr (refl, λ t e. cc))
signature_read base64 (real r) h = inr (inr (refl, λ t e. cc))
signature_read base64 (array values) h = inr (inr (refl, λ t e. cc))
signature_read base64 (object members) h = inr (inr (refl, λ t e. cc))

item_of_err :
    (key : Bytes) (members : Members) (x : Error) → item_of key members ≡ err x → x ≡ key_error
item_of_err key members x h = ground arith

-- The ways in which a certificate is read.
data Reading (suite : Suite) (raw : Bytes) : Type 0 where
  reads : (c : Members × Bytes) → read_certificate suite raw ≡ ok c → Reading suite raw
  refused :
      (e : Error)
      → read_certificate suite raw ≡ err e
      → ((r : Reason) → rescue_values {A = Members × Bytes} r (err e) ≡ err (protocol_error r))
      → Reading suite raw
  odd :
      (parsed : Json)
      → suite.json.loads raw ≡ ok parsed
      → IsOddCertificate parsed
      → read_certificate suite raw ≡ err attribute_error
      → Reading suite raw

Reading-object :
    (suite : Suite) (raw : Bytes) (members : Members)
    → RaisesValueError suite.json suite.base64
    → suite.json.loads raw ≡ ok (object members)
    → Reading suite raw
unfolding read_certificate pop_signature
Reading-object suite raw members h e = elim (Result-cases (item_of key_signature members)) [
  | inr (x, i) ↦
      refused key_error (rw (e, i, item_of_err key_signature members x i) refl) (λ r. refl)
  | inl (v, i) ↦ elim (signature_read suite.base64 v h.decode_raises) [
    | inl (s, u) ↦ reads (remove_member key_signature members, s) (rw (e, i, u) refl)
    | inr other ↦ elim other [
      | inl u ↦ refused value_error (rw (e, i, u) refl) (λ r. refl)
      | inr (u, no_text) ↦ odd (object members) e (v, i, no_text) (rw (e, i, u) refl)
    ]
  ]
]

reading :
    (suite : Suite) (raw : Bytes) → RaisesValueError suite.json suite.base64 → Reading suite raw
unfolding read_certificate pop_signature
reading suite raw h = elim (Result-cases (suite.json.loads raw)) [
  | inr (x, e) ↦ refused value_error (rw (e, h.loads_raises raw x e) refl) (λ r. refl)
  | inl (null, e) ↦ odd null e tt (rw e refl)
  | inl (boolean b, e) ↦ odd (boolean b) e tt (rw e refl)
  | inl (integer z, e) ↦ odd (integer z) e tt (rw e refl)
  | inl (real r, e) ↦ odd (real r) e tt (rw e refl)
  | inl (text t, e) ↦ odd (text t) e tt (rw e refl)
  | inl (array values, e) ↦ refused type_error (rw e refl) (λ r. refl)
  | inl (object members, e) ↦ Reading-object suite raw members h e
]

-- Where `loads` and `b64decode` raise no more than ValueError, `_verify_signed_json` returns or
-- raises a `ProtocolError` on every input, unless the data are JSON that is neither a dict nor a
-- list, or a dict whose signature is no text, and an AttributeError leaves it.
pub verify_signed_json_escapes :
    (suite : Suite) (raw public_key kind : Bytes)
    → RaisesValueError suite.json suite.base64
    → IsProtocolSafe (verify_signed_json suite raw public_key kind)
      ⊎ (((parsed : Json) × (suite.json.loads raw ≡ ok parsed) × IsOddCertificate parsed)
          × (verify_signed_json suite raw public_key kind ≡ err attribute_error))
unfolding verify_signed_json
verify_signed_json_escapes suite raw public_key kind h =
    elim (Bool-cases (length public_key == suite.dsa.public_key_size)) [
      | inr wrong ↦ inl (rw wrong (raises key_length))
      | inl right ↦ elim (reading suite raw h) [
        | reads (cert, signature) e ↦ inl (
            rw (right, e)
              (guard-IsProtocolSafe (not (is_text kind (find_member key_kind cert)))
                certificate_kind
                λ _.
                  verified_safe
                    (suite.dsa.verify public_key (suite.json.dumps (object cert)) signature) cert))
        | refused e r k ↦ inl (rw (right, r, k certificate_encoding) (raises certificate_encoding))
        | odd parsed e o r ↦ inr ((parsed, e, o), rw (right, r) refl)
      ]
    ]
  where
    verified_safe :
        (r : Result Bool) (cert : Members)
        → IsProtocolSafe (
            rescue_all certificate_signature r >>= λ verified.
            raise_if (not verified) (protocol_error certificate_signature) >> ok cert)
    verified_safe (ok true) cert = returns cert
    verified_safe (ok false) cert = raises certificate_signature
    verified_safe (err e) cert = raises certificate_signature
