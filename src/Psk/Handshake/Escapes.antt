-- ===== src/Psk/Handshake/Escapes.antt =====
-- The exceptions of the handlers of the slave.
use native.Mathlib.Decide.{dec_le}
use modbus_serial_security_p.Base.{
  ℕ, ◌≡◌, ◌≤◌, ◌<◌, ◌+◌, ◌^◌, ◌⊎◌, inl, inr, refl, arith, not, Option, none, some, [], ◌∷◌, ◌++◌,
  Bytes, bytes_eq, Result, Error, ok, err, ◌>>=◌, ◌==◌, length, index, ◌>>◌, raise_if,
  protocol_error, unsupported_mode, from_bytes, to_bytes, to_bytes_lem, be_bytes, length-be_bytes,
  length-append, index_error, overflow_error, IsProtocolSafe, returns, raises,
  raise_if-IsProtocolSafe, guard-IsProtocolSafe, missing_item, wrong_tag, failed_verification,
  bad_random,
}
use modbus_serial_security_p.Psk.Apdu.{Apdu}
use modbus_serial_security_p.Psk.Payload.{DataPayload, get, decode_req}
use modbus_serial_security_p.Psk.Payload.Safety.{decode_req-IsProtocolSafe}
use modbus_serial_security_p.Psk.Sm3.Digest.{sm3_total}
use modbus_serial_security_p.Psk.Keys.{compute_master_auth}
use modbus_serial_security_p.Psk.Content.{mode_aes_gcm}
use modbus_serial_security_p.Psk.Handshake.{tag_ss_sk_data_req, type_client_id, type_mode, require}
use modbus_serial_security_p.Psk.Handshake.Slave.{slave_respond, Answer, slave_answer, slave_finish}
use modbus_serial_security_p.Psk.Handshake.Respond.{answer_safe}

-- A value or a `ProtocolError`, unless `P` holds: then the other exception.
abbrev SafeUnless {ℓ} : {A : Type ℓ} → Type 0 → Error → Result A → Type ℓ
SafeUnless P x r = IsProtocolSafe r ⊎ (P × (r ≡ err x))

>>=-SafeUnless {ℓ κ} :
    {A : Type ℓ} {B : Type κ} {P : Type 0} {x : Error} {m : Result A} (f : A → Result B)
    → IsProtocolSafe m
    → ((a : A) → m ≡ ok a → SafeUnless P x (f a))
    → SafeUnless P x (m >>= f)
>>=-SafeUnless f (returns a) k = k a refl
>>=-SafeUnless f (raises r) k = inl (raises r)

pub require-IsProtocolSafe : (v : Option Bytes) → IsProtocolSafe (require v)
unfolding require
require-IsProtocolSafe none = raises missing_item
require-IsProtocolSafe (some b) = returns b

require_eq_ok : (v : Option Bytes) (b : Bytes) → require v ≡ ok b → v ≡ some b
unfolding require
require_eq_ok none b h = cc
require_eq_ok (some c) b h = cc

pub compute_master_auth_cases :
    (rh rm dhsk : Bytes) (client_id : ℕ)
    → length rh + length rm + length dhsk < 2 ^ 60
    → ((client_id < 2 ^ 64) × ((d : Bytes) × (compute_master_auth rh rm dhsk client_id ≡ ok d)))
      ⊎ ((2 ^ 64 ≤ client_id) × (compute_master_auth rh rm dhsk client_id ≡ err overflow_error))
unfolding compute_master_auth
compute_master_auth_cases rh rm dhsk client_id h = elim (dec_le (2 ^ 64) client_id) [
  | yes large ↦ inr (large, unfold to_bytes in ground arith)
  | no small ↦
      let b = be_bytes 8 client_id in
      let (d, e, size, bytes) = sm3_total (rm ++ (rh ++ (dhsk ++ b))) (
        omega (
          arith,
          length-append rm (rh ++ (dhsk ++ b)),
          length-append rh (dhsk ++ b),
          length-append dhsk b,
          length-be_bytes 8 client_id,
        )) in
      inl (omega arith, (d, rw (to_bytes_lem 8 client_id (omega arith)) e))
]

-- With points and a secret of fewer than 2 ^ 60 bytes together, the slave accepts every final
-- message or raises a `ProtocolError`, unless the client identifier in it is 2 ^ 64 or more and
-- the slave raises OverflowError.
pub slave_finish_escapes :
    (a : Answer) (apdu : Apdu)
    → length a.rh + length a.rm + length a.dhsk < 2 ^ 60
    → IsProtocolSafe (slave_finish a apdu)
      ⊎ (((request : DataPayload) × (client_id_b : Bytes) × (decode_req apdu.payload ≡ ok request)
            × (get type_client_id request.send ≡ some client_id_b)
            × (2 ^ 64 ≤ from_bytes client_id_b))
          × (slave_finish a apdu ≡ err overflow_error))
unfolding slave_finish
slave_finish_escapes a apdu size =
    >>=-SafeUnless _
      (raise_if-IsProtocolSafe (not (bytes_eq apdu.tag tag_ss_sk_data_req)) wrong_tag)
      λ _ _. >>=-SafeUnless _ (decode_req-IsProtocolSafe apdu.payload) λ request er.
        >>=-SafeUnless _ (require-IsProtocolSafe _) λ s_h _.
          >>=-SafeUnless _ (require-IsProtocolSafe _) λ r_b _.
            >>=-SafeUnless _ (require-IsProtocolSafe (get type_client_id request.send)) λ id_b ei.
              elim (compute_master_auth_cases a.rh a.rm a.dhsk (from_bytes id_b) size) [
                | inl (small, (d, e)) ↦ inl (
                    rw e (
                      guard-IsProtocolSafe (not (bytes_eq s_h d)) failed_verification λ _.
                        guard-IsProtocolSafe (not (length r_b == 32)) bad_random λ _. returns _))
                | inr (large, e) ↦
                    inr ((request, id_b, er, require_eq_ok _ id_b ei, large), rw e refl)
              ]

-- With a password of fewer than 2 ^ 60 bytes, 32 random bytes and a server identifier below 2 ^
-- 64, the slave answers every data request or raises a `ProtocolError`, unless the request has an
-- empty value for the mode and the slave raises IndexError.
pub slave_answer_escapes :
    (password urandom : Bytes) (server_id : ℕ) (apdu : Apdu)
    → length password < 2 ^ 60
    → length urandom ≡ 32
    → server_id < 2 ^ 64
    → IsProtocolSafe (slave_answer password urandom server_id apdu)
      ⊎ (((request : DataPayload) × (decode_req apdu.payload ≡ ok request)
            × (get type_mode request.send ≡ some []))
          × (slave_answer password urandom server_id apdu ≡ err index_error))
unfolding slave_answer
slave_answer_escapes password urandom server_id apdu hp hu hs =
    >>=-SafeUnless _
      (raise_if-IsProtocolSafe (not (bytes_eq apdu.tag tag_ss_sk_data_req)) wrong_tag)
      λ _ _. >>=-SafeUnless _ (decode_req-IsProtocolSafe apdu.payload) λ request er.
        >>=-SafeUnless _ (require-IsProtocolSafe _) λ rh _.
          >>=-SafeUnless _ (require-IsProtocolSafe (get type_mode request.send))
            λ mode em. by_mode request er rh mode (require_eq_ok _ mode em)
  where
    by_mode :
        (request : DataPayload)
        → decode_req apdu.payload ≡ ok request
        → (rh mode : Bytes) → get type_mode request.send ≡ some mode
        → SafeUnless
            ((request : DataPayload) × (decode_req apdu.payload ≡ ok request)
              × (get type_mode request.send ≡ some []))
            index_error
            (index mode 0 >>= λ mode_byte.
              raise_if (not (mode_byte == mode_aes_gcm)) (protocol_error unsupported_mode)
              >> slave_respond password urandom server_id rh mode_byte)
    by_mode request er rh [] em = inr ((request, er, em), unfold index in refl)
    by_mode request er rh (b ∷ bs) em = inl (
        unfold index in
        guard-IsProtocolSafe (not (b == mode_aes_gcm)) unsupported_mode
          λ _. answer_safe password urandom rh server_id b hp hu hs)
