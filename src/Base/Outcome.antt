-- ===== src/Base/Outcome.antt =====
-- Python exceptions as values: the exception classes that the code raises, and a result type.
use mathlib.Core.Path.{◌≡◌, refl}
use mathlib.Core.Logic.{◌⊎◌, inl, inr}
use mathlib.Core.Bool.{Bool, true, false}
use modbus_serial_security_p.Base.Tests.{if◌then◌else◌}

-- What a `ProtocolError` is raised for: one constructor for each message of the sources.
pub data Reason : Type 0 where
  too_short bad_crc length_mismatch missing_length length_form truncated_length : Reason
  truncated_header truncated_value missing_count trailing_bytes request_mismatch : Reason
  wrong_address wrong_function wrong_tag missing_mac unsupported_mode : Reason
  empty_pdu modbus_exception unexpected_response bad_response_length : Reason
  point_length point_range point_curve point_subgroup : Reason
  unsupported_version no_point missing_item failed_verification bad_random bad_status : Reason
  nonempty_payload counter_mismatch unsupported_flag : Reason
  key_length certificate_encoding certificate_kind certificate_signature : Reason
  certificate_role certificate_fields certificate_mode certificate_issuer : Reason
  ciphertext_length decapsulation_failed secret_length missing_certificates : Reason
  missing_request invalid_akh wrong_identity id_length not_initialized : Reason
  connection_closed rejected bad_request_length : Reason

-- The exception classes. `invalid_tag` and `invalid_signature` are raised by `cryptography`.
pub data Error : Type 0 where
  protocol_error : Reason → Error
  value_error overflow_error index_error eof_error invalid_tag invalid_signature : Error
  key_error type_error attribute_error assertion_error os_error struct_error : Error
  -- No Python exception: a loop of the model ran out of fuel.
  out_of_fuel : Error

-- How a call ends: with a value, or with the exception that leaves it.
pub data Result {ℓ} (X : Type ℓ) : Type ℓ where
  err : Error → Result X
  ok : X → Result X

infixl 5 ◌>>=◌
abbrev pub ◌>>=◌ {ℓ κ} : {X : Type ℓ} {Y : Type κ} → Result X → (X → Result Y) → Result Y
err raised >>= body = err raised
ok value >>= body = body value

-- `if bad: raise e`
abbrev pub raise_if : Bool → Error → Result (Unit {0})
raise_if true raised = err raised
raise_if false raised = ok tt

infixl 5 ◌>>◌
abbrev pub ◌>>◌ {κ} : {Y : Type κ} → Result (Unit {0}) → Result Y → Result Y
first >> next = first >>= λ _. next

-- What a call that ended with a value went through.
pub >>=-eq-ok {ℓ κ} :
    {X : Type ℓ} {Y : Type κ} (call : Result X) (body : X → Result Y) {y : Y}
    → (call >>= body) ≡ ok y
    → (x : X) × (call ≡ ok x) × (body x ≡ ok y)
>>=-eq-ok (err raised) body ends = cc
>>=-eq-ok (ok x) body ends = (x, refl, ends)

pub Result-cases {ℓ} :
    {A : Type ℓ} (r : Result A) → ((a : A) × (r ≡ ok a)) ⊎ ((e : Error) × (r ≡ err e))
Result-cases (ok a) = inl (a, refl)
Result-cases (err e) = inr (e, refl)

-- The result is a value or a `ProtocolError`, and no other exception.
pub data IsProtocolSafe {ℓ} {A : Type ℓ} : Result A → Type ℓ where
  returns : (a : A) → IsProtocolSafe (ok a)
  raises : (r : Reason) → IsProtocolSafe (err (protocol_error r))

pub >>=-IsProtocolSafe {ℓ κ} :
    {A : Type ℓ} {B : Type κ} {m : Result A} (f : A → Result B)
    → IsProtocolSafe m
    → ((a : A) → m ≡ ok a → IsProtocolSafe (f a))
    → IsProtocolSafe (m >>= f)
>>=-IsProtocolSafe f (returns a) k = k a refl
>>=-IsProtocolSafe f (raises r) k = raises r

pub raise_if-IsProtocolSafe :
    (b : Bool) (r : Reason) → IsProtocolSafe (raise_if b (protocol_error r))
raise_if-IsProtocolSafe true r = raises r
raise_if-IsProtocolSafe false r = returns tt

-- `if bad: raise ProtocolError(…)` and the code behind it, which may use that the test failed.
pub guard-IsProtocolSafe {ℓ} :
    {B : Type ℓ} (b : Bool) (r : Reason) {k : Result B}
    → (b ≡ false → IsProtocolSafe k)
    → IsProtocolSafe (raise_if b (protocol_error r) >> k)
guard-IsProtocolSafe true r h = raises r
guard-IsProtocolSafe false r h = h refl

pub if-IsProtocolSafe {ℓ} :
    {B : Type ℓ} (b : Bool) {x y : Result B}
    → IsProtocolSafe x
    → IsProtocolSafe y
    → IsProtocolSafe (if b then x else y)
if-IsProtocolSafe true h k = h
if-IsProtocolSafe false h k = k
