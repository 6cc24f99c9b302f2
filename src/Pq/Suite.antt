-- ===== src/Pq/Suite.antt =====
-- What protocols/protocols-mpq/modbus_security_pq.py takes from elsewhere: `pqcrypto`, `base64`,
-- `json`, `int`, and the built-in trust anchor.
use modbus_serial_security_p.Base.{
  ℕ, zero, suc, ◌+◌, ◌-◌, ◌/◌, ◌%◌, ltb, if◌then◌else◌, [], ◌∷◌, ◌++◌, Bytes, Bool, Result, ok, err,
  Reason, protocol_error, key_error, type_error, value_error,
}
use modbus_serial_security_p.Base.Json.{ℤ, JsonCodec, Base64}

-- `ml_kem_768`. The first argument of an operation that draws random numbers stands for them.
pub record MlKem : Type 0 where
  pub generate_keypair : Bytes → Bytes × Bytes
  pub encrypt : Bytes → Bytes → Bytes × Bytes
  pub decrypt : Bytes → Bytes → Result Bytes
  pub ciphertext_size : ℕ
  pub plaintext_size : ℕ
  pub public_key_size : ℕ
  pub secret_key_size : ℕ

-- `ml_dsa_44`
pub record MlDsa : Type 0 where
  pub sign : Bytes → Bytes → Bytes → Bytes
  pub verify : Bytes → Bytes → Bytes → Result Bool
  pub public_key_size : ℕ
  pub secret_key_size : ℕ

-- The keys of the root and of the brand that the module carries as constants.
pub record TrustAnchor : Type 0 where
  pub root_secret : Bytes
  pub root_public : Bytes
  pub brand_secret : Bytes
  pub brand_public : Bytes

pub record Suite : Type 0 where
  pub kem : MlKem
  pub dsa : MlDsa
  pub json : JsonCodec
  pub base64 : Base64
  -- `int(text, 0)`
  pub int_of_text : Bytes → Result ℤ
  pub anchor : TrustAnchor

-- `except (KeyError, TypeError, ValueError) as exc: raise ProtocolError(…)`
abbrev pub rescue_values {ℓ} : {A : Type ℓ} → Reason → Result A → Result A
rescue_values reason (ok a) = ok a
rescue_values reason (err key_error) = err (protocol_error reason)
rescue_values reason (err type_error) = err (protocol_error reason)
rescue_values reason (err value_error) = err (protocol_error reason)
rescue_values reason (err e) = err e

-- `except Exception as exc: raise ProtocolError(…)`
abbrev pub rescue_all {ℓ} : {A : Type ℓ} → Reason → Result A → Result A
rescue_all reason (ok a) = ok a
rescue_all reason (err e) = err (protocol_error reason)

-- The digit of a number below 16.
abbrev pub hex_digit : ℕ → ℕ
hex_digit n = if ltb n 10 then b'0' + n else b'a' + (n % 16) - 10

abbrev pub hex_digits : ℕ → ℕ → Bytes
hex_digits zero n = []
hex_digits (suc k) n = hex_digits k (n / 16) ++ (hex_digit (n % 16) ∷ [])

-- `f"0x{device_id:016x}"` for a number of 64 bits.
abbrev pub hex16 : ℕ → Bytes
hex16 n = b'0' ∷ b'x' ∷ hex_digits 16 n
