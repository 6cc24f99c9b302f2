-- ===== src/Ecc/Suite.antt =====
-- What protocols/protocols-ECC/secure_modbus/crypto.py takes from the `cryptography` package, from
-- `json` and from `base64`, and the texts of `bytes.hex`.
use modbus_serial_security_p.Base.{
  ℕ, ◌+◌, ◌-◌, ◌*◌, ◌/◌, ◌%◌, ◌&&◌, ◌||◌, Bool, true, false, Option, none, some, [], ◌∷◌, ◌++◌,
  Bytes, List, length, take, drop, ltb, leb, ◌==◌, if◌then◌else◌, Result, ok, err, value_error,
  type_error,
}
use modbus_serial_security_p.Base.Json.{Json, text, JsonCodec, Base64}
use modbus_serial_security_p.Psk.Cipher.{Aead}
use modbus_serial_security_p.Ecc.Crypto.{Primitives, joined}

-- Public keys are their uncompressed points. `from_encoded_point` refuses what is no point, and
-- `verify` raises InvalidSignature. What `sign` draws is its first argument.
pub record Curve : Type 0 where
  pub public_key : Bytes → Bytes
  pub from_encoded_point : Bytes → Result Bytes
  pub exchange : Bytes → Bytes → Result Bytes
  pub sign : Bytes → Bytes → Bytes → Bytes
  pub verify : Bytes → Bytes → Bytes → Result (Unit {0})

pub record EccSuite : Type 0 where
  pub curve : Curve
  pub sha256 : Bytes → Bytes
  -- Length, salt, info and secret.
  pub hkdf_sha256 : ℕ → Option Bytes → Bytes → Bytes → Bytes
  pub aead : Aead
  pub primitives : Primitives
  pub json : JsonCodec
  pub base64 : Base64
  -- `==` of two JSON values.
  pub equal : Json → Json → Bool

-- `salt or None`
abbrev or_none : Bytes → Option Bytes
or_none [] = none
or_none (b ∷ bs) = some (b ∷ bs)

-- `b"digest-expand"`
abbrev digest_expand_text : Bytes
digest_expand_text =
    b'd' ∷ b'i' ∷ b'g' ∷ b'e' ∷ b's' ∷ b't' ∷ b'-' ∷ b'e' ∷ b'x' ∷ b'p' ∷ b'a' ∷ b'n' ∷ b'd' ∷ []

-- `b"modbus-6.2-dhsk"`
abbrev dhsk_text : Bytes
dhsk_text =
    b'm' ∷ b'o' ∷ b'd' ∷ b'b' ∷ b'u' ∷ b's' ∷ b'-' ∷ b'6' ∷ b'.' ∷ b'2' ∷ b'-' ∷ b'd' ∷ b'h' ∷ b's'
    ∷ b'k' ∷ []

module _ (suite : EccSuite) where
  abbrev pub hkdf : Bytes → Bytes → Bytes → ℕ → Bytes
  hkdf secret salt info size = suite.hkdf_sha256 size (or_none salt) info secret

  unfoldable pub digest : List Bytes → ℕ → Bytes
  digest parts size =
      let value = suite.sha256 (joined parts) in
      if leb size (length value) then take size value else hkdf value [] digest_expand_text size

  unfoldable pub derive_dhsk : Bytes → Bytes → Bytes → Bytes
  derive_dhsk shared_secret client_id server_id =
      hkdf shared_secret (client_id ++ server_id) dhsk_text 64

  unfoldable pub derive_auth_key : Bytes → Bytes → Bytes → Bytes
  unfolding digest
  derive_auth_key dhsk client_id server_id = digest (server_id ∷ client_id ∷ dhsk ∷ []) 32

  unfoldable pub derive_sac_keys : Bytes → Bytes → Bytes → Bytes → Bytes × Bytes
  unfolding digest
  derive_sac_keys dhsk auth_key ns_h ns_m =
      let seed = digest (dhsk ∷ auth_key ∷ ns_h ∷ ns_m ∷ []) 32 in (take 16 seed, drop 16 seed)

  -- ck, civ, bck and bciv.
  unfoldable pub derive_content_keys : Bytes → Bytes → Bytes → Bytes → Bytes × Bytes × Bytes × Bytes
  unfolding digest
  derive_content_keys kp server_id kp_client client_id =
      let unicast = digest (kp ∷ server_id ∷ []) 32 in
      let broadcast = digest (kp_client ∷ client_id ∷ []) 32 in
      (take 16 unicast, drop 16 unicast, take 16 broadcast, drop 16 broadcast)

abbrev pub hex_letter : ℕ → ℕ
hex_letter n = if ltb n 10 then b'0' + n else b'a' + n - 10

-- `bs.hex()`
unfoldable pub to_hex : Bytes → Bytes
to_hex [] = []
to_hex (b ∷ bs) = hex_letter (b / 16) ∷ hex_letter (b % 16) ∷ to_hex bs

-- The value of a hexadecimal digit of either case.
abbrev pub hex_value : ℕ → Option ℕ
hex_value c =
    if leb b'0' c && leb c b'9'
    then some (c - b'0')
    else if leb b'a' c && leb c b'f'
    then some (c + 10 - b'a')
    else if leb b'A' c && leb c b'F'
    then some (c + 10 - b'A')
    else none

-- Space, or one of the five controls from tab on.
abbrev is_space : ℕ → Bool
is_space c = c == 32 || (leb 9 c && leb c 13)

abbrev push_byte : Option ℕ → Option ℕ → Result Bytes → Result Bytes
push_byte (some high) (some low) (ok bs) = ok ((high * 16 + low) ∷ bs)
push_byte (some high) (some low) (err e) = err e
push_byte (some high) none rest = err value_error
push_byte none low rest = err value_error

-- `bytes.fromhex(t)`: white space between two bytes is skipped.
unfoldable pub from_hex : Bytes → Result Bytes
from_hex [] = ok []
from_hex (c ∷ []) = if is_space c then ok [] else err value_error
from_hex (c ∷ d ∷ rest) = elim (is_space c) [
  | true ↦ from_hex (d ∷ rest)
  | false ↦ push_byte (hex_value c) (hex_value d) (from_hex rest)
]

-- `bytes.fromhex(v)` of a JSON value: only a text is accepted.
unfoldable pub from_hex_json : Json → Result Bytes
unfolding from_hex
from_hex_json (text t) = from_hex t
from_hex_json v = err type_error
