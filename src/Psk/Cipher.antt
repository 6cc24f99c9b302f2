-- ===== src/Psk/Cipher.antt =====
-- `aes_gcm_encrypt` and `aes_gcm_decrypt`. The AES-GCM of the `cryptography` package is a parameter
-- and taken to be installed.
pub mod Laws
use modbus_serial_security_p.Base.{
  ℕ, ◌-◌, Bool, [], ◌∷◌, ◌++◌, Bytes, length, take, drop, if◌then◌else◌, Result, ok, ◌>>=◌,
  to_bytes,
}
use modbus_serial_security_p.Psk.Sm3.{sm3}
use modbus_serial_security_p.Psk.Keys.{ContentKeys}

-- `AESGCM(key).encrypt(nonce, data, associated_data)`, and `decrypt`, which may raise InvalidTag.
pub record Aead : Type 0 where
  pub encrypt : Bytes → Bytes → Bytes → Bytes → Bytes
  pub decrypt : Bytes → Bytes → Bytes → Bytes → Result Bytes

-- `b"Modbus"`
abbrev modbus_text : Bytes
modbus_text = b'M' ∷ b'o' ∷ b'd' ∷ b'b' ∷ b'u' ∷ b's' ∷ []

-- `keys.bck if broadcast else keys.ck`
abbrev pub key_of : ContentKeys → Bool → Bytes
key_of keys broadcast = if broadcast then keys.bck else keys.ck

-- `civ[:8] + counter.to_bytes(4, "big")`
unfoldable pub nonce_of : ContentKeys → Bool → ℕ → Result Bytes
nonce_of keys broadcast counter = do
  counter_b ← to_bytes 4 counter
  ok (take 8 (if broadcast then keys.bciv else keys.civ) ++ counter_b)

-- `sm3(b"Modbus")[:16]`
unfoldable pub associated_data : Result Bytes
associated_data = do digest ← sm3 modbus_text; ok (take 16 digest)

module _ (aead : Aead) where
  -- The authentication code and the ciphertext, which `encrypt` returns one behind the other.
  unfoldable pub aes_gcm_encrypt : ContentKeys → ℕ → Bytes → Bool → Result (Bytes × Bytes)
  aes_gcm_encrypt keys counter pdu broadcast = do
    nonce ← nonce_of keys broadcast counter
    ad ← associated_data
    let encrypted = aead.encrypt (key_of keys broadcast) nonce pdu ad
    ok (drop (length encrypted - 16) encrypted, take (length encrypted - 16) encrypted)

  unfoldable pub aes_gcm_decrypt : ContentKeys → ℕ → Bytes → Bytes → Bool → Result Bytes
  aes_gcm_decrypt keys counter mac ciphertext broadcast = do
    nonce ← nonce_of keys broadcast counter
    ad ← associated_data
    aead.decrypt (key_of keys broadcast) nonce (ciphertext ++ mac) ad
