-- ===== src/Ecc/Crypto.antt =====
-- `hmac16`, `aes_cbc_encrypt` and `aes_cbc_decrypt` of
-- protocols/protocols-ECC/secure_modbus/crypto.py. What these take from the `cryptography` package
-- is a parameter.
use modbus_serial_security_p.Base.{List, [], ◌∷◌, ◌++◌, Bytes, take, Result, ◌>>=◌}

-- HMAC with SHA-256 over a whole message, PKCS7 for blocks of 16 bytes, and AES in CBC mode.
pub record Primitives : Type 0 where
  pub hmac_sha256 : Bytes → Bytes → Bytes
  pub pkcs7_pad : Bytes → Bytes
  pub pkcs7_unpad : Bytes → Result Bytes
  pub cbc_encrypt : Bytes → Bytes → Bytes → Bytes
  pub cbc_decrypt : Bytes → Bytes → Bytes → Result Bytes

abbrev pub sac_siv : Bytes
sac_siv =
    0xB2 ∷ 0x70 ∷ 0x97 ∷ 0xDE ∷ 0xAF ∷ 0x30 ∷ 0x5D ∷ 0x8A ∷ 0x94 ∷ 0xC8 ∷ 0x71 ∷ 0xD8 ∷ 0x95 ∷ 0x25
    ∷ 0xC7 ∷ 0xA0 ∷ []

-- `h.update(part)` for each part.
abbrev pub joined : List Bytes → Bytes
joined [] = []
joined (part ∷ parts) = part ++ joined parts

module _ (primitives : Primitives) where
  open primitives use {hmac_sha256, pkcs7_pad, pkcs7_unpad, cbc_encrypt, cbc_decrypt}

  unfoldable pub hmac16 : Bytes → List Bytes → Bytes
  hmac16 key parts = take 16 (hmac_sha256 key (joined parts))

  unfoldable pub aes_cbc_encrypt : Bytes → Bytes → Bytes
  aes_cbc_encrypt key plaintext = cbc_encrypt key sac_siv (pkcs7_pad plaintext)

  unfoldable pub aes_cbc_decrypt : Bytes → Bytes → Result Bytes
  aes_cbc_decrypt key ciphertext =
      cbc_decrypt key sac_siv ciphertext >>= λ padded. pkcs7_unpad padded
