-- ===== src/Ecc/Content.antt =====
-- `encrypt_content` and `decrypt_content` of protocols/protocols-ECC/secure_modbus/crypto.py.
pub mod Laws
use modbus_serial_security_p.Base.{
  ℕ, zero, suc, ◌+◌, ◌-◌, ◌*◌, bit_and, bit_xor, [], ◌∷◌, ◌++◌, Bytes, length, take, drop, slice,
  ltb, ◌^◌, Result, ok, err, ◌>>=◌, ◌>>◌, raise_if, to_bytes, from_bytes, protocol_error, too_short,
  index_error,
}
use modbus_serial_security_p.Ecc.Suite.{EccSuite, digest}

-- `b"Modbus security"`
abbrev pub associated_text : Bytes
associated_text =
    b'M' ∷ b'o' ∷ b'd' ∷ b'b' ∷ b'u' ∷ b's' ∷ b' ' ∷ b's' ∷ b'e' ∷ b'c' ∷ b'u' ∷ b'r' ∷ b'i' ∷ b't'
    ∷ b'y' ∷ []

-- `nonce[i] ^= b`
unfoldable pub xor_at : ℕ → ℕ → Bytes → Result Bytes
xor_at i b [] = err index_error
xor_at zero b (x ∷ nonce) = ok (bit_xor x b ∷ nonce)
xor_at (suc i) b (x ∷ nonce) = do rest ← xor_at i b nonce; ok (x ∷ rest)

-- `for index, byte in enumerate(counter_bytes): nonce[8 + index] ^= byte`, from an index on.
unfoldable pub xor_counter : ℕ → Bytes → Bytes → Result Bytes
unfolding xor_at
xor_counter i [] nonce = ok nonce
xor_counter i (b ∷ counter_bytes) nonce = do
  changed ← xor_at (8 + i) b nonce
  xor_counter (i + 1) counter_bytes changed

unfoldable pub content_nonce : Bytes → ℕ → Bytes → Result Bytes
unfolding xor_at xor_counter
content_nonce civ direction counter_bytes = do
  nonce ← xor_at 0 (bit_and direction 0x01 * 2 ^ 7) (take 12 civ)
  xor_counter 0 counter_bytes nonce

module _ (suite : EccSuite) where
  open suite use {aead}

  unfoldable pub encrypt_content : Bytes → Bytes → Bytes → ℕ → ℕ → Result Bytes
  unfolding xor_at xor_counter digest
  encrypt_content ck civ pdu counter direction = do
    start ← xor_at 0 (bit_and direction 0x01 * 2 ^ 7) (take 12 civ)
    counter_bytes ← to_bytes 4 counter
    nonce ← xor_counter 0 counter_bytes start
    let encrypted = aead.encrypt ck nonce pdu (digest suite (associated_text ∷ []) 16)
    let ciphertext = take (length encrypted - 16) encrypted
    let tag = drop (length encrypted - 16) encrypted
    ok (tag ++ (counter_bytes ++ ciphertext))

  -- The PDU and the counter.
  unfoldable pub decrypt_content : Bytes → Bytes → Bytes → ℕ → Result (Bytes × ℕ)
  unfolding content_nonce digest
  decrypt_content ck civ payload direction = do
    raise_if (ltb (length payload) 20) (protocol_error too_short)
    let tag = take 16 payload
    let counter_bytes = slice payload 16 20
    let ciphertext = drop 20 payload
    nonce ← content_nonce civ direction counter_bytes
    pdu ← aead.decrypt ck nonce (ciphertext ++ tag) (digest suite (associated_text ∷ []) 16)
    ok (pdu, from_bytes counter_bytes)
