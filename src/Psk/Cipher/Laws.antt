-- ===== src/Psk/Cipher/Laws.antt =====
-- The nonces, and `aes_gcm_decrypt` on what `aes_gcm_encrypt` returns.
use native.Mathlib.Decide.{dec_le}
use modbus_serial_security_p.Base.{
  ℕ, ◌+◌, ◌-◌, ◌^◌, ◌≤◌, ◌<◌, ◌≡◌, ap, ◌∙◌, refl, sym, Bool, ◌++◌, arith, Bytes, length, take, drop,
  take-append-drop, length-take, length-drop, append_cancel, if◌then◌else◌, ok, err, overflow_error,
  to_bytes, to_bytes_lem, be_bytes, from_bytes, from_bytes-be_bytes,
}
use modbus_serial_security_p.Psk.Sm3.Digest.{sm3_total}
use modbus_serial_security_p.Psk.Keys.{ContentKeys}
use modbus_serial_security_p.Psk.Cipher.{
  Aead, modbus_text, key_of, nonce_of, associated_data, aes_gcm_encrypt, aes_gcm_decrypt,
}

-- What the code relies on: a ciphertext decrypts to its plaintext under the same key, nonce and
-- associated data, and ends in a code of 16 bytes.
pub record AeadLaws (aead : Aead) : Type 0 where
  pub decrypt_encrypt :
      (key nonce plain ad : Bytes)
      → aead.decrypt key nonce (aead.encrypt key nonce plain ad) ad ≡ ok plain
  pub length_encrypt :
      (key nonce plain ad : Bytes) → length (aead.encrypt key nonce plain ad) ≡ length plain + 16

associated_data_total : (ad : Bytes) × (associated_data ≡ ok ad)
unfolding associated_data
associated_data_total =
    let (digest, e, size, bytes) = sm3_total modbus_text (omega arith) in
    (take 16 digest, rw e refl)

-- The nonce of a counter below 2 ^ 32, and the refusal of the others.
abbrev pub nonce_bytes : ContentKeys → Bool → ℕ → Bytes
nonce_bytes keys broadcast counter =
    take 8 (if broadcast then keys.bciv else keys.civ) ++ be_bytes 4 counter

pub nonce_ok :
    (keys : ContentKeys) (broadcast : Bool) (counter : ℕ)
    → counter < 2 ^ 32
    → nonce_of keys broadcast counter ≡ ok (nonce_bytes keys broadcast counter)
unfolding nonce_of
nonce_ok keys broadcast counter h = rw (to_bytes_lem 4 counter (omega arith)) refl

pub nonce_overflow :
    (keys : ContentKeys) (broadcast : Bool) (counter : ℕ)
    → 2 ^ 32 ≤ counter
    → nonce_of keys broadcast counter ≡ err overflow_error
unfolding nonce_of to_bytes
nonce_overflow keys broadcast counter h = ground arith

nonce_eq_ok :
    (keys : ContentKeys) (broadcast : Bool) (counter : ℕ) (nonce : Bytes)
    → nonce_of keys broadcast counter ≡ ok nonce
    → (counter < 2 ^ 32) × (nonce ≡ nonce_bytes keys broadcast counter)
nonce_eq_ok keys broadcast counter nonce h = elim (dec_le (2 ^ 32) counter) [
  | yes large ↦ cc (nonce_overflow keys broadcast counter large)
  | no small ↦ (omega arith, cc (nonce_ok keys broadcast counter (omega arith)))
]

-- Two counters that give the same nonce are the same counter, and it is below 2 ^ 32.
pub nonce_of_injective :
    (keys : ContentKeys) (broadcast : Bool) (c d : ℕ) (nonce : Bytes)
    → nonce_of keys broadcast c ≡ ok nonce
    → nonce_of keys broadcast d ≡ ok nonce
    → (c ≡ d) × (c < 2 ^ 32)
nonce_of_injective keys broadcast c d nonce h k =
    let (fc, ec) = nonce_eq_ok keys broadcast c nonce h in
    let (fd, ed) = nonce_eq_ok keys broadcast d nonce k in
    let civ = if broadcast then keys.bciv else keys.civ in
    let same : be_bytes 4 c ≡ be_bytes 4 d =
      append_cancel (take 8 civ) (be_bytes 4 c) (be_bytes 4 d) (sym ec ∙ ed) in
    (
      sym (from_bytes-be_bytes 4 c (omega arith))
          ∙ ap from_bytes same
          ∙ from_bytes-be_bytes 4 d (omega arith),
      fc,
    )

module _ (aead : Aead) (laws : AeadLaws aead) where
  -- The code and the ciphertext of one encryption, put together again.
  encrypted_parts :
      (keys : ContentKeys) (counter : ℕ) (pdu nonce ad : Bytes) (broadcast : Bool)
      → nonce_of keys broadcast counter ≡ ok nonce
      → associated_data ≡ ok ad
      → (mac ciphertext : Bytes)
      → aes_gcm_encrypt aead keys counter pdu broadcast ≡ ok (mac, ciphertext)
      → (ciphertext ++ mac ≡ aead.encrypt (key_of keys broadcast) nonce pdu ad)
        × (length mac ≡ 16)
        × (length ciphertext ≡ length pdu)
  unfolding aes_gcm_encrypt
  encrypted_parts keys counter pdu nonce ad broadcast en ea mac ciphertext h =
      let all = aead.encrypt (key_of keys broadcast) nonce pdu ad in
      let n = length all - 16 in
      let size : length all ≡ length pdu + 16 =
        laws.length_encrypt (key_of keys broadcast) nonce pdu ad in
      let em : mac ≡ drop n all = ground arith in
      let ec : ciphertext ≡ take n all = ground arith in
      (
        (λ i. ec i ++ em i) ∙ take-append-drop n all,
        ap length em ∙ omega (arith, length-drop n all, size),
        ap length ec ∙ omega (arith, length-take n all, size),
      )

  -- What `aes_gcm_encrypt` returns is decrypted by `aes_gcm_decrypt` with the same keys, counter
  -- and direction; the code has 16 bytes and the ciphertext is as long as the PDU.
  pub decrypt-encrypt :
      (keys : ContentKeys) (counter : ℕ) (pdu mac ciphertext : Bytes) (broadcast : Bool)
      → counter < 2 ^ 32
      → aes_gcm_encrypt aead keys counter pdu broadcast ≡ ok (mac, ciphertext)
      → (length mac ≡ 16)
        × (length ciphertext ≡ length pdu)
        × (aes_gcm_decrypt aead keys counter mac ciphertext broadcast ≡ ok pdu)
  unfolding aes_gcm_decrypt
  decrypt-encrypt keys counter pdu mac ciphertext broadcast fits h =
      let nonce = nonce_bytes keys broadcast counter in
      let en = nonce_ok keys broadcast counter fits in
      let (ad, ea) = associated_data_total in
      let (whole, lm, lc) =
        encrypted_parts keys counter pdu nonce ad broadcast en ea mac ciphertext h in
      (lm, lc, rw (en, ea, whole) (laws.decrypt_encrypt (key_of keys broadcast) nonce pdu ad))

  -- Encryption succeeds exactly below 2 ^ 32: past it the counter is an OverflowError, and no nonce
  -- is used again.
  pub encrypt_total :
      (keys : ContentKeys) (counter : ℕ) (pdu : Bytes) (broadcast : Bool)
      → counter < 2 ^ 32
      → (mac ciphertext : Bytes) × (aes_gcm_encrypt aead keys counter pdu broadcast
          ≡ ok (mac, ciphertext))
  unfolding aes_gcm_encrypt
  encrypt_total keys counter pdu broadcast fits =
      let nonce = nonce_bytes keys broadcast counter in
      let (ad, ea) = associated_data_total in
      let all = aead.encrypt (key_of keys broadcast) nonce pdu ad in
      (
        drop (length all - 16) all,
        take (length all - 16) all,
        rw (nonce_ok keys broadcast counter fits, ea) refl,
      )

pub encrypt_overflow :
    (aead : Aead) (keys : ContentKeys) (counter : ℕ) (pdu : Bytes) (broadcast : Bool)
    → 2 ^ 32 ≤ counter
    → aes_gcm_encrypt aead keys counter pdu broadcast ≡ err overflow_error
unfolding aes_gcm_encrypt
encrypt_overflow aead keys counter pdu broadcast large =
    rw (nonce_overflow keys broadcast counter large) refl
