-- ===== src/Ecc/Sac/Channel.antt =====
-- `SacChannel.pack` and `SacChannel.unpack` at the two ends of a channel.
use native.Mathlib.Decide.{dec_le}
use modbus_serial_security_p.Base.{
  ℕ, ◌+◌, ◌^◌, ◌≡◌, ◌≢◌, ◌≤◌, ◌<◌, ap, refl, sym, ◌∙◌, arith, Bool, true, false, inl, inr, ◌⊎◌, [],
  ◌∷◌, ◌++◌, Bytes, length, take, drop, slice, ltb, ltb-false, ==_refl, if◌then◌else◌,
  bytes_eq_refl, ok, err, to_bytes, to_bytes_lem, from_bytes, from_bytes-be_bytes, be_bytes,
  length-be_bytes, length-append, length-take, take-append, drop-append, index, overflow_error,
  protocol_error, counter_mismatch, invalid_signature,
}
use modbus_serial_security_p.Ecc.Crypto.{
  Primitives, joined, hmac16, aes_cbc_encrypt, aes_cbc_decrypt,
}
use modbus_serial_security_p.Ecc.Sac.{SacChannel, header_of, code_of, pack, open_body, unpack}

-- What the code relies on: CBC decryption of a padded text that was encrypted with the same key and
-- vector gives it back, the padding is taken off again, and nothing gets shorter.
pub record PrimitivesLaws (p : Primitives) : Type 0 where
  pub length_hmac : (key message : Bytes) → length (p.hmac_sha256 key message) ≡ 32
  pub unpad_pad : (bs : Bytes) → p.pkcs7_unpad (p.pkcs7_pad bs) ≡ ok bs
  pub length_pad : (bs : Bytes) → length bs ≤ length (p.pkcs7_pad bs)
  pub decrypt_encrypt :
      (key iv bs : Bytes)
      → p.cbc_decrypt key iv (p.cbc_encrypt key iv (p.pkcs7_pad bs)) ≡ ok (p.pkcs7_pad bs)
  pub length_encrypt : (key iv bs : Bytes) → length (p.cbc_encrypt key iv bs) ≡ length bs

-- Two ends of a channel, where the second is ready for what the first sends next.
pub record IsPaired (s r : SacChannel) : Type 0 where
  pub same_sak : s.sak ≡ r.sak
  pub same_sek : s.sek ≡ r.sek
  pub same_counter : s.send_counter ≡ r.recv_counter

abbrev pub sent : SacChannel → SacChannel
sent s = record s { send_counter = s.send_counter + 1 }

abbrev pub received : SacChannel → SacChannel
received r = record r { recv_counter = r.recv_counter + 1 }

abbrev flag_of : Bool → ℕ
flag_of encrypt = if encrypt then 1 else 0

abbrev header : ℕ → Bool → Bytes → Bytes
header counter encrypt payload =
    be_bytes 4 counter ++ (flag_of encrypt ∷ 0 ∷ be_bytes 2 (length payload))

module _ (p : Primitives) where
  abbrev signed : SacChannel → ℕ → Bool → Bytes → Bytes
  signed s counter encrypt payload =
      payload ++ code_of p s (be_bytes 4 counter) (header counter encrypt payload) payload

  abbrev body_of : SacChannel → ℕ → Bool → Bytes → Bytes
  body_of s counter encrypt payload =
      if encrypt
      then aes_cbc_encrypt p s.sek (signed s counter encrypt payload)
      else signed s counter encrypt payload

  pack_ok :
      (payload : Bytes) (encrypt : Bool) (s : SacChannel)
      → s.send_counter < 2 ^ 32
      → length payload < 65536
      → pack p payload encrypt s ≡ (
        ok (header s.send_counter encrypt payload ++ body_of s s.send_counter encrypt payload),
        sent s,
      )
  unfolding pack header_of
  pack_ok payload encrypt s hc hl =
      rw
        (to_bytes_lem 4 s.send_counter (omega arith), to_bytes_lem 2 (length payload) (omega arith))
        refl

  pack_overflow :
      (payload : Bytes) (encrypt : Bool) (s : SacChannel)
      → (2 ^ 32 ≤ s.send_counter) ⊎ (65536 ≤ length payload)
      → pack p payload encrypt s ≡ (err overflow_error, sent s)
  unfolding pack header_of to_bytes
  pack_overflow payload encrypt s h = ground arith

  -- The header of a message, taken apart.
  header_parts :
      (counter flag n : ℕ) (body : Bytes)
      → let h = be_bytes 4 counter ++ (flag ∷ 0 ∷ be_bytes 2 n) in
        (take 8 (h ++ body) ≡ h)
        × (drop 8 (h ++ body) ≡ body)
        × (take 4 h ≡ be_bytes 4 counter)
        × (index h 4 ≡ ok flag)
        × (slice h 6 8 ≡ be_bytes 2 n)
  unfolding be_bytes index
  header_parts counter flag n body = (refl, refl, refl, refl, refl)

module _ (p : Primitives) (laws : PrimitivesLaws p) where
  length-hmac16 : (s : SacChannel) (cb h payload : Bytes) → length (code_of p s cb h payload) ≡ 16
  unfolding hmac16
  length-hmac16 s cb h payload = omega (
    arith,
    length-take 16 (p.hmac_sha256 s.sak (joined ((length h ∷ []) ∷ cb ∷ h ∷ payload ∷ []))),
    laws.length_hmac s.sak (joined ((length h ∷ []) ∷ cb ∷ h ∷ payload ∷ [])),
  )

  opened :
      (s : SacChannel) (encrypt : Bool) (text : Bytes)
      → (open_body p s (flag_of encrypt) (if encrypt then aes_cbc_encrypt p s.sek text else text)
          ≡ ok text)
        × (length text ≤ length (if encrypt then aes_cbc_encrypt p s.sek text else text))
  unfolding open_body aes_cbc_encrypt aes_cbc_decrypt
  opened s true text = (
    rw (laws.decrypt_encrypt s.sek _ text) (laws.unpad_pad text),
    omega (arith, laws.length_encrypt s.sek _ (p.pkcs7_pad text), laws.length_pad text),
  )
  opened s false text = (refl, omega arith)

  unpack_written :
      (payload : Bytes) (encrypt : Bool) (r : SacChannel)
      → r.recv_counter < 2 ^ 32
      → length payload < 65536
      → unpack p
          (header r.recv_counter encrypt payload ++ body_of p r r.recv_counter encrypt payload)
          r
        ≡ (ok payload, received r)
  unfolding unpack
  unpack_written payload encrypt r hc hl =
      let c = r.recv_counter in
      let h = header c encrypt payload in
      let text = signed p r c encrypt payload in
      let body = body_of p r c encrypt payload in
      let code = code_of p r (be_bytes 4 c) h payload in
      let (e1, e2, e3, e4, e5) = header_parts p c (flag_of encrypt) (length payload) body in
      let (clear, size) = opened r encrypt text in
      let n16 : length code ≡ 16 = length-hmac16 r (be_bytes 4 c) h payload in
      let n : length text ≡ length payload + 16 = omega (arith, length-append payload code, n16) in
      let long : ltb (length (h ++ body)) 24 ≡ false = ltb-false (length (h ++ body)) 24 (
        omega (
          arith,
          length-append h body,
          length-append (be_bytes 4 c) (flag_of encrypt ∷ 0 ∷ be_bytes 2 (length payload)),
          length-be_bytes 4 c,
          length-be_bytes 2 (length payload),
          size,
          n,
        )) in
      rw
        (
          long,
          e1,
          e2,
          e3,
          e4,
          e5,
          from_bytes-be_bytes 4 c (omega arith),
          from_bytes-be_bytes 2 (length payload) (omega arith),
          ==_refl c,
          clear,
          n,
          ==_refl (length payload + 16),
          take-append payload code (length payload) refl,
          drop-append payload code (length payload) refl,
          to_bytes_lem 4 c (omega arith),
          bytes_eq_refl code,
        )
        refl

  -- In two paired ends, what the first packs, encrypted or not, the second unpacks to the same
  -- payload, and the ends are paired again.
  pub unpack-pack :
      (payload message : Bytes) (encrypt : Bool) (s s' r : SacChannel)
      → IsPaired s r
      → pack p payload encrypt s ≡ (ok message, s')
      → (s' ≡ sent s) × (unpack p message r ≡ (ok payload, received r)) × IsPaired s' (received r)
  unpack-pack payload message encrypt s s' r h e = elim (dec_le (2 ^ 32) s.send_counter) [
    | yes large ↦ absurd (cc (pack_overflow p payload encrypt s (inl large)))
    | no small ↦ elim (dec_le 65536 (length payload)) [
      | yes long ↦ absurd (cc (pack_overflow p payload encrypt s (inr long)))
      | no short ↦
          let full = sym (pack_ok p payload encrypt s (omega arith) (omega arith)) ∙ e in
          let same : s' ≡ sent s = sym (ap (λ x. x.1) full) in
          (
            same,
            read (cc full) (omega (arith, h.same_counter)) (omega arith),
            rw same (record {
              same_sak = h.same_sak;
              same_sek = h.same_sek;
              same_counter = omega (arith, h.same_counter);
            }),
          )
    ]
  ]
    where
      read :
          header s.send_counter encrypt payload ++ body_of p s s.send_counter encrypt payload
            ≡ message
          → r.recv_counter < 2 ^ 32
          → length payload < 65536
          → unpack p message r ≡ (ok payload, received r)
      read shape hc hl =
          rw (sym shape, h.same_sak, h.same_sek, h.same_counter)
            (unpack_written payload encrypt r hc hl)

accepted_counter :
    (p : Primitives) (message payload : Bytes) (r r' : SacChannel)
    → unpack p message r ≡ (ok payload, r')
    → (ltb (length message) 24 ≡ false)
      × (from_bytes (take 4 (take 8 message)) ≡ r.recv_counter)
      × (r' ≡ received r)
unfolding unpack
accepted_counter p message payload r r' h = ground arith

unpack_refuses :
    (p : Primitives) (message : Bytes) (r : SacChannel)
    → ltb (length message) 24 ≡ false
    → from_bytes (take 4 (take 8 message)) ≢ r.recv_counter
    → unpack p message r ≡ (err (protocol_error counter_mismatch), r)
unfolding unpack
unpack_refuses p message r long differs = ground arith

forged_counts :
    (p : Primitives) (forged : Bytes) (r r' : SacChannel)
    → unpack p forged r ≡ (err invalid_signature, r')
    → r' ≡ received r
unfolding unpack
forged_counts p forged r r' h = ground arith

-- A message that was unpacked is refused when it is unpacked again, and the channel stays as it was.
pub unpack_replay :
    (p : Primitives) (message payload : Bytes) (r r' : SacChannel)
    → unpack p message r ≡ (ok payload, r')
    → unpack p message r' ≡ (err (protocol_error counter_mismatch), r')
unpack_replay p message payload r r' h =
    let (long, counter, same) = accepted_counter p message payload r r' h in
    unpack_refuses p message r' long (omega (arith, counter, ap (λ c. c.recv_counter) same))

-- A message whose authentication failed still counts: the genuine message that the channel would
-- have unpacked in its place is refused afterwards.
pub unpack_after_forged :
    (p : Primitives) (forged genuine payload : Bytes) (r r' r'' : SacChannel)
    → unpack p forged r ≡ (err invalid_signature, r')
    → unpack p genuine r ≡ (ok payload, r'')
    → unpack p genuine r' ≡ (err (protocol_error counter_mismatch), r')
unpack_after_forged p forged genuine payload r r' r'' f g =
    let (long, counter, same) = accepted_counter p genuine payload r r'' g in
    unpack_refuses p genuine r' long
      (omega (arith, counter, ap (λ c. c.recv_counter) (forged_counts p forged r r' f)))
