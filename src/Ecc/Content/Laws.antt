-- ===== src/Ecc/Content/Laws.antt =====
-- `decrypt_content` on what `encrypt_content` returns, and the nonces of both directions.
use modbus_serial_security_p.Base.{
  ℕ, zero, suc, ◌-◌, ◌*◌, ◌/◌, ◌%◌, ◌^◌, ◌<◌, ◌≡◌, ◌≢◌, refl, sym, ap, ◌∙◌, arith, [], ◌∷◌, ◌++◌,
  bit_and, bit_xor, inl, inr, false, Bytes, length, take, drop, get_or, ltb, ltb-false, take-append,
  drop-append, drop-shift, take-append-drop, length-append, length-drop, slice_middle, ok,
  Result-cases, to_bytes, be_bytes, length-be_bytes, from_bytes-be_bytes,
}
use modbus_serial_security_p.Base.Bits.{bit_and-one, bit_xor_left_injective}
use modbus_serial_security_p.Psk.Cipher.Laws.{AeadLaws}
use modbus_serial_security_p.Ecc.Suite.{EccSuite, digest}
use modbus_serial_security_p.Ecc.Content.{
  associated_text, xor_at, xor_counter, content_nonce, encrypt_content, decrypt_content,
}

-- An exclusive or at one place.
xor_at_here :
    (i b : ℕ) (xs ys : Bytes) → xor_at i b xs ≡ ok ys → get_or ys i 0 ≡ bit_xor (get_or xs i 0) b
unfolding xor_at
xor_at_here i b [] ys h = cc
xor_at_here zero b (x ∷ xs) ys h = ground arith
xor_at_here (suc i) b (x ∷ xs) ys h = elim (Result-cases (xor_at i b xs)) [
  | inl (zs, e) ↦ let same : ys ≡ x ∷ zs = ground arith in rw same (xor_at_here i b xs zs e)
  | inr (e, r) ↦ absurd (ground arith)
]

xor_at_elsewhere :
    (i j b : ℕ) (xs ys : Bytes) → i ≢ j → xor_at i b xs ≡ ok ys → get_or ys j 0 ≡ get_or xs j 0
unfolding xor_at
xor_at_elsewhere i j b [] ys d h = cc
xor_at_elsewhere zero zero b (x ∷ xs) ys d h = absurd (d refl)
xor_at_elsewhere zero (suc j) b (x ∷ xs) ys d h = ground arith
xor_at_elsewhere (suc i) zero b (x ∷ xs) ys d h = elim (Result-cases (xor_at i b xs)) [
  | inl (zs, e) ↦ let same : ys ≡ x ∷ zs = ground arith in rw same refl
  | inr (e, r) ↦ absurd (ground arith)
]
xor_at_elsewhere (suc i) (suc j) b (x ∷ xs) ys d h = elim (Result-cases (xor_at i b xs)) [
  | inl (zs, e) ↦
      let same : ys ≡ x ∷ zs = ground arith in
      rw same (xor_at_elsewhere i j b xs zs (λ s. d (ap suc s)) e)
  | inr (e, r) ↦ absurd (ground arith)
]

-- The places that a counter of four bytes changes.
record Places (start nonce : Bytes) (a b c d : ℕ) : Type 0 where
  eighth : get_or nonce 8 0 ≡ bit_xor (get_or start 8 0) a
  ninth : get_or nonce 9 0 ≡ bit_xor (get_or start 9 0) b
  tenth : get_or nonce 10 0 ≡ bit_xor (get_or start 10 0) c
  eleventh : get_or nonce 11 0 ≡ bit_xor (get_or start 11 0) d

counter-Places :
    (a b c d : ℕ) (start nonce : Bytes)
    → xor_counter 0 (a ∷ b ∷ c ∷ d ∷ []) start ≡ ok nonce
    → (get_or nonce 0 0 ≡ get_or start 0 0) × Places start nonce a b c d
unfolding xor_counter
counter-Places a b c d start nonce h = elim (Result-cases (xor_at 8 a start)) [
  | inr (e, r) ↦ absurd (ground arith)
  | inl (n1, e1) ↦ elim (Result-cases (xor_at 9 b n1)) [
    | inr (e, r) ↦ absurd (ground arith)
    | inl (n2, e2) ↦ elim (Result-cases (xor_at 10 c n2)) [
      | inr (e, r) ↦ absurd (ground arith)
      | inl (n3, e3) ↦
          let e4 : xor_at 11 d n3 ≡ ok nonce = ground arith in
          let keep = λ (j : ℕ) (h8 : 8 ≢ j) (h9 : 9 ≢ j) (h10 : 10 ≢ j) (h11 : 11 ≢ j).
            xor_at_elsewhere 11 j d n3 nonce h11 e4
            ∙ xor_at_elsewhere 10 j c n2 n3 h10 e3
            ∙ xor_at_elsewhere 9 j b n1 n2 h9 e2
            ∙ xor_at_elsewhere 8 j a start n1 h8 e1 in
          (
            keep 0 (λ e. omega arith) (λ e. omega arith) (λ e. omega arith) (λ e. omega arith),
            record {
              eighth =
                  xor_at_elsewhere 11 8 d n3 nonce (λ e. omega arith) e4
                  ∙ xor_at_elsewhere 10 8 c n2 n3 (λ e. omega arith) e3
                  ∙ xor_at_elsewhere 9 8 b n1 n2 (λ e. omega arith) e2
                  ∙ xor_at_here 8 a start n1 e1;
              ninth =
                  xor_at_elsewhere 11 9 d n3 nonce (λ e. omega arith) e4
                  ∙ xor_at_elsewhere 10 9 c n2 n3 (λ e. omega arith) e3
                  ∙ xor_at_here 9 b n1 n2 e2
                  ∙ ap (λ (t : ℕ). bit_xor t b)
                      (xor_at_elsewhere 8 9 a start n1 (λ e. omega arith) e1);
              tenth =
                  xor_at_elsewhere 11 10 d n3 nonce (λ e. omega arith) e4
                  ∙ xor_at_here 10 c n2 n3 e3
                  ∙ ap (λ (t : ℕ). bit_xor t c)
                      (xor_at_elsewhere 9 10 b n1 n2 (λ e. omega arith) e2
                        ∙ xor_at_elsewhere 8 10 a start n1 (λ e. omega arith) e1);
              eleventh =
                  xor_at_here 11 d n3 nonce e4
                  ∙ ap (λ (t : ℕ). bit_xor t d)
                      (xor_at_elsewhere 10 11 c n2 n3 (λ e. omega arith) e3
                        ∙ xor_at_elsewhere 9 11 b n1 n2 (λ e. omega arith) e2
                        ∙ xor_at_elsewhere 8 11 a start n1 (λ e. omega arith) e1);
            },
          )
    ]
  ]
]

-- The places of a nonce, by the initial value, the bit of the direction and the counter.
nonce-Places :
    (civ nonce : Bytes) (direction a b c d : ℕ)
    → content_nonce civ direction (a ∷ b ∷ c ∷ d ∷ []) ≡ ok nonce
    → (get_or nonce 0 0 ≡ bit_xor (get_or (take 12 civ) 0 0) (bit_and direction 1 * 128))
      × Places (take 12 civ) nonce a b c d
unfolding content_nonce
nonce-Places civ nonce direction a b c d h =
    elim (Result-cases (xor_at 0 (bit_and direction 1 * 128) (take 12 civ))) [
      | inr (e, r) ↦ absurd (ground arith)
      | inl (start, e) ↦
          let (first, p) = counter-Places a b c d start nonce (ground arith) in
          let keep = λ (j : ℕ) (h0 : 0 ≢ j).
            xor_at_elsewhere 0 j (bit_and direction 1 * 128) (take 12 civ) start h0 e in
          let here = xor_at_here 0 (bit_and direction 1 * 128) (take 12 civ) start e in
          (
            first ∙ here,
            record {
              eighth = p.eighth ∙ ap (λ (t : ℕ). bit_xor t a) (keep 8 (λ e. omega arith));
              ninth = p.ninth ∙ ap (λ (t : ℕ). bit_xor t b) (keep 9 (λ e. omega arith));
              tenth = p.tenth ∙ ap (λ (t : ℕ). bit_xor t c) (keep 10 (λ e. omega arith));
              eleventh = p.eleventh ∙ ap (λ (t : ℕ). bit_xor t d) (keep 11 (λ e. omega arith));
            },
          )
    ]

same_byte : (x z a b : ℕ) → x ≡ bit_xor z a → x ≡ bit_xor z b → a ≡ b
same_byte x z a b h k = bit_xor_left_injective z a b (sym h ∙ k)

four_bytes :
    (n : ℕ)
    → be_bytes 4 n ≡ n / 256 / 256 / 256 % 256 ∷ n / 256 / 256 % 256 ∷ n / 256 % 256 ∷ n % 256 ∷ []
unfolding be_bytes
four_bytes n = refl

-- Under one initial value, the nonces of two counters below 2 ^ 32 differ, unless the counters are
-- the same and both are for the same direction.
pub content_nonce_injective :
    (civ nonce : Bytes) (direction direction' counter counter' : ℕ)
    → counter < 2 ^ 32
    → counter' < 2 ^ 32
    → content_nonce civ direction (be_bytes 4 counter) ≡ ok nonce
    → content_nonce civ direction' (be_bytes 4 counter') ≡ ok nonce
    → (counter ≡ counter') × (direction % 2 ≡ direction' % 2)
content_nonce_injective civ nonce direction direction' counter counter' small small' h h' =
    let n = counter in
    let m = counter' in
    let (f, p) =
      nonce-Places civ nonce direction (n / 256 / 256 / 256 % 256) (n / 256 / 256 % 256)
        (n / 256 % 256) (n % 256) (ap (content_nonce civ direction) (sym (four_bytes n)) ∙ h) in
    let (f', p') =
      nonce-Places civ nonce direction' (m / 256 / 256 / 256 % 256) (m / 256 / 256 % 256)
        (m / 256 % 256) (m % 256) (ap (content_nonce civ direction') (sym (four_bytes m)) ∙ h') in
    let start = take 12 civ in
    let bit =
      same_byte _ (get_or start 0 0) (bit_and direction 1 * 128) (bit_and direction' 1 * 128) f
        f' in
    let b8 =
      same_byte _ (get_or start 8 0) (n / 256 / 256 / 256 % 256) (m / 256 / 256 / 256 % 256)
        p.eighth p'.eighth in
    let b9 =
      same_byte _ (get_or start 9 0) (n / 256 / 256 % 256) (m / 256 / 256 % 256) p.ninth p'.ninth in
    let b10 = same_byte _ (get_or start 10 0) (n / 256 % 256) (m / 256 % 256) p.tenth p'.tenth in
    let b11 = same_byte _ (get_or start 11 0) (n % 256) (m % 256) p.eleventh p'.eleventh in
    (omega arith, omega (arith, bit_and-one direction, bit_and-one direction'))

module _ (suite : EccSuite) (laws : AeadLaws suite.aead) where
  -- The parts of what `encrypt_content` returns.
  encrypt_eq_ok :
      (ck civ pdu payload : Bytes) (counter direction : ℕ)
      → encrypt_content suite ck civ pdu counter direction ≡ ok payload
      → (nonce tag ciphertext : Bytes) × (counter < 2 ^ 32)
        × (content_nonce civ direction (be_bytes 4 counter) ≡ ok nonce)
        × (payload ≡ tag ++ (be_bytes 4 counter ++ ciphertext))
        × (length tag ≡ 16)
        × (ciphertext ++ tag
            ≡ suite.aead.encrypt ck nonce pdu (digest suite (associated_text ∷ []) 16))
  unfolding encrypt_content to_bytes content_nonce
  encrypt_eq_ok ck civ pdu payload counter direction h =
      elim (Result-cases (xor_at 0 (bit_and direction 0x01 * 2 ^ 7) (take 12 civ))) [
        | inr (e, q) ↦ absurd (ground arith)
        | inl (start, q) ↦ elim (Result-cases (xor_counter 0 (be_bytes 4 counter) start)) [
          | inr (e, r) ↦ absurd (ground arith)
          | inl (nonce, r) ↦
              let all = suite.aead.encrypt ck nonce pdu (digest suite (associated_text ∷ []) 16) in
              let size =
                laws.length_encrypt ck nonce pdu (digest suite (associated_text ∷ []) 16) in
              let cut = length all - 16 in
              (
                nonce,
                drop cut all,
                take cut all,
                ground arith,
                rw q r,
                ground arith,
                omega (arith, length-drop cut all, size),
                take-append-drop cut all,
              )
        ]
      ]

  -- What `encrypt_content` returns is decrypted by `decrypt_content` with the same keys and the same
  -- direction, to the PDU and the counter.
  pub decrypt-encrypt_content :
      (ck civ pdu payload : Bytes) (counter direction : ℕ)
      → encrypt_content suite ck civ pdu counter direction ≡ ok payload
      → decrypt_content suite ck civ payload direction ≡ ok (pdu, counter)
  unfolding decrypt_content
  decrypt-encrypt_content ck civ pdu payload counter direction h =
      let (nonce, tag, ciphertext, small, r, shape, size, whole) =
        encrypt_eq_ok ck civ pdu payload counter direction h in
      let cb = be_bytes 4 counter in
      let long : ltb (length (tag ++ (cb ++ ciphertext))) 20 ≡ false =
        ltb-false (length (tag ++ (cb ++ ciphertext))) 20 (
          omega (
            arith,
            length-append tag (cb ++ ciphertext),
            length-append cb ciphertext,
            length-be_bytes 4 counter,
            size,
          )) in
      let front = take-append tag (cb ++ ciphertext) 16 (sym size) in
      let middle =
        slice_middle tag cb ciphertext 16 20 (sym size)
          (omega (arith, size, length-be_bytes 4 counter)) in
      let back : drop 20 (tag ++ (cb ++ ciphertext)) ≡ ciphertext =
        drop-shift tag (cb ++ ciphertext) 20 4 (omega (arith, size))
        ∙ drop-append cb ciphertext 4 (omega (arith, length-be_bytes 4 counter)) in
      rw
        (
          shape,
          long,
          front,
          middle,
          back,
          r,
          whole,
          laws.decrypt_encrypt ck nonce pdu (digest suite (associated_text ∷ []) 16),
          from_bytes-be_bytes 4 counter (omega arith),
        )
        refl
