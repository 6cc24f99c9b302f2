-- ===== src/Psk/Ber/RoundTrip.antt =====
-- `encode_ber_length`, and `decode_ber_length` on what it writes.
use modbus_serial_security_p.Base.{
  ℕ, suc, ◌+◌, ◌-◌, ◌/◌, ◌%◌, ◌≤◌, ◌<◌, ◌≡◌, ap, ◌∙◌, Bool-cases, inl, inr, [], ◌∷◌, ◌++◌, arith,
  Bytes, length, slice, length-append, slice-shift, take-append, refl, ok, err, to_byte_string,
  to_bytes, be_bytes, from_bytes, index, index-shift, bit_and, value_error, ltb, if◌then◌else◌,
}
use modbus_serial_security_p.Psk.Ber.{encode_ber_length, decode_ber_length}

-- The minimal definite form of X.690 for lengths below 65536.
abbrev pub ber_bytes : ℕ → Bytes
ber_bytes n =
    if ltb n 128
    then n ∷ []
    else if ltb n 256
    then 0x81 ∷ n ∷ []
    else 0x82 ∷ (n / 256 % 256) ∷ (n % 256) ∷ []

-- The encoder writes the minimal definite form of every length up to 65535 and refuses the others.
pub encode_ber_length_lem :
    (n : ℕ) → encode_ber_length n ≡ (if ltb n 65536 then ok (ber_bytes n) else err value_error)
unfolding encode_ber_length to_byte_string to_bytes be_bytes
encode_ber_length_lem n = ground arith

pub length-encode_ber_length : (n : ℕ) (enc : Bytes) → encode_ber_length n ≡ ok enc → 1 ≤ length enc
length-encode_ber_length n enc h = ground (arith, encode_ber_length_lem n)

decode_short :
    (raw : Bytes) (off b : ℕ)
    → index raw off ≡ ok b
    → off < length raw
    → b < 128
    → decode_ber_length raw off ≡ ok (b, off + 1)
unfolding decode_ber_length
decode_short raw off b e h lt = ground arith

decode_counted :
    (raw : Bytes) (off b count n stop : ℕ)
    → index raw off ≡ ok b
    → 128 ≤ b
    → bit_and b 0x7F ≡ count
    → 1 ≤ count
    → count ≤ 2
    → off + 1 + count ≤ length raw
    → from_bytes (slice raw (off + 1) (off + 1 + count)) ≡ n
    → off + 1 + count ≡ stop
    → decode_ber_length raw off ≡ ok (n, stop)
unfolding decode_ber_length
decode_counted raw off b count n stop e hb hc lo hi fits hn hs = ground arith

-- The length bytes `low` behind a prefix and a first byte `b`.
decode_behind :
    (pre ys low : Bytes) (b count n : ℕ)
    → 128 ≤ b
    → bit_and b 0x7F ≡ count
    → 1 ≤ count
    → count ≤ 2
    → length low ≡ count
    → from_bytes low ≡ n
    → decode_ber_length (pre ++ (b ∷ (low ++ ys))) (length pre)
      ≡ ok (n, length pre + suc (length low))
unfolding index
decode_behind pre ys low b count n hb hc lo hi hl hn =
    decode_counted (pre ++ (b ∷ (low ++ ys))) (length pre) b count n (length pre + suc (length low))
      (index-shift pre (b ∷ (low ++ ys)) (length pre) 0 (omega arith)) hb hc lo hi
      (omega (arith, length-append pre (b ∷ (low ++ ys)), length-append low ys))
      (ap from_bytes (
          slice-shift pre (b ∷ (low ++ ys)) (length pre + 1) (length pre + 1 + count) 1 (1 + count)
            (omega arith) (omega arith)
          ∙ take-append low ys (1 + count - 1) (omega arith))
        ∙ hn)
      (omega arith)

decode_at :
    (pre ys : Bytes) (n : ℕ)
    → n < 65536
    → decode_ber_length (pre ++ (ber_bytes n ++ ys)) (length pre)
      ≡ ok (n, length pre + length (ber_bytes n))
unfolding index from_bytes
decode_at pre ys n h = elim (Bool-cases (ltb n 128)) [
  | inl short ↦ rw short (
      decode_short (pre ++ (n ∷ ys)) (length pre) n
        (index-shift pre (n ∷ ys) (length pre) 0 (omega arith))
        (omega (arith, length-append pre (n ∷ ys))) (ground arith))
  | inr long ↦ elim (Bool-cases (ltb n 256)) [
    | inl one ↦
        rw (long, one)
          (decode_behind pre ys (n ∷ []) 129 1 n (omega arith) refl (omega arith) (omega arith) refl
            (omega arith))
    | inr two ↦
        rw (long, two)
          (decode_behind pre ys ((n / 256 % 256) ∷ (n % 256) ∷ []) 130 2 n (omega arith) refl
            (omega arith) (omega arith) refl (ground arith))
  ]
]

-- A length that the encoder writes is read back behind any prefix and before any rest, and the
-- offset returned stands right behind it.
pub decode-encode_ber_length :
    (pre ys enc : Bytes) (n : ℕ)
    → encode_ber_length n ≡ ok enc
    → decode_ber_length (pre ++ (enc ++ ys)) (length pre) ≡ ok (n, length pre + length enc)
decode-encode_ber_length pre ys enc n h = elim (Bool-cases (ltb n 65536)) [
  | inl fits ↦
      let e : ber_bytes n ≡ enc = cc (encode_ber_length_lem n, fits) in
      rw (← e) (decode_at pre ys n (ground arith))
  | inr large ↦ cc (encode_ber_length_lem n, large)
]
