-- ===== src/Psk/Rtu/Corruption.antt =====
-- `RtuFrame.decode` on a frame with a byte changed on the line.
use native.Mathlib.Decide.{dec_le}
use modbus_serial_security_p.Base.{
  ℕ, suc, ◌+◌, ◌-◌, ◌≤◌, ◌<◌, ◌≡◌, ◌≢◌, sym, ap, ◌∙◌, ◌++◌, arith, Bytes, IsByte, IsBytes, length,
  take, drop, length-append, take-append_le, drop-append_le, take-shift, drop-shift, subst,
  All-append, All-append_split, All-take, ok, err, ◌∷◌, le_bytes-IsBytes, from_bytes_little,
  protocol_error, bad_crc, from_bytes_little_injective,
}
use modbus_serial_security_p.Crc.{crc16_modbus}
use modbus_serial_security_p.Crc.Detect.{crc16_modbus-detects_byte}
use modbus_serial_security_p.Psk.Rtu.{RtuFrame, encode, decode}
use modbus_serial_security_p.Psk.Rtu.Laws.{
  encode_eq_ok, checked_body, checked_crc, body_of, checked, length-checked,
}

-- The checksum of the body is the number that the last two bytes hold.
abbrev Agrees : Bytes → Type 0
Agrees raw =
    crc16_modbus (take (length raw - 2) raw) ≡ from_bytes_little (drop (length raw - 2) raw)

decode_disagrees :
    (raw : Bytes) → 4 ≤ length raw → ¬ (Agrees raw) → decode raw ≡ err (protocol_error bad_crc)
unfolding decode
decode_disagrees raw h n = ground arith

checked-Agrees : (body : Bytes) → Agrees (checked body)
checked-Agrees body = ap crc16_modbus (checked_body body) ∙ sym (checked_crc body)

module _ (pre post : Bytes) where
  split_at : (x : ℕ) → length (pre ++ (x ∷ post)) ≡ length pre + suc (length post)
  split_at x = length-append pre (x ∷ post)

  -- The byte stands before the checksum.
  in_body :
      (a b : ℕ)
      → 2 ≤ length post
      → IsBytes pre
      → IsBytes post
      → IsByte a
      → IsByte b
      → a ≢ b
      → Agrees (pre ++ (a ∷ post))
      → ¬ (Agrees (pre ++ (b ∷ post)))
  in_body a b enough hp hq ha hb differs good bad =
      crc16_modbus-detects_byte pre (take k post) a b hp (All-take IsByte k post hq) ha hb differs
        (sym (front a) ∙ good ∙ back a ∙ sym (back b) ∙ sym bad ∙ front b)
    where
      k : ℕ
      k = length post - 2

      at : (x : ℕ) → length (pre ++ (x ∷ post)) - 2 ≡ length pre + suc k
      at x = omega (arith, split_at x)

      front :
          (x : ℕ)
          → crc16_modbus (take (length (pre ++ (x ∷ post)) - 2) (pre ++ (x ∷ post)))
            ≡ crc16_modbus (pre ++ (x ∷ take k post))
      front x = ap crc16_modbus (take-shift pre (x ∷ post) _ (suc k) (at x))

      back :
          (x : ℕ)
          → from_bytes_little (drop (length (pre ++ (x ∷ post)) - 2) (pre ++ (x ∷ post)))
            ≡ from_bytes_little (drop k post)
      back x = ap from_bytes_little (drop-shift pre (x ∷ post) _ (suc k) (at x))

  -- The byte is one of the checksum.
  in_crc :
      (a b : ℕ)
      → length post < 2
      → 2 ≤ length pre + suc (length post)
      → a ≢ b
      → Agrees (pre ++ (a ∷ post))
      → ¬ (Agrees (pre ++ (b ∷ post)))
  in_crc a b few enough differs good bad = differs (
      from_bytes_little_injective (drop k pre) post a b
        (sym (back a) ∙ sym good ∙ front a ∙ sym (front b) ∙ bad ∙ back b))
    where
      k : ℕ
      k = length pre + suc (length post) - 2

      cut : (x : ℕ) → length (pre ++ (x ∷ post)) - 2 ≡ k
      cut x = omega (arith, split_at x)

      front :
          (x : ℕ)
          → crc16_modbus (take (length (pre ++ (x ∷ post)) - 2) (pre ++ (x ∷ post)))
            ≡ crc16_modbus (take k pre)
      front x =
          ap (λ (j : ℕ). crc16_modbus (take j (pre ++ (x ∷ post)))) (cut x)
          ∙ ap crc16_modbus (take-append_le k pre (x ∷ post) (omega arith))

      back :
          (x : ℕ)
          → from_bytes_little (drop (length (pre ++ (x ∷ post)) - 2) (pre ++ (x ∷ post)))
            ≡ from_bytes_little (drop k pre ++ (x ∷ post))
      back x =
          ap (λ (j : ℕ). from_bytes_little (drop j (pre ++ (x ∷ post)))) (cut x)
          ∙ ap from_bytes_little (drop-append_le k pre (x ∷ post) (omega arith))

-- A frame that `encode` wrote for a payload of bytes, with one byte replaced by a different byte,
-- wherever it stands, is refused by `decode` with the checksum error.
pub decode_changed_byte :
    (f : RtuFrame) (pre post : Bytes) (a b : ℕ)
    → encode f ≡ ok (pre ++ (a ∷ post))
    → IsBytes f.payload
    → IsByte b
    → a ≢ b
    → decode (pre ++ (b ∷ post)) ≡ err (protocol_error bad_crc)
decode_changed_byte f pre post a b e hp hb differs =
    let (hs, hf, shape) = encode_eq_ok f (pre ++ (a ∷ post)) e in
    let good : Agrees (pre ++ (a ∷ post)) = subst Agrees (sym shape) (checked-Agrees (body_of f)) in
    let bytes : IsBytes (pre ++ (a ∷ post)) =
      subst IsBytes (sym shape)
        (All-append IsByte (body_of f) _ (hs, (hf, hp)) (le_bytes-IsBytes 2 _)) in
    let (hpre, rest) = All-append_split IsByte pre (a ∷ post) bytes in
    let size : 4 ≤ length (pre ++ (a ∷ post)) =
      subst (λ l. 4 ≤ length l) (sym shape) (omega (arith, length-checked (body_of f))) in
    decode_disagrees (pre ++ (b ∷ post))
      (omega (arith, size, split_at pre post a, split_at pre post b))
      (elim (dec_le 2 (length post)) [
        | yes many ↦ in_body pre post a b many hpre rest.1 rest.0 hb differs good
        | no few ↦
            in_crc pre post a b (omega arith) (omega (arith, size, split_at pre post a)) differs
              good
      ])
