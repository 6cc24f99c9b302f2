-- ===== src/Crc/Detect.antt =====
-- The range of `crc16_modbus`, and changes of one byte.
use modbus_serial_security_p.Base.{
  ℕ, zero, suc, ◌/◌, ◌≤◌, ◌<◌, ◌≡◌, refl, ◌≢◌, ◌∙◌, sym, Bool, true, ◌&&◌, [], ◌∷◌, ◌++◌, bit_xor,
  arith, Bytes, IsByte, IsBytes, All-append, leb,
}
use modbus_serial_security_p.Base.Bits.{
  bit_and-one, bit_xor-lt, bit_xor_left_injective, bit_xor_right_injective,
}
use modbus_serial_security_p.Crc.{crc_bit, crc_bits, crc_byte, crc_loop, crc16_modbus}

-- The polynomial sets the top bit of a number of 15 bits.
top_set_below : ℕ → Bool
top_set_below zero = true
top_set_below (suc n) = leb 32768 (bit_xor n 0xA001) && top_set_below n

top_set_sound : (n x : ℕ) → top_set_below n ≡ true → x < n → 32768 ≤ bit_xor x 0xA001
unfolding top_set_below
top_set_sound zero x h lt = absurd (omega arith)
top_set_sound (suc n) x h lt = ground (arith, top_set_sound n x)

top_set_table : top_set_below 32768 ≡ true
unfolding top_set_below
top_set_table = refl

top_set : (x : ℕ) → x < 32768 → 32768 ≤ bit_xor x 0xA001
top_set x h = top_set_sound 32768 x top_set_table h

crc_bit-lt : (c : ℕ) → c < 65536 → crc_bit c < 65536
unfolding crc_bit
crc_bit-lt c h = ground (arith, bit_xor-lt 16 (c / 2) 0xA001)

crc_bit_injective : (c d : ℕ) → c < 65536 → d < 65536 → crc_bit c ≡ crc_bit d → c ≡ d
unfolding crc_bit
crc_bit_injective c d hc hd e = ground (
  arith,
  bit_and-one c,
  bit_and-one d,
  top_set (c / 2) (omega arith),
  top_set (d / 2) (omega arith),
  bit_xor_right_injective 0xA001 (c / 2) (d / 2),
)

crc_bits-lt : (n c : ℕ) → c < 65536 → crc_bits n c < 65536
unfolding crc_bits
crc_bits-lt zero c h = h
crc_bits-lt (suc n) c h = crc_bits-lt n (crc_bit c) (crc_bit-lt c h)

crc_bits_injective : (n c d : ℕ) → c < 65536 → d < 65536 → crc_bits n c ≡ crc_bits n d → c ≡ d
unfolding crc_bits
crc_bits_injective zero c d hc hd e = e
crc_bits_injective (suc n) c d hc hd e =
    crc_bit_injective c d hc hd
      (crc_bits_injective n (crc_bit c) (crc_bit d) (crc_bit-lt c hc) (crc_bit-lt d hd) e)

crc_byte-lt : (c b : ℕ) → c < 65536 → IsByte b → crc_byte c b < 65536
unfolding crc_byte
crc_byte-lt c b hc hb = crc_bits-lt 8 (bit_xor c b) (bit_xor-lt 16 c b hc (omega arith))

crc_loop-lt : (c : ℕ) (bs : Bytes) → c < 65536 → IsBytes bs → crc_loop c bs < 65536
unfolding crc_loop
crc_loop-lt c [] hc h = hc
crc_loop-lt c (b ∷ bs) hc (hb, h) = crc_loop-lt (crc_byte c b) bs (crc_byte-lt c b hc hb) h

crc_loop-append : (c : ℕ) (xs ys : Bytes) → crc_loop c (xs ++ ys) ≡ crc_loop (crc_loop c xs) ys
unfolding crc_loop
crc_loop-append c [] ys = refl
crc_loop-append c (x ∷ xs) ys = crc_loop-append (crc_byte c x) xs ys

-- The register after a suffix determines the register before it.
crc_loop_injective :
    (bs : Bytes) (c d : ℕ)
    → c < 65536
    → d < 65536
    → IsBytes bs
    → crc_loop c bs ≡ crc_loop d bs
    → c ≡ d
unfolding crc_loop crc_byte
crc_loop_injective [] c d hc hd h e = e
crc_loop_injective (b ∷ bs) c d hc hd (hb, h) e = bit_xor_right_injective b c d (
    crc_bits_injective 8 (bit_xor c b) (bit_xor d b) (bit_xor-lt 16 c b hc (omega arith))
      (bit_xor-lt 16 d b hd (omega arith))
      (crc_loop_injective bs (crc_byte c b) (crc_byte d b) (crc_byte-lt c b hc hb)
        (crc_byte-lt d b hd hb) h e))

pub crc16_modbus-lt : (bs : Bytes) → crc16_modbus bs < 65536
unfolding crc16_modbus
crc16_modbus-lt bs = omega arith

crc16_modbus-loop : (bs : Bytes) → IsBytes bs → crc16_modbus bs ≡ crc_loop 0xFFFF bs
unfolding crc16_modbus
crc16_modbus-loop bs h = omega (arith, crc_loop-lt 0xFFFF bs (omega arith) h)

-- Two byte strings that differ in one byte at the same place have different checksums.
pub crc16_modbus-detects_byte :
    (pre post : Bytes) (a b : ℕ)
    → IsBytes pre
    → IsBytes post
    → IsByte a
    → IsByte b
    → a ≢ b
    → crc16_modbus (pre ++ (a ∷ post)) ≢ crc16_modbus (pre ++ (b ∷ post))
crc16_modbus-detects_byte pre post a b hp hq ha hb differs e = differs (
    bit_xor_left_injective c a b (
      crc_bits_injective 8 (bit_xor c a) (bit_xor c b) (bit_xor-lt 16 c a hc (omega arith))
        (bit_xor-lt 16 c b hc (omega arith)) (unfold crc_byte in same_byte)))
  where
    c : ℕ
    c = crc_loop 0xFFFF pre

    hc : c < 65536
    hc = crc_loop-lt 0xFFFF pre (omega arith) hp

    loop_of : (x : ℕ) → IsByte x → crc16_modbus (pre ++ (x ∷ post)) ≡ crc_loop (crc_byte c x) post
    loop_of x hx =
        crc16_modbus-loop (pre ++ (x ∷ post)) (All-append IsByte pre (x ∷ post) hp (hx, hq))
        ∙ crc_loop-append 0xFFFF pre (x ∷ post)
        ∙ (unfold crc_loop in refl)

    same_byte : crc_byte c a ≡ crc_byte c b
    same_byte =
        crc_loop_injective post (crc_byte c a) (crc_byte c b) (crc_byte-lt c a hc ha)
          (crc_byte-lt c b hc hb) hq (sym (loop_of a ha) ∙ e ∙ loop_of b hb)
