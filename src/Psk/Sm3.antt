-- ===== src/Psk/Sm3.antt =====
-- The function `sm3`, the GB/T 32905 digest, with its helpers. Words are natural numbers below
-- 2 ^ 32, `& 0xFFFFFFFF` is `% 2 ^ 32`, and `~x & z` is `z - (x & z)`, the bits of `z` not in `x`.
pub mod Padding
pub mod Digest
pub mod Tests
use modbus_serial_security_p.Base.{
  ℕ, zero, suc, ◌+◌, ◌-◌, ◌*◌, ◌/◌, ◌%◌, ◌^◌, List, [], ◌∷◌, ◌++◌, bit_and, bit_or, bit_xor, Bytes,
  length, slice, get_or, replicate, leb, if◌then◌else◌, Result, ok, ◌>>=◌, to_bytes, from_bytes,
}

abbrev mask32 : ℕ → ℕ
mask32 x = x % 4294967296

-- The eight registers.
pub record Registers : Type 0 where
  pub a : ℕ
  pub b : ℕ
  pub c : ℕ
  pub d : ℕ
  pub e : ℕ
  pub f : ℕ
  pub g : ℕ
  pub h : ℕ

abbrev iv : Registers
iv = record {
  a = 0x7380166F;
  b = 0x4914B2B9;
  c = 0x172442D7;
  d = 0xDA8A0600;
  e = 0xA96F30BC;
  f = 0x163138AA;
  g = 0xE38DEE4D;
  h = 0xB0FB0E4E;
}

rotl : ℕ → ℕ → ℕ
rotl x n = bit_or (mask32 (x * 2 ^ (n % 32))) (x / 2 ^ (32 - n % 32))

p0 : ℕ → ℕ
unfolding rotl
p0 x = bit_xor (bit_xor x (rotl x 9)) (rotl x 17)

p1 : ℕ → ℕ
unfolding rotl
p1 x = bit_xor (bit_xor x (rotl x 15)) (rotl x 23)

ff : ℕ → ℕ → ℕ → ℕ → ℕ
ff j x y z =
    if leb j 15
    then bit_xor (bit_xor x y) z
    else bit_or (bit_or (bit_and x y) (bit_and x z)) (bit_and y z)

gg : ℕ → ℕ → ℕ → ℕ → ℕ
gg j x y z = if leb j 15 then bit_xor (bit_xor x y) z else bit_or (bit_and x y) (z - bit_and x z)

-- `data + b"\x80"`, zero bytes up to 56 modulo 64, and the length in bits in eight bytes.
unfoldable pub pad : Bytes → Result Bytes
pad message = do
  let marked = message ++ (0x80 ∷ [])
  let zeros = replicate ((56 + 64 - length marked % 64) % 64) 0
  bits ← to_bytes 8 (length message * 8)
  ok (marked ++ (zeros ++ bits))

-- `[int.from_bytes(block[i : i + 4], "big") for i in range(0, 64, 4)]`, from `i` on.
block_words : ℕ → ℕ → Bytes → List ℕ
block_words zero i block = []
block_words (suc n) i block = from_bytes (slice block i (i + 4)) ∷ block_words n (i + 4) block

-- `w[i]`: every index of the code lies within the list.
abbrev at : List ℕ → ℕ → ℕ
at w i = get_or w i 0

-- `for j in range(16, 68)`, from `j` on.
expand : ℕ → ℕ → List ℕ → List ℕ
expand zero j w = w
expand (suc n) j w =
    let mixed = bit_xor (bit_xor (at w (j - 16)) (at w (j - 9))) (rotl (at w (j - 3)) 15) in
    let item = bit_xor (bit_xor (p1 mixed) (rotl (at w (j - 13)) 7)) (at w (j - 6)) in
    expand n (suc j) (w ++ (mask32 item ∷ []))

-- `w1[j]`
abbrev folded : List ℕ → ℕ → ℕ
folded w j = mask32 (bit_xor (at w j) (at w (j + 4)))

-- The body of the loop over `j`.
round : List ℕ → ℕ → Registers → Registers
round w j r =
    let tj : ℕ = if leb j 15 then 0x79CC4519 else 0x7A879D8A in
    let ss1 = rotl (mask32 (rotl r.a 12 + r.e + rotl tj j)) 7 in
    let ss2 = bit_xor ss1 (rotl r.a 12) in
    let tt1 = mask32 (ff j r.a r.b r.c + r.d + ss2 + folded w j) in
    let tt2 = mask32 (gg j r.e r.f r.g + r.h + ss1 + at w j) in
    record {
      a = tt1;
      b = r.a;
      c = rotl r.b 9;
      d = r.c;
      e = p0 tt2;
      f = r.e;
      g = rotl r.f 19;
      h = r.g;
    }

-- `for j in range(64)`, from `j` on.
rounds : ℕ → ℕ → List ℕ → Registers → Registers
rounds zero j w r = r
rounds (suc n) j w r = rounds n (suc j) w (round w j r)

abbrev mix : ℕ → ℕ → ℕ
mix x y = mask32 (bit_xor x y)

-- `[(x ^ y) & 0xFFFFFFFF for x, y in zip(state, compressed)]`
abbrev mix_all : Registers → Registers → Registers
mix_all s t = record {
  a = mix s.a t.a;
  b = mix s.b t.b;
  c = mix s.c t.c;
  d = mix s.d t.d;
  e = mix s.e t.e;
  f = mix s.f t.f;
  g = mix s.g t.g;
  h = mix s.h t.h;
}

-- One block of 64 bytes.
compress : Registers → Bytes → Registers
unfolding block_words expand rounds round rotl p0 p1 ff gg
compress state block = mix_all state (rounds 64 0 (expand 52 16 (block_words 16 0 block)) state)

-- `for offset in range(0, len(padded), 64)`, from `offset` on.
blocks : ℕ → ℕ → Bytes → Registers → Registers
blocks zero offset padded state = state
blocks (suc n) offset padded state =
    blocks n (offset + 64) padded (compress state (slice padded offset (offset + 64)))

-- `b"".join(x.to_bytes(4, "big") for x in state)`
join_words : List ℕ → Result Bytes
join_words [] = ok []
join_words (x ∷ xs) = do word ← to_bytes 4 x; rest ← join_words xs; ok (word ++ rest)

abbrev register_list : Registers → List ℕ
register_list r = r.a ∷ r.b ∷ r.c ∷ r.d ∷ r.e ∷ r.f ∷ r.g ∷ r.h ∷ []

-- The digest of the padded message. A range of step 64 has one round for each 64 bytes begun.
finish : Bytes → Result Bytes
finish padded = join_words (register_list (blocks ((length padded + 63) / 64) 0 padded iv))

unfoldable pub sm3 : Bytes → Result Bytes
unfolding pad finish blocks compress join_words
sm3 message = do padded ← pad message; finish padded
