-- ===== src/Psk/Sm3/Digest.antt =====
-- The result of `sm3`.
use modbus_serial_security_p.Base.{
  ℕ, zero, suc, ◌/◌, ◌+◌, ◌*◌, ◌^◌, ◌<◌, ◌≡◌, refl, List, [], ◌∷◌, ◌++◌, arith, All, All-append,
  Bytes, IsByte, IsBytes, length, length-append, ok, to_bytes_lem, be_bytes, length-be_bytes,
  be_bytes-IsBytes,
}
use modbus_serial_security_p.Psk.Sm3.{
  Registers, iv, compress, blocks, join_words, register_list, sm3,
}
use modbus_serial_security_p.Psk.Sm3.Padding.{padding, pad_ok}

abbrev IsWord : ℕ → Type 0
IsWord x = x < 4294967296

abbrev AreWords : Registers → Type 0
AreWords r = All IsWord (register_list r)

join_words_ok :
    (xs : List ℕ)
    → All IsWord xs
    → (out : Bytes) × (join_words xs ≡ ok out) × (length out ≡ 4 * length xs) × IsBytes out
unfolding join_words
join_words_ok [] h = ([], refl, refl, tt)
join_words_ok (x ∷ xs) (p, h) =
    let (rest, e, size, bytes) = join_words_ok xs h in
    (
      be_bytes 4 x ++ rest,
      rw (to_bytes_lem 4 x p, e) refl,
      omega (arith, size, length-append (be_bytes 4 x) rest, length-be_bytes 4 x),
      All-append IsByte (be_bytes 4 x) rest (be_bytes-IsBytes 4 x) bytes,
    )

compress-AreWords : (state : Registers) (block : Bytes) → AreWords (compress state block)
unfolding compress
compress-AreWords state block = omega arith

blocks-AreWords :
    (n offset : ℕ) (padded : Bytes) (state : Registers)
    → AreWords state
    → AreWords (blocks n offset padded state)
unfolding blocks
blocks-AreWords zero offset padded state h = h
blocks-AreWords (suc n) offset padded state h =
    blocks-AreWords n (offset + 64) padded _ (compress-AreWords state _)

-- The digest of every message of fewer than 2 ^ 61 bytes is 32 bytes long, and `sm3` raises
-- nothing on it.
pub sm3_total :
    (m : Bytes)
    → length m * 8 < 2 ^ 64
    → (out : Bytes) × (sm3 m ≡ ok out) × (length out ≡ 32) × IsBytes out
unfolding sm3
sm3_total m h =
    let n = (length (padding m) + 63) / 64 in
    rw (pad_ok m h) (
      join_words_ok (register_list (blocks n 0 (padding m) iv))
        (blocks-AreWords n 0 (padding m) iv (omega arith)))
