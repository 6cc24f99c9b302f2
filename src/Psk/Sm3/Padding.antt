-- ===== src/Psk/Sm3/Padding.antt =====
-- The padding of `sm3`.
use native.Mathlib.Decide.{dec_le}
use modbus_serial_security_p.Base.{
  ℕ, ◌+◌, ◌-◌, ◌*◌, ◌%◌, ◌^◌, ◌≤◌, ◌<◌, ◌≡◌, sym, ap, ◌∙◌, refl, [], ◌∷◌, ◌++◌, arith, Bytes,
  length, take, drop, take-append, length-append, length-replicate, replicate, drop-append,
  drop-shift, take-append_le, ok, err, overflow_error, to_bytes, to_bytes_lem, be_bytes,
  length-be_bytes, from_bytes, from_bytes-be_bytes,
}
use modbus_serial_security_p.Psk.Sm3.{pad}

abbrev zero_count : ℕ → ℕ
zero_count n = (56 + 64 - (n + 1) % 64) % 64

abbrev pub padding : Bytes → Bytes
padding m = (m ++ (0x80 ∷ [])) ++ (replicate (zero_count (length m)) 0 ++ be_bytes 8 (length m * 8))

length-marked : (m : Bytes) → length (m ++ (0x80 ∷ [])) ≡ length m + 1
length-marked m = length-append m (0x80 ∷ [])

-- `length.to_bytes(8, "big")` fits messages of fewer than 2 ^ 61 bytes.
pub pad_ok : (m : Bytes) → length m * 8 < 2 ^ 64 → pad m ≡ ok (padding m)
unfolding pad
pad_ok m h = rw (to_bytes_lem 8 (length m * 8) (omega arith), length-marked m) refl

pub pad_too_long : (m : Bytes) → 2 ^ 64 ≤ length m * 8 → pad m ≡ err overflow_error
unfolding pad to_bytes
pad_too_long m h = ground arith

pub length-padding : (m : Bytes) → length (padding m) ≡ length m + 1 + zero_count (length m) + 8
length-padding m = omega (
  arith,
  length-append (m ++ (0x80 ∷ []))
      (replicate (zero_count (length m)) 0 ++ be_bytes 8 (length m * 8)),
  length-append (replicate (zero_count (length m)) 0) (be_bytes 8 (length m * 8)),
  length-replicate {A = ℕ} (zero_count (length m)) 0,
  length-be_bytes 8 (length m * 8),
  length-marked m,
)

last_eight :
    (m : Bytes)
    → length m * 8 < 2 ^ 64
    → from_bytes (drop (length (padding m) - 8) (padding m)) ≡ length m * 8
last_eight m h =
    ap from_bytes (
      drop-shift (m ++ (0x80 ∷ [])) (zeros ++ bits) (length (padding m) - 8) (length zeros)
        (omega (arith, length-padding m, length-marked m, zeros_length))
      ∙ drop-append zeros bits (length zeros) refl)
    ∙ from_bytes-be_bytes 8 (length m * 8) (omega arith)
  where
    zeros : Bytes
    zeros = replicate (zero_count (length m)) 0

    bits : Bytes
    bits = be_bytes 8 (length m * 8)

    zeros_length : length zeros ≡ zero_count (length m)
    zeros_length = length-replicate {A = ℕ} (zero_count (length m)) 0

message_first : (m : Bytes) → take (length m) (padding m) ≡ m
message_first m =
    take-append_le (length m) (m ++ (0x80 ∷ [])) _ (omega (arith, length-marked m))
    ∙ take-append m (0x80 ∷ []) (length m) refl

pad_eq_ok : (m padded : Bytes) → pad m ≡ ok padded → (length m * 8 < 2 ^ 64) × (padded ≡ padding m)
pad_eq_ok m padded h = elim (dec_le (2 ^ 64) (length m * 8)) [
  | yes long ↦ cc (pad_too_long m long)
  | no fits ↦ (omega arith, cc (pad_ok m (omega arith)))
]

same_message : (m other padded : Bytes) → pad m ≡ ok padded → pad other ≡ ok padded → other ≡ m
same_message m other padded h k =
    let (fm, em) = pad_eq_ok m padded h in
    let (fo, eo) = pad_eq_ok other padded k in
    let same : padding other ≡ padding m = sym eo ∙ em in
    let size : length other ≡ length m = omega (
      arith,
      last_eight m fm,
      last_eight other fo,
      ap (λ (l : Bytes). from_bytes (drop (length l - 8) l)) same,
    ) in
    sym (message_first other) ∙ (λ i. take (size i) (same i)) ∙ message_first m

-- A message that can be padded is padded with at least nine and at most 72 bytes to whole blocks
-- of 64 bytes, the message first, and no other message is padded to the same bytes.
pub pad_whole_blocks :
    (m padded : Bytes)
    → pad m ≡ ok padded
    → (length padded % 64 ≡ 0)
      × (length m + 9 ≤ length padded)
      × (length padded ≤ length m + 72)
      × (take (length m) padded ≡ m)
      × ((other : Bytes) → pad other ≡ ok padded → other ≡ m)
pad_whole_blocks m padded h =
    let (fits, e) = pad_eq_ok m padded h in
    let size = ap length e in
    (
      omega (arith, size, length-padding m),
      omega (arith, size, length-padding m),
      omega (arith, size, length-padding m),
      rw e (message_first m),
      λ other k. same_message m other padded h k,
    )
