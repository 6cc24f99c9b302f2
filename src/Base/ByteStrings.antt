-- ===== src/Base/ByteStrings.antt =====
-- Python's `bytes` as lists of numbers, with `bytes([…])`, `to_bytes`, `from_bytes` and indexing.
use Prim.Native.Nat.{ℕ, zero, suc, ◌+◌, ◌*◌, ◌/◌, ◌%◌, ◌^◌, ◌<◌}
use mathlib.Core.Path.{◌≡◌, refl, ap, ◌∙◌}
use mathlib.Core.Bool.{Bool, true, false, ◌&&◌}
use mathlib.Core.List.{List, [], ◌∷◌, ◌++◌, append-nil, append_assoc}
use mathlib.Core.Option.{Option, none, some}
use native.Mathlib.Omega.{arith}
use native.Mathlib.Nat.{pow-suc}
use modbus_serial_security_p.Base.Tests.{ltb, ◌==◌, if◌then◌else◌}
use modbus_serial_security_p.Base.Lists.{
  length, get_elem?, length-append, get_elem?-shift, get_elem?-some, All, All-append,
}
use modbus_serial_security_p.Base.Outcome.{
  Result, ok, err, IsProtocolSafe, returns, value_error, overflow_error, index_error,
}

abbrev pub Bytes : Type 0
Bytes = List ℕ

abbrev pub IsByte : ℕ → Type 0
IsByte b = b < 256

abbrev pub IsBytes : Bytes → Type 0
IsBytes bs = All IsByte bs

abbrev all_bytes : List ℕ → Bool
all_bytes [] = true
all_bytes (x ∷ xs) = ltb x 256 && all_bytes xs

-- `bytes(xs)`: a number of 256 or more is a ValueError.
unfoldable pub to_byte_string : List ℕ → Result Bytes
to_byte_string xs = if all_bytes xs then ok xs else err value_error

-- The `k` bytes of `n`, the most significant first.
unfoldable pub be_bytes : ℕ → ℕ → Bytes
be_bytes zero n = []
be_bytes (suc k) n = be_bytes k (n / 256) ++ (n % 256 ∷ [])

-- `n.to_bytes(k, "big")`
unfoldable pub to_bytes : ℕ → ℕ → Result Bytes
to_bytes k n = if ltb n (256 ^ k) then ok (be_bytes k n) else err overflow_error

abbrev from_bytes_acc : ℕ → Bytes → ℕ
from_bytes_acc acc [] = acc
from_bytes_acc acc (b ∷ bs) = from_bytes_acc (acc * 256 + b) bs

-- `int.from_bytes(bs, "big")`
unfoldable pub from_bytes : Bytes → ℕ
from_bytes bs = from_bytes_acc 0 bs

or_index_error : Option ℕ → Result ℕ
or_index_error none = err index_error
or_index_error (some b) = ok b

-- `bs[i]`
unfoldable pub index : Bytes → ℕ → Result ℕ
unfolding or_index_error
index bs i = or_index_error (get_elem? bs i)

-- `a == b` on `bytes`
unfoldable pub bytes_eq : Bytes → Bytes → Bool
bytes_eq [] [] = true
bytes_eq [] (b ∷ bs) = false
bytes_eq (a ∷ as') [] = false
bytes_eq (a ∷ as') (b ∷ bs) = a == b && bytes_eq as' bs

pub to_byte_string_lem : (xs : List ℕ) → IsBytes xs → to_byte_string xs ≡ ok xs
unfolding to_byte_string
to_byte_string_lem [] h = refl
to_byte_string_lem (x ∷ xs) (p, h) = ground (arith, to_byte_string_lem xs h)

pub length-be_bytes : (k n : ℕ) → length (be_bytes k n) ≡ k
unfolding be_bytes
length-be_bytes zero n = refl
length-be_bytes (suc k) n =
    length-append (be_bytes k (n / 256)) (n % 256 ∷ []) ∙ omega (arith, length-be_bytes k (n / 256))

pub be_bytes-IsBytes : (k n : ℕ) → IsBytes (be_bytes k n)
unfolding be_bytes
be_bytes-IsBytes zero n = tt
be_bytes-IsBytes (suc k) n =
    All-append IsByte (be_bytes k (n / 256)) (n % 256 ∷ []) (be_bytes-IsBytes k (n / 256))
      (omega arith)

from_bytes_acc-snoc :
    (acc : ℕ) (bs : Bytes) (b : ℕ)
    → from_bytes_acc acc (bs ++ (b ∷ [])) ≡ from_bytes_acc acc bs * 256 + b
from_bytes_acc-snoc acc [] b = refl
from_bytes_acc-snoc acc (x ∷ bs) b = from_bytes_acc-snoc (acc * 256 + x) bs b

-- `from_bytes` reads back what `to_bytes` writes.
pub from_bytes-be_bytes : (k n : ℕ) → n < 256 ^ k → from_bytes (be_bytes k n) ≡ n
unfolding from_bytes be_bytes
from_bytes-be_bytes zero n h = omega arith
from_bytes-be_bytes (suc k) n h =
    from_bytes_acc-snoc 0 (be_bytes k (n / 256)) (n % 256)
    ∙ omega (arith, from_bytes-be_bytes k (n / 256) (omega (arith, pow-suc 256 k)))

pub to_bytes_lem : (k n : ℕ) → n < 256 ^ k → to_bytes k n ≡ ok (be_bytes k n)
unfolding to_bytes
to_bytes_lem k n h = ground arith

pub index-shift : (pre ys : Bytes) (i k : ℕ) → i ≡ length pre + k → index (pre ++ ys) i ≡ index ys k
unfolding index
index-shift pre ys i k h = ap or_index_error (get_elem?-shift pre ys i k h)

-- An index within the bounds does not raise.
pub index_ok : (bs : Bytes) (i : ℕ) → i < length bs → (b : ℕ) × (index bs i ≡ ok b)
unfolding index
index_ok bs i h = let (b, e) = get_elem?-some bs i h in (b, ap or_index_error e)

pub bytes_eq_refl : (bs : Bytes) → bytes_eq bs bs ≡ true
unfolding bytes_eq
bytes_eq_refl [] = refl
bytes_eq_refl (b ∷ bs) = ground (arith, bytes_eq_refl bs)

pub bytes_eq→eq : (as' bs : Bytes) → bytes_eq as' bs ≡ true → as' ≡ bs
unfolding bytes_eq
bytes_eq→eq [] [] h = refl
bytes_eq→eq [] (b ∷ bs) h = cc
bytes_eq→eq (a ∷ as') [] h = cc
bytes_eq→eq (a ∷ as') (b ∷ bs) h = ground (arith, bytes_eq→eq as' bs)

-- `n.to_bytes(k, "little")` for `n` in range, and `int.from_bytes(bs, "little")`.
unfoldable pub le_bytes : ℕ → ℕ → Bytes
le_bytes zero n = []
le_bytes (suc k) n = n % 256 ∷ le_bytes k (n / 256)

unfoldable pub to_bytes_little : ℕ → ℕ → Result Bytes
to_bytes_little k n = if ltb n (256 ^ k) then ok (le_bytes k n) else err overflow_error

unfoldable pub from_bytes_little : Bytes → ℕ
from_bytes_little [] = 0
from_bytes_little (b ∷ bs) = b + 256 * from_bytes_little bs

pub length-le_bytes : (k n : ℕ) → length (le_bytes k n) ≡ k
unfolding le_bytes
length-le_bytes zero n = refl
length-le_bytes (suc k) n = ap suc (length-le_bytes k (n / 256))

pub le_bytes-IsBytes : (k n : ℕ) → IsBytes (le_bytes k n)
unfolding le_bytes
le_bytes-IsBytes zero n = tt
le_bytes-IsBytes (suc k) n = (omega arith, le_bytes-IsBytes k (n / 256))

pub from_bytes_little-le_bytes : (k n : ℕ) → n < 256 ^ k → from_bytes_little (le_bytes k n) ≡ n
unfolding from_bytes_little le_bytes
from_bytes_little-le_bytes zero n h = omega arith
from_bytes_little-le_bytes (suc k) n h =
    omega (arith, from_bytes_little-le_bytes k (n / 256) (omega (arith, pow-suc 256 k)))

pub to_byte_string_eq_ok : (xs bs : Bytes) → to_byte_string xs ≡ ok bs → (xs ≡ bs) × IsBytes xs
unfolding to_byte_string
to_byte_string_eq_ok [] bs h = (cc, tt)
to_byte_string_eq_ok (x ∷ xs) bs h = ground (arith, to_byte_string_eq_ok xs xs)

-- A number read low byte first depends on each of its bytes.
pub from_bytes_little_injective :
    (pre post : Bytes) (a b : ℕ)
    → from_bytes_little (pre ++ (a ∷ post)) ≡ from_bytes_little (pre ++ (b ∷ post))
    → a ≡ b
unfolding from_bytes_little
from_bytes_little_injective [] post a b h = omega arith
from_bytes_little_injective (x ∷ pre) post a b h =
    from_bytes_little_injective pre post a b (omega arith)

pub index-IsProtocolSafe : (bs : Bytes) (i : ℕ) → i < length bs → IsProtocolSafe (index bs i)
index-IsProtocolSafe bs i h = let (b, e) = index_ok bs i h in rw e (returns b)

be_bytes-from_bytes_acc :
    (k acc : ℕ) (bs : Bytes)
    → IsBytes bs
    → be_bytes (k + length bs) (from_bytes_acc acc bs) ≡ be_bytes k acc ++ bs
be_bytes-from_bytes_acc k acc [] h =
    rw append-nil (ap (λ (j : ℕ). be_bytes j acc) {x = k + 0} {y = k} (omega arith))
be_bytes-from_bytes_acc k acc (b ∷ bs) (hb, h) =
    ap (λ (j : ℕ). be_bytes j (from_bytes_acc (acc * 256 + b) bs)) {x = k + suc (length bs)}
      {y = suc k + length bs} (omega arith)
    ∙ be_bytes-from_bytes_acc (suc k) (acc * 256 + b) bs h
    ∙ snoc
  where
    high : (acc * 256 + b) / 256 ≡ acc
    high = omega arith

    low : (acc * 256 + b) % 256 ≡ b
    low = omega arith

    snoc : be_bytes (suc k) (acc * 256 + b) ++ bs ≡ be_bytes k acc ++ (b ∷ bs)
    snoc = unfold be_bytes in rw (high, low) (append_assoc (be_bytes k acc) (b ∷ []) bs)

-- Bytes are determined by their number and their length.
pub be_bytes-from_bytes :
    (k : ℕ) (bs : Bytes) → IsBytes bs → length bs ≡ k → be_bytes k (from_bytes bs) ≡ bs
unfolding from_bytes be_bytes
be_bytes-from_bytes k bs h e =
    ap (λ (j : ℕ). be_bytes j (from_bytes_acc 0 bs)) {x = k} {y = 0 + length bs} (omega arith)
    ∙ be_bytes-from_bytes_acc 0 0 bs h
