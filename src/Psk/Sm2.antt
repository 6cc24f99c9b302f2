-- ===== src/Psk/Sm2.antt =====
-- The curve arithmetic: `sm2_inverse`, `sm2_add`, `sm2_mul`, `encode_point` and `decode_point`.
-- Coordinates are natural numbers, and `(a - b) % p` is `sub_mod p a b`.
pub mod Power
pub mod Points
pub mod Decode
use modbus_serial_security_p.Base.{
  ℕ, zero, suc, ◌+◌, ◌-◌, ◌*◌, ◌/◌, ◌%◌, not, ◌&&◌, ◌||◌, Bool, Option, none, some, ◌++◌, Bytes,
  length, take, drop, ltb, leb, ◌==◌, if◌then◌else◌, Result, ok, err, ◌>>=◌, ◌>>◌, raise_if,
  to_bytes, from_bytes, protocol_error, point_length, point_range, point_curve, point_subgroup,
  false, true,
}

abbrev pub sm2_p : ℕ
sm2_p = 0x8542D69E4C044F18E8B92435BF6FF7DE457283915C45517D722EDB8B08F1DFC3

abbrev pub sm2_a : ℕ
sm2_a = 0x787968B4FA32C3FD2417842E73BBFEFF2F3C848B6831D7E0EC65228B3937E498

abbrev pub sm2_b : ℕ
sm2_b = 0x63E4C6D3B23B0C849CF84241484BFE48F61D59A5B16BA06E6E12D1DA27C5249A

abbrev pub sm2_n : ℕ
sm2_n = 0x8542D69E4C044F18E8B92435BF6FF7DD297720630485628D5AE74EE7C32E79B7

abbrev pub Point : Type 0
Point = ℕ × ℕ

abbrev pub sm2_g : Point
sm2_g = (
  0x421DEBD61B62EAB6746434EBC3CC315E32220B3BADD50BDC4C4E6C147FEDD43D,
  0x0680512BCBB42C07D47349D2153B70C4E5D7FDFCBFA36EA1A85841B9E46E09A2,
)

-- Python's `(a - b) % p` for numbers that are not negative.
abbrev pub sub_mod : ℕ → ℕ → ℕ → ℕ
sub_mod p a b = (a + (p - b % p)) % p

-- Python's `pow(base, exponent, p)` by squaring, on fuel for the bits of the exponent.
unfoldable pub pow_mod : ℕ → ℕ → ℕ → ℕ → ℕ
pow_mod zero base exponent p = 1 % p
pow_mod (suc fuel) base exponent p =
    let rest = pow_mod fuel (base * base % p) (exponent / 2) p in
    if exponent == 0 then 1 % p else if exponent % 2 == 0 then rest else base * rest % p

unfoldable pub sm2_inverse : ℕ → ℕ
sm2_inverse value = pow_mod 256 value (sm2_p - 2) sm2_p

abbrev pub same_point : Point → Point → Bool
same_point (x1, y1) (x2, y2) = x1 == x2 && y1 == y2

-- `slope` in `sm2_add`, for a point doubled and for two points.
abbrev tangent : Point → ℕ
tangent (x, y) = (3 * x * x + sm2_a) * sm2_inverse (2 * y % sm2_p) % sm2_p

abbrev chord : Point → Point → ℕ
chord (x1, y1) (x2, y2) = sub_mod sm2_p y2 y1 * sm2_inverse (sub_mod sm2_p x2 x1) % sm2_p

-- `(slope * slope - x1 - x2) % SM2_P` and `(slope * (x1 - x3) - y1) % SM2_P`.
abbrev third_point : ℕ → Point → ℕ → Point
third_point slope (x1, y1) x2 =
    let x3 = sub_mod sm2_p (slope * slope) (x1 + x2) in
    (x3, sub_mod sm2_p (slope * sub_mod sm2_p x1 x3) y1)

-- The point at infinity is `none`.
unfoldable pub sm2_add : Option Point → Option Point → Option Point
sm2_add none p2 = p2
sm2_add (some p1) none = some p1
sm2_add (some (x1, y1)) (some (x2, y2)) =
    if x1 == x2 && (y1 + y2) % sm2_p == 0
    then none
    else if same_point (x1, y1) (x2, y2)
    then some (third_point (tangent (x1, y1)) (x1, y1) x2)
    else some (third_point (chord (x1, y1) (x2, y2)) (x1, y1) x2)

-- `while k: …`, on fuel for the bits of `k`.
unfoldable pub mul_loop : ℕ → ℕ → Option Point → Option Point → Option Point
mul_loop zero k result addend = result
mul_loop (suc fuel) k result addend =
    let rest =
      mul_loop fuel (k / 2) (if k % 2 == 0 then result else sm2_add result addend)
        (sm2_add addend addend) in
    if k == 0 then result else rest

-- `k` is below the order after the reduction, so 256 rounds are enough.
unfoldable pub sm2_mul : ℕ → Option Point → Option Point
sm2_mul k none = none
sm2_mul k (some point) = if k % sm2_n == 0 then none else mul_loop 256 (k % sm2_n) none (some point)

unfoldable pub encode_point : Point → Result Bytes
encode_point (x, y) = do left ← to_bytes 32 x; right ← to_bytes 32 y; ok (left ++ right)

abbrev is_some : Option Point → Bool
is_some none = false
is_some (some p) = true

-- The point is on the curve: `(y * y - (x * x * x + A * x + B)) % P == 0`.
abbrev pub on_curve : Point → Bool
on_curve (x, y) = sub_mod sm2_p (y * y) (x * x * x + sm2_a * x + sm2_b) == 0

unfoldable pub decode_point : Bytes → Result Point
decode_point raw = do
  raise_if (not (length raw == 64)) (protocol_error point_length)
  let x = from_bytes (take 32 raw)
  let y = from_bytes (drop 32 raw)
  raise_if (not (ltb x sm2_p && ltb y sm2_p)) (protocol_error point_range)
  raise_if (not (on_curve (x, y))) (protocol_error point_curve)
  raise_if (same_point (x, y) sm2_g || is_some (sm2_mul sm2_n (some (x, y))))
      (protocol_error point_subgroup)
  ok (x, y)
