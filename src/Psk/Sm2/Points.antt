-- ===== src/Psk/Sm2/Points.antt =====
-- The range of the point arithmetic, and the fuel of the multiplication.
use native.Mathlib.Nat.{pow-suc}
use modbus_serial_security_p.Base.{
  Option-cases, subst, if◌then◌else◌, ℕ, zero, suc, ◌+◌, ◌%◌, ◌/◌, ◌≤◌, ◌<◌, ◌≡◌, refl, ◌++◌, arith,
  Option, none, some, Bytes, length, ok, to_bytes_lem, be_bytes, length-be_bytes, length-append,
  Bool-cases, inl, inr, ◌==◌, ◌&&◌, ◌^◌, ◌⊎◌,
}
use modbus_serial_security_p.Psk.Sm2.{
  Point, sm2_p, sm2_n, third_point, tangent, chord, same_point, sm2_add, sm2_mul, mul_loop,
  encode_point,
}

abbrev pub IsInField : Option Point → Type 0
IsInField none = Unit
IsInField (some (x, y)) = (x < sm2_p) × (y < sm2_p)

third_point-IsInField : (slope x2 : ℕ) (p : Point) → IsInField (some (third_point slope p x2))
third_point-IsInField slope x2 (x1, y1) = omega arith

-- The sum of two points with coordinates in the field has its coordinates in the field.
pub sm2_add-IsInField : (p q : Option Point) → IsInField p → IsInField q → IsInField (sm2_add p q)
unfolding sm2_add
sm2_add-IsInField none q hp hq = hq
sm2_add-IsInField (some p) none hp hq = hp
sm2_add-IsInField (some (x1, y1)) (some (x2, y2)) hp hq =
    elim (Bool-cases (x1 == x2 && (y1 + y2) % sm2_p == 0)) [
      | inl opposite ↦ rw opposite tt
      | inr other ↦ elim (Bool-cases (same_point (x1, y1) (x2, y2))) [
        | inl same ↦ rw (other, same) (third_point-IsInField (tangent (x1, y1)) x2 (x1, y1))
        | inr distinct ↦
            rw (other, distinct) (third_point-IsInField (chord (x1, y1) (x2, y2)) x2 (x1, y1))
      ]
    ]

mul_loop-IsInField :
    (fuel k : ℕ) (result addend : Option Point)
    → IsInField result
    → IsInField addend
    → IsInField (mul_loop fuel k result addend)
unfolding mul_loop
mul_loop-IsInField zero k result addend hr ha = hr
mul_loop-IsInField (suc fuel) k result addend hr ha =
    let doubled = sm2_add-IsInField addend addend ha ha in
    elim (Bool-cases (k == 0)) [
      | inl done ↦ rw done hr
      | inr more ↦ elim (Bool-cases (k % 2 == 0)) [
        | inl even ↦
            rw (more, even)
              (mul_loop-IsInField fuel (k / 2) result (sm2_add addend addend) hr doubled)
        | inr odd ↦
            rw (more, odd)
              (mul_loop-IsInField fuel (k / 2) (sm2_add result addend) (sm2_add addend addend)
                (sm2_add-IsInField result addend hr ha) doubled)
      ]
    ]

sm2_mul-IsInField : (k : ℕ) (p : Option Point) → IsInField p → IsInField (sm2_mul k p)
unfolding sm2_mul
sm2_mul-IsInField k none h = tt
sm2_mul-IsInField k (some p) h = elim (Bool-cases (k % sm2_n == 0)) [
  | inl none_left ↦ rw none_left tt
  | inr more ↦ rw more (mul_loop-IsInField 256 (k % sm2_n) none (some p) tt h)
]

pub encode_in_field :
    (x y : ℕ) → x < sm2_p → y < sm2_p → encode_point (x, y) ≡ ok (be_bytes 32 x ++ be_bytes 32 y)
unfolding encode_point
encode_in_field x y hx hy =
    rw (to_bytes_lem 32 x (omega arith), to_bytes_lem 32 y (omega arith)) refl

-- More fuel than the bits of `k` changes nothing: the loop of `sm2_mul` ends by its own test.
pub mul_loop_enough :
    (fuel large k : ℕ) (result addend : Option Point)
    → k < 2 ^ fuel
    → fuel ≤ large
    → mul_loop large k result addend ≡ mul_loop fuel k result addend
unfolding mul_loop
mul_loop_enough zero zero k result addend h l = refl
mul_loop_enough zero (suc large) zero result addend h l = refl
mul_loop_enough zero (suc large) (suc k) result addend h l = absurd (omega arith)
mul_loop_enough (suc fuel) zero k result addend h l = absurd (omega arith)
mul_loop_enough (suc fuel) (suc large) k result addend h l =
    let next : Option Point = if k % 2 == 0 then result else sm2_add result addend in
    let same =
      mul_loop_enough fuel large (k / 2) next (sm2_add addend addend)
        (omega (arith, pow-suc 2 fuel)) (omega arith) in
    rw same refl

-- A multiple of a point in the field is the point at infinity, or it is encoded without an error
-- in 64 bytes.
pub encode-sm2_mul :
    (k : ℕ) (p : Point)
    → IsInField (some p)
    → (sm2_mul k (some p) ≡ none)
      ⊎ ((q : Point) × (raw : Bytes) × (sm2_mul k (some p) ≡ some q)
          × (encode_point q ≡ ok raw)
          × (length raw ≡ 64))
encode-sm2_mul k p h = elim (Option-cases (sm2_mul k (some p))) [
  | inl nothing ↦ inl nothing
  | inr ((x, y), e) ↦
      let (hx, hy) = subst IsInField e (sm2_mul-IsInField k (some p) h) in
      inr (
        (x, y),
        be_bytes 32 x ++ be_bytes 32 y,
        e,
        encode_in_field x y hx hy,
        omega (
          arith,
          length-append (be_bytes 32 x) (be_bytes 32 y),
          length-be_bytes 32 x,
          length-be_bytes 32 y,
        ),
      )
]

-- The multiple by the order is the point at infinity for every point, on the curve or not: the
-- factor is reduced to 0 before the multiplication.
pub sm2_mul_order : (p : Option Point) → sm2_mul sm2_n p ≡ none
unfolding sm2_mul
sm2_mul_order none = refl
sm2_mul_order (some p) = refl
