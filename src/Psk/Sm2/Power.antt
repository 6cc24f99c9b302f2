-- ===== src/Psk/Sm2/Power.antt =====
-- `pow` and `sm2_inverse` as powers.
use native.Mathlib.Nat.{pow-suc, pow-zero, add-mul-mod_self_right, div-add-mod, mul_comm, mul_assoc}
use modbus_serial_security_p.Base.{
  ℕ, zero, suc, ◌-◌, ◌*◌, ◌/◌, ◌%◌, ◌^◌, ◌<◌, ◌≡◌, ap, ◌∙◌, sym, arith, Bool-cases, inl, inr, ◌==◌,
}
use modbus_serial_security_p.Psk.Sm2.{pow_mod, sm2_inverse, sm2_p}

-- `(a % p) * b % p` is `a * b % p`.
mod_mul : (a b p : ℕ) → a % p * b % p ≡ a * b % p
mod_mul a b p =
    sym (add-mul-mod_self_right (a % p * b) (a / p * b) p)
    ∙ ap (λ (t : ℕ). t % p) (omega (arith, ap (λ (t : ℕ). t * b) (div-add-mod a p)))

mul_mod : (a b p : ℕ) → a * (b % p) % p ≡ a * b % p
mul_mod a b p =
    ap (λ (t : ℕ). t % p) (mul_comm a (b % p))
    ∙ mod_mul b a p
    ∙ ap (λ (t : ℕ). t % p) (mul_comm b a)

pow_of_mod : (a n p : ℕ) → (a % p) ^ n % p ≡ a ^ n % p
pow_of_mod a zero p = ap (λ (t : ℕ). t % p) (pow-zero (a % p) ∙ sym (pow-zero a))
pow_of_mod a (suc n) p =
    ap (λ (t : ℕ). t % p) (pow-suc (a % p) n)
    ∙ mul_mod ((a % p) ^ n) a p
    ∙ sym (mod_mul ((a % p) ^ n) a p)
    ∙ ap (λ (t : ℕ). t * a % p) (pow_of_mod a n p)
    ∙ mod_mul (a ^ n) a p
    ∙ ap (λ (t : ℕ). t % p) (sym (pow-suc a n))

pow_square : (a n : ℕ) → (a * a) ^ n ≡ a ^ (2 * n)
pow_square a zero = pow-zero (a * a) ∙ sym (pow-zero a)
pow_square a (suc n) =
    pow-suc (a * a) n
    ∙ ap (λ (t : ℕ). t * (a * a)) (pow_square a n)
    ∙ sym (mul_assoc (a ^ (2 * n)) a a)
    ∙ ap (λ (t : ℕ). t * a) (sym (pow-suc a (2 * n)))
    ∙ sym (pow-suc a (suc (2 * n)))
    ∙ ap (λ (t : ℕ). a ^ t) {x = suc (suc (2 * n))} {y = 2 * suc n} (omega arith)

-- For an exponent below `2 ^ fuel`, `pow_mod` is the power modulo `p`.
pub pow_mod_lem :
    (fuel base exponent p : ℕ)
    → exponent < 2 ^ fuel
    → pow_mod fuel base exponent p ≡ base ^ exponent % p
unfolding pow_mod
pow_mod_lem zero base zero p h = ap (λ (t : ℕ). t % p) (sym (pow-zero base))
pow_mod_lem zero base (suc e) p h = absurd (omega arith)
pow_mod_lem (suc fuel) base exponent p h =
    let half = exponent / 2 in
    let rest : pow_mod fuel (base * base % p) half p ≡ base ^ (2 * half) % p =
      pow_mod_lem fuel (base * base % p) half p (omega (arith, pow-suc 2 fuel))
      ∙ pow_of_mod (base * base) half p
      ∙ ap (λ (t : ℕ). t % p) (pow_square base half) in
    elim (Bool-cases (exponent == 0)) [
      | inl none_left ↦
          let e : exponent ≡ 0 = ground arith in
          rw none_left (ap (λ (t : ℕ). t % p) (sym (ap (λ (t : ℕ). base ^ t) e ∙ pow-zero base)))
      | inr more ↦ elim (Bool-cases (exponent % 2 == 0)) [
        | inl even ↦
            let e : 2 * half ≡ exponent = ground arith in
            rw (more, even) (rest ∙ ap (λ (t : ℕ). base ^ t % p) e)
        | inr odd ↦
            let e : suc (2 * half) ≡ exponent = ground arith in
            rw (more, odd)
              (ap (λ (t : ℕ). base * t % p) rest
                ∙ mul_mod base (base ^ (2 * half)) p
                ∙ ap (λ (t : ℕ). t % p)
                    (mul_comm base (base ^ (2 * half)) ∙ sym (pow-suc base (2 * half)))
                ∙ ap (λ (t : ℕ). base ^ t % p) e)
      ]
    ]

-- The inverse of the code is the power by `p - 2` in the field.
pub sm2_inverse_lem : (value : ℕ) → sm2_inverse value ≡ value ^ (sm2_p - 2) % sm2_p
unfolding sm2_inverse
sm2_inverse_lem value = pow_mod_lem 256 value (sm2_p - 2) sm2_p (omega arith)
