-- ===== src/Base/Action.antt =====
-- Python code that may raise and works on a shared state: the state survives an exception.
use modbus_serial_security_p.Base.Outcome.{Result, ok, err, Error}
use mathlib.Core.Path.{◌≡◌, refl}
use mathlib.Core.Bool.{Bool, true, false}

abbrev pub Action {ℓ κ} : Type ℓ → Type κ → Type (ℓ ⊔ κ)
Action S A = S → Result A × S

module _ {ℓ κ} {S : Type ℓ} {A : Type κ} where
  abbrev pub pure : A → Action S A
  pure a s = (ok a, s)

  -- `raise e`
  abbrev pub raise : Error → Action S A
  raise e s = (err e, s)

  -- Code that does not touch the state.
  abbrev pub lift : Result A → Action S A
  lift r s = (r, s)

module _ {ℓ κ μ} {S : Type ℓ} {A : Type κ} {B : Type μ} where
  -- What follows a result in a state.
  abbrev pub continue : (A → Action S B) → Result A → S → Result B × S
  continue f (ok a) s = f a s
  continue f (err e) s = (err e, s)

  infixl 5 ◌>>=◌
  abbrev pub ◌>>=◌ : Action S A → (A → Action S B) → Action S B
  ◌>>=◌ m f s = continue f (m s).0 (m s).1

infixl 5 ◌>>◌
abbrev pub ◌>>◌ {ℓ κ} : {S : Type ℓ} {B : Type κ} → Action S (Unit {0}) → Action S B → Action S B
m >> k = m >>= λ _. k

-- `if bad: raise e`
abbrev pub raise_if {ℓ} : {S : Type ℓ} → Bool → Error → Action S (Unit {0})
raise_if true e s = (err e, s)
raise_if false e s = (ok tt, s)

-- Inversion of a successful bind.
continue-eq_ok {ℓ κ μ} :
    {S : Type ℓ} {A : Type κ} {B : Type μ} (f : A → Action S B) (r : Result A) (s s'' : S) (b : B)
    → continue f r s ≡ (ok b, s'')
    → (a : A) × (r ≡ ok a) × (f a s ≡ (ok b, s''))
continue-eq_ok f (ok a) s s'' b h = (a, refl, h)
continue-eq_ok f (err e) s s'' b h = cc

pub >>=-eq_ok {ℓ κ μ} :
    {S : Type ℓ} {A : Type κ} {B : Type μ} (m : Action S A) (f : A → Action S B) (s s'' : S) (b : B)
    → (m >>= f) s ≡ (ok b, s'')
    → (a : A) × (s' : S) × (m s ≡ (ok a, s')) × (f a s' ≡ (ok b, s''))
>>=-eq_ok m f s s'' b h =
    let (a, e, k) = continue-eq_ok f (m s).0 (m s).1 s'' b h in
    (a, (m s).1, (λ i. (e i, (m s).1)), k)

-- An action that ends, with a value or with an exception, in a state where what held before holds.
abbrev pub Keeps {ℓ κ μ} : {S : Type ℓ} {A : Type κ} → (S → Type μ) → Action S A → Type (ℓ ⊔ μ)
Keeps {S = S} P m = (s : S) → P s → P (m s).1

continue-Keeps {ℓ κ ν μ} :
    {S : Type ℓ} {A : Type κ} {B : Type ν} (P : S → Type μ) (f : A → Action S B) (r : Result A)
    (s : S)
    → ((a : A) → Keeps P (f a))
    → P s
    → P (continue f r s).1
continue-Keeps P f (ok a) s k h = k a s h
continue-Keeps P f (err e) s k h = h

pub >>=-Keeps {ℓ κ ν μ} :
    {S : Type ℓ} {A : Type κ} {B : Type ν} (P : S → Type μ) (m : Action S A) (f : A → Action S B)
    → Keeps P m
    → ((a : A) → Keeps P (f a))
    → Keeps P (m >>= f)
>>=-Keeps P m f k l s h = continue-Keeps P f (m s).0 (m s).1 l (k s h)

pub raise_if-Keeps {ℓ μ} :
    {S : Type ℓ} (P : S → Type μ) (b : Bool) (e : Error) → Keeps P (raise_if b e)
raise_if-Keeps P true e s h = h
raise_if-Keeps P false e s h = h
