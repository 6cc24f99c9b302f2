-- ===== src/Base/Lists.antt =====
-- Lists measured, indexed and sliced by native numbers, under the library's names.
use Prim.Native.Nat.{ℕ, zero, suc, ◌+◌, ◌-◌, ◌≤◌, ◌<◌, min}
use mathlib.Core.Path.{sym, ◌∙◌, ◌≡◌, refl, ap}
use mathlib.Core.List.{List, [], ◌∷◌, ◌++◌}
use mathlib.Core.Option.{Option, none, some}
use native.Mathlib.Omega.{arith}

module _ {ℓ} {A : Type ℓ} where
  abbrev pub length : List A → ℕ
  length [] = 0
  length (x ∷ xs) = suc (length xs)

  abbrev pub get_elem? : List A → ℕ → Option A
  get_elem? [] i = none
  get_elem? (x ∷ xs) zero = some x
  get_elem? (x ∷ xs) (suc i) = get_elem? xs i

  abbrev pub get_or : List A → ℕ → A → A
  get_or [] i d = d
  get_or (x ∷ xs) zero d = x
  get_or (x ∷ xs) (suc i) d = get_or xs i d

  abbrev pub set : List A → ℕ → A → List A
  set [] i v = []
  set (x ∷ xs) zero v = v ∷ xs
  set (x ∷ xs) (suc i) v = x ∷ set xs i v

  abbrev pub take : ℕ → List A → List A
  take zero xs = []
  take (suc n) [] = []
  take (suc n) (x ∷ xs) = x ∷ take n xs

  abbrev pub drop : ℕ → List A → List A
  drop zero xs = xs
  drop (suc n) [] = []
  drop (suc n) (x ∷ xs) = drop n xs

  abbrev pub replicate : ℕ → A → List A
  replicate zero a = []
  replicate (suc n) a = a ∷ replicate n a

  abbrev pub All {κ} : (A → Type κ) → List A → Type κ
  All P [] = Unit {κ}
  All P (x ∷ xs) = P x × All P xs

module _ {ℓ} {A : Type ℓ} where
  -- Python's `xs[lo:hi]` for bounds that are not negative.
  abbrev pub slice : List A → ℕ → ℕ → List A
  slice xs lo hi = take (hi - lo) (drop lo xs)

  pub length-append : (xs ys : List A) → length (xs ++ ys) ≡ length xs + length ys
  length-append [] ys = omega arith
  length-append (x ∷ xs) ys = omega (arith, length-append xs ys)

  pub length-take : (n : ℕ) (xs : List A) → length (take n xs) ≡ min n (length xs)
  length-take zero xs = omega arith
  length-take (suc n) [] = omega arith
  length-take (suc n) (x ∷ xs) = omega (arith, length-take n xs)

  pub length-drop : (n : ℕ) (xs : List A) → length (drop n xs) ≡ length xs - n
  length-drop zero xs = omega arith
  length-drop (suc n) [] = omega arith
  length-drop (suc n) (x ∷ xs) = omega (arith, length-drop n xs)

  pub length-replicate : (n : ℕ) (a : A) → length (replicate n a) ≡ n
  length-replicate zero a = refl
  length-replicate (suc n) a = ap suc (length-replicate n a)

  pub take-append-drop : (n : ℕ) (xs : List A) → take n xs ++ drop n xs ≡ xs
  take-append-drop zero xs = refl
  take-append-drop (suc n) [] = refl
  take-append-drop (suc n) (x ∷ xs) = rw (take-append-drop n xs)

  pub take-append : (xs ys : List A) (n : ℕ) → n ≡ length xs → take n (xs ++ ys) ≡ xs
  take-append [] ys zero h = refl
  take-append [] ys (suc n) h = absurd (omega arith)
  take-append (x ∷ xs) ys zero h = absurd (omega arith)
  take-append (x ∷ xs) ys (suc n) h = ap (λ l. x ∷ l) (take-append xs ys n (omega arith))

  pub drop-append : (xs ys : List A) (n : ℕ) → n ≡ length xs → drop n (xs ++ ys) ≡ ys
  drop-append [] ys zero h = refl
  drop-append [] ys (suc n) h = absurd (omega arith)
  drop-append (x ∷ xs) ys zero h = absurd (omega arith)
  drop-append (x ∷ xs) ys (suc n) h = drop-append xs ys n (omega arith)

  pub take_all : (xs : List A) (n : ℕ) → length xs ≤ n → take n xs ≡ xs
  take_all [] zero h = refl
  take_all [] (suc n) h = refl
  take_all (x ∷ xs) zero h = absurd (omega arith)
  take_all (x ∷ xs) (suc n) h = ap (λ l. x ∷ l) (take_all xs n (omega arith))

  pub drop-shift : (pre ys : List A) (n k : ℕ) → n ≡ length pre + k → drop n (pre ++ ys) ≡ drop k ys
  drop-shift [] ys n k h = ap (λ (j : ℕ). drop j ys) {x = n} {y = k} (omega arith)
  drop-shift (x ∷ pre) ys zero k h = absurd (omega arith)
  drop-shift (x ∷ pre) ys (suc n) k h = drop-shift pre ys n k (omega arith)

  -- A slice behind a prefix is a slice of what follows the prefix.
  pub slice-shift :
      (pre ys : List A) (lo hi a b : ℕ)
      → lo ≡ length pre + a
      → hi ≡ length pre + b
      → slice (pre ++ ys) lo hi ≡ slice ys a b
  slice-shift pre ys lo hi a b hlo hhi =
      rw (drop-shift pre ys lo a hlo)
        (ap (λ (j : ℕ). take j (drop a ys)) {x = hi - lo} {y = b - a} (omega arith))

  pub take-append_le : (n : ℕ) (xs ys : List A) → n ≤ length xs → take n (xs ++ ys) ≡ take n xs
  take-append_le zero xs ys h = refl
  take-append_le (suc n) [] ys h = absurd (omega arith)
  take-append_le (suc n) (x ∷ xs) ys h = ap (λ l. x ∷ l) (take-append_le n xs ys (omega arith))

  pub drop-append_le :
      (n : ℕ) (xs ys : List A) → n ≤ length xs → drop n (xs ++ ys) ≡ drop n xs ++ ys
  drop-append_le zero xs ys h = refl
  drop-append_le (suc n) [] ys h = absurd (omega arith)
  drop-append_le (suc n) (x ∷ xs) ys h = drop-append_le n xs ys (omega arith)

  pub take-shift :
      (pre ys : List A) (n k : ℕ) → n ≡ length pre + k → take n (pre ++ ys) ≡ pre ++ take k ys
  take-shift [] ys n k h = ap (λ (j : ℕ). take j ys) {x = n} {y = k} (omega arith)
  take-shift (x ∷ pre) ys zero k h = absurd (omega arith)
  take-shift (x ∷ pre) ys (suc n) k h = ap (λ l. x ∷ l) (take-shift pre ys n k (omega arith))

  pub get_elem?-shift :
      (pre ys : List A) (i k : ℕ) → i ≡ length pre + k → get_elem? (pre ++ ys) i ≡ get_elem? ys k
  get_elem?-shift [] ys i k h = ap (λ (j : ℕ). get_elem? ys j) {x = i} {y = k} (omega arith)
  get_elem?-shift (x ∷ pre) ys zero k h = absurd (omega arith)
  get_elem?-shift (x ∷ pre) ys (suc i) k h = get_elem?-shift pre ys i k (omega arith)

  -- The middle of a list by its position.
  pub slice_middle :
      (pre mid post : List A) (lo hi : ℕ)
      → lo ≡ length pre
      → hi ≡ length pre + length mid
      → slice (pre ++ (mid ++ post)) lo hi ≡ mid
  slice_middle pre mid post lo hi hlo hhi =
      rw (drop-append pre (mid ++ post) lo hlo) (take-append mid post (hi - lo) (omega arith))

  pub get_elem?-some : (xs : List A) (i : ℕ) → i < length xs → (x : A) × (get_elem? xs i ≡ some x)
  get_elem?-some [] i h = absurd (omega arith)
  get_elem?-some (x ∷ xs) zero h = (x, refl)
  get_elem?-some (x ∷ xs) (suc i) h = get_elem?-some xs i (omega arith)

  pub All-append {κ} : (P : A → Type κ) (xs ys : List A) → All P xs → All P ys → All P (xs ++ ys)
  All-append P [] ys h k = k
  All-append P (x ∷ xs) ys (p, h) k = (p, All-append P xs ys h k)

  pub All-take {κ} : (P : A → Type κ) (n : ℕ) (xs : List A) → All P xs → All P (take n xs)
  All-take P zero xs h = tt
  All-take P (suc n) [] h = tt
  All-take P (suc n) (x ∷ xs) (p, h) = (p, All-take P n xs h)

  pub All-drop {κ} : (P : A → Type κ) (n : ℕ) (xs : List A) → All P xs → All P (drop n xs)
  All-drop P zero xs h = h
  All-drop P (suc n) [] h = tt
  All-drop P (suc n) (x ∷ xs) (p, h) = All-drop P n xs h

  pub All-append_split {κ} :
      (P : A → Type κ) (xs ys : List A) → All P (xs ++ ys) → All P xs × All P ys
  All-append_split P [] ys h = (tt, h)
  All-append_split P (x ∷ xs) ys (p, h) = let (l, r) = All-append_split P xs ys h in ((p, l), r)

  -- Two splittings of one list: the shorter front begins the longer one.
  pub front_split :
      (c p wanted rest : List A)
      → c ++ p ≡ wanted ++ rest
      → length c ≤ length wanted
      → (w : List A) × (wanted ≡ c ++ w) × (p ≡ w ++ rest)
  front_split [] p wanted rest e h = (wanted, refl, e)
  front_split (x ∷ c) p [] rest e h = absurd (omega arith)
  front_split (x ∷ c) p (y ∷ wanted) rest e h =
      let (w, e1, e2) = front_split c p wanted rest (cc) (omega arith) in (w, cc, e2)

  pub append_cancel : (xs ys zs : List A) → xs ++ ys ≡ xs ++ zs → ys ≡ zs
  append_cancel [] ys zs h = h
  append_cancel (x ∷ xs) ys zs h = append_cancel xs ys zs (cc)

  pub append_cancel_right : (xs ys zs : List A) → xs ++ zs ≡ ys ++ zs → xs ≡ ys
  append_cancel_right xs ys zs h =
      let size : length xs ≡ length ys =
        omega (arith, ap length h, length-append xs zs, length-append ys zs) in
      sym (take-append xs zs (length xs) refl)
      ∙ ap (take (length xs)) h
      ∙ take-append ys zs (length xs) size
