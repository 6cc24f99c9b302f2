-- ===== src/Pq/Tests/Codec.antt =====
-- A concrete codec for JSON values, with a mark and lengths in place of brackets, that reads back
-- all of them.
use modbus_serial_security_p.Base.{
  ℕ, zero, suc, ◌≤◌, ◌≡◌, refl, arith, true, false, Option, none, some, [], ◌∷◌, ◌++◌, Bytes,
  length, take, drop, length-append, take-append, drop-append, append_assoc, append-nil, Result, ok,
  err, value_error,
}
use modbus_serial_security_p.Base.Json.{
  pos, negsuc, Json, null, boolean, integer, real, text, array, object, Values, no_value, value,
  Members, no_member, member, JsonCodec, JsonLaws,
}

unfoldable mutual
  pub dump : Json → Bytes
  dump null = 0 ∷ []
  dump (boolean true) = 1 ∷ 1 ∷ []
  dump (boolean false) = 1 ∷ 0 ∷ []
  dump (integer (pos n)) = 2 ∷ 1 ∷ n ∷ []
  dump (integer (negsuc n)) = 2 ∷ 0 ∷ n ∷ []
  dump (real r) = 3 ∷ length r ∷ r
  dump (text t) = 4 ∷ length t ∷ t
  dump (array vs) = 5 ∷ dump_values vs
  dump (object ms) = 6 ∷ dump_members ms

  pub dump_values : Values → Bytes
  dump_values no_value = 0 ∷ []
  dump_values (value v vs) = 1 ∷ (dump v ++ dump_values vs)

  pub dump_members : Members → Bytes
  dump_members no_member = 0 ∷ []
  dump_members (member k v ms) = 1 ∷ length k ∷ (k ++ (dump v ++ dump_members ms))

abbrev as_array : Option (Values × Bytes) → Option (Json × Bytes)
as_array none = none
as_array (some (vs, rest)) = some (array vs, rest)

abbrev as_object : Option (Members × Bytes) → Option (Json × Bytes)
as_object none = none
as_object (some (ms, rest)) = some (object ms, rest)

abbrev push_value : Json → Option (Values × Bytes) → Option (Values × Bytes)
push_value v none = none
push_value v (some (vs, rest)) = some (value v vs, rest)

abbrev push_member : Bytes → Json → Option (Members × Bytes) → Option (Members × Bytes)
push_member k v none = none
push_member k v (some (ms, rest)) = some (member k v ms, rest)

abbrev then_values :
    Option (Json × Bytes) → (Bytes → Option (Values × Bytes)) → Option (Values × Bytes)
then_values none f = none
then_values (some (v, rest)) f = push_value v (f rest)

abbrev then_members :
    Bytes → Option (Json × Bytes) → (Bytes → Option (Members × Bytes)) → Option (Members × Bytes)
then_members k none f = none
then_members k (some (v, rest)) f = push_member k v (f rest)

unfoldable mutual
  pub read : ℕ → Bytes → Option (Json × Bytes)
  read zero bs = none
  read (suc f) [] = none
  read (suc f) (zero ∷ rest) = some (null, rest)
  read (suc f) (suc zero ∷ []) = none
  read (suc f) (suc zero ∷ zero ∷ rest) = some (boolean false, rest)
  read (suc f) (suc zero ∷ suc b ∷ rest) = some (boolean true, rest)
  read (suc f) (suc (suc zero) ∷ zero ∷ n ∷ rest) = some (integer (negsuc n), rest)
  read (suc f) (suc (suc zero) ∷ suc b ∷ n ∷ rest) = some (integer (pos n), rest)
  read (suc f) (suc (suc zero) ∷ rest) = none
  read (suc f) (suc (suc (suc zero)) ∷ []) = none
  read (suc f) (suc (suc (suc zero)) ∷ n ∷ rest) = some (real (take n rest), drop n rest)
  read (suc f) (suc (suc (suc (suc zero))) ∷ []) = none
  read (suc f) (suc (suc (suc (suc zero))) ∷ n ∷ rest) = some (text (take n rest), drop n rest)
  read (suc f) (suc (suc (suc (suc (suc zero)))) ∷ rest) = as_array (read_values f rest)
  read (suc f) (suc (suc (suc (suc (suc (suc m))))) ∷ rest) = as_object (read_members f rest)

  pub read_values : ℕ → Bytes → Option (Values × Bytes)
  read_values zero bs = none
  read_values (suc f) [] = none
  read_values (suc f) (zero ∷ rest) = some (no_value, rest)
  read_values (suc f) (suc m ∷ rest) = then_values (read f rest) (λ r. read_values f r)

  pub read_members : ℕ → Bytes → Option (Members × Bytes)
  read_members zero bs = none
  read_members (suc f) [] = none
  read_members (suc f) (zero ∷ rest) = some (no_member, rest)
  read_members (suc f) (suc m ∷ []) = none
  read_members (suc f) (suc m ∷ n ∷ rest) =
      then_members (take n rest) (read f (drop n rest)) (λ r. read_members f r)

mutual
  unfolding dump read

  read-dump :
      (f : ℕ) (v : Json) (rest : Bytes)
      → length (dump v) ≤ f
      → read f (dump v ++ rest) ≡ some (v, rest)
  read-dump zero null rest h = absurd (omega arith)
  read-dump zero (boolean true) rest h = absurd (omega arith)
  read-dump zero (boolean false) rest h = absurd (omega arith)
  read-dump zero (integer (pos n)) rest h = absurd (omega arith)
  read-dump zero (integer (negsuc n)) rest h = absurd (omega arith)
  read-dump zero (real r) rest h = absurd (omega arith)
  read-dump zero (text t) rest h = absurd (omega arith)
  read-dump zero (array vs) rest h = absurd (omega arith)
  read-dump zero (object ms) rest h = absurd (omega arith)
  read-dump (suc f) null rest h = refl
  read-dump (suc f) (boolean true) rest h = refl
  read-dump (suc f) (boolean false) rest h = refl
  read-dump (suc f) (integer (pos n)) rest h = refl
  read-dump (suc f) (integer (negsuc n)) rest h = refl
  read-dump (suc f) (real r) rest h =
      rw (take-append r rest (length r) refl, drop-append r rest (length r) refl) refl
  read-dump (suc f) (text t) rest h =
      rw (take-append t rest (length t) refl, drop-append t rest (length t) refl) refl
  read-dump (suc f) (array vs) rest h = rw (read-dump_values f vs rest (omega arith)) refl
  read-dump (suc f) (object ms) rest h = rw (read-dump_members f ms rest (omega arith)) refl

  read-dump_values :
      (f : ℕ) (vs : Values) (rest : Bytes)
      → length (dump_values vs) ≤ f
      → read_values f (dump_values vs ++ rest) ≡ some (vs, rest)
  read-dump_values zero no_value rest h = absurd (omega arith)
  read-dump_values zero (value v vs) rest h = absurd (omega arith)
  read-dump_values (suc f) no_value rest h = refl
  read-dump_values (suc f) (value v vs) rest h =
      let n = length-append (dump v) (dump_values vs) in
      rw
        (
          append_assoc (dump v) (dump_values vs) rest,
          read-dump f v (dump_values vs ++ rest) (omega (arith, n, h)),
          read-dump_values f vs rest (omega (arith, n, h)),
        )
        refl

  read-dump_members :
      (f : ℕ) (ms : Members) (rest : Bytes)
      → length (dump_members ms) ≤ f
      → read_members f (dump_members ms ++ rest) ≡ some (ms, rest)
  read-dump_members zero no_member rest h = absurd (omega arith)
  read-dump_members zero (member k v ms) rest h = absurd (omega arith)
  read-dump_members (suc f) no_member rest h = refl
  read-dump_members (suc f) (member k v ms) rest h =
      let n = length-append (dump v) (dump_members ms) in
      let n' = length-append k (dump v ++ dump_members ms) in
      rw
        (
          append_assoc k (dump v ++ dump_members ms) rest,
          append_assoc (dump v) (dump_members ms) rest,
          take-append k (dump v ++ (dump_members ms ++ rest)) (length k) refl,
          drop-append k (dump v ++ (dump_members ms ++ rest)) (length k) refl,
          read-dump f v (dump_members ms ++ rest) (omega (arith, n, n', h)),
          read-dump_members f ms rest (omega (arith, n, n', h)),
        )
        refl

abbrev pub whole : Option (Json × Bytes) → Result Json
whole (some (v, [])) = ok v
whole (some (v, b ∷ rest)) = err value_error
whole none = err value_error

unfoldable pub loads : Bytes → Result Json
loads bs = whole (read (length bs) bs)

abbrev pub marks : JsonCodec
marks = record { dumps = dump; loads = loads }

loads-dump : (v : Json) → loads (dump v) ≡ ok v
unfolding loads
loads-dump v = rw (read_end (read-dump (length (dump v)) v [] (omega arith))) refl
  where
    read_end :
        read (length (dump v)) (dump v ++ []) ≡ some (v, [])
        → read (length (dump v)) (dump v) ≡ some (v, [])
    read_end e = rw append-nil at e

pub marks_laws : JsonLaws marks
marks_laws = record { loads_dumps = λ v h. loads-dump v }
