-- ===== src/Psk/Sm2/Decode.antt =====
-- What `decode_point` accepts.
use modbus_serial_security_p.Base.{
  subst, sym, ◌↔◌, ◌≡◌, ◌≢◌, ap, ◌∙◌, ◌++◌, arith, some, Bytes, IsBytes, length, take, drop,
  take-append-drop, length-take, length-drop, All-take, All-drop, IsByte, ok, from_bytes,
  be_bytes-from_bytes, true, false, Bool-cases, inl, inr, not, ◌&&◌, ◌||◌, ltb, ◌==◌,
  IsProtocolSafe, returns, guard-IsProtocolSafe, point_length, point_range, point_curve,
  point_subgroup,
}
use modbus_serial_security_p.Psk.Sm2.{
  Point, sm2_p, sm2_n, sm2_g, sm2_mul, is_some, on_curve, same_point, encode_point, decode_point,
}
use mathlib.Core.Path.{ap₂}
use modbus_serial_security_p.Psk.Sm2.Points.{IsInField, encode_in_field, sm2_mul_order}

-- What `decode_point` accepts, with the subgroup test left out.
pub record Accepted (raw : Bytes) (p : Point) : Type 0 where
  pub size : length raw ≡ 64
  pub coordinates : p ≡ (from_bytes (take 32 raw), from_bytes (drop 32 raw))
  pub field : IsInField (some p)
  pub curve : on_curve p ≡ true
  pub no_generator : p ≢ sm2_g

abbrev coordinates_of : Bytes → Point
coordinates_of raw = (from_bytes (take 32 raw), from_bytes (drop 32 raw))

same_point_eq : (p q : Point) → same_point p q ≡ true → p ≡ q
same_point_eq (x1, y1) (x2, y2) h = ground arith

same_point_refl : (p : Point) → same_point p p ≡ true
same_point_refl (x, y) = ground arith

same_point-false : (p q : Point) → p ≢ q → same_point p q ≡ false
same_point-false p q h = elim (Bool-cases (same_point p q)) [
  | inl same ↦ absurd (h (same_point_eq p q same))
  | inr other ↦ other
]

accept : (raw : Bytes) (p : Point) → Accepted raw p → decode_point raw ≡ ok p
unfolding decode_point
accept raw p h =
    ground (
      arith,
      sm2_mul_order (some (coordinates_of raw)),
      same_point-false (coordinates_of raw) sm2_g,
    )

passed :
    (raw : Bytes) (p : Point)
    → decode_point raw ≡ ok p
    → (length raw ≡ 64)
      × (p ≡ coordinates_of raw)
      × IsInField (some (coordinates_of raw))
      × (on_curve (coordinates_of raw) ≡ true)
      × (same_point (coordinates_of raw) sm2_g ≡ false)
unfolding decode_point
passed raw p h = ground arith

accepted : (raw : Bytes) (p : Point) → decode_point raw ≡ ok p → Accepted raw p
accepted raw p h =
    let (size, e, field, curve, other) = passed raw p h in
    record {
      size = size;
      coordinates = e;
      field = subst (λ q. IsInField (some q)) (sym e) field;
      curve = subst (λ q. on_curve q ≡ true) (sym e) curve;
      no_generator =
          λ g. cc (other, ap (λ q. same_point q sm2_g) (sym e ∙ g), same_point_refl sm2_g);
    }

-- `decode_point` accepts exactly the 64 bytes of a pair of coordinates that lie in the field, are
-- on the curve and are not the generator; its last test, the multiple by the order, never refuses.
pub decode_point_exact : (raw : Bytes) (p : Point) → (decode_point raw ≡ ok p) ↔ Accepted raw p
decode_point_exact raw p = (accepted raw p, accept raw p)

-- A point that `decode_point` returns is encoded to the bytes that it was decoded from.
pub encode-decode_point :
    (raw : Bytes) (p : Point) → IsBytes raw → decode_point raw ≡ ok p → encode_point p ≡ ok raw
encode-decode_point raw (x, y) h e =
    let a = accepted raw (x, y) e in
    encode_in_field x y a.field.0 a.field.1
    ∙ ap ok (
        rw (ap (λ (q : Point). q.0) a.coordinates, ap (λ (q : Point). q.1) a.coordinates)
          (ap₂ ◌++◌
              (be_bytes-from_bytes 32 (take 32 raw) (All-take IsByte 32 raw h)
                (omega (arith, length-take 32 raw, a.size)))
              (be_bytes-from_bytes 32 (drop 32 raw) (All-drop IsByte 32 raw h)
                (omega (arith, length-drop 32 raw, a.size)))
            ∙ take-append-drop 32 raw))

-- Whatever bytes arrive, decoding a point returns or raises a `ProtocolError`.
pub decode_point-IsProtocolSafe : (raw : Bytes) → IsProtocolSafe (decode_point raw)
unfolding decode_point
decode_point-IsProtocolSafe raw =
    let x = from_bytes (take 32 raw) in
    let y = from_bytes (drop 32 raw) in
    guard-IsProtocolSafe (not (length raw == 64)) point_length λ _.
      guard-IsProtocolSafe (not (ltb x sm2_p && ltb y sm2_p)) point_range λ _.
        guard-IsProtocolSafe (not (on_curve (x, y))) point_curve λ _.
          guard-IsProtocolSafe (same_point (x, y) sm2_g || is_some (sm2_mul sm2_n (some (x, y))))
            point_subgroup λ _. returns _
