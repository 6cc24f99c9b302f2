-- ===== src/Psk/Payload/Items.antt =====
-- The loop of the payload decoders on encoded items.
use modbus_serial_security_p.Base.{
  ℕ, suc, ◌+◌, ◌-◌, ◌≤◌, ◌<◌, ◌≡◌, ◌≢◌, sym, ap, ◌∙◌, refl, ◌++◌, arith, Bytes, length,
  length-append, take-append, drop-append, slice-shift, append_assoc, append-nil, ok, [], ◌∷◌,
  to_byte_string, to_bytes, be_bytes, length-be_bytes, from_bytes, from_bytes-be_bytes, index,
  index-shift, slice, ltb-false,
}
use modbus_serial_security_p.Psk.Payload.{Items, set_item, encode_items, decode_items}

-- No data type of `items` is `key`; the data types of a dict are distinct.
abbrev pub Absent : ℕ → Items → Type 0
Absent key [] = Unit
Absent key ((k, v) ∷ rest) = (k ≢ key) × Absent key rest

abbrev pub IsDict : Items → Type 0
IsDict [] = Unit
IsDict ((k, v) ∷ rest) = Absent k rest × IsDict rest

-- The bytes of one item.
abbrev item_bytes : ℕ → Bytes → Bytes
item_bytes k v = k ∷ (be_bytes 2 (length v) ++ v)

-- What the loop does with the items, one after the other.
pub set_items : Items → Items → Items
set_items sent [] = sent
set_items sent ((k, v) ∷ rest) = set_items (set_item sent k v) rest

encode_items_cons :
    (k : ℕ) (v : Bytes) (rest : Items) (enc : Bytes)
    → encode_items ((k, v) ∷ rest) ≡ ok enc
    → (tail : Bytes) × (encode_items rest ≡ ok tail)
      × (length v < 65536)
      × (enc ≡ k ∷ (be_bytes 2 (length v) ++ (v ++ tail)))
unfolding encode_items to_byte_string to_bytes
encode_items_cons k v rest enc h = ground arith

-- One round of the loop, by what stands at the offset.
decode_step :
    (raw v : Bytes) (off k n count : ℕ) (sent : Items)
    → off + 3 ≤ length raw
    → index raw off ≡ ok k
    → from_bytes (slice raw (off + 1) (off + 3)) ≡ n
    → off + 3 + n ≤ length raw
    → slice raw (off + 3) (off + 3 + n) ≡ v
    → decode_items (suc count) raw off sent
      ≡ decode_items count raw (off + 3 + n) (set_item sent k v)
unfolding decode_items
decode_step raw v off k n count sent h1 h2 h3 h4 h5 =
    rw (ltb-false (length raw) (off + 3) h1, h2, h3, ltb-false (length raw) (off + 3 + n) h4, h5)
      refl

module _ (pre ys v : Bytes) (k : ℕ) where
  abbrev behind : Bytes
  behind = k ∷ (be_bytes 2 (length v) ++ (v ++ ys))

  size : length (pre ++ behind) ≡ length pre + 3 + length v + length ys
  size = omega (
    arith,
    length-append pre behind,
    length-append (be_bytes 2 (length v)) (v ++ ys),
    length-be_bytes 2 (length v),
    length-append v ys,
  )

  item_length :
      length v < 65536
      → from_bytes (slice (pre ++ behind) (length pre + 1) (length pre + 3)) ≡ length v
  item_length h =
      ap from_bytes (
        slice-shift pre behind (length pre + 1) (length pre + 3) 1 3 (omega arith) (omega arith)
        ∙ take-append (be_bytes 2 (length v)) (v ++ ys) 2
            (omega (arith, length-be_bytes 2 (length v))))
      ∙ from_bytes-be_bytes 2 (length v) (omega arith)

  item_value : slice (pre ++ behind) (length pre + 3) (length pre + 3 + length v) ≡ v
  item_value =
      slice-shift pre behind (length pre + 3) (length pre + 3 + length v) 3 (3 + length v)
        (omega arith) (omega arith)
      ∙ rw
          (drop-append (be_bytes 2 (length v)) (v ++ ys) 2
            (omega (arith, length-be_bytes 2 (length v))))
          (take-append v ys (3 + length v - 3) (omega arith))

  decode_item :
      (count : ℕ) (sent : Items)
      → length v < 65536
      → decode_items (suc count) (pre ++ behind) (length pre) sent
        ≡ decode_items count (pre ++ behind) (length pre + 3 + length v) (set_item sent k v)
  unfolding index
  decode_item count sent h =
      decode_step (pre ++ behind) v (length pre) k (length v) count sent (omega (arith, size))
        (index-shift pre behind (length pre) 0 (omega arith)) (item_length h) (omega (arith, size))
        item_value

-- The same bytes, with the item counted to the prefix.
regroup :
    (pre ys v tail : Bytes) (k : ℕ)
    → pre ++ behind pre (tail ++ ys) v k ≡ (pre ++ item_bytes k v) ++ (tail ++ ys)
regroup pre ys v tail k = simp append_assoc

length-prefix : (pre v : Bytes) (k : ℕ) → length pre + 3 + length v ≡ length (pre ++ item_bytes k v)
length-prefix pre v k = omega (
  arith,
  length-append pre (item_bytes k v),
  length-append (be_bytes 2 (length v)) v,
  length-be_bytes 2 (length v),
)

-- The loop reads every item that `encode_items` wrote, behind any prefix and before any rest.
pub decode_items_all :
    (items : Items) (pre ys enc : Bytes) (sent : Items)
    → encode_items items ≡ ok enc
    → decode_items (length items) (pre ++ (enc ++ ys)) (length pre) sent
      ≡ ok (set_items sent items, length pre + length enc)
decode_items_all [] pre ys enc sent h = unfold encode_items decode_items set_items in ground arith
decode_items_all ((k, v) ∷ rest) pre ys enc sent h =
    let (tail, e, fits, shape) = encode_items_cons k v rest enc h in
    let next : Items = set_item sent k v in
    let bytes : pre ++ (enc ++ ys) ≡ pre ++ behind pre (tail ++ ys) v k =
      rw shape (simp append_assoc) in
    rw bytes (
      decode_item pre (tail ++ ys) v k (length rest) sent fits
      ∙ (λ i. decode_items (length rest) (regroup pre ys v tail k i) (length-prefix pre v k i) next)
      ∙ decode_items_all rest (pre ++ item_bytes k v) ys tail next e
      ∙ (unfold set_items in
          ap (λ (m : ℕ). ok (set_items next rest, m))
            (rw shape (
              omega (
                arith,
                length-prefix pre v k,
                length-append (be_bytes 2 (length v)) (v ++ tail),
                length-be_bytes 2 (length v),
                length-append v tail,
              )))))

-- The data types of `items` do not occur in `sent`.
abbrev Apart : Items → Items → Type 0
Apart sent [] = Unit
Apart sent ((k, v) ∷ rest) = Absent k sent × Apart sent rest

set_item-Absent :
    (sent : Items) (k : ℕ) (v : Bytes) → Absent k sent → set_item sent k v ≡ sent ++ ((k, v) ∷ [])
unfolding set_item
set_item-Absent [] k v h = refl
set_item-Absent ((j, w) ∷ sent) k v (differs, h) = ground (arith, set_item-Absent sent k v h)

Absent-snoc :
    (sent : Items) (j k : ℕ) (v : Bytes) → Absent j sent → k ≢ j → Absent j (sent ++ ((k, v) ∷ []))
Absent-snoc [] j k v h differs = (differs, tt)
Absent-snoc ((i, w) ∷ sent) j k v (d, h) differs = (d, Absent-snoc sent j k v h differs)

Apart-snoc :
    (items sent : Items) (k : ℕ) (v : Bytes)
    → Apart sent items
    → Absent k items
    → Apart (sent ++ ((k, v) ∷ [])) items
Apart-snoc [] sent k v h a = tt
Apart-snoc ((j, w) ∷ rest) sent k v (d, h) (differs, a) =
    (Absent-snoc sent j k v d (λ e. differs (sym e)), Apart-snoc rest sent k v h a)

set_items-append :
    (items sent : Items) → IsDict items → Apart sent items → set_items sent items ≡ sent ++ items
unfolding set_items
set_items-append [] sent d h = sym (append-nil sent)
set_items-append ((k, v) ∷ rest) sent (a, d) (ha, h) = rw (set_item-Absent sent k v ha) (
    set_items-append rest (sent ++ ((k, v) ∷ [])) d (Apart-snoc rest sent k v h a)
    ∙ append_assoc sent ((k, v) ∷ []) rest)

Apart-nil : (items : Items) → Apart [] items
Apart-nil [] = tt
Apart-nil ((k, v) ∷ rest) = (tt, Apart-nil rest)

-- A dict is rebuilt from its items.
pub set_items-nil : (items : Items) → IsDict items → set_items [] items ≡ items
set_items-nil items d = set_items-append items [] d (Apart-nil items)
