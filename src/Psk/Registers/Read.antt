-- ===== src/Psk/Registers/Read.antt =====
-- A read request through `read_holding_registers_pdu`, `handle_modbus_pdu` and
-- `parse_register_response`.
use native.Mathlib.Decide.{dec_le}
use native.Mathlib.Numerals.{add-one}
use modbus_serial_security_p.Base.{
  ℕ, zero, suc, ◌+◌, ◌*◌, ◌/◌, ◌%◌, ◌≤◌, ◌<◌, ◌≡◌, ap, ◌∙◌, refl, List, [], ◌∷◌, ◌++◌, map, arith,
  Bytes, length, take, drop, length-append, length-take, length-drop, if◌then◌else◌, leb, ok, err,
  index, be_bytes, length-be_bytes, from_bytes, to_bytes, to_bytes_lem, to_byte_string,
  protocol_error, modbus_exception,
}
use modbus_serial_security_p.Psk.Registers.{
  read_holding_registers_pdu, read_registers, answer_read, handle_modbus_pdu, words,
  parse_register_response,
}

-- The registers as they are sent.
abbrev pub word_of : ℕ → ℕ
word_of value = value % 65536

register_bytes : List ℕ → Bytes
register_bytes [] = []
register_bytes (v ∷ vs) = be_bytes 2 (word_of v) ++ register_bytes vs

length-register_bytes : (vs : List ℕ) → length (register_bytes vs) ≡ 2 * length vs
unfolding register_bytes
length-register_bytes [] = refl
length-register_bytes (v ∷ vs) = omega (
  arith,
  length-append (be_bytes 2 (word_of v)) (register_bytes vs),
  length-be_bytes 2 (word_of v),
  length-register_bytes vs,
)

-- Two bytes of a word, read back.
word_bytes : (n : ℕ) → n < 65536 → from_bytes ((n / 256 % 256) ∷ (n % 256) ∷ []) ≡ n
unfolding from_bytes
word_bytes n h = omega arith

words-register_bytes : (vs : List ℕ) → words (register_bytes vs) ≡ map word_of vs
unfolding register_bytes words be_bytes
words-register_bytes [] = refl
words-register_bytes (v ∷ vs) =
    λ i. word_bytes (word_of v) (omega arith) i ∷ words-register_bytes vs i

drop_at :
    (registers : List ℕ) (i : ℕ)
    → i < length registers
    → (v : ℕ) × (index registers i ≡ ok v) × (drop i registers ≡ v ∷ drop (suc i) registers)
unfolding index
drop_at [] i h = absurd (omega arith)
drop_at (v ∷ rest) zero h = (v, refl, refl)
drop_at (v ∷ rest) (suc i) h = drop_at rest i (omega arith)

read_registers_lem :
    (quantity start : ℕ) (registers : List ℕ)
    → start + quantity ≤ length registers
    → read_registers quantity start registers
      ≡ ok (register_bytes (take quantity (drop start registers)))
unfolding read_registers register_bytes
read_registers_lem zero start registers h = refl
read_registers_lem (suc quantity) start registers h =
    let (v, e, d) = drop_at registers start (omega arith) in
    let tail = read_registers_lem quantity (suc start) registers (omega arith) in
    rw (d, e, to_bytes_lem 2 (word_of v) (omega arith), add-one, tail) refl

read_pdu_eq_ok :
    (start quantity : ℕ) (pdu : Bytes)
    → read_holding_registers_pdu start quantity ≡ ok pdu
    → (start < 65536)
      × (1 ≤ quantity)
      × (quantity ≤ 125)
      × (pdu ≡ 0x03 ∷ (be_bytes 2 start ++ be_bytes 2 quantity))
unfolding read_holding_registers_pdu to_bytes
read_pdu_eq_ok start quantity pdu h = ground arith

handle_read :
    (start quantity : ℕ) (registers : List ℕ)
    → start < 65536
    → quantity ≤ 125
    → handle_modbus_pdu (0x03 ∷ (be_bytes 2 start ++ be_bytes 2 quantity)) registers
      ≡ answer_read start quantity registers
unfolding handle_modbus_pdu index be_bytes
handle_read start quantity registers hs hq =
    λ i. answer_read (word_bytes start hs i) (word_bytes quantity (omega arith) i) registers

length-window :
    (start quantity : ℕ) (registers : List ℕ)
    → start + quantity ≤ length registers
    → length (register_bytes (take quantity (drop start registers))) ≡ 2 * quantity
length-window start quantity registers h = omega (
  arith,
  length-register_bytes (take quantity (drop start registers)),
  length-take quantity (drop start registers),
  length-drop start registers,
)

answer_in_range :
    (start quantity : ℕ) (registers : List ℕ)
    → 1 ≤ quantity
    → quantity ≤ 125
    → start + quantity ≤ length registers
    → answer_read start quantity registers
      ≡ ok (0x03 ∷ (2 * quantity) ∷ register_bytes (take quantity (drop start registers)))
unfolding answer_read to_byte_string
answer_in_range start quantity registers h1 h2 h3 = ground (
  arith,
  read_registers_lem quantity start registers h3,
  length-window start quantity registers h3,
)

answer_out_of_range :
    (start quantity : ℕ) (registers : List ℕ)
    → 1 ≤ quantity
    → quantity ≤ 125
    → length registers < start + quantity
    → answer_read start quantity registers ≡ ok (0x83 ∷ 0x02 ∷ [])
unfolding answer_read
answer_out_of_range start quantity registers h1 h2 h3 = ground arith

parse_words :
    (n : ℕ) (payload : Bytes)
    → length payload ≡ 2 * n
    → parse_register_response (0x03 ∷ (2 * n) ∷ payload) ≡ ok (words payload)
unfolding parse_register_response index
parse_words n payload h = ground arith

-- A read request that can be built is always answered, with at most 252 bytes. The master reads in
-- the answer the registers asked for, each modulo 65536, if all of them exist, and raises the
-- Modbus exception otherwise.
pub read_transaction :
    (start quantity : ℕ) (registers : List ℕ) (pdu : Bytes)
    → read_holding_registers_pdu start quantity ≡ ok pdu
    → (response : Bytes) × (handle_modbus_pdu pdu registers ≡ ok response)
      × (length response ≤ 252)
      × (parse_register_response response ≡ (
          if leb (start + quantity) (length registers)
          then ok (map word_of (take quantity (drop start registers)))
          else err (protocol_error modbus_exception)))
read_transaction start quantity registers pdu h =
    let (hs, h1, h2, shape) = read_pdu_eq_ok start quantity pdu h in
    rw (shape, handle_read start quantity registers hs h2)
      (elim (dec_le (start + quantity) (length registers)) [
        | yes within ↦
            let window = take quantity (drop start registers) in
            let size = length-window start quantity registers within in
            (
              0x03 ∷ (2 * quantity) ∷ register_bytes window,
              answer_in_range start quantity registers h1 h2 within,
              omega (arith, size),
              parse_words quantity (register_bytes window) size
                  ∙ ap ok (words-register_bytes window)
                  ∙ ground arith,
            )
        | no outside ↦ (
          0x83 ∷ 0x02 ∷ [],
          answer_out_of_range start quantity registers h1 h2 (omega arith),
          omega arith,
          exception_parsed ∙ ground arith,
        )
      ])
  where
    exception_parsed :
        parse_register_response (0x83 ∷ 0x02 ∷ []) ≡ err (protocol_error modbus_exception)
    exception_parsed = unfold parse_register_response index in refl
