-- ===== src/Ecc/Registers/Refinement.antt =====
-- The registers as a memory: what the PDU handler answers and changes, without bytes.
use modbus_serial_security_p.Base.{
  ℕ, zero, suc, ◌+◌, ◌-◌, ◌*◌, ◌%◌, ◌≤◌, ◌<◌, ◌≡◌, ◌≢◌, refl, sym, ap, ◌∙◌, arith, ◌||◌, true,
  false, inl, inr, List, [], ◌∷◌, ◌++◌, append_assoc, append-nil, Bytes, length, take, drop, set,
  get_or, ltb, leb, ◌==◌, Bool-cases, if◌then◌else◌, Result, ok, to_byte_string, to_bytes_lem,
  be_bytes, from_bytes,
}
use modbus_serial_security_p.Ecc.Registers.{extend_words, read_holding, write_single, handle_pdu}

-- A memory of a fixed size.
pub record Memory : Type 0 where
  pub size : ℕ
  pub cell : ℕ → ℕ

pub data Request : Type 0 where
  reads : ℕ → ℕ → Request
  writes : ℕ → ℕ → Request

pub data Response : Type 0 where
  values : List ℕ → Response
  written : ℕ → ℕ → Response
  exception : ℕ → ℕ → Response

abbrev cells : (ℕ → ℕ) → ℕ → ℕ → List ℕ
cells cell start zero = []
cells cell start (suc n) = cell start % 65536 ∷ cells cell (suc start) n

abbrev stored : (ℕ → ℕ) → ℕ → ℕ → ℕ → ℕ
stored cell register value i = if i == register then value else cell i

-- What the bank promises.
abbrev pub respond : Request → Memory → Response × Memory
respond (reads start quantity) m =
    if ltb quantity 1 || (ltb 125 quantity || ltb m.size (start + quantity))
    then (exception 0x83 0x02, m)
    else (values (cells m.cell start quantity), m)
respond (writes register value) m =
    if leb m.size register
    then (exception 0x86 0x02, m)
    else (written register value, record m { cell = stored m.cell register value })

abbrev words_of : List ℕ → Bytes
words_of [] = []
words_of (v ∷ vs) = be_bytes 2 v ++ words_of vs

-- The PDUs of requests and responses.
abbrev pub request_pdu : Request → Bytes
request_pdu (reads start quantity) = 0x03 ∷ (be_bytes 2 start ++ be_bytes 2 quantity)
request_pdu (writes register value) = 0x06 ∷ (be_bytes 2 register ++ be_bytes 2 value)

abbrev pub response_pdu : Response → Bytes
response_pdu (values vs) = 0x03 ∷ (length vs * 2) ∷ words_of vs
response_pdu (written register value) = 0x06 ∷ (be_bytes 2 register ++ be_bytes 2 value)
response_pdu (exception function code) = function ∷ code ∷ []

-- Numbers of two bytes.
abbrev pub IsRequest : Request → Type 0
IsRequest (reads start quantity) = (start < 65536) × (quantity < 65536)
IsRequest (writes register value) = (register < 65536) × (value < 65536)

-- A list of registers that holds what a memory holds.
pub record Holds (registers : List ℕ) (m : Memory) : Type 0 where
  pub same_size : length registers ≡ m.size
  pub same_cells : (i : ℕ) → i < m.size → get_or registers i 0 ≡ m.cell i

length-set : (xs : List ℕ) (i v : ℕ) → length (set xs i v) ≡ length xs
length-set [] i v = refl
length-set (x ∷ xs) zero v = refl
length-set (x ∷ xs) (suc i) v = ap suc (length-set xs i v)

get_or-set_same : (xs : List ℕ) (i v : ℕ) → i < length xs → get_or (set xs i v) i 0 ≡ v
get_or-set_same [] i v h = absurd (omega arith)
get_or-set_same (x ∷ xs) zero v h = refl
get_or-set_same (x ∷ xs) (suc i) v h = get_or-set_same xs i v (omega arith)

get_or-set_other : (xs : List ℕ) (i j v : ℕ) → j ≢ i → get_or (set xs i v) j 0 ≡ get_or xs j 0
get_or-set_other [] i j v d = refl
get_or-set_other (x ∷ xs) zero zero v d = absurd (d refl)
get_or-set_other (x ∷ xs) zero (suc j) v d = refl
get_or-set_other (x ∷ xs) (suc i) zero v d = refl
get_or-set_other (x ∷ xs) (suc i) (suc j) v d = get_or-set_other xs i j v (λ e. d (ap suc e))

set-Holds :
    (registers : List ℕ) (m : Memory) (register value : ℕ)
    → Holds registers m
    → register < m.size
    → Holds (set registers register value) (record m { cell = stored m.cell register value })
set-Holds registers m register value h small = record {
  same_size = length-set registers register value ∙ h.same_size;
  same_cells = λ i hi. elim (Bool-cases (i == register)) [
    | inl same ↦
        let e : i ≡ register = ground arith in
        rw (same, e) (get_or-set_same registers register value (omega (arith, h.same_size)))
    | inr other ↦
        let d : i ≢ register = ground arith in
        rw other (get_or-set_other registers register i value d ∙ h.same_cells i hi)
  ];
}

drop_at :
    (registers : List ℕ) (i : ℕ)
    → i < length registers
    → (v : ℕ) × (drop i registers ≡ v ∷ drop (suc i) registers) × (get_or registers i 0 ≡ v)
drop_at [] i h = absurd (omega arith)
drop_at (v ∷ rest) zero h = (v, refl, refl)
drop_at (v ∷ rest) (suc i) h = drop_at rest i (omega arith)

-- The registers of a window, each by its place.
window-cells :
    (registers : List ℕ) (cell : ℕ → ℕ) (start n size : ℕ)
    → length registers ≡ size
    → ((i : ℕ) → i < size → get_or registers i 0 ≡ cell i)
    → start + n ≤ size
    → (body : Bytes)
    → extend_words (take n (drop start registers)) body ≡ ok (body ++ words_of (cells cell start n))
unfolding extend_words
window-cells registers cell start zero size hl hc h body = rw append-nil refl
window-cells registers cell start (suc n) size hl hc h body =
    let (v, shape, e) = drop_at registers start (omega arith) in
    rw
      (
        shape,
        to_bytes_lem 2 (v % 65536) (omega arith),
        window-cells registers cell (suc start) n size hl hc (omega arith)
            (body ++ be_bytes 2 (v % 65536)),
        append_assoc body (be_bytes 2 (v % 65536)) (words_of (cells cell (suc start) n)),
        sym (hc start (omega arith)),
        e,
      )
      refl

length-cells : (cell : ℕ → ℕ) (start n : ℕ) → length (cells cell start n) ≡ n
length-cells cell start zero = refl
length-cells cell start (suc n) = ap suc (length-cells cell (suc start) n)

halves :
    (a b : ℕ)
    → a < 65536
    → b < 65536
    → (from_bytes (take 2 (be_bytes 2 a ++ be_bytes 2 b)) ≡ a)
      × (from_bytes (drop 2 (be_bytes 2 a ++ be_bytes 2 b)) ≡ b)
unfolding be_bytes from_bytes
halves a b ha hb = (omega arith, omega arith)

four : (a b : ℕ) → length (be_bytes 2 a ++ be_bytes 2 b) ≡ 4
unfolding be_bytes
four a b = refl

read_refused :
    (registers : List ℕ) (start quantity : ℕ)
    → start < 65536
    → quantity < 65536
    → (ltb quantity 1 || (ltb 125 quantity || ltb (length registers) (start + quantity))) ≡ true
    → handle_pdu (request_pdu (reads start quantity)) registers ≡ (ok (0x83 ∷ 0x02 ∷ []), registers)
unfolding handle_pdu read_holding to_byte_string
read_refused registers start quantity hs hq h =
    let (es, eq) = halves start quantity hs hq in rw (four start quantity, es, eq, h) refl

read_answered :
    (registers : List ℕ) (m : Memory) (start quantity : ℕ)
    → Holds registers m
    → start < 65536
    → quantity < 65536
    → (ltb quantity 1 || (ltb 125 quantity || ltb m.size (start + quantity))) ≡ false
    → handle_pdu (request_pdu (reads start quantity)) registers
      ≡ (ok (response_pdu (values (cells m.cell start quantity))), registers)
unfolding handle_pdu read_holding to_byte_string
read_answered registers m start quantity h hs hq within =
    let (es, eq) = halves start quantity hs hq in
    let byte : ltb (quantity * 2) 256 ≡ true = ground arith in
    let room : start + quantity ≤ m.size = ground arith in
    let span : start + quantity - start ≡ quantity = omega arith in
    rw
      (
        four start quantity,
        es,
        eq,
        h.same_size,
        within,
        byte,
        span,
        window-cells registers m.cell start quantity m.size h.same_size h.same_cells room
            (0x03 ∷ quantity * 2 ∷ []),
        length-cells m.cell start quantity,
      )
      refl

write_answered :
    (registers : List ℕ) (register value : ℕ)
    → register < 65536
    → value < 65536
    → handle_pdu (request_pdu (writes register value)) registers ≡ (
        if leb (length registers) register
        then (ok (0x86 ∷ 0x02 ∷ []), registers)
        else (ok (response_pdu (written register value)), set registers register value))
unfolding handle_pdu write_single to_byte_string
write_answered registers register value hr hv =
    let (er, ev) = halves register value hr hv in
    elim (Bool-cases (leb (length registers) register)) [
      | inl large ↦ rw (four register value, er, ev, large) refl
      | inr small ↦ rw (four register value, er, ev, small) refl
    ]

-- On registers that hold what a memory holds, the handler answers every read and write request as
-- the memory responds, and the registers hold what the memory holds afterwards.
pub handle_pdu-respond :
    (q : Request) (registers : List ℕ) (m : Memory)
    → IsRequest q
    → Holds registers m
    → (registers' : List ℕ) × (handle_pdu (request_pdu q) registers
        ≡ (ok (response_pdu (respond q m).0), registers'))
      × Holds registers' (respond q m).1
handle_pdu-respond (reads start quantity) registers m (hs, hq) h =
    elim (Bool-cases (ltb quantity 1 || (ltb 125 quantity || ltb m.size (start + quantity)))) [
      | inl out ↦
          rw out (registers, read_refused registers start quantity hs hq (rw h.same_size out), h)
      | inr within ↦
          rw within (registers, read_answered registers m start quantity h hs hq within, h)
    ]
handle_pdu-respond (writes register value) registers m (hr, hv) h =
    elim (Bool-cases (leb m.size register)) [
      | inl out ↦
          rw out (
            registers,
            write_answered registers register value hr hv ∙ rw (h.same_size, out) refl,
            h,
          )
      | inr within ↦ rw within (
        set registers register value,
        write_answered registers register value hr hv ∙ rw (h.same_size, within) refl,
        set-Holds registers m register value h (ground arith),
      )
    ]

-- The handler on one PDU after the other, and the memory on the requests.
abbrev pub serve_all : List Request → List ℕ → List (Result Bytes) × List ℕ
serve_all [] registers = ([], registers)
serve_all (q ∷ qs) registers =
    let step = handle_pdu (request_pdu q) registers in
    let rest = serve_all qs step.1 in (step.0 ∷ rest.0, rest.1)

abbrev pub respond_all : List Request → Memory → List (Result Bytes) × Memory
respond_all [] m = ([], m)
respond_all (q ∷ qs) m =
    let step = respond q m in
    let rest = respond_all qs step.1 in (ok (response_pdu step.0) ∷ rest.0, rest.1)

abbrev pub AreRequests : List Request → Type 0
AreRequests [] = Unit
AreRequests (q ∷ qs) = IsRequest q × AreRequests qs

-- The register bank implements a memory: on registers that hold what a memory holds, it gives every
-- list of read and write requests the responses of the memory, one after the other, and the
-- registers hold what the memory holds in the end.
pub serve_all-respond_all :
    (qs : List Request) (registers : List ℕ) (m : Memory)
    → AreRequests qs
    → Holds registers m
    → ((serve_all qs registers).0 ≡ (respond_all qs m).0)
      × Holds (serve_all qs registers).1 (respond_all qs m).1
serve_all-respond_all [] registers m hq h = (refl, h)
serve_all-respond_all (q ∷ qs) registers m (hq, hqs) h =
    let (registers', e, h') = handle_pdu-respond q registers m hq h in
    let (es, hs) = serve_all-respond_all qs registers' (respond q m).1 hqs h' in
    (rw (ap (λ r. r.0) e, ap (λ r. r.1) e, es) refl, rw (ap (λ r. r.1) e) hs)
