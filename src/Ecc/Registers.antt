-- ===== src/Ecc/Registers.antt =====
-- `RegisterBank` of protocols/protocols-ECC/secure_modbus/slave_server.py.
pub mod Refinement
use modbus_serial_security_p.Base.{
  ℕ, zero, suc, ◌+◌, ◌*◌, ◌%◌, not, ◌||◌, bit_or, List, [], ◌∷◌, ◌++◌, Bytes, length, take, drop,
  slice, set, ltb, leb, ◌==◌, if◌then◌else◌, Result, ok, err, to_byte_string, to_bytes, from_bytes,
  protocol_error, empty_pdu, bad_request_length,
}
use modbus_serial_security_p.Base.{◌>>=◌ as bind}
use modbus_serial_security_p.Base.Action.{Action, pure, raise, lift, ◌>>=◌, ◌>>◌, raise_if}

-- `[index for index in range(size)]`, from an index on.
abbrev range_from : ℕ → ℕ → List ℕ
range_from i zero = []
range_from i (suc n) = i ∷ range_from (i + 1) n

abbrev pub new_registers : ℕ → List ℕ
new_registers size = range_from 0 size

-- `for value in …: body.extend((value & 0xFFFF).to_bytes(2, "big"))`
unfoldable pub extend_words : List ℕ → Bytes → Result Bytes
extend_words [] body = ok body
extend_words (v ∷ vs) body = bind (to_bytes 2 (v % 65536)) λ word. extend_words vs (body ++ word)

unfoldable pub read_holding : Bytes → Action (List ℕ) Bytes
unfolding extend_words
read_holding payload = do
  raise_if (not (length payload == 4)) (protocol_error bad_request_length)
  let start = from_bytes (take 2 payload)
  let quantity = from_bytes (drop 2 payload)
  registers ← λ (s : List ℕ). (ok s, s)
  if ltb quantity 1 || (ltb 125 quantity || ltb (length registers) (start + quantity))
      then lift (to_byte_string (bit_or 0x03 0x80 ∷ 0x02 ∷ []))
      else do
        body ← lift (to_byte_string (0x03 ∷ quantity * 2 ∷ []))
        lift (extend_words (slice registers start (start + quantity)) body)

unfoldable pub write_single : Bytes → Action (List ℕ) Bytes
write_single payload = do
  raise_if (not (length payload == 4)) (protocol_error bad_request_length)
  let register = from_bytes (take 2 payload)
  let value = from_bytes (drop 2 payload)
  registers ← λ (s : List ℕ). (ok s, s)
  if leb (length registers) register
      then lift (to_byte_string (bit_or 0x06 0x80 ∷ 0x02 ∷ []))
      else do λ (s : List ℕ). (ok tt, set s register value); pure (0x06 ∷ payload)

unfoldable pub handle_pdu : Bytes → Action (List ℕ) Bytes
unfolding read_holding write_single
handle_pdu [] = raise (protocol_error empty_pdu)
handle_pdu (function ∷ payload) =
    if function == 0x03
    then read_holding payload
    else if function == 0x06
    then write_single payload
    else lift (to_byte_string (bit_or function 0x80 ∷ 0x01 ∷ []))
