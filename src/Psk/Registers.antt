-- ===== src/Psk/Registers.antt =====
-- Modbus PDUs: `read_holding_registers_pdu`, `handle_modbus_pdu` and `parse_register_response`.
-- Registers are natural numbers; `& 0xFFFF` is `% 65536`.
pub mod Read
use modbus_serial_security_p.Base.{
  ℕ, zero, suc, ◌+◌, ◌%◌, not, ◌&&◌, ◌||◌, List, [], ◌∷◌, ◌++◌, bit_and, bit_or, Bytes, length,
  slice, drop, ltb, leb, ◌==◌, if◌then◌else◌, Result, ok, err, ◌>>=◌, ◌>>◌, raise_if,
  to_byte_string, to_bytes, from_bytes, index, value_error, protocol_error, empty_pdu,
  modbus_exception, unexpected_response, bad_response_length,
}

unfoldable pub read_holding_registers_pdu : ℕ → ℕ → Result Bytes
read_holding_registers_pdu start_address quantity = do
  raise_if (not (leb start_address 0xFFFF && (leb 1 quantity && leb quantity 125))) value_error
  start ← to_bytes 2 start_address
  count ← to_bytes 2 quantity
  ok (0x03 ∷ (start ++ count))

-- `(registers[start + i] & 0xFFFF).to_bytes(2, "big") for i in range(quantity)`, joined.
read_registers : ℕ → ℕ → List ℕ → Result Bytes
read_registers zero start registers = ok []
read_registers (suc quantity) start registers = do
  value ← index registers start
  word ← to_bytes 2 (value % 65536)
  rest ← read_registers quantity (start + 1) registers
  ok (word ++ rest)

-- The answer to a read whose PDU has five bytes.
answer_read : ℕ → ℕ → List ℕ → Result Bytes
answer_read start quantity registers =
    if ltb quantity 1 || ltb 125 quantity
    then ok (0x83 ∷ 0x03 ∷ [])
    else if ltb (length registers) (start + quantity)
    then ok (0x83 ∷ 0x02 ∷ [])
    else do
      payload ← read_registers quantity start registers
      head ← to_byte_string (0x03 ∷ length payload ∷ [])
      ok (head ++ payload)

unfoldable pub handle_modbus_pdu : Bytes → List ℕ → Result Bytes
unfolding answer_read read_registers
handle_modbus_pdu pdu registers = do
  raise_if (length pdu == 0) (protocol_error empty_pdu)
  function ← index pdu 0
  if not (function == 0x03)
      then to_byte_string (bit_or function 0x80 ∷ 0x01 ∷ [])
      else if not (length pdu == 5)
      then ok (0x83 ∷ 0x03 ∷ [])
      else answer_read (from_bytes (slice pdu 1 3)) (from_bytes (slice pdu 3 5)) registers

-- `int.from_bytes(pdu[i : i + 2], "big") for i in range(2, len(pdu), 2)`, on `pdu[2:]`.
words : Bytes → List ℕ
words [] = []
words (high ∷ []) = from_bytes (high ∷ []) ∷ []
words (high ∷ low ∷ rest) = from_bytes (high ∷ low ∷ []) ∷ words rest

unfoldable pub parse_register_response : Bytes → Result (List ℕ)
unfolding words
parse_register_response pdu =
    if ltb (length pdu) 2 then err (protocol_error unexpected_response) else do
      function ← index pdu 0
      raise_if (ltb 0 (bit_and function 0x80)) (protocol_error modbus_exception)
      raise_if (not (function == 0x03)) (protocol_error unexpected_response)
      byte_count ← index pdu 1
      raise_if (ltb 0 (byte_count % 2) || not (length pdu == 2 + byte_count))
          (protocol_error bad_response_length)
      ok (words (drop 2 pdu))
