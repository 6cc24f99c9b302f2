-- ===== src/Psk/Records.antt =====
-- Length-prefixed records on the serial line: `_read_exact`, `send_record` and `recv_record`.
-- The UART that the code calls as `readUART` and `writeUART` is a parameter.
pub mod Laws
use modbus_serial_security_p.Base.{
  ℕ, zero, suc, ◌-◌, [], ◌∷◌, ◌++◌, Bytes, length, ltb, ◌==◌, if◌then◌else◌, Result, ok, err,
  to_bytes, from_bytes, value_error, eof_error, out_of_fuel,
}
use modbus_serial_security_p.Base.Action.{Action, pure, lift, raise_if, ◌>>=◌, ◌>>◌}

-- The hardware: `read n` returns at most `n` of the bytes that arrive, and `write` sends bytes.
pub record Uart : Type 1 where
  pub State : Type 0
  pub read : ℕ → State → Bytes × State
  pub write : Bytes → State → State

module _ (uart : Uart) where
  open uart use {State, read, write}

  -- `while remaining: …`, on fuel. `chunks` are joined as they arrive.
  unfoldable pub read_loop : ℕ → ℕ → Bytes → Action State Bytes
  read_loop zero remaining chunks s =
      if remaining == 0 then (ok chunks, s) else (err out_of_fuel, s)
  read_loop (suc fuel) remaining chunks s =
      let chunk = (read remaining s).0 in
      let s' = (read remaining s).1 in
      let rest = read_loop fuel (remaining - length chunk) (chunks ++ chunk) s' in
      if remaining == 0
      then (ok chunks, s)
      else if length chunk == 0
      then (err eof_error, s')
      else rest

  -- Every chunk holds a byte at least, so `size` rounds are enough.
  unfoldable pub read_exact : ℕ → Action State Bytes
  read_exact size s = read_loop size size [] s

  unfoldable pub send_record : Bytes → Action State (Unit {0})
  send_record frame = do
    raise_if (ltb 0xFFFF (length frame)) value_error
    prefix ← lift (to_bytes 2 (length frame))
    λ s. (ok tt, write (prefix ++ frame) s)

  unfoldable pub recv_record : Action State Bytes
  recv_record = do header ← read_exact 2; read_exact (from_bytes header)
