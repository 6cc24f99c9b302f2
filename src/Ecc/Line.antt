-- ===== src/Ecc/Line.antt =====
-- Packets of protocols/protocols-ECC/secure_modbus/frame.py on the serial line, and the interface
-- that the session takes from them.
pub mod Laws
use modbus_serial_security_p.Base.{
  ℕ, zero, suc, ◌-◌, some, [], ◌++◌, Bytes, length, ltb, ◌==◌, if◌then◌else◌, ok, err, to_bytes,
  from_bytes, value_error, protocol_error, connection_closed, out_of_fuel,
}
use modbus_serial_security_p.Base.Action.{Action, lift, raise_if, ◌>>=◌, ◌>>◌}
use modbus_serial_security_p.Psk.Records.{Uart}
use modbus_serial_security_p.Ecc.Frame.{secure_frame, open_secure_frame}

-- `send_secure_apdu` and `recv_secure_apdu`, for one address.
pub record Transport : Type 1 where
  pub State : Type 0
  pub send_secure_apdu : ℕ → ℕ → Bytes → Action State (Unit {0})
  pub recv_secure_apdu : ℕ → Action State (ℕ × Bytes)

module _ (uart : Uart) where
  open uart use {State, read, write}

  -- `while remaining: …`, on fuel.
  unfoldable pub recv_loop : ℕ → ℕ → Bytes → Action State Bytes
  recv_loop zero remaining chunks s =
      if remaining == 0 then (ok chunks, s) else (err out_of_fuel, s)
  recv_loop (suc fuel) remaining chunks s =
      let chunk = (read remaining s).0 in
      let s' = (read remaining s).1 in
      let rest = recv_loop fuel (remaining - length chunk) (chunks ++ chunk) s' in
      if remaining == 0
      then (ok chunks, s)
      else if length chunk == 0
      then (err (protocol_error connection_closed), s')
      else rest

  -- Every chunk holds a byte at least, so `size` rounds are enough.
  unfoldable pub recv_exact : ℕ → Action State Bytes
  unfolding recv_loop
  recv_exact size s = recv_loop size size [] s

  -- Not called by the code, which writes frames without a length.
  unfoldable pub send_packet : Bytes → Action State (Unit {0})
  send_packet frame = do
    raise_if (ltb 0xFFFF (length frame)) value_error
    prefix ← lift (to_bytes 2 (length frame))
    λ (s : State). (ok tt, write (prefix ++ frame) s)

  unfoldable pub recv_packet : Action State Bytes
  unfolding recv_exact
  recv_packet = do header ← recv_exact 2; recv_exact (from_bytes header)

  unfoldable pub send_apdu : ℕ → ℕ → Bytes → Action State (Unit {0})
  send_apdu address tag payload = do
    frame ← lift (secure_frame address tag payload)
    λ (s : State). (ok tt, write frame s)

  unfoldable pub recv_apdu : ℕ → Action State (ℕ × Bytes)
  unfolding recv_packet
  recv_apdu expected_address = do
    packet ← recv_packet
    (address, tag, body) ← lift (open_secure_frame packet (some expected_address))
    lift (ok (tag, body))

  abbrev pub uart_transport : Transport
  uart_transport = record {
    State = State;
    send_secure_apdu = send_apdu;
    recv_secure_apdu = recv_apdu;
  }
