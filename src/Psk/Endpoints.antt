-- ===== src/Psk/Endpoints.antt =====
-- The two programs on top of the protocol: `serve_connection` and `serve` of
-- protocols/protocols-psw/slave_server.py, and `run_master` of
-- protocols/protocols-psw/master_server.py. What they print is left out.
pub mod Loop
pub mod Exchange
use modbus_serial_security_p.Base.{
  ℕ, zero, suc, List, Bytes, Result, Error, ok, err, protocol_error, eof_error, value_error,
  out_of_fuel,
}
use modbus_serial_security_p.Base.Action.{Action, lift, ◌>>=◌, ◌>>◌}
use modbus_serial_security_p.Psk.Registers.{
  read_holding_registers_pdu, handle_modbus_pdu, parse_register_response,
}
use modbus_serial_security_p.Psk.Records.{Uart, send_record, recv_record}
use modbus_serial_security_p.Psk.Cipher.{Aead}
use modbus_serial_security_p.Psk.Content.{
  SessionContext, build_encrypted_data_send, parse_encrypted_data_send,
}
use modbus_serial_security_p.Psk.Handshake.Run.{run_master_handshake, run_slave_handshake}

module _ (aead : Aead) where
  -- The three calls that make the answer to a frame.
  unfoldable pub serve_reply : ℕ → List ℕ → Bytes → Action SessionContext Bytes
  serve_reply slave_id registers frame = do
    request_pdu ← parse_encrypted_data_send aead frame slave_id
    response_pdu ← lift (handle_modbus_pdu request_pdu registers)
    build_encrypted_data_send aead slave_id response_pdu

  -- What the master does with the answer.
  unfoldable pub read_reply : ℕ → Bytes → Action SessionContext (List ℕ)
  read_reply slave_id frame = do
    response_pdu ← parse_encrypted_data_send aead frame slave_id
    lift (parse_register_response response_pdu)

  module _ (uart : Uart) where
    abbrev pub Endpoint : Type 0
    Endpoint = uart.State × SessionContext

    -- An action on the line, and one on the context.
    abbrev pub on_line {ℓ} : {A : Type ℓ} → Action uart.State A → Action Endpoint A
    on_line m (s, c) = ((m s).0, ((m s).1, c))

    abbrev pub on_context {ℓ} : {A : Type ℓ} → Action SessionContext A → Action Endpoint A
    on_context m (s, c) = ((m c).0, (s, (m c).1))

    unfoldable pub serve_frame : ℕ → List ℕ → Bytes → Action Endpoint (Unit {0})
    serve_frame slave_id registers frame = do
      reply ← on_context (serve_reply slave_id registers frame)
      on_line (send_record uart reply)

    -- `except EOFError: return`, with what follows a frame.
    unfoldable pub after_record :
        Result Bytes → (Bytes → Action Endpoint (Unit {0})) → Action Endpoint (Unit {0})
    after_record (ok frame) k e = k frame e
    after_record (err eof_error) k e = (ok tt, e)
    after_record (err x) k e = (err x, e)

    -- `while True: …`, on fuel.
    unfoldable pub serve_loop : ℕ → ℕ → List ℕ → Action Endpoint (Unit {0})
    serve_loop zero slave_id registers e = (err out_of_fuel, e)
    serve_loop (suc fuel) slave_id registers (s, c) =
        after_record (recv_record uart s).0
          (λ frame. serve_frame slave_id registers frame >> serve_loop fuel slave_id registers)
          ((recv_record uart s).1, c)

    unfoldable pub serve_connection :
        ℕ → ℕ → Bytes → ℕ → List ℕ → Bytes → Action uart.State (Unit {0})
    serve_connection fuel slave_id password server_id registers urandom = do
      context ← run_slave_handshake uart slave_id password server_id urandom
      λ s. let run = serve_loop fuel slave_id registers (s, context) in (run.0, run.1.0)

    -- `except (EOFError, ProtocolError, ValueError)`; OverflowError and the others pass on.
    unfoldable pub report : Result (Unit {0}) → Result (Unit {0})
    report (ok u) = ok u
    report (err (protocol_error r)) = ok tt
    report (err eof_error) = ok tt
    report (err value_error) = ok tt
    report (err x) = err x

    unfoldable pub serve : ℕ → ℕ → Bytes → ℕ → List ℕ → Bytes → Action uart.State (Unit {0})
    serve fuel slave_id password server_id registers urandom s =
        let run = serve_connection fuel slave_id password server_id registers urandom s in
        (report run.0, run.1)

    -- The request and its answer, behind the handshake.
    unfoldable pub read_once : ℕ → ℕ → ℕ → Action Endpoint (List ℕ)
    read_once slave_id start quantity = do
      request_pdu ← lift (read_holding_registers_pdu start quantity)
      request ← on_context (build_encrypted_data_send aead slave_id request_pdu)
      on_line (send_record uart request)
      reply ← on_line (recv_record uart)
      on_context (read_reply slave_id reply)

    -- The registers that `run_master` prints. The two byte strings are what `os.urandom` returns.
    unfoldable pub run_master : ℕ → Bytes → ℕ → ℕ → ℕ → Bytes → Bytes → Action uart.State (List ℕ)
    run_master slave_id password client_id start quantity urandom r_b = do
      context ← run_master_handshake uart slave_id password client_id urandom r_b
      λ s. let run = read_once slave_id start quantity (s, context) in (run.0, run.1.0)
