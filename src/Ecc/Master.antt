-- ===== src/Ecc/Master.antt =====
-- `MasterClient` of protocols/protocols-ECC/secure_modbus/master_server.py, and `handle_client` of
-- slave_server.py beside it. What the code draws and what the clock says are arguments.
pub mod Status
pub mod Invariant
use modbus_serial_security_p.Base.{
  ℕ, zero, suc, ◌+◌, ◌*◌, not, ◌&&◌, Bool, true, false, Option, none, some, List, [], ◌∷◌, ◌++◌,
  bit_and, Bytes, take, slice, ltb, ◌==◌, bytes_eq, if◌then◌else◌, Result, ok, err, Error, index,
  be_bytes, from_bytes, protocol_error, assertion_error, modbus_exception, unexpected_response,
  out_of_fuel, struct_error,
}
use modbus_serial_security_p.Base.Action.{Action, pure, raise, lift, raise_if, ◌>>=◌, ◌>>◌}
use modbus_serial_security_p.Base.Json.{Json}
use modbus_serial_security_p.Ecc.Suite.{EccSuite}
use modbus_serial_security_p.Ecc.Certificates.{DeviceIdentity}
use modbus_serial_security_p.Ecc.Line.{Transport}
use modbus_serial_security_p.Ecc.Registers.{handle_pdu}
use modbus_serial_security_p.Ecc.Session.{
  World, SecureSession, new_session, send_encrypted_pdu, recv_encrypted_pdu,
}
use modbus_serial_security_p.Ecc.Session.Client.{ClientDraws, client_handshake}
use modbus_serial_security_p.Ecc.Session.Server.{ServerDraws, server_handshake}

-- The three actions that are logged, with their details.
pub data Logged : Type 0 where
  handshake : Option Bytes → Logged
  read_registers : ℕ → ℕ → List ℕ → Logged
  write_register : ℕ → ℕ → Logged

pub record Entry : Type 0 where
  pub time : Bytes
  pub action : Logged
  pub ok_flag : Bool

module _ (suite : EccSuite) (transport : Transport) where
  -- The socket is there or not; the state of the line stands beside it.
  pub record MasterClient : Type 0 where
    pub address : ℕ
    pub identity : DeviceIdentity
    pub sock : Bool
    pub session : Option SecureSession
    -- Whether the one message for a failed transaction is there.
    pub last_error : Bool
    pub operation_log : List Entry
    pub line : transport.State
    pub saved : Option (Result Json)

  -- What a call draws: the connection, the handshake, and the time.
  pub record MasterDraws : Type 0 where
    pub connection : Result transport.State
    pub client : ClientDraws
    pub time : Bytes

  abbrev pub Call : Type 0 → Type 0
  Call A = Action MasterClient A

  -- `self.operation_log.insert(0, …)` and `del self.operation_log[30:]`
  unfoldable pub add_log : Bytes → Logged → Call (Unit {0})
  add_log time action c = (
    ok tt,
    record c {
      operation_log =
          take 30 (record { time = time; action = action; ok_flag = true } ∷ c.operation_log);
    },
  )

  -- The session after its handshake; the line and the file have changed in any case.
  abbrev pub opened :
      Result (Unit {0}) → World suite transport → MasterClient → Result SecureSession × MasterClient
  opened (ok u) w c = (ok w.session, record c { line = w.line; saved = w.saved })
  opened (err e) w c = (err e, record c { line = w.line; saved = w.saved })

  -- The session of `connect` while it is not stored yet.
  unfoldable pub open_session : MasterDraws → transport.State → Call SecureSession
  open_session draws line c =
      let run =
        client_handshake suite transport draws.client
          (record { line = line; session = new_session c.address c.identity; saved = c.saved }) in
      opened run.0 run.1 c

  -- `self.sock = sock`, `self.session = session` and `self.last_error = None`
  abbrev pub store_session : SecureSession → Call (Unit {0})
  store_session session c =
      (ok tt, record c { sock = true; session = some session; last_error = false })

  unfoldable pub connect_new : MasterDraws → Call (Unit {0})
  unfolding open_session add_log
  connect_new draws = do
    line ← lift draws.connection
    session ← open_session draws line
    store_session session
    add_log draws.time (handshake session.peer_id)

  unfoldable pub connect : MasterDraws → Call (Unit {0})
  unfolding connect_new
  connect draws c = if c.sock then (ok tt, c) else connect_new draws c

  -- Without a socket nothing happens.
  unfoldable pub close : MasterClient → MasterClient
  close c = if c.sock then record c { sock = false; session = none } else c

  -- A method of the session, which keeps what it changes.
  unfoldable pub on_session {ℓ} :
      {A : Type ℓ} → Action (World suite transport) A → Option SecureSession → Action MasterClient A
  on_session m none c = (err assertion_error, c)
  on_session m (some session) c =
      let run = m (record { line = c.line; session = session; saved = c.saved }) in
      let w = run.1 in
      (run.0, record c { line = w.line; session = some w.session; saved = w.saved })

  -- The two calls of the session.
  unfoldable pub exchange_pdu : Bytes → Action (World suite transport) Bytes
  exchange_pdu pdu = do send_encrypted_pdu suite transport pdu; recv_encrypted_pdu suite transport

  -- The body of the `try` block.
  unfoldable pub attempt : MasterDraws → Bytes → Call Bytes
  unfolding connect on_session exchange_pdu
  attempt draws pdu = do
    connect draws
    λ (c : MasterClient). on_session (exchange_pdu pdu) c.session c

  -- `except Exception: …; raise`
  abbrev pub after_attempt : Result Bytes → MasterClient → Result Bytes × MasterClient
  unfolding close
  after_attempt (ok response) c = (ok response, c)
  after_attempt (err e) c = (err e, close (record c { last_error = true }))

  unfoldable pub transact : MasterDraws → Bytes → Call Bytes
  unfolding attempt after_attempt
  transact draws pdu c = after_attempt (attempt draws pdu c).0 (attempt draws pdu c).1

  -- `struct.pack(">HH", a, b)` behind a function code. A number of more than two bytes is a `struct.error`.
  unfoldable pub packed_request : ℕ → ℕ → ℕ → Result Bytes
  packed_request function a b =
      if ltb a 65536 && ltb b 65536
      then ok (function ∷ (be_bytes 2 a ++ be_bytes 2 b))
      else err struct_error

  -- `int.from_bytes(response[2 + offset * 2 : 4 + offset * 2], "big")` for each offset, from one on.
  unfoldable pub read_values : Bytes → ℕ → ℕ → List ℕ
  read_values response zero offset = []
  read_values response (suc quantity) offset =
      from_bytes (slice response (2 + offset * 2) (4 + offset * 2))
      ∷ read_values response quantity (offset + 1)

  -- `if response[0] & 0x80: raise ProtocolError(f"… {response[1]}")`, where the second byte may be
  -- missing.
  unfoldable pub check_exception : Bytes → ℕ → Result (Unit {0})
  check_exception response function =
      if ltb 0 (bit_and function 0x80)
      then elim (index response 1) [
        | err e ↦ err e
        | ok code ↦ err (protocol_error modbus_exception)
      ]
      else ok tt

  -- `response[0] != 0x03 or response[1] != quantity * 2`
  unfoldable pub check_read : Bytes → ℕ → ℕ → Result (Unit {0})
  check_read response function quantity =
      if not (function == 0x03)
      then err (protocol_error unexpected_response)
      else elim (index response 1) [
        | err e ↦ err e
        | ok count ↦
            if count == quantity * 2 then ok tt else err (protocol_error unexpected_response)
      ]

  unfoldable pub read_holding_registers : MasterDraws → ℕ → ℕ → Call (List ℕ)
  unfolding transact packed_request check_exception check_read read_values add_log
  read_holding_registers draws start quantity = do
    request ← lift (packed_request 0x03 start quantity)
    response ← transact draws request
    function ← lift (index response 0)
    exceptional ← lift (check_exception response function)
    expected ← lift (check_read response function quantity)
    let values = read_values response quantity 0
    add_log draws.time (read_registers start quantity values)
    pure values

  unfoldable pub write_single_register : MasterDraws → ℕ → ℕ → Call (ℕ × ℕ)
  unfolding transact packed_request check_exception add_log
  write_single_register draws register value = do
    request ← lift (packed_request 0x06 register value)
    response ← transact draws request
    function ← lift (index response 0)
    exceptional ← lift (check_exception response function)
    raise_if (not (bytes_eq response request)) (protocol_error unexpected_response)
    add_log draws.time (write_register register value)
    pure (register, value)

  abbrev pub Slave : Type 0
  Slave = World suite transport × List ℕ

  abbrev on_world {ℓ} : {A : Type ℓ} → Action (World suite transport) A → Action Slave A
  on_world m (w, registers) = ((m w).0, ((m w).1, registers))

  abbrev on_bank {ℓ} : {A : Type ℓ} → Action (List ℕ) A → Action Slave A
  on_bank m (w, registers) = ((m registers).0, (w, (m registers).1))

  -- One round of the slave's loop.
  unfoldable pub serve_request : Action Slave (Unit {0})
  serve_request = do
    request ← on_world (recv_encrypted_pdu suite transport)
    response ← on_bank (handle_pdu request)
    on_world (send_encrypted_pdu suite transport response)

  -- `while True: …`, on fuel. The registers outlive the connection.
  unfoldable pub serve_requests : ℕ → Action Slave (Unit {0})
  unfolding serve_request
  serve_requests zero = raise out_of_fuel
  serve_requests (suc fuel) = serve_request >> serve_requests fuel

  unfoldable pub handle_client : ℕ → ServerDraws → Action Slave (Unit {0})
  unfolding serve_requests
  handle_client fuel draws =
      on_world (server_handshake suite transport draws) >> serve_requests fuel
