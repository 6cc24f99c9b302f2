-- ===== src/Ecc/Master/Invariant.antt =====
-- What holds of a `MasterClient` after any calls, in any order and however they end.
use modbus_serial_security_p.Base.{
  ℕ, ◌≤◌, ◌≡◌, refl, ap, ◌∙◌, arith, Bool, true, false, Option, none, some, [], ◌∷◌, Bytes, length,
  length-take, bytes_eq, Bool-cases, inl, inr, Result, ok, err, not, index, protocol_error,
  unexpected_response,
}
use modbus_serial_security_p.Base.Action.{pure, lift, raise_if, Keeps, >>=-Keeps, raise_if-Keeps}
use modbus_serial_security_p.Base.Json.{Json}
use modbus_serial_security_p.Ecc.Suite.{EccSuite}
use modbus_serial_security_p.Ecc.Certificates.{DeviceIdentity}
use modbus_serial_security_p.Ecc.Line.{Transport}
use modbus_serial_security_p.Ecc.Session.{World, SecureSession, new_session}
use modbus_serial_security_p.Ecc.Session.Client.{client_handshake}
use modbus_serial_security_p.Ecc.Master.{
  Logged, handshake, read_registers, write_register, MasterClient, MasterDraws, add_log, opened,
  store_session, open_session, connect_new, connect, close, on_session, exchange_pdu, attempt,
  after_attempt, transact, read_holding_registers, write_single_register, packed_request,
  check_exception, check_read, read_values,
}

module _ (suite : EccSuite) (transport : Transport) where
  -- There is a session where there is a socket, and the log has at most 30 entries.
  abbrev pub has_session : MasterClient suite transport → Bool
  has_session c = elim c.session [ none ↦ false | some s ↦ true ]

  pub record IsConsistent (c : MasterClient suite transport) : Type 0 where
    pub same_presence : has_session c ≡ c.sock
    pub short_log : length c.operation_log ≤ 30

  -- `MasterClient.__init__`
  unfoldable pub new_client :
      ℕ → DeviceIdentity → transport.State → Option (Result Json) → MasterClient suite transport
  new_client address identity line saved = record {
    address = address;
    identity = identity;
    sock = false;
    session = none;
    last_error = false;
    operation_log = [];
    line = line;
    saved = saved;
  }

  add_log-IsConsistent :
      (time : Bytes) (action : Logged) (c : MasterClient suite transport)
      → IsConsistent c
      → IsConsistent (add_log suite transport time action c).1
  unfolding add_log
  add_log-IsConsistent time action c h = record {
    same_presence = h.same_presence;
    short_log = omega (
      arith,
      length-take 30 (record { time = time; action = action; ok_flag = true } ∷ c.operation_log),
    );
  }

  close-IsConsistent :
      (c : MasterClient suite transport) → IsConsistent c → IsConsistent (close suite transport c)
  unfolding close
  close-IsConsistent c h = elim (Bool-cases c.sock) [
    | inl there ↦ rw there (record { same_presence = refl; short_log = h.short_log })
    | inr gone ↦
        rw gone (record { same_presence = h.same_presence ∙ gone; short_log = h.short_log })
  ]

  on_session-IsConsistent {ℓ} :
      {A : Type ℓ} (m : World suite transport → Result A × World suite transport)
      (session : Option SecureSession) (c : MasterClient suite transport)
      → session ≡ c.session
      → IsConsistent c
      → IsConsistent (on_session suite transport m session c).1
  unfolding on_session
  on_session-IsConsistent m none c e h = h
  on_session-IsConsistent m (some s) c e h = record {
    same_presence =
        ap (λ (o : Option SecureSession). elim o [ none ↦ false | some s ↦ true ]) e
        ∙ h.same_presence;
    short_log = h.short_log;
  }

  opened-IsConsistent :
      (r : Result (Unit {0})) (w : World suite transport) (c : MasterClient suite transport)
      → IsConsistent c
      → IsConsistent (opened suite transport r w c).1
  opened-IsConsistent (ok u) w c h = record {
    same_presence = h.same_presence;
    short_log = h.short_log;
  }
  opened-IsConsistent (err e) w c h = record {
    same_presence = h.same_presence;
    short_log = h.short_log;
  }

  open_session-IsConsistent :
      (draws : MasterDraws suite transport) (line : transport.State)
      → Keeps IsConsistent (open_session suite transport draws line)
  unfolding open_session
  open_session-IsConsistent draws line c h =
      let start : World suite transport = record {
        line = line;
        session = new_session c.address c.identity;
        saved = c.saved;
      } in
      let run = client_handshake suite transport draws.client start in
      opened-IsConsistent run.0 run.1 c h

  connect_new-IsConsistent :
      (draws : MasterDraws suite transport) → Keeps IsConsistent (connect_new suite transport draws)
  unfolding connect_new
  connect_new-IsConsistent draws =
      >>=-Keeps IsConsistent (lift draws.connection) _ (λ s k. k)
        λ line.
          >>=-Keeps IsConsistent (open_session suite transport draws line) _
            (open_session-IsConsistent draws line)
            λ session.
              >>=-Keeps IsConsistent (store_session suite transport session)
                (λ _. add_log suite transport draws.time (handshake session.peer_id))
                (λ s k. record { same_presence = refl; short_log = k.short_log })
                (λ _. add_log-IsConsistent draws.time (handshake session.peer_id))

  connect-IsConsistent :
      (draws : MasterDraws suite transport) → Keeps IsConsistent (connect suite transport draws)
  unfolding connect
  connect-IsConsistent draws c h = elim (Bool-cases c.sock) [
    | inl there ↦
        rw there (record { same_presence = h.same_presence ∙ there; short_log = h.short_log })
    | inr gone ↦ rw gone (
        connect_new-IsConsistent draws (record c { sock = false })
          (record { same_presence = h.same_presence ∙ gone; short_log = h.short_log }))
  ]

  attempt-IsConsistent :
      (draws : MasterDraws suite transport) (pdu : Bytes)
      → Keeps IsConsistent (attempt suite transport draws pdu)
  unfolding attempt
  attempt-IsConsistent draws pdu =
      >>=-Keeps IsConsistent (connect suite transport draws) _ (connect-IsConsistent draws)
        λ _ c. on_session-IsConsistent (exchange_pdu suite transport pdu) c.session c refl

  transact-IsConsistent :
      (draws : MasterDraws suite transport) (pdu : Bytes)
      → Keeps IsConsistent (transact suite transport draws pdu)
  unfolding transact
  transact-IsConsistent draws pdu c h =
      ended (attempt suite transport draws pdu c).0 _ (attempt-IsConsistent draws pdu c h)
    where
      ended :
          (r : Result Bytes) (c : MasterClient suite transport)
          → IsConsistent c
          → IsConsistent (after_attempt suite transport r c).1
      ended (ok response) c h = h
      ended (err e) c h =
          close-IsConsistent (record c { last_error = true })
            (record { same_presence = h.same_presence; short_log = h.short_log })

  read-IsConsistent :
      (draws : MasterDraws suite transport) (start quantity : ℕ)
      → Keeps IsConsistent (read_holding_registers suite transport draws start quantity)
  unfolding read_holding_registers
  read-IsConsistent draws start quantity =
      >>=-Keeps IsConsistent (lift (packed_request suite transport 0x03 start quantity)) _
        (λ s k. k)
        λ request.
          >>=-Keeps IsConsistent (transact suite transport draws request) _
            (transact-IsConsistent draws request)
            λ response.
              >>=-Keeps IsConsistent (lift (index response 0)) _ (λ s k. k)
                λ function.
                  >>=-Keeps IsConsistent (lift (check_exception suite transport response function))
                    _ (λ s k. k)
                    λ _.
                      >>=-Keeps IsConsistent
                        (lift (check_read suite transport response function quantity)) _ (λ s k. k)
                        λ _.
                          >>=-Keeps IsConsistent
                            (add_log suite transport draws.time (
                              read_registers start quantity
                                (read_values suite transport response quantity 0)))
                            (λ _. pure (read_values suite transport response quantity 0))
                            (add_log-IsConsistent draws.time (
                              read_registers start quantity
                                (read_values suite transport response quantity 0)))
                            (λ _ s k. k)

  write-IsConsistent :
      (draws : MasterDraws suite transport) (register value : ℕ)
      → Keeps IsConsistent (write_single_register suite transport draws register value)
  unfolding write_single_register
  write-IsConsistent draws register value =
      >>=-Keeps IsConsistent (lift (packed_request suite transport 0x06 register value)) _
        (λ s k. k)
        λ request.
          >>=-Keeps IsConsistent (transact suite transport draws request) _
            (transact-IsConsistent draws request)
            λ response.
              >>=-Keeps IsConsistent (lift (index response 0)) _ (λ s k. k)
                λ function.
                  >>=-Keeps IsConsistent (lift (check_exception suite transport response function))
                    _ (λ s k. k)
                    λ _.
                      >>=-Keeps IsConsistent
                        (raise_if (not (bytes_eq response request))
                          (protocol_error unexpected_response))
                        _
                        (raise_if-Keeps IsConsistent (not (bytes_eq response request))
                          (protocol_error unexpected_response))
                        λ _.
                          >>=-Keeps {B = ℕ × ℕ} IsConsistent
                            (add_log suite transport draws.time (write_register register value))
                            (λ _. pure (register, value))
                            (add_log-IsConsistent draws.time (write_register register value))
                            (λ _ s k. k)

  -- One call on a client, with what it draws, whatever its result.
  pub data Step (c : MasterClient suite transport) : MasterClient suite transport → Type 0 where
    reads :
        (draws : MasterDraws suite transport) (start quantity : ℕ)
        → Step c (read_holding_registers suite transport draws start quantity c).1
    writes :
        (draws : MasterDraws suite transport) (register value : ℕ)
        → Step c (write_single_register suite transport draws register value c).1
    connects : (draws : MasterDraws suite transport) → Step c (connect suite transport draws c).1
    closes : Step c (close suite transport c)

  pub data Reach (c : MasterClient suite transport) : MasterClient suite transport → Type 0 where
    here : Reach c c
    next : {d e : MasterClient suite transport} → Reach c d → Step d e → Reach c e

  Step-IsConsistent :
      {c d : MasterClient suite transport} → Step c d → IsConsistent c → IsConsistent d
  Step-IsConsistent {c = c} (reads draws start quantity) h =
      read-IsConsistent draws start quantity c h
  Step-IsConsistent {c = c} (writes draws register value) h =
      write-IsConsistent draws register value c h
  Step-IsConsistent {c = c} (connects draws) h = connect-IsConsistent draws c h
  Step-IsConsistent {c = c} closes h = close-IsConsistent c h

  Reach-Keeps : {c d : MasterClient suite transport} → Reach c d → IsConsistent c → IsConsistent d
  Reach-Keeps here h = h
  Reach-Keeps (next r st) h = Step-IsConsistent st (Reach-Keeps r h)

  -- After any calls on a new client, in any order and whether they return or raise, it has a session
  -- exactly where it has a socket, and its log has at most 30 entries.
  pub Reach-IsConsistent :
      (address : ℕ) (identity : DeviceIdentity) (line : transport.State)
      (saved : Option (Result Json)) (c : MasterClient suite transport)
      → Reach (new_client address identity line saved) c
      → IsConsistent c
  unfolding new_client
  Reach-IsConsistent address identity line saved c r =
      Reach-Keeps r (record { same_presence = refl; short_log = omega arith })
