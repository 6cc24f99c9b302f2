-- ===== src/Ecc/Line/Laws.antt =====
-- Packets and secure APDUs of protocols/protocols-ECC/secure_modbus/frame.py on a lawful line.
use modbus_serial_security_p.Base.{
  ℕ, zero, suc, ◌-◌, ◌≤◌, ◌<◌, ◌≡◌, sym, ap, ◌∙◌, refl, [], ◌∷◌, ◌++◌, arith, append_assoc,
  append-nil, append_cancel, some, front_split, Bytes, length, length-append, ok, err, ◌+◌, ◌*◌,
  ◌==◌, Bool-cases, protocol_error, connection_closed, from_bytes, be_bytes, length-be_bytes,
  from_bytes-be_bytes, Result-cases, inl, inr,
}
use modbus_serial_security_p.Base.Action.{continue}
use modbus_serial_security_p.Psk.Records.{Uart}
use modbus_serial_security_p.Psk.Records.Laws.{UartLaws}
use modbus_serial_security_p.Ecc.Frame.{secure_function_code, secure_frame, open_secure_frame}
use modbus_serial_security_p.Ecc.Frame.Laws.{open-secure_frame, secure_frame_start}
use modbus_serial_security_p.Ecc.Line.{recv_loop, recv_exact, recv_packet, send_apdu, recv_apdu}

-- A frame behind its length, as `recv_packet` reads it.
abbrev pub packet_bytes : Bytes → Bytes
packet_bytes frame = be_bytes 2 (length frame) ++ frame

module _ (uart : Uart) (laws : UartLaws uart) where
  open uart use {State, read, write}
  open laws use {pending, sent, read_front, read_at_most, read_some, write_end}

  -- A round that receives something.
  recv_step :
      (fuel remaining : ℕ) (chunks : Bytes) (s : State)
      → 1 ≤ remaining
      → 1 ≤ length (read remaining s).0
      → recv_loop uart (suc fuel) remaining chunks s
        ≡ recv_loop uart fuel
            (remaining - length (read remaining s).0)
            (chunks ++ (read remaining s).0)
            (read remaining s).1
  unfolding recv_loop
  recv_step fuel remaining chunks s h1 h2 = ground arith

  recv_done :
      (fuel : ℕ) (chunks : Bytes) (s : State) → recv_loop uart fuel 0 chunks s ≡ (ok chunks, s)
  unfolding recv_loop
  recv_done zero chunks s = refl
  recv_done (suc fuel) chunks s = refl

  -- With the wanted bytes pending, the loop returns them and leaves the rest.
  recv_loop_wanted :
      (fuel remaining : ℕ) (chunks wanted rest : Bytes) (s : State)
      → remaining ≤ fuel
      → length wanted ≡ remaining
      → pending s ≡ wanted ++ rest
      → (s' : State) × (recv_loop uart fuel remaining chunks s ≡ (ok (chunks ++ wanted), s'))
        × (pending s' ≡ rest)
  recv_loop_wanted fuel zero chunks [] rest s hf hl hp =
      (s, rw append-nil (recv_done fuel chunks s), hp)
  recv_loop_wanted fuel zero chunks (x ∷ wanted) rest s hf hl hp = absurd (omega arith)
  recv_loop_wanted zero (suc remaining) chunks wanted rest s hf hl hp = absurd (omega arith)
  recv_loop_wanted (suc fuel) (suc remaining) chunks wanted rest s hf hl hp =
      let chunk = (read (suc remaining) s).0 in
      let s' = (read (suc remaining) s).1 in
      let many : 1 ≤ length chunk =
        read_some (suc remaining) s (omega arith)
          (omega (arith, ap length hp, length-append wanted rest)) in
      let few : length chunk ≤ suc remaining = read_at_most (suc remaining) s in
      let (w, e1, e2) =
        front_split chunk (pending s') wanted rest (read_front (suc remaining) s ∙ hp)
          (omega arith) in
      let (t, f1, f2) =
        recv_loop_wanted fuel (suc remaining - length chunk) (chunks ++ chunk) w rest s'
          (omega arith) (omega (arith, ap length e1, length-append chunk w)) e2 in
      (
        t,
        recv_step fuel (suc remaining) chunks s (omega arith) many
            ∙ f1
            ∙ (λ i. (ok ((append_assoc chunks chunk w ∙ ap (λ l. chunks ++ l) (sym e1)) i), t)),
        f2,
      )

  -- The input ends before the wanted bytes have come.
  recv_loop_short :
      (fuel remaining : ℕ) (chunks : Bytes) (s : State)
      → remaining ≤ fuel
      → length (pending s) < remaining
      → (recv_loop uart fuel remaining chunks s).0 ≡ err (protocol_error connection_closed)
  recv_loop_short zero remaining chunks s hf h = absurd (omega arith)
  recv_loop_short (suc fuel) remaining chunks s hf h =
      let chunk = (read remaining s).0 in
      let s' = (read remaining s).1 in
      let size : length chunk + length (pending s') ≡ length (pending s) =
        sym (length-append chunk (pending s')) ∙ ap length (read_front remaining s) in
      elim (Bool-cases (length chunk == 0)) [
        | inl nothing ↦ unfold recv_loop in ground arith
        | inr something ↦ rw (recv_step fuel remaining chunks s (omega arith) (ground arith)) (
            recv_loop_short fuel (remaining - length chunk) (chunks ++ chunk) s' (ground arith)
              (ground (arith, read_at_most remaining s)))
      ]

  -- Where a line ends before the bytes that its first two announce have come.
  recv_packet_short :
      (high low : ℕ) (rest : Bytes) (s : State)
      → pending s ≡ high ∷ low ∷ rest
      → length rest < 256 * high + low
      → (recv_packet uart s).0 ≡ err (protocol_error connection_closed)
  unfolding recv_packet recv_exact
  recv_packet_short high low rest s hp short =
      let (t, e1, e2) = recv_loop_wanted 2 2 [] (high ∷ low ∷ []) rest s (omega arith) refl hp in
      let size : from_bytes (high ∷ low ∷ []) ≡ 256 * high + low =
        unfold from_bytes in omega arith in
      rw (e1, continue, size)
        (recv_loop_short (256 * high + low) (256 * high + low) [] t (omega arith)
          (omega (arith, ap length e2)))

  recv_packet_ok :
      (frame rest : Bytes) (r : State)
      → length frame < 65536
      → pending r ≡ packet_bytes frame ++ rest
      → (r' : State) × (recv_packet uart r ≡ (ok frame, r')) × (pending r' ≡ rest)
  unfolding recv_packet recv_exact
  recv_packet_ok frame rest r h hp =
      let (t, e1, e2) =
        recv_loop_wanted 2 2 [] (be_bytes 2 (length frame)) (frame ++ rest) r (omega arith)
          (length-be_bytes 2 (length frame))
          (hp ∙ append_assoc (be_bytes 2 (length frame)) frame rest) in
      let (r', f1, f2) =
        recv_loop_wanted (length frame) (length frame) [] frame rest t (omega arith) refl e2 in
      (r', rw (e1, continue, from_bytes-be_bytes 2 (length frame) (omega arith)) f1, f2)

  opened :
      (address tag : ℕ) (payload frame : Bytes) (r r' : State)
      → recv_packet uart r ≡ (ok frame, r')
      → open_secure_frame frame (some address) ≡ ok (address, tag, payload)
      → recv_apdu uart address r ≡ (ok (tag, payload), r')
  unfolding recv_apdu
  opened address tag payload frame r r' e o = rw (e, continue, o) refl

  written :
      (address tag : ℕ) (payload : Bytes) (s s' : State)
      → send_apdu uart address tag payload s ≡ (ok tt, s')
      → (frame : Bytes) × (secure_frame address tag payload ≡ ok frame) × (s' ≡ write frame s)
  unfolding send_apdu
  written address tag payload s s' h = elim (Result-cases (secure_frame address tag payload)) [
    | inr (e, r) ↦ absurd (ground arith)
    | inl (frame, r) ↦ (frame, r, ground arith)
  ]

  -- The frame that `send_secure_apdu` has written, behind its length, is received as its tag and
  -- payload.
  pub recv-send_apdu :
      (address tag : ℕ) (payload frame rest : Bytes) (s s' r : State)
      → send_apdu uart address tag payload s ≡ (ok tt, s')
      → sent s' ≡ sent s ++ frame
      → length frame < 65536
      → pending r ≡ packet_bytes frame ++ rest
      → (r' : State) × (recv_apdu uart address r ≡ (ok (tag, payload), r')) × (pending r' ≡ rest)
  recv-send_apdu address tag payload frame rest s s' r hs ho small hp =
      let (out, built, shape) = written address tag payload s s' hs in
      let same : out ≡ frame =
        append_cancel (sent s) out frame (sym (write_end out s) ∙ ap sent (sym shape) ∙ ho) in
      let (r', e1, e2) = recv_packet_ok frame rest r small hp in
      (
        r',
        opened address tag payload frame r r' e1
            (open-secure_frame address tag payload frame (built ∙ ap ok same)).1,
        e2,
      )

  -- The frame alone: its first two bytes, the address and the function code 0, are taken for a
  -- length.
  pub recv-send_apdu_alone :
      (address tag expected : ℕ) (payload frame : Bytes) (s s' r : State)
      → send_apdu uart address tag payload s ≡ (ok tt, s')
      → sent s' ≡ sent s ++ frame
      → pending r ≡ frame
      → length frame < 256 * address + 2
      → (recv_apdu uart expected r).0 ≡ err (protocol_error connection_closed)
  unfolding recv_apdu
  recv-send_apdu_alone address tag expected payload frame s s' r hs ho hp short =
      let (out, built, shape) = written address tag payload s s' hs in
      let same : out ≡ frame =
        append_cancel (sent s) out frame (sym (write_end out s) ∙ ap sent (sym shape) ∙ ho) in
      let (rest, starts) = secure_frame_start address tag payload frame (built ∙ ap ok same) in
      let closed =
        recv_packet_short address secure_function_code rest r (hp ∙ starts)
          (omega (arith, ap length starts)) in
      rw (closed, continue) refl
