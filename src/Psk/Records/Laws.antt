-- ===== src/Psk/Records/Laws.antt =====
-- `_read_exact`, `send_record` and `recv_record` over a line that cuts its input into chunks.
use native.Mathlib.Decide.{dec_le}
use modbus_serial_security_p.Base.{
  ℕ, zero, suc, ◌+◌, ◌-◌, ◌≤◌, ◌<◌, ◌≡◌, sym, ap, ◌∙◌, refl, [], ◌∷◌, ◌++◌, arith, append_assoc,
  append-nil, append_cancel, length-take, take-append-drop, ◌⊎◌, value_error, front_split, Bytes,
  length, take, drop, length-append, Bool-cases, inl, inr, ◌==◌, ok, err, eof_error, be_bytes,
  length-be_bytes, from_bytes-be_bytes, to_bytes_lem,
}
use modbus_serial_security_p.Base.Action.{continue}
use modbus_serial_security_p.Psk.Records.{Uart, read_loop, read_exact, send_record, recv_record}

-- What the code relies on: `pending` are the bytes still to arrive and `sent` those written. A read
-- takes at most as many bytes as asked from the front, and none only at the end of the input.
pub record UartLaws (uart : Uart) : Type 0 where
  pub pending : uart.State → Bytes
  pub sent : uart.State → Bytes
  pub read_front :
      (n : ℕ) (s : uart.State) → (uart.read n s).0 ++ pending (uart.read n s).1 ≡ pending s
  pub read_at_most : (n : ℕ) (s : uart.State) → length (uart.read n s).0 ≤ n
  pub read_some :
      (n : ℕ) (s : uart.State) → 1 ≤ n → 1 ≤ length (pending s) → 1 ≤ length (uart.read n s).0
  pub read_keeps : (n : ℕ) (s : uart.State) → sent (uart.read n s).1 ≡ sent s
  pub write_keeps : (bs : Bytes) (s : uart.State) → pending (uart.write bs s) ≡ pending s
  pub write_end : (bs : Bytes) (s : uart.State) → sent (uart.write bs s) ≡ sent s ++ bs

module _ (uart : Uart) (laws : UartLaws uart) where
  open uart use {State, read, write}
  open laws use {
    pending, sent, read_front, read_at_most, read_some, read_keeps, write_keeps, write_end,
  }

  -- A round that receives something.
  read_step :
      (fuel remaining : ℕ) (chunks : Bytes) (s : State)
      → 1 ≤ remaining
      → 1 ≤ length (read remaining s).0
      → read_loop uart (suc fuel) remaining chunks s
        ≡ read_loop uart fuel
            (remaining - length (read remaining s).0)
            (chunks ++ (read remaining s).0)
            (read remaining s).1
  unfolding read_loop
  read_step fuel remaining chunks s h1 h2 = ground arith

  read_done :
      (fuel : ℕ) (chunks : Bytes) (s : State) → read_loop uart fuel 0 chunks s ≡ (ok chunks, s)
  unfolding read_loop
  read_done zero chunks s = refl
  read_done (suc fuel) chunks s = refl

  -- With the wanted bytes pending, the loop returns them and leaves the rest.
  read_loop_wanted :
      (fuel remaining : ℕ) (chunks wanted rest : Bytes) (s : State)
      → remaining ≤ fuel
      → length wanted ≡ remaining
      → pending s ≡ wanted ++ rest
      → (s' : State) × (read_loop uart fuel remaining chunks s ≡ (ok (chunks ++ wanted), s'))
        × (pending s' ≡ rest)
        × (sent s' ≡ sent s)
  read_loop_wanted fuel zero chunks [] rest s hf hl hp =
      (s, rw append-nil (read_done fuel chunks s), hp, refl)
  read_loop_wanted fuel zero chunks (x ∷ wanted) rest s hf hl hp = absurd (omega arith)
  read_loop_wanted zero (suc remaining) chunks wanted rest s hf hl hp = absurd (omega arith)
  read_loop_wanted (suc fuel) (suc remaining) chunks wanted rest s hf hl hp =
      let chunk = (read (suc remaining) s).0 in
      let s' = (read (suc remaining) s).1 in
      let many : 1 ≤ length chunk =
        read_some (suc remaining) s (omega arith)
          (omega (arith, ap length hp, length-append wanted rest)) in
      let few : length chunk ≤ suc remaining = read_at_most (suc remaining) s in
      let (w, e1, e2) =
        front_split chunk (pending s') wanted rest (read_front (suc remaining) s ∙ hp)
          (omega arith) in
      let (t, f1, f2, f3) =
        read_loop_wanted fuel (suc remaining - length chunk) (chunks ++ chunk) w rest s'
          (omega arith) (omega (arith, ap length e1, length-append chunk w)) e2 in
      (
        t,
        read_step fuel (suc remaining) chunks s (omega arith) many
            ∙ f1
            ∙ (λ i. (ok ((append_assoc chunks chunk w ∙ ap (λ l. chunks ++ l) (sym e1)) i), t)),
        f2,
        f3 ∙ read_keeps (suc remaining) s,
      )

  -- The input ends too early.
  read_loop_short :
      (fuel remaining : ℕ) (chunks : Bytes) (s : State)
      → remaining ≤ fuel
      → length (pending s) < remaining
      → (read_loop uart fuel remaining chunks s).0 ≡ err eof_error
  read_loop_short zero remaining chunks s hf h = absurd (omega arith)
  read_loop_short (suc fuel) remaining chunks s hf h =
      let chunk = (read remaining s).0 in
      let s' = (read remaining s).1 in
      let size : length chunk + length (pending s') ≡ length (pending s) =
        sym (length-append chunk (pending s')) ∙ ap length (read_front remaining s) in
      elim (Bool-cases (length chunk == 0)) [
        | inl nothing ↦ unfold read_loop in ground arith
        | inr something ↦ rw (read_step fuel remaining chunks s (omega arith) (ground arith)) (
            read_loop_short fuel (remaining - length chunk) (chunks ++ chunk) s' (ground arith)
              (ground (arith, read_at_most remaining s)))
      ]

  -- However the line cuts the input into chunks, `_read_exact` returns the first `size` bytes and
  -- leaves the others, and raises EOFError if there are fewer. Its loop never runs out of fuel.
  pub read_exact_lem :
      (size : ℕ) (s : State)
      → ((length (pending s) < size) × ((read_exact uart size s).0 ≡ err eof_error))
        ⊎ ((size ≤ length (pending s))
            × ((s' : State) × (read_exact uart size s ≡ (ok (take size (pending s)), s'))
                × (pending s' ≡ drop size (pending s))
                × (sent s' ≡ sent s)))
  unfolding read_exact
  read_exact_lem size s = elim (dec_le size (length (pending s))) [
    | yes enough ↦ inr (
      enough,
      read_loop_wanted size size [] (take size (pending s)) (drop size (pending s)) s (omega arith)
          (omega (arith, length-take size (pending s))) (sym (take-append-drop size (pending s))),
    )
    | no short ↦ inl (omega arith, read_loop_short size size [] s (omega arith) (omega arith))
  ]

  abbrev pub record_bytes : Bytes → Bytes
  record_bytes frame = be_bytes 2 (length frame) ++ frame

  pub send_record_ok :
      (frame : Bytes) (s : State)
      → length frame < 65536
      → send_record uart frame s ≡ (ok tt, write (record_bytes frame) s)
  unfolding send_record
  send_record_ok frame s h = ground (arith, to_bytes_lem 2 (length frame))

  recv_record_ok :
      (frame rest : Bytes) (r : State)
      → length frame < 65536
      → pending r ≡ record_bytes frame ++ rest
      → (r' : State) × (recv_record uart r ≡ (ok frame, r'))
        × (pending r' ≡ rest)
        × (sent r' ≡ sent r)
  unfolding recv_record read_exact
  recv_record_ok frame rest r h hp =
      let (t, e1, e2, e3) =
        read_loop_wanted 2 2 [] (be_bytes 2 (length frame)) (frame ++ rest) r (omega arith)
          (length-be_bytes 2 (length frame))
          (hp ∙ append_assoc (be_bytes 2 (length frame)) frame rest) in
      let (r', f1, f2, f3) =
        read_loop_wanted (length frame) (length frame) [] frame rest t (omega arith) refl e2 in
      (r', rw (e1, continue, from_bytes-be_bytes 2 (length frame) (omega arith)) f1, f2, f3 ∙ e3)

  -- A frame of more than 65535 bytes is refused before anything is written.
  pub send_record_too_large :
      (frame : Bytes) (s : State)
      → 65536 ≤ length frame
      → send_record uart frame s ≡ (err value_error, s)
  unfolding send_record
  send_record_too_large frame s h = ground arith

  -- The bytes that `send_record` writes for a frame, followed by anything, are received as that
  -- frame, and what followed them is still to be received.
  pub recv-send_record :
      (frame out rest : Bytes) (s s' r : State)
      → send_record uart frame s ≡ (ok tt, s')
      → sent s' ≡ sent s ++ out
      → pending r ≡ out ++ rest
      → (r' : State) × (recv_record uart r ≡ (ok frame, r')) × (pending r' ≡ rest)
  recv-send_record frame out rest s s' r hs ho hp = elim (dec_le 65536 (length frame)) [
    | yes large ↦ absurd (cc (send_record_too_large frame s large))
    | no small ↦
        let e : s' ≡ write (record_bytes frame) s =
          ap (λ p. p.1) (sym hs ∙ send_record_ok frame s (omega arith)) in
        let shape : out ≡ record_bytes frame =
          append_cancel (sent s) out (record_bytes frame)
            (sym ho ∙ ap sent e ∙ write_end (record_bytes frame) s) in
        let (r', e1, e2, e3) =
          recv_record_ok frame rest r (omega arith) (hp ∙ ap (λ l. l ++ rest) shape) in
        (r', e1, e2)
  ]
