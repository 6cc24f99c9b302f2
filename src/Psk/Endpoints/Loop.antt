-- ===== src/Psk/Endpoints/Loop.antt =====
-- The fuel of the loop of `serve_connection`.
use native.Mathlib.Decide.{dec_le}
use modbus_serial_security_p.Base.{
  ℕ, zero, suc, ◌+◌, ◌≡◌, ◌≤◌, ◌<◌, ap, refl, sym, ◌∙◌, arith, inl, inr, List, Bytes, length,
  length-drop, Result, Error, Result-cases, ok, err, from_bytes, protocol_error, value_error,
  overflow_error, index_error, eof_error, invalid_tag, invalid_signature, out_of_fuel, key_error,
  type_error, attribute_error, assertion_error, os_error, struct_error,
}
use modbus_serial_security_p.Base.Action.{Action, continue, ◌>>◌, >>=-eq_ok}
use modbus_serial_security_p.Psk.Records.{Uart, read_exact, send_record, recv_record}
use modbus_serial_security_p.Psk.Records.Laws.{
  UartLaws, read_exact_lem, record_bytes, send_record_ok, send_record_too_large,
}
use modbus_serial_security_p.Psk.Cipher.{Aead}
use modbus_serial_security_p.Psk.Content.{SessionContext}
use modbus_serial_security_p.Psk.Endpoints.{
  Endpoint, serve_reply, serve_frame, after_record, serve_loop,
}

continue_congruent {ℓ κ} :
    {S : Type ℓ} {B : Type κ} (r : Result (Unit {0})) (f g : Unit {0} → Action S B) (s : S)
    → f tt s ≡ g tt s
    → continue f r s ≡ continue g r s
continue_congruent (ok tt) f g s h = h
continue_congruent (err x) f g s h = refl

after_record_err :
    (aead : Aead) (uart : Uart) (x : Error) (k k' : Bytes → Action (Endpoint aead uart) (Unit {0}))
    (e : Endpoint aead uart)
    → after_record aead uart (err x) k e ≡ after_record aead uart (err x) k' e
unfolding after_record
after_record_err aead uart (protocol_error r) k k' e = refl
after_record_err aead uart value_error k k' e = refl
after_record_err aead uart overflow_error k k' e = refl
after_record_err aead uart index_error k k' e = refl
after_record_err aead uart eof_error k k' e = refl
after_record_err aead uart invalid_tag k k' e = refl
after_record_err aead uart invalid_signature k k' e = refl
after_record_err aead uart key_error k k' e = refl
after_record_err aead uart type_error k k' e = refl
after_record_err aead uart attribute_error k k' e = refl
after_record_err aead uart assertion_error k k' e = refl
after_record_err aead uart os_error k k' e = refl
after_record_err aead uart struct_error k k' e = refl
after_record_err aead uart out_of_fuel k k' e = refl

module _ (uart : Uart) (laws : UartLaws uart) where
  open laws use {pending, write_keeps}

  -- A record takes the two bytes of its prefix at least.
  read_exact_takes :
      (size : ℕ) (s s' : uart.State) (bs : Bytes)
      → read_exact uart size s ≡ (ok bs, s')
      → length (pending s') + size ≤ length (pending s)
  read_exact_takes size s s' bs h = elim (read_exact_lem uart laws size s) [
    | inl (short, e) ↦ cc
    | inr (enough, (t, e, left, same)) ↦
        let eq : t ≡ s' = cc in
        rw (sym eq, left) (omega (arith, enough, length-drop size (pending s)))
  ]

  recv_record_takes :
      (s s' : uart.State) (frame : Bytes)
      → recv_record uart s ≡ (ok frame, s')
      → length (pending s') < length (pending s)
  unfolding recv_record
  recv_record_takes s s' frame h =
      let (header, t, e, rest) =
        >>=-eq_ok (read_exact uart 2) (λ header. read_exact uart (from_bytes header)) s s' frame
          h in
      omega (
        arith,
        read_exact_takes 2 s t header e,
        read_exact_takes (from_bytes header) t s' frame rest,
      )

  send_record_keeps :
      (frame : Bytes) (s : uart.State) → pending (send_record uart frame s).1 ≡ pending s
  send_record_keeps frame s = elim (dec_le 65536 (length frame)) [
    | yes large ↦ ap (λ r. pending r.1) (send_record_too_large uart laws frame s large)
    | no small ↦
        ap (λ r. pending r.1) (send_record_ok uart laws frame s (omega arith))
        ∙ write_keeps (record_bytes uart laws frame) s
  ]

  serve_frame_keeps :
      (aead : Aead) (slave_id : ℕ) (registers : List ℕ) (frame : Bytes) (s : uart.State)
      (c : SessionContext)
      → pending (serve_frame aead uart slave_id registers frame (s, c)).1.0 ≡ pending s
  unfolding serve_frame
  serve_frame_keeps aead slave_id registers frame s c =
      elim (Result-cases (serve_reply aead slave_id registers frame c).0) [
        | inl (reply, e) ↦ rw e (send_record_keeps reply s)
        | inr (x, e) ↦ rw e refl
      ]

  -- On a line with the laws of a UART, fuel above the number of bytes still to arrive is enough
  -- for the loop of the slave: more of it changes nothing.
  pub serve_loop_enough :
      (aead : Aead) (slave_id : ℕ) (registers : List ℕ) (fuel large : ℕ) (s : uart.State)
      (c : SessionContext)
      → length (pending s) < fuel
      → fuel ≤ large
      → serve_loop aead uart large slave_id registers (s, c)
        ≡ serve_loop aead uart fuel slave_id registers (s, c)
  unfolding serve_loop after_record
  serve_loop_enough aead slave_id registers zero large s c h l = absurd (omega arith)
  serve_loop_enough aead slave_id registers (suc fuel) zero s c h l = absurd (omega arith)
  serve_loop_enough aead slave_id registers (suc fuel) (suc large) s c h l =
      elim (Result-cases (recv_record uart s).0) [
        | inl (frame, e) ↦ rw e (
            continue_congruent
              (serve_frame aead uart slave_id registers frame ((recv_record uart s).1, c)).0
              (λ _. serve_loop aead uart large slave_id registers)
              (λ _. serve_loop aead uart fuel slave_id registers)
              (serve_frame aead uart slave_id registers frame ((recv_record uart s).1, c)).1
              (serve_loop_enough aead slave_id registers fuel large
                (serve_frame aead uart slave_id registers frame ((recv_record uart s).1, c)).1.0
                (serve_frame aead uart slave_id registers frame ((recv_record uart s).1, c)).1.1
                (shorter frame e) (omega arith)))
        | inr (x, e) ↦ rw e (
            after_record_err aead uart x
              (λ frame.
                serve_frame aead uart slave_id registers frame
                >> serve_loop aead uart large slave_id registers)
              (λ frame.
                serve_frame aead uart slave_id registers frame
                >> serve_loop aead uart fuel slave_id registers)
              ((recv_record uart s).1, c))
      ]
    where
      shorter :
          (frame : Bytes)
          → (recv_record uart s).0 ≡ ok frame
          → length (
              pending
                (serve_frame aead uart slave_id registers frame ((recv_record uart s).1, c)).1.0)
            < fuel
      shorter frame e = omega (
        arith,
        ap length (serve_frame_keeps aead slave_id registers frame (recv_record uart s).1 c),
        recv_record_takes s (recv_record uart s).1 frame (λ i. (e i, (recv_record uart s).1)),
        h,
      )
