-- ===== src/Psk/Content/Delivery.antt =====
-- `build_encrypted_data_send` and `parse_encrypted_data_send` on the two contexts of a session.
use native.Mathlib.Decide.{dec_le}
use modbus_serial_security_p.Base.{
  ℕ, ◌+◌, ◌^◌, ◌≤◌, ◌<◌, ◌≡◌, ap, ◌∙◌, refl, sym, ◌++◌, arith, some, false, Bytes, length,
  take-append, drop-append, length-append, ok, err, bytes_eq, overflow_error, ltb, ltb-false,
}
use modbus_serial_security_p.Psk.Frame.{build_apdu_frame, parse_apdu_frame}
use modbus_serial_security_p.Psk.Frame.Laws.{parse-build_apdu_frame}
use modbus_serial_security_p.Psk.Cipher.{Aead, aes_gcm_encrypt, aes_gcm_decrypt}
use modbus_serial_security_p.Psk.Cipher.Laws.{
  AeadLaws, decrypt-encrypt, encrypt_total, encrypt_overflow,
}
use modbus_serial_security_p.Psk.Content.{
  SessionContext, mode_aes_gcm, tag_ss_data_send, build_encrypted_data_send,
  parse_encrypted_data_send,
}

module _ (aead : Aead) where
  -- A send whose encryption succeeds.
  pub build_sends :
      (slave_id : ℕ) (pdu mac ciphertext : Bytes) (s : SessionContext)
      → s.mode ≡ mode_aes_gcm
      → aes_gcm_encrypt aead s.keys s.send_counter pdu false ≡ ok (mac, ciphertext)
      → build_encrypted_data_send aead slave_id pdu s ≡ (
        build_apdu_frame slave_id tag_ss_data_send (mac ++ ciphertext),
        record s { send_counter = s.send_counter + 1 },
      )
  unfolding build_encrypted_data_send
  build_sends slave_id pdu mac ciphertext s m e = rw (m, e) refl

  read_parts :
      (slave_id : ℕ) (frame mac ciphertext pdu : Bytes) (r : SessionContext)
      → parse_apdu_frame frame (some slave_id)
        ≡ ok (record { tag = tag_ss_data_send; payload = mac ++ ciphertext })
      → length mac ≡ 16
      → r.mode ≡ mode_aes_gcm
      → aes_gcm_decrypt aead r.keys r.recv_counter mac ciphertext false ≡ ok pdu
      → parse_encrypted_data_send aead frame slave_id r
        ≡ (ok pdu, record r { recv_counter = r.recv_counter + 1 })
  unfolding parse_encrypted_data_send bytes_eq
  read_parts slave_id frame mac ciphertext pdu r e l m d =
      let long : ltb (length (mac ++ ciphertext)) 16 ≡ false =
        ltb-false (length (mac ++ ciphertext)) 16
          (omega (arith, length-append mac ciphertext, l)) in
      rw
        (
          e,
          m,
          long,
          take-append mac ciphertext 16 (sym l),
          drop-append mac ciphertext 16 (sym l),
          d,
        )
        refl

-- Two contexts of one session, where the second is ready for what the first sends next.
pub record IsInStep (s r : SessionContext) : Type 0 where
  pub sends_gcm : s.mode ≡ mode_aes_gcm
  pub receives_gcm : r.mode ≡ mode_aes_gcm
  pub same_keys : s.keys ≡ r.keys
  pub same_counter : s.send_counter ≡ r.recv_counter

abbrev pub after_send : SessionContext → SessionContext
after_send s = record s { send_counter = s.send_counter + 1 }

abbrev pub after_receive : SessionContext → SessionContext
after_receive r = record r { recv_counter = r.recv_counter + 1 }

pub IsInStep-next :
    (s r : SessionContext) → IsInStep s r → IsInStep (after_send s) (after_receive r)
IsInStep-next s r h = record {
  sends_gcm = h.sends_gcm;
  receives_gcm = h.receives_gcm;
  same_keys = h.same_keys;
  same_counter = omega (arith, h.same_counter);
}

-- A send at counter 2 ^ 32 or above raises OverflowError and leaves the context as it was.
pub send_exhausted :
    (aead : Aead) (slave_id : ℕ) (pdu : Bytes) (s : SessionContext)
    → s.mode ≡ mode_aes_gcm
    → 2 ^ 32 ≤ s.send_counter
    → build_encrypted_data_send aead slave_id pdu s ≡ (err overflow_error, s)
unfolding build_encrypted_data_send
send_exhausted aead slave_id pdu s m large =
    rw (m, encrypt_overflow aead s.keys s.send_counter pdu false large) refl

module _ (aead : Aead) (laws : AeadLaws aead) where
  deliver_below :
      (slave_id : ℕ) (pdu frame : Bytes) (s s' r : SessionContext)
      → IsInStep s r
      → s.send_counter < 2 ^ 32
      → build_encrypted_data_send aead slave_id pdu s ≡ (ok frame, s')
      → (s' ≡ after_send s)
        × (parse_encrypted_data_send aead frame slave_id r ≡ (ok pdu, after_receive r))
  deliver_below slave_id pdu frame s s' r h small e =
      let (mac, ciphertext, c) = encrypt_total aead laws s.keys s.send_counter pdu false small in
      let (size, same_size, d) =
        decrypt-encrypt aead laws s.keys s.send_counter pdu mac ciphertext false small c in
      let sent = sym e ∙ build_sends aead slave_id pdu mac ciphertext s h.sends_gcm c in
      let (none_parse, own) =
        parse-build_apdu_frame slave_id tag_ss_data_send (mac ++ ciphertext) frame
          (sym (ap (λ p. p.0) sent)) in
      (
        ap (λ p. p.1) sent,
        read_parts aead slave_id frame mac ciphertext pdu r own size h.receives_gcm
            (rw (sym h.same_keys, sym h.same_counter) d),
      )

  -- In two contexts in step, the frame that the first builds for a PDU is parsed by the second to
  -- the same PDU. Each counter has advanced by one, and the contexts are in step again.
  pub parse-build_encrypted_data_send :
      (slave_id : ℕ) (pdu frame : Bytes) (s s' r : SessionContext)
      → IsInStep s r
      → build_encrypted_data_send aead slave_id pdu s ≡ (ok frame, s')
      → (s' ≡ after_send s)
        × (parse_encrypted_data_send aead frame slave_id r ≡ (ok pdu, after_receive r))
        × IsInStep s' (after_receive r)
  parse-build_encrypted_data_send slave_id pdu frame s s' r h e =
      elim (dec_le (2 ^ 32) s.send_counter) [
        | yes large ↦ cc (send_exhausted aead slave_id pdu s h.sends_gcm large)
        | no small ↦
            let (t, d) = deliver_below slave_id pdu frame s s' r h (omega arith) e in
            (t, d, rw t (IsInStep-next s r h))
      ]
