-- ===== src/Pq/Content/Delivery.antt =====
-- `build_encrypted_data_send` and `parse_encrypted_data_send` on the two contexts of a session, with the keys for one
-- station or those for all.
use native.Mathlib.Decide.{dec_le}
use modbus_serial_security_p.Base.{
  ℕ, ◌+◌, ◌^◌, ◌≤◌, ◌<◌, ◌≡◌, ap, ◌∙◌, refl, sym, ◌++◌, arith, some, Bool, false, Bytes, length,
  take-append, drop-append, length-append, ok, err, bytes_eq, overflow_error, ltb, ltb-false,
}
use modbus_serial_security_p.Psk.Frame.{build_apdu_frame, parse_apdu_frame}
use modbus_serial_security_p.Psk.Frame.Laws.{parse-build_apdu_frame}
use modbus_serial_security_p.Psk.Cipher.{Aead, aes_gcm_encrypt, aes_gcm_decrypt}
use modbus_serial_security_p.Psk.Cipher.Laws.{
  AeadLaws, decrypt-encrypt, encrypt_total, encrypt_overflow,
}
use modbus_serial_security_p.Psk.Content.{mode_aes_gcm, tag_ss_data_send}
use modbus_serial_security_p.Pq.Content.{
  PqSessionContext, build_encrypted_data_send, parse_encrypted_data_send,
}

module _ (aead : Aead) where
  -- A send whose encryption succeeds.
  pub build_sends :
      (slave_id : ℕ) (pdu mac ciphertext : Bytes) (broadcast : Bool) (s : PqSessionContext)
      → s.mode ≡ mode_aes_gcm
      → aes_gcm_encrypt aead s.keys s.send_counter pdu broadcast ≡ ok (mac, ciphertext)
      → build_encrypted_data_send aead slave_id pdu broadcast s ≡ (
        build_apdu_frame slave_id tag_ss_data_send (mac ++ ciphertext),
        record s { send_counter = s.send_counter + 1 },
      )
  unfolding build_encrypted_data_send
  build_sends slave_id pdu mac ciphertext broadcast s m e = rw (m, e) refl

  read_parts :
      (slave_id : ℕ) (frame mac ciphertext pdu : Bytes) (broadcast : Bool) (r : PqSessionContext)
      → parse_apdu_frame frame (some slave_id)
        ≡ ok (record { tag = tag_ss_data_send; payload = mac ++ ciphertext })
      → length mac ≡ 16
      → r.mode ≡ mode_aes_gcm
      → aes_gcm_decrypt aead r.keys r.recv_counter mac ciphertext broadcast ≡ ok pdu
      → parse_encrypted_data_send aead frame slave_id broadcast r
        ≡ (ok pdu, record r { recv_counter = r.recv_counter + 1 })
  unfolding parse_encrypted_data_send bytes_eq
  read_parts slave_id frame mac ciphertext pdu broadcast r e l m d =
      let long : ltb (length (mac ++ ciphertext)) 16 ≡ false =
        ltb-false (length (mac ++ ciphertext)) 16
          (omega (arith, length-append mac ciphertext, l)) in
      rw
        (
          e,
          m,
          long,
          take-append mac ciphertext 16 (sym l),
          drop-append mac ciphertext 16 (sym l),
          d,
        )
        refl

-- Two contexts of one session, where the second is ready for what the first sends next.
pub record IsInStep (s r : PqSessionContext) : Type 0 where
  pub sends_gcm : s.mode ≡ mode_aes_gcm
  pub receives_gcm : r.mode ≡ mode_aes_gcm
  pub same_keys : s.keys ≡ r.keys
  pub same_counter : s.send_counter ≡ r.recv_counter

abbrev pub after_send : PqSessionContext → PqSessionContext
after_send s = record s { send_counter = s.send_counter + 1 }

abbrev pub after_receive : PqSessionContext → PqSessionContext
after_receive r = record r { recv_counter = r.recv_counter + 1 }

pub IsInStep-next :
    (s r : PqSessionContext) → IsInStep s r → IsInStep (after_send s) (after_receive r)
IsInStep-next s r h = record {
  sends_gcm = h.sends_gcm;
  receives_gcm = h.receives_gcm;
  same_keys = h.same_keys;
  same_counter = omega (arith, h.same_counter);
}

-- A send at counter 2 ^ 32 or above raises OverflowError and leaves the context as it was.
pub send_exhausted :
    (aead : Aead) (slave_id : ℕ) (pdu : Bytes) (broadcast : Bool) (s : PqSessionContext)
    → s.mode ≡ mode_aes_gcm
    → 2 ^ 32 ≤ s.send_counter
    → build_encrypted_data_send aead slave_id pdu broadcast s ≡ (err overflow_error, s)
unfolding build_encrypted_data_send
send_exhausted aead slave_id pdu broadcast s m large =
    rw (m, encrypt_overflow aead s.keys s.send_counter pdu broadcast large) refl

module _ (aead : Aead) (laws : AeadLaws aead) where
  deliver_below :
      (slave_id : ℕ) (pdu frame : Bytes) (broadcast : Bool) (s s' r : PqSessionContext)
      → IsInStep s r
      → s.send_counter < 2 ^ 32
      → build_encrypted_data_send aead slave_id pdu broadcast s ≡ (ok frame, s')
      → (s' ≡ after_send s)
        × (parse_encrypted_data_send aead frame slave_id broadcast r ≡ (ok pdu, after_receive r))
  deliver_below slave_id pdu frame broadcast s s' r h small e =
      let (mac, ciphertext, c) =
        encrypt_total aead laws s.keys s.send_counter pdu broadcast small in
      let (size, same_size, d) =
        decrypt-encrypt aead laws s.keys s.send_counter pdu mac ciphertext broadcast small c in
      let sent = sym e ∙ build_sends aead slave_id pdu mac ciphertext broadcast s h.sends_gcm c in
      let (none_parse, own) =
        parse-build_apdu_frame slave_id tag_ss_data_send (mac ++ ciphertext) frame
          (sym (ap (λ p. p.0) sent)) in
      (
        ap (λ p. p.1) sent,
        read_parts aead slave_id frame mac ciphertext pdu broadcast r own size h.receives_gcm
            (rw (sym h.same_keys, sym h.same_counter) d),
      )

  -- In two contexts in step, the frame that the first builds for a PDU, with the keys for one station
  -- or with those for all, is parsed by the second with the same keys to the same PDU. Each counter has advanced by one, and the contexts are in step again.
  pub parse-build_pq_data_send :
      (slave_id : ℕ) (pdu frame : Bytes) (broadcast : Bool) (s s' r : PqSessionContext)
      → IsInStep s r
      → build_encrypted_data_send aead slave_id pdu broadcast s ≡ (ok frame, s')
      → (s' ≡ after_send s)
        × (parse_encrypted_data_send aead frame slave_id broadcast r ≡ (ok pdu, after_receive r))
        × IsInStep s' (after_receive r)
  parse-build_pq_data_send slave_id pdu frame broadcast s s' r h e =
      elim (dec_le (2 ^ 32) s.send_counter) [
        | yes large ↦ cc (send_exhausted aead slave_id pdu broadcast s h.sends_gcm large)
        | no small ↦
            let (t, d) = deliver_below slave_id pdu frame broadcast s s' r h (omega arith) e in
            (t, d, rw t (IsInStep-next s r h))
      ]
