-- ===== src/Psk/Endpoints/Exchange.antt =====
-- One request of the master and the answer of the slave, after a handshake.
use modbus_serial_security_p.Base.{
  ℕ, ◌≡◌, ◌+◌, refl, sym, ◌∙◌, List, map, take, drop, length, leb, if◌then◌else◌, Bytes, ok, err,
  protocol_error, modbus_exception,
}
use modbus_serial_security_p.Psk.Registers.{read_holding_registers_pdu, handle_modbus_pdu}
use modbus_serial_security_p.Psk.Registers.Read.{word_of, read_transaction}
use modbus_serial_security_p.Psk.Cipher.{Aead}
use modbus_serial_security_p.Psk.Cipher.Laws.{AeadLaws}
use modbus_serial_security_p.Psk.Content.{
  SessionContext, build_encrypted_data_send, parse_encrypted_data_send,
}
use modbus_serial_security_p.Psk.Content.Delivery.{
  IsInStep, after_send, after_receive, parse-build_encrypted_data_send,
}
use modbus_serial_security_p.Psk.Endpoints.{serve_reply, read_reply}

-- What travels in one direction leaves the counters of the other as they were.
other_direction : (s r : SessionContext) → IsInStep s r → IsInStep (after_receive s) (after_send r)
other_direction s r h = record {
  sends_gcm = h.sends_gcm;
  receives_gcm = h.receives_gcm;
  same_keys = h.same_keys;
  same_counter = h.same_counter;
}

module _ (aead : Aead) (laws : AeadLaws aead) where
  reply_built :
      (slave_id : ℕ) (registers : List ℕ) (pdu response frame : Bytes) (s : SessionContext)
      → parse_encrypted_data_send aead frame slave_id s ≡ (ok pdu, after_receive s)
      → handle_modbus_pdu pdu registers ≡ ok response
      → serve_reply aead slave_id registers frame s
        ≡ build_encrypted_data_send aead slave_id response (after_receive s)
  unfolding serve_reply
  reply_built slave_id registers pdu response frame s e h = rw (e, h) refl

  -- With contexts in step in both directions, where the master builds the frame of a read request
  -- and the slave builds an answer to it, the master reads in the answer the registers asked for,
  -- each modulo 65536, if all of them exist, and raises the Modbus exception otherwise. In both
  -- cases the contexts are in step in both directions again.
  pub read_exchange :
      (slave_id start quantity : ℕ) (registers : List ℕ) (pdu frame reply : Bytes)
      (m m' s s' : SessionContext)
      → IsInStep m s
      → IsInStep s m
      → read_holding_registers_pdu start quantity ≡ ok pdu
      → build_encrypted_data_send aead slave_id pdu m ≡ (ok frame, m')
      → serve_reply aead slave_id registers frame s ≡ (ok reply, s')
      → (m'' : SessionContext) × (read_reply aead slave_id reply m' ≡ (
        (if leb (start + quantity) (length registers)
            then ok (map word_of (take quantity (drop start registers)))
            else err (protocol_error modbus_exception)),
        m'',
      ))
        × IsInStep m'' s'
        × IsInStep s' m''
  unfolding read_reply
  read_exchange slave_id start quantity registers pdu frame reply m m' s s' hms hsm hp hb hr =
      let (response, handled, size, parsed) = read_transaction start quantity registers pdu hp in
      let (em, request, forth) =
        parse-build_encrypted_data_send aead laws slave_id pdu frame m m' s hms hb in
      let back : IsInStep (after_receive s) m' = rw em (other_direction s m hsm) in
      let sent = sym (reply_built slave_id registers pdu response frame s request handled) ∙ hr in
      let (es, answer, again) =
        parse-build_encrypted_data_send aead laws slave_id response reply (after_receive s) s' m'
          back sent in
      (
        after_receive m',
        rw (answer, parsed) refl,
        rw es (other_direction m' (after_receive s) forth),
        again,
      )
