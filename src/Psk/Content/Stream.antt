-- ===== src/Psk/Content/Stream.antt =====
-- A stream of protected PDUs from one side to the other.
use modbus_serial_security_p.Base.{ℕ, ◌+◌, ◌≡◌, refl, sym, List, [], ◌∷◌, Bytes, length, ok, arith}
use modbus_serial_security_p.Base.Action.{Action, pure, ◌>>=◌, >>=-eq_ok}
use modbus_serial_security_p.Psk.Cipher.{Aead}
use modbus_serial_security_p.Psk.Cipher.Laws.{AeadLaws}
use modbus_serial_security_p.Psk.Content.{
  SessionContext, build_encrypted_data_send, parse_encrypted_data_send,
}
use modbus_serial_security_p.Psk.Content.Delivery.{
  IsInStep, after_receive, parse-build_encrypted_data_send,
}

module _ (aead : Aead) where
  -- `build_encrypted_data_send` of each PDU, and `parse_encrypted_data_send` of each frame.
  unfoldable pub send_stream : ℕ → List Bytes → Action SessionContext (List Bytes)
  send_stream slave_id [] = pure []
  send_stream slave_id (pdu ∷ pdus) = do
    frame ← build_encrypted_data_send aead slave_id pdu
    frames ← send_stream slave_id pdus
    pure (frame ∷ frames)

  unfoldable pub receive_stream : ℕ → List Bytes → Action SessionContext (List Bytes)
  receive_stream slave_id [] = pure []
  receive_stream slave_id (frame ∷ frames) = do
    pdu ← parse_encrypted_data_send aead frame slave_id
    pdus ← receive_stream slave_id frames
    pure (pdu ∷ pdus)

module _ (aead : Aead) (laws : AeadLaws aead) where
  -- In two contexts in step, the frames that the first sends for a list of PDUs are received by
  -- the second, in the same order, as these PDUs. Afterwards the contexts are in step again, and
  -- the receive counter has advanced by the number of PDUs.
  pub receive-send_stream :
      (slave_id : ℕ) (pdus frames : List Bytes) (s s' r : SessionContext)
      → IsInStep s r
      → send_stream aead slave_id pdus s ≡ (ok frames, s')
      → (r' : SessionContext) × (receive_stream aead slave_id frames r ≡ (ok pdus, r'))
        × IsInStep s' r'
        × (r'.recv_counter ≡ r.recv_counter + length pdus)
  unfolding send_stream receive_stream
  receive-send_stream slave_id [] frames s s' r h e =
      let ef : [] ≡ frames = cc in
      let es : s ≡ s' = cc in rw (sym ef, sym es) (r, refl, h, omega arith)
  receive-send_stream slave_id (pdu ∷ pdus) frames s s' r h e =
      let (frame, t, ef, rest) =
        >>=-eq_ok (build_encrypted_data_send aead slave_id pdu) _ s s' frames e in
      let (frames', t', es, last) = >>=-eq_ok (send_stream aead slave_id pdus) _ t s' frames rest in
      let (et, d, k) = parse-build_encrypted_data_send aead laws slave_id pdu frame s t r h ef in
      let (r', ds, k', n) = receive-send_stream slave_id pdus frames' t t' (after_receive r) k es in
      let all : frame ∷ frames' ≡ frames = cc in
      let same : t' ≡ s' = cc in (r', rw (sym all, d, ds) refl, rw (sym same) k', omega (arith, n))
