-- ===== src/Ecc/Session/Protected.antt =====
-- Protected PDUs between two sessions: `send_encrypted_pdu` and `recv_encrypted_pdu` of
-- protocols/protocols-ECC/secure_modbus/session.py.
use native.Mathlib.Decide.{dec_le}
use modbus_serial_security_p.Base.{
  ℕ, ◌+◌, ◌≡◌, refl, sym, ap, ◌∙◌, arith, some, Bytes, Result-cases, Option-cases, inl, inr, Error,
  ok, err, Result, ◌++◌, ◌<◌, ◌≤◌, ◌*◌, ◌⊎◌, length, protocol_error, connection_closed,
}
use modbus_serial_security_p.Psk.Cipher.Laws.{AeadLaws}
use modbus_serial_security_p.Ecc.Suite.{EccSuite}
use modbus_serial_security_p.Ecc.Content.{encrypt_content, decrypt_content}
use modbus_serial_security_p.Ecc.Content.Laws.{decrypt-encrypt_content}
use modbus_serial_security_p.Ecc.Line.{Transport, uart_transport, recv_apdu}
use modbus_serial_security_p.Ecc.Line.Laws.{packet_bytes, recv-send_apdu, recv-send_apdu_alone}
use modbus_serial_security_p.Psk.Records.{Uart}
use modbus_serial_security_p.Psk.Records.Laws.{UartLaws}
use modbus_serial_security_p.Ecc.Session.{
  World, SecureSession, send, recv, own_direction, peer_direction, send_encrypted_pdu,
  recv_encrypted_pdu, apdu_data_send,
}

-- The receiver has the sender's content key, and one of the two is the client.
pub record IsPeer (s r : SecureSession) (ck civ : Bytes) : Type 0 where
  pub sender_key : s.ck ≡ some ck
  pub sender_initial : s.civ ≡ some civ
  pub receiver_key : r.ck ≡ some ck
  pub receiver_initial : r.civ ≡ some civ
  pub other_role : own_direction s.identity ≡ peer_direction r.identity

module _ (suite : EccSuite) (transport : Transport) where
  recv_decrypts :
      (ck civ payload pdu : Bytes) (counter : ℕ) (w : World suite transport)
      (line : transport.State)
      → w.session.ck ≡ some ck
      → w.session.civ ≡ some civ
      → transport.recv_secure_apdu w.session.address w.line ≡ (ok (apdu_data_send, payload), line)
      → decrypt_content suite ck civ payload (peer_direction w.session.identity) ≡ ok (pdu, counter)
      → recv_encrypted_pdu suite transport w ≡ (ok pdu, record w { line = line })
  unfolding recv_encrypted_pdu recv
  recv_decrypts ck civ payload pdu counter w line hk hc e d = rw (hk, hc, e, d) refl

  recv_raises :
      (ck civ : Bytes) (e : Error) (w : World suite transport)
      → w.session.ck ≡ some ck
      → w.session.civ ≡ some civ
      → (transport.recv_secure_apdu w.session.address w.line).0 ≡ err e
      → (recv_encrypted_pdu suite transport w).0 ≡ err e
  unfolding recv_encrypted_pdu recv
  recv_raises ck civ e w hk hc r = rw (hk, hc, r) refl

  send_encrypts :
      (ck civ pdu payload : Bytes) (w : World suite transport)
      → w.session.ck ≡ some ck
      → w.session.civ ≡ some civ
      → encrypt_content suite ck civ pdu w.session.tx_content_counter
          (own_direction w.session.identity)
        ≡ ok payload
      → send_encrypted_pdu suite transport pdu w ≡ (
        (transport.send_secure_apdu w.session.address apdu_data_send payload w.line).0,
        record w {
          line = (transport.send_secure_apdu w.session.address apdu_data_send payload w.line).1;
          session = record (w.session) { tx_content_counter = w.session.tx_content_counter + 1 };
        },
      )
  unfolding send_encrypted_pdu send
  send_encrypts ck civ pdu payload w hk hc r = rw (hk, hc, r) refl

  send_not_encrypted :
      (ck civ pdu : Bytes) (e : Error) (w : World suite transport)
      → w.session.ck ≡ some ck
      → w.session.civ ≡ some civ
      → encrypt_content suite ck civ pdu w.session.tx_content_counter
          (own_direction w.session.identity)
        ≡ err e
      → send_encrypted_pdu suite transport pdu w ≡ (err e, w)
  unfolding send_encrypted_pdu send
  send_not_encrypted ck civ pdu e w hk hc r = rw (hk, hc, r) refl

  -- A send that succeeds has encrypted the PDU, put the result on the line, and counted.
  sent_payload :
      (ck civ pdu : Bytes) (w w' : World suite transport)
      → w.session.ck ≡ some ck
      → w.session.civ ≡ some civ
      → send_encrypted_pdu suite transport pdu w ≡ (ok tt, w')
      → (payload : Bytes) × (encrypt_content suite ck civ pdu w.session.tx_content_counter
            (own_direction w.session.identity)
          ≡ ok payload)
        × (transport.send_secure_apdu w.session.address apdu_data_send payload w.line
            ≡ (ok tt, w'.line))
        × (w'.session.tx_content_counter ≡ w.session.tx_content_counter + 1)
  sent_payload ck civ pdu w w' hk hc sent =
      elim (Result-cases (
        encrypt_content suite ck civ pdu w.session.tx_content_counter
          (own_direction w.session.identity))) [
            | inr (e, r) ↦ let shape = send_not_encrypted ck civ pdu e w hk hc r in absurd (cc)
            | inl (payload, r) ↦
                let shape = sym (send_encrypts ck civ pdu payload w hk hc r) ∙ sent in
                (
                  payload,
                  r,
                  (λ i. ((shape i).0, (shape i).1.line)),
                  sym (
                      ap
                        (λ (p : Result (Unit {0}) × World suite transport).
                          p.1.session.tx_content_counter)
                        shape),
                )
          ]

  recv_opens :
      (payload pdu : Bytes) (v v' : World suite transport) (line : transport.State)
      → transport.recv_secure_apdu v.session.address v.line ≡ (ok (apdu_data_send, payload), line)
      → recv_encrypted_pdu suite transport v ≡ (ok pdu, v')
      → (v' ≡ record v { line = line })
        × (ck : Bytes) × (civ : Bytes) × (counter : ℕ) × (v.session.ck ≡ some ck)
        × (v.session.civ ≡ some civ)
        × (decrypt_content suite ck civ payload (peer_direction v.session.identity)
            ≡ ok (pdu, counter))
  unfolding recv_encrypted_pdu recv
  recv_opens payload pdu v v' line e r = elim (Option-cases v.session.ck) [
    | inl h ↦ absurd (ground arith)
    | inr (ck, h) ↦ elim (Option-cases v.session.civ) [
      | inl k ↦ absurd (ground arith)
      | inr (civ, k) ↦
          elim (Result-cases
            (decrypt_content suite ck civ payload (peer_direction v.session.identity))) [
              | inr (x, d) ↦ absurd (ground arith)
              | inl ((p, counter), d) ↦
                  let whole = sym r ∙ recv_decrypts ck civ payload p counter v line h k e d in
                  (ap (λ a. a.1) whole, ck, civ, counter, h, k, (ground arith))
            ]
    ]
  ]

  -- A receiver whose session has read a protected message reads it again when the line gives it
  -- the same bytes again: nothing of what it keeps tells the two apart.
  pub recv_encrypted_pdu_replay :
      (payload pdu : Bytes) (v v' u : World suite transport) (line line' : transport.State)
      → transport.recv_secure_apdu v.session.address v.line ≡ (ok (apdu_data_send, payload), line)
      → recv_encrypted_pdu suite transport v ≡ (ok pdu, v')
      → u.session ≡ v'.session
      → transport.recv_secure_apdu u.session.address u.line ≡ (ok (apdu_data_send, payload), line')
      → (u.session ≡ v.session)
        × (recv_encrypted_pdu suite transport u ≡ (ok pdu, record u { line = line' }))
  recv_encrypted_pdu_replay payload pdu v v' u line line' e r same e' =
      let (after, ck, civ, counter, hk, hc, d) = recv_opens payload pdu v v' line e r in
      let kept : u.session ≡ v.session =
        same ∙ ap (λ (x : World suite transport). x.session) after in
      (
        kept,
        recv_decrypts ck civ payload pdu counter u line'
            (ap (λ (x : SecureSession). x.ck) kept ∙ hk)
            (ap (λ (x : SecureSession). x.civ) kept ∙ hc) e'
            (ap
                (λ (x : SecureSession).
                  decrypt_content suite ck civ payload (peer_direction x.identity))
                kept
              ∙ d),
      )

module _ (suite : EccSuite) (uart : Uart) (aead_laws : AeadLaws suite.aead)
    (uart_laws : UartLaws uart) where
  open uart_laws use {pending, sent}

  -- After a send that succeeds the counter of the sender is one higher. Where the frame that it has
  -- written on the line comes to a receiver behind the length of the frame, the receiver at the same
  -- address that has the content key of the sender and the other direction returns the PDU, nothing
  -- but its line changes, and what stands behind the frame is still to be received. Where the frame
  -- comes alone, as it was written, the receiver raises `connection closed` instead, or the frame is
  -- two bytes longer at least than 256 times the address, which the receiver takes for its length.
  pub recv-send_encrypted_pdu :
      (ck civ pdu frame rest : Bytes) (w v w' : World suite (uart_transport uart))
      (alone : uart.State)
      → IsPeer w.session v.session ck civ
      → v.session.address ≡ w.session.address
      → send_encrypted_pdu suite (uart_transport uart) pdu w ≡ (ok tt, w')
      → sent w'.line ≡ sent w.line ++ frame
      → length frame < 65536
      → pending v.line ≡ packet_bytes frame ++ rest
      → pending alone ≡ frame
      → (w'.session.tx_content_counter ≡ w.session.tx_content_counter + 1)
        × ((line : uart.State) × (recv_encrypted_pdu suite (uart_transport uart) v
              ≡ (ok pdu, record v { line = line }))
            × (pending line ≡ rest))
        × (((recv_encrypted_pdu suite (uart_transport uart) (record v { line = alone })).0
              ≡ err (protocol_error connection_closed))
            ⊎ (256 * v.session.address + 2 ≤ length frame))
  recv-send_encrypted_pdu ck civ pdu frame rest w v w' alone peer same send_ok out small arrives
        bare =
      let (payload, r, written, counted) =
        sent_payload suite (uart_transport uart) ck civ pdu w w' peer.sender_key peer.sender_initial
          send_ok in
      let (line, got, left) =
        recv-send_apdu uart uart_laws w.session.address apdu_data_send payload frame rest w.line
          w'.line v.line written out small arrives in
      (
        counted,
        (
          line,
          recv_decrypts suite (uart_transport uart) ck civ payload pdu w.session.tx_content_counter
              v line peer.receiver_key peer.receiver_initial
              (ap (λ (a : ℕ). recv_apdu uart a v.line) same ∙ got)
              (ap (decrypt_content suite ck civ payload) (sym peer.other_role)
                ∙ decrypt-encrypt_content suite aead_laws ck civ pdu payload
                    w.session.tx_content_counter (own_direction w.session.identity) r),
          left,
        ),
        elim (dec_le (256 * v.session.address + 2) (length frame)) [
          | yes long ↦ inr long
          | no short ↦ inl (
              recv_raises suite (uart_transport uart) ck civ (protocol_error connection_closed)
                (record v { line = alone }) peer.receiver_key peer.receiver_initial
                (recv-send_apdu_alone uart uart_laws w.session.address apdu_data_send
                  v.session.address payload frame w.line w'.line alone written out bare
                  (omega (arith, same))))
        ],
      )
