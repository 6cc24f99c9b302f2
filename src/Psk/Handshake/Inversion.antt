-- ===== src/Psk/Handshake/Inversion.antt =====
-- What the handlers of a handshake computed when they succeed.
use modbus_serial_security_p.Base.{
  ℕ, ◌≡◌, ap, sym, ◌∙◌, arith, true, Bytes, bytes_eq, ok, Result-cases, inl, inr, bytes_eq→eq,
  index, from_bytes, to_bytes,
}
use modbus_serial_security_p.Psk.Apdu.{Apdu}
use modbus_serial_security_p.Psk.Payload.{get, encode_req, encode_cnf, decode_req, decode_cnf}
use modbus_serial_security_p.Psk.Keys.{compute_server_auth, compute_master_auth}
use modbus_serial_security_p.Psk.Content.{mode_aes_gcm}
use modbus_serial_security_p.Psk.Handshake.{require_point, require}
use modbus_serial_security_p.Psk.Handshake.Master.{
  Offer, Peer, master_offer, master_accept, master_finish, offer_request, final_request,
}
use modbus_serial_security_p.Psk.Handshake.Slave.{
  slave_respond, Answer, Final, slave_answer, slave_finish, answer_response,
}

pub master_offer_eq_ok :
    (password urandom : Bytes) (o : Offer)
    → master_offer password urandom ≡ ok o
    → encode_req (offer_request o.rh) ≡ ok o.payload
unfolding master_offer require_point
master_offer_eq_ok password urandom o h = ground arith

pub slave_answer_eq_ok :
    (password urandom rh : Bytes) (server_id : ℕ) (apdu : Apdu) (a : Answer)
    → decode_req apdu.payload ≡ ok (offer_request rh)
    → slave_answer password urandom server_id apdu ≡ ok a
    → (s_m server_id_b : Bytes) × (a.rh ≡ rh)
      × (a.mode ≡ mode_aes_gcm)
      × (compute_server_auth rh a.rm a.dhsk server_id ≡ ok s_m)
      × (to_bytes 8 server_id ≡ ok server_id_b)
      × (encode_cnf (answer_response a.rm s_m server_id_b) ≡ ok a.payload)
unfolding slave_answer slave_respond require require_point get index
slave_answer_eq_ok password urandom rh server_id apdu a d h =
    elim (Result-cases (compute_server_auth rh a.rm a.dhsk server_id)) [
      | inl (s_m, e) ↦ elim (Result-cases (to_bytes 8 server_id)) [
        | inl (server_id_b, e') ↦
            (s_m, server_id_b, ground arith, ground arith, ground arith, ground arith, ground arith)
        | inr (x, e') ↦ ground arith
      ]
      | inr (x, e) ↦ ground arith
    ]

pub master_accept_eq_ok :
    (o : Offer) (apdu : Apdu) (p : Peer) (rm s_m server_id_b : Bytes)
    → decode_cnf apdu.payload ≡ ok (answer_response rm s_m server_id_b)
    → master_accept o apdu ≡ ok p
    → (p.rm ≡ rm)
      × (p.server_id ≡ from_bytes server_id_b)
      × (compute_server_auth o.rh rm p.dhsk (from_bytes server_id_b) ≡ ok s_m)
unfolding master_accept require require_point get
master_accept_eq_ok o apdu p rm s_m server_id_b d h =
    elim (Result-cases (compute_server_auth o.rh rm p.dhsk (from_bytes server_id_b))) [
      | inl (expected, e) ↦
          let same : bytes_eq s_m expected ≡ true = ground arith in
          (ground arith, ground arith, e ∙ ap ok (sym (bytes_eq→eq s_m expected same)))
      | inr (x, e) ↦ ground arith
    ]

pub master_finish_eq_ok :
    (o : Offer) (p : Peer) (client_id : ℕ) (r_b raw : Bytes)
    → master_finish o p client_id r_b ≡ ok raw
    → (s_h client_id_b : Bytes) × (to_bytes 8 client_id ≡ ok client_id_b)
      × (compute_master_auth o.rh p.rm p.dhsk client_id ≡ ok s_h)
      × (encode_req (final_request s_h r_b client_id_b) ≡ ok raw)
unfolding master_finish
master_finish_eq_ok o p client_id r_b raw h =
    elim (Result-cases (compute_master_auth o.rh p.rm p.dhsk client_id)) [
      | inl (s_h, e) ↦ elim (Result-cases (to_bytes 8 client_id)) [
        | inl (client_id_b, e') ↦ (s_h, client_id_b, e', e, ground arith)
        | inr (x, e') ↦ ground arith
      ]
      | inr (x, e) ↦ ground arith
    ]

pub slave_finish_eq_ok :
    (a : Answer) (apdu : Apdu) (f : Final) (s_h r_b client_id_b : Bytes)
    → decode_req apdu.payload ≡ ok (final_request s_h r_b client_id_b)
    → slave_finish a apdu ≡ ok f
    → (f.client_id ≡ from_bytes client_id_b)
      × (f.r_b ≡ r_b)
      × (compute_master_auth a.rh a.rm a.dhsk (from_bytes client_id_b) ≡ ok s_h)
unfolding slave_finish require get
slave_finish_eq_ok a apdu f s_h r_b client_id_b d h =
    elim (Result-cases (compute_master_auth a.rh a.rm a.dhsk (from_bytes client_id_b))) [
      | inl (expected, e) ↦
          let same : bytes_eq s_h expected ≡ true = ground arith in
          (ground arith, ground arith, e ∙ ap ok (sym (bytes_eq→eq s_h expected same)))
      | inr (x, e) ↦ absurd (ground arith)
    ]
