-- ===== src/Psk/Handshake/Agreement.antt =====
-- A handshake whose messages arrive as they were sent.
use modbus_serial_security_p.Base.{
  ℕ, ◌≡◌, ◌≢◌, ◌⊎◌, inl, inr, ap, sym, ◌∙◌, arith, Bytes, bytes_eq, bytes_eq→eq, bytes_eq_refl,
  Bool-cases, ok, from_bytes, to_bytes, from_bytes-be_bytes,
}
use modbus_serial_security_p.Psk.Apdu.{Apdu}
use modbus_serial_security_p.Psk.Payload.{decode_req, decode_cnf}
use modbus_serial_security_p.Psk.Payload.RoundTrip.{decode_req-encode_req, decode_cnf-encode_cnf}
use modbus_serial_security_p.Psk.Keys.{
  derive_content_keys, compute_server_auth, compute_master_auth,
}
use modbus_serial_security_p.Psk.Content.{Role, SessionContext, master, slave, mode_aes_gcm}
use modbus_serial_security_p.Psk.Content.Delivery.{IsInStep}
use modbus_serial_security_p.Psk.Handshake.{tag_ss_sk_data_req, tag_ss_sk_data_cnf, session_context}
use modbus_serial_security_p.Psk.Handshake.Master.{
  Offer, Peer, master_offer, master_accept, master_finish, offer_request, final_request,
}
use modbus_serial_security_p.Psk.Handshake.Slave.{
  Answer, Final, slave_answer, slave_finish, answer_response,
}
use modbus_serial_security_p.Psk.Handshake.Inversion.{
  master_offer_eq_ok, slave_answer_eq_ok, master_accept_eq_ok, master_finish_eq_ok,
  slave_finish_eq_ok,
}

-- Both authentication codes of a handshake are the same on two secrets. The codes are SM3 digests of
-- messages that differ where the secrets do.
pub record SameCodes (rh rm dhsk dhsk' : Bytes) (server_id client_id : ℕ) : Type 0 where
  pub s_m : Bytes
  pub s_h : Bytes
  pub slave_code : compute_server_auth rh rm dhsk server_id ≡ ok s_m
  pub slave_code' : compute_server_auth rh rm dhsk' server_id ≡ ok s_m
  pub master_code : compute_master_auth rh rm dhsk client_id ≡ ok s_h
  pub master_code' : compute_master_auth rh rm dhsk' client_id ≡ ok s_h

from_bytes-to_bytes : (n : ℕ) (bs : Bytes) → to_bytes 8 n ≡ ok bs → from_bytes bs ≡ n
unfolding to_bytes
from_bytes-to_bytes n bs h = ground (arith, from_bytes-be_bytes 8 n)

secrets_or_other : (d d' : Bytes) → (d ≡ d') ⊎ (d ≢ d')
secrets_or_other d d' = elim (Bool-cases (bytes_eq d d')) [
  | inl same ↦ inl (bytes_eq→eq d d' same)
  | inr other ↦ inr (λ e. cc (other, ap (bytes_eq d) e, bytes_eq_refl d))
]

abbrev pub data_req : Bytes → Apdu
data_req payload = record { tag = tag_ss_sk_data_req; payload = payload }

abbrev pub data_cnf : Bytes → Apdu
data_cnf payload = record { tag = tag_ss_sk_data_cnf; payload = payload }

-- Where every handler of a handshake succeeds on what the other side produced, both sides have
-- the same points, identifiers and random value, the mode is AES-GCM, and on the secrets of both
-- sides the two authentication codes have the same values, S_M and S_H.
pub handshake_agreement :
    (password_m urandom_m password_s urandom_s r_b final_raw : Bytes) (server_id client_id : ℕ)
    (o : Offer) (a : Answer) (p : Peer) (f : Final)
    → master_offer password_m urandom_m ≡ ok o
    → slave_answer password_s urandom_s server_id (data_req o.payload) ≡ ok a
    → master_accept o (data_cnf a.payload) ≡ ok p
    → master_finish o p client_id r_b ≡ ok final_raw
    → slave_finish a (data_req final_raw) ≡ ok f
    → (a.rh ≡ o.rh)
      × (p.rm ≡ a.rm)
      × (p.server_id ≡ server_id)
      × (f.client_id ≡ client_id)
      × (f.r_b ≡ r_b)
      × (a.mode ≡ mode_aes_gcm)
      × SameCodes o.rh a.rm p.dhsk a.dhsk server_id client_id
handshake_agreement password_m urandom_m password_s urandom_s r_b final_raw server_id client_id o a
      p f ho ha hp hm hf =
    let request : decode_req o.payload ≡ ok (offer_request o.rh) =
      decode_req-encode_req (offer_request o.rh) o.payload ((omega arith, tt), (tt, tt))
        (master_offer_eq_ok password_m urandom_m o ho) in
    let (s_m, sb, same_rh, mode, auth, es, ea) =
      slave_answer_eq_ok password_s urandom_s o.rh server_id (data_req o.payload) a request ha in
    let response : decode_cnf a.payload ≡ ok (answer_response a.rm s_m sb) =
      decode_cnf-encode_cnf (answer_response a.rm s_m sb) a.payload
        ((omega arith, (omega arith, tt)), ((omega arith, tt), (tt, tt))) ea in
    let (same_rm, sid, auth') =
      master_accept_eq_ok o (data_cnf a.payload) p a.rm s_m sb response hp in
    let id : from_bytes sb ≡ server_id = from_bytes-to_bytes server_id sb es in
    let (s_h, cb, ec, code, ef) = master_finish_eq_ok o p client_id r_b final_raw hm in
    let final : decode_req final_raw ≡ ok (final_request s_h r_b cb) =
      decode_req-encode_req (final_request s_h r_b cb) final_raw
        ((omega arith, (omega arith, tt)), ((omega arith, tt), (tt, tt))) ef in
    let (cid, same_r_b, code') = slave_finish_eq_ok a (data_req final_raw) f s_h r_b cb final hf in
    (
      same_rh,
      same_rm,
      sid ∙ id,
      cid ∙ from_bytes-to_bytes client_id cb ec,
      same_r_b,
      mode,
      record {
        s_m = s_m;
        s_h = s_h;
        slave_code = rw (sym id) auth';
        slave_code' = auth;
        master_code =
            ap (λ (x : Bytes). compute_master_auth o.rh x p.dhsk client_id) (sym same_rm) ∙ code;
        master_code' =
            ap (λ (x : Bytes). compute_master_auth x a.rm a.dhsk client_id) (sym same_rh)
            ∙ ap (compute_master_auth a.rh a.rm a.dhsk) (sym (from_bytes-to_bytes client_id cb ec))
            ∙ code';
      },
    )

session_context_eq_ok :
    (role : Role) (server_id client_id mode : ℕ) (dhsk r_b local_point peer_point : Bytes)
    (c : SessionContext)
    → session_context role server_id client_id mode dhsk r_b local_point peer_point ≡ ok c
    → (derive_content_keys dhsk server_id client_id r_b ≡ ok c.keys)
      × (c.mode ≡ mode)
      × (c.send_counter ≡ 1)
      × (c.recv_counter ≡ 1)
unfolding session_context
session_context_eq_ok role server_id client_id mode dhsk r_b local_point peer_point c h =
    ground arith

-- Two contexts from the same secret, identifiers and random value are in step in both directions.
contexts-IsInStep :
    (role role' : Role) (server_id client_id : ℕ) (dhsk r_b l p l' p' : Bytes)
    (m s : SessionContext)
    → session_context role server_id client_id mode_aes_gcm dhsk r_b l p ≡ ok m
    → session_context role' server_id client_id mode_aes_gcm dhsk r_b l' p' ≡ ok s
    → IsInStep m s × IsInStep s m
contexts-IsInStep role role' server_id client_id dhsk r_b l p l' p' m s hm hs =
    let (km, mm, sm, rm) =
      session_context_eq_ok role server_id client_id mode_aes_gcm dhsk r_b l p m hm in
    let (ks, ms, ss, rs) =
      session_context_eq_ok role' server_id client_id mode_aes_gcm dhsk r_b l' p' s hs in
    let same : m.keys ≡ s.keys = cc in
    (
      record { sends_gcm = mm; receives_gcm = ms; same_keys = same; same_counter = sm ∙ sym rs },
      record {
        sends_gcm = ms;
        receives_gcm = mm;
        same_keys = sym same;
        same_counter = ss ∙ sym rm;
      },
    )

-- Where every handler of a handshake succeeds on what the other side produced and both sides
-- build their contexts, the contexts are in step in both directions, or the two sides have different
-- secrets on which both authentication codes, S_M and S_H, have the same values.
pub handshake-IsInStep :
    (password_m urandom_m password_s urandom_s r_b final_raw : Bytes) (server_id client_id : ℕ)
    (o : Offer) (a : Answer) (p : Peer) (f : Final) (m s : SessionContext)
    → master_offer password_m urandom_m ≡ ok o
    → slave_answer password_s urandom_s server_id (data_req o.payload) ≡ ok a
    → master_accept o (data_cnf a.payload) ≡ ok p
    → master_finish o p client_id r_b ≡ ok final_raw
    → slave_finish a (data_req final_raw) ≡ ok f
    → session_context master p.server_id client_id mode_aes_gcm p.dhsk r_b o.rh p.rm ≡ ok m
    → session_context slave server_id f.client_id a.mode a.dhsk f.r_b a.rm a.rh ≡ ok s
    → (IsInStep m s × IsInStep s m)
      ⊎ ((p.dhsk ≢ a.dhsk) × SameCodes o.rh a.rm p.dhsk a.dhsk server_id client_id)
handshake-IsInStep password_m urandom_m password_s urandom_s r_b final_raw server_id client_id o a p
      f m s ho ha hp hm hf cm cs =
    let (rh, rm, sid, cid, same_r_b, mode, codes) =
      handshake_agreement password_m urandom_m password_s urandom_s r_b final_raw server_id
        client_id o a p f ho ha hp hm hf in
    elim (secrets_or_other p.dhsk a.dhsk) [
      | inl same ↦ inl (
          contexts-IsInStep master slave server_id client_id a.dhsk r_b o.rh p.rm a.rm a.rh m s
            (rw (sym sid, sym same) cm) (rw (sym cid, sym same_r_b, sym mode) cs))
      | inr differ ↦ inr (differ, codes)
    ]
