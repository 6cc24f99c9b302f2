-- ===== src/Psk/Handshake/Respond.antt =====
-- The exceptions of the part of the slave's answer behind the test of the mode.
use modbus_serial_security_p.Base.{
  ℕ, ◌≡◌, ◌<◌, ◌^◌, inl, inr, refl, sym, arith, Option, none, some, ◌++◌, Bytes, ok, ◌==◌, length,
  if◌then◌else◌, ◌%◌, to_byte_string, no_point, from_bytes, to_bytes, to_bytes_lem, be_bytes,
  length-be_bytes, length-append, IsProtocolSafe, returns, raises, >>=-IsProtocolSafe,
}
use modbus_serial_security_p.Psk.Payload.{encode_cnf, encode_items}
use modbus_serial_security_p.Psk.Sm3.Digest.{sm3_total}
use modbus_serial_security_p.Psk.Sm2.{Point, sm2_n, sm2_g, sm2_mul, encode_point}
use modbus_serial_security_p.Psk.Sm2.Points.{IsInField, encode-sm2_mul}
use modbus_serial_security_p.Psk.Sm2.Decode.{decode_point_exact, decode_point-IsProtocolSafe}
use modbus_serial_security_p.Psk.Keys.{private_from_password, compute_server_auth}
use modbus_serial_security_p.Psk.Handshake.{require_point}
use modbus_serial_security_p.Psk.Handshake.Slave.{answer_response, slave_respond}

require_point-IsProtocolSafe : (p : Option Point) → IsProtocolSafe (require_point p)
unfolding require_point
require_point-IsProtocolSafe none = raises no_point
require_point-IsProtocolSafe (some p) = returns p

require_point_eq_ok : (p : Option Point) (q : Point) → require_point p ≡ ok q → p ≡ some q
unfolding require_point
require_point_eq_ok none q h = cc
require_point_eq_ok (some p) q h = cc

multiple_encoded :
    (k : ℕ) (p q : Point)
    → IsInField (some p)
    → require_point (sm2_mul k (some p)) ≡ ok q
    → (raw : Bytes) × (encode_point q ≡ ok raw) × (length raw ≡ 64)
multiple_encoded k p q h e = elim (encode-sm2_mul k p h) [
  | inl nothing ↦ cc (nothing, require_point_eq_ok (sm2_mul k (some p)) q e)
  | inr (q', raw, e', enc, size) ↦
      let same : q' ≡ q = cc (e', require_point_eq_ok (sm2_mul k (some p)) q e) in
      (raw, rw (sym same) enc, size)
]

private_total :
    (password urandom : Bytes)
    → length password < 2 ^ 60
    → length urandom ≡ 32
    → (k : ℕ) × (private_from_password password none urandom ≡ ok (k, urandom))
unfolding private_from_password
private_total password urandom short size =
    let (d, e, l, b) =
      sm3_total (password ++ urandom) (omega (arith, length-append password urandom, size)) in
    let reduced = from_bytes d % sm2_n in (if reduced == 0 then 1 else reduced, rw (size, e) refl)

server_auth_total :
    (rh rm dhsk : Bytes) (server_id : ℕ)
    → length rh ≡ 64
    → length rm ≡ 64
    → length dhsk ≡ 64
    → server_id < 2 ^ 64
    → (d : Bytes) × (compute_server_auth rh rm dhsk server_id ≡ ok d) × (length d ≡ 32)
unfolding compute_server_auth
server_auth_total rh rm dhsk server_id h1 h2 h3 small =
    let b = be_bytes 8 server_id in
    let (d, e, size, bytes) = sm3_total (rh ++ (rm ++ (dhsk ++ b))) (
      omega (
        arith,
        length-append rh (rm ++ (dhsk ++ b)),
        length-append rm (dhsk ++ b),
        length-append dhsk b,
        length-be_bytes 8 server_id,
        h1,
        h2,
        h3,
      )) in
    (d, rw (to_bytes_lem 8 server_id (omega arith)) e, size)

answer_encoded :
    (rm s_m server_id_b : Bytes)
    → length rm ≡ 64
    → length s_m ≡ 32
    → length server_id_b ≡ 8
    → (raw : Bytes) × (encode_cnf (answer_response rm s_m server_id_b) ≡ ok raw)
unfolding encode_cnf encode_items to_byte_string to_bytes be_bytes
answer_encoded rm s_m server_id_b h1 h2 h3 = rw (h1, h2, h3) (_, refl)

-- The part of `slave_answer` behind the test of the mode.
pub answer_safe :
    (password urandom rh : Bytes) (server_id mode_byte : ℕ)
    → length password < 2 ^ 60
    → length urandom ≡ 32
    → server_id < 2 ^ 64
    → IsProtocolSafe (slave_respond password urandom server_id rh mode_byte)
unfolding slave_respond
answer_safe password urandom rh server_id mode_byte hp hu hs =
    >>=-IsProtocolSafe _ (decode_point-IsProtocolSafe rh) λ peer ep.
      let (k, ek) = private_total password urandom hp hu in
      let a = (decode_point_exact rh peer).0 ep in
      rw ek (
        >>=-IsProtocolSafe _ (require_point-IsProtocolSafe (sm2_mul k (some sm2_g)))
          λ local_point el.
            >>=-IsProtocolSafe _ (require_point-IsProtocolSafe (sm2_mul k (some peer))) λ shared es.
              let (rm, em, lm) =
                multiple_encoded k sm2_g local_point (omega arith, omega arith) el in
              let (dhsk, ed, ld) = multiple_encoded k peer shared a.field es in
              let (s_m, ea, la) = server_auth_total rh rm dhsk server_id a.size lm ld hs in
              let (raw, er) =
                answer_encoded rm s_m (be_bytes 8 server_id) lm la (length-be_bytes 8 server_id) in
              rw (em, ed, ea, to_bytes_lem 8 server_id (omega arith), er) (returns _))
