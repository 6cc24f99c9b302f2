-- ===== src/Psk/Handshake.antt =====
-- The handshake messages: the constants, the context that both sides build, and the checks that
-- they share. The handlers of each side are modules of their own.
pub mod Master
pub mod Slave
pub mod Run
pub mod Inversion
pub mod Agreement
pub mod Respond
pub mod Escapes
use modbus_serial_security_p.Base.{
  ℕ, not, Option, none, some, [], ◌∷◌, Bytes, bytes_eq, Result, ok, err, ◌>>=◌, ◌>>◌, raise_if,
  protocol_error, wrong_tag, missing_item, no_point,
}
use modbus_serial_security_p.Psk.Apdu.{Apdu}
use modbus_serial_security_p.Psk.Sm2.{Point}
use modbus_serial_security_p.Psk.Keys.{derive_content_keys}
use modbus_serial_security_p.Psk.Content.{Role, SessionContext}

abbrev pub system_id_version_1 : ℕ
system_id_version_1 = 0x01

abbrev pub tag_ss_sk_open_req : Bytes
tag_ss_sk_open_req = 0x9f ∷ 0x90 ∷ 0x12 ∷ []

abbrev pub tag_ss_sk_open_cnf : Bytes
tag_ss_sk_open_cnf = 0x9f ∷ 0x90 ∷ 0x13 ∷ []

abbrev pub tag_ss_sk_data_req : Bytes
tag_ss_sk_data_req = 0x9f ∷ 0x90 ∷ 0x14 ∷ []

abbrev pub tag_ss_sk_data_cnf : Bytes
tag_ss_sk_data_cnf = 0x9f ∷ 0x90 ∷ 0x15 ∷ []

abbrev pub type_client_id : ℕ
type_client_id = 1

abbrev pub type_server_id : ℕ
type_server_id = 2

abbrev pub type_rh_rm : ℕ
type_rh_rm = 22

abbrev pub type_r_b : ℕ
type_r_b = 23

abbrev pub type_mode : ℕ
type_mode = 24

abbrev pub type_s_m_s_h : ℕ
type_s_m_s_h = 25

-- The literal 20 of the source, which has no name there.
abbrev pub type_status : ℕ
type_status = 20

abbrev pub status_ok : ℕ
status_ok = 0x00

-- `if apdu.tag != tag: raise ProtocolError(…)`
abbrev pub expect_tag : Bytes → Apdu → Result (Unit {0})
expect_tag tag apdu = raise_if (not (bytes_eq apdu.tag tag)) (protocol_error wrong_tag)

-- `if point is None: raise ProtocolError(…)`
unfoldable pub require_point : Option Point → Result Point
require_point none = err (protocol_error no_point)
require_point (some point) = ok point

-- `if a is None or …: raise ProtocolError(…)`
unfoldable pub require : Option Bytes → Result Bytes
require none = err (protocol_error missing_item)
require (some value) = ok value

-- `SessionContext(…)`: the counters start at their defaults.
unfoldable pub session_context :
    Role → ℕ → ℕ → ℕ → Bytes → Bytes → Bytes → Bytes → Result SessionContext
session_context role server_id client_id mode dhsk r_b local_point peer_point = do
  keys ← derive_content_keys dhsk server_id client_id r_b
  ok (record {
    role = role;
    server_id = server_id;
    client_id = client_id;
    mode = mode;
    dhsk = dhsk;
    keys = keys;
    local_point = local_point;
    peer_point = peer_point;
    send_counter = 1;
    recv_counter = 1;
  })
