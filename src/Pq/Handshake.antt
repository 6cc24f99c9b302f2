-- ===== src/Pq/Handshake.antt =====
-- The handshake of protocols/protocols-mpq/modbus_security_pq.py: its constants and the context that
-- both sides build. The slave begins; the handlers of each side are modules of their own.
pub mod Master
pub mod Slave
pub mod Run
pub mod Agreement
pub mod Confirm
use modbus_serial_security_p.Base.{ℕ, [], ◌∷◌, Bytes, Result, ok, ◌>>=◌}
use modbus_serial_security_p.Base.Json.{ℤ}
use modbus_serial_security_p.Psk.Content.{Role}
use modbus_serial_security_p.Pq.Suite.{Suite}
use modbus_serial_security_p.Pq.Keys.{derive_pq_content_keys}
use modbus_serial_security_p.Pq.Content.{PqSessionContext}

abbrev pub tag_ss_open_req : Bytes
tag_ss_open_req = 0x9f ∷ 0x90 ∷ 0x01 ∷ []

abbrev pub tag_ss_open_cnf : Bytes
tag_ss_open_cnf = 0x9f ∷ 0x90 ∷ 0x02 ∷ []

abbrev pub tag_ss_data_req : Bytes
tag_ss_data_req = 0x9f ∷ 0x90 ∷ 0x03 ∷ []

abbrev pub tag_ss_data_cnf : Bytes
tag_ss_data_cnf = 0x9f ∷ 0x90 ∷ 0x04 ∷ []

abbrev pub type_client_brand_cert : ℕ
type_client_brand_cert = 3

abbrev pub type_server_brand_cert : ℕ
type_server_brand_cert = 4

abbrev pub type_client_dev_cert : ℕ
type_client_dev_cert = 10

abbrev pub type_server_dev_cert : ℕ
type_server_dev_cert = 11

abbrev pub type_akh : ℕ
type_akh = 17

abbrev pub type_kem_c : ℕ
type_kem_c = 26

abbrev pub type_kem_bc : ℕ
type_kem_bc = 27

-- `PQSessionContext(…)`: the counters start at their defaults.
unfoldable pub pq_session_context :
    Suite → Role → ℤ → ℤ → ℕ → Bytes → Bytes → Bytes → Result PqSessionContext
pq_session_context suite role server_id client_id mode kemsk kemsk_b auth_key = do
  keys ← derive_pq_content_keys suite kemsk kemsk_b server_id client_id
  ok (record {
    role = role;
    server_id = server_id;
    client_id = client_id;
    mode = mode;
    kemsk = kemsk;
    kemsk_b = kemsk_b;
    auth_key = auth_key;
    keys = keys;
    send_counter = 1;
    recv_counter = 1;
  })
