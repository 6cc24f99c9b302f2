-- ===== src/Pq/Handshake/Run.antt =====
-- `run_master_handshake` and `run_slave_handshake`: the messages in their order on the serial line.
use modbus_serial_security_p.Base.{ℕ, [], ◌∷◌}
use modbus_serial_security_p.Base.Action.{Action, lift, ◌>>=◌, ◌>>◌}
use modbus_serial_security_p.Base.Json.{pos}
use modbus_serial_security_p.Psk.Records.{Uart}
use modbus_serial_security_p.Psk.Payload.{encode_req}
use modbus_serial_security_p.Psk.Content.{master, slave, mode_aes_gcm}
use modbus_serial_security_p.Psk.Handshake.{system_id_version_1}
use modbus_serial_security_p.Psk.Handshake.Run.{send_apdu, recv_apdu}
use modbus_serial_security_p.Pq.Suite.{Suite}
use modbus_serial_security_p.Pq.Certificates.{server, Draws, make_device_material}
use modbus_serial_security_p.Pq.Keys.{compute_auth_key}
use modbus_serial_security_p.Pq.Content.{PqSessionContext}
use modbus_serial_security_p.Pq.Handshake.{
  tag_ss_open_req, tag_ss_open_cnf, tag_ss_data_req, tag_ss_data_cnf, pq_session_context,
}
use modbus_serial_security_p.Pq.Handshake.Master.{
  MasterDraws, master_open, master_respond, master_authenticate,
}
use modbus_serial_security_p.Pq.Handshake.Slave.{
  slave_open, certificate_request, slave_accept, slave_confirm, akh_request,
}

module _ (suite : Suite) (uart : Uart) where
  unfoldable pub run_master_handshake : ℕ → ℕ → MasterDraws → Action uart.State PqSessionContext
  run_master_handshake slave_id client_id draws = do
    open_req ← recv_apdu uart slave_id
    lift (master_open open_req)
    send_apdu uart slave_id tag_ss_open_cnf (system_id_version_1 ∷ [])
    first_req ← recv_apdu uart slave_id
    response ← lift (master_respond suite draws client_id first_req)
    send_apdu uart slave_id tag_ss_data_cnf response.payload
    auth_key ← lift (compute_auth_key response.server_id (pos client_id) response.kemsk)
    akh_req ← recv_apdu uart slave_id
    payload ← lift (master_authenticate auth_key akh_req)
    send_apdu uart slave_id tag_ss_data_cnf payload
    lift (
        pq_session_context suite master response.server_id (pos client_id) mode_aes_gcm
          response.kemsk response.kemsk_b auth_key)

  unfoldable pub run_slave_handshake : ℕ → ℕ → Draws → Action uart.State PqSessionContext
  run_slave_handshake slave_id server_id draws = do
    server_material ← lift (make_device_material suite draws server server_id)
    send_apdu uart slave_id tag_ss_open_req []
    open_cnf ← recv_apdu uart slave_id
    lift (slave_open open_cnf)
    request ← lift (encode_req (certificate_request server_material))
    send_apdu uart slave_id tag_ss_data_req request
    first_cnf ← recv_apdu uart slave_id
    secrets ← lift (slave_accept suite server_material server_id first_cnf)
    akh ← lift (encode_req akh_request)
    send_apdu uart slave_id tag_ss_data_req akh
    final_cnf ← recv_apdu uart slave_id
    lift (slave_confirm suite secrets final_cnf)
    lift (
        pq_session_context suite slave (pos server_id) secrets.client_id secrets.mode secrets.kemsk
          secrets.kemsk_b secrets.auth_key)
