-- ===== src/Psk/Handshake/Run.antt =====
-- `run_master_handshake` and `run_slave_handshake`: the messages in their order on the serial line.
-- What `os.urandom` returns is an argument, in the order of the calls.
use modbus_serial_security_p.Base.{ℕ, [], ◌∷◌, some, Bytes}
use modbus_serial_security_p.Base.Action.{Action, lift, ◌>>=◌, ◌>>◌}
use modbus_serial_security_p.Psk.Apdu.{Apdu}
use modbus_serial_security_p.Psk.Frame.{build_apdu_frame, parse_apdu_frame}
use modbus_serial_security_p.Psk.Records.{Uart, send_record, recv_record}
use modbus_serial_security_p.Psk.Content.{SessionContext, master, slave, mode_aes_gcm}
use modbus_serial_security_p.Psk.Handshake.{
  system_id_version_1, tag_ss_sk_open_req, tag_ss_sk_open_cnf, tag_ss_sk_data_req,
  tag_ss_sk_data_cnf, session_context,
}
use modbus_serial_security_p.Psk.Handshake.Master.{
  master_open, master_offer, master_accept, master_finish, master_status,
}
use modbus_serial_security_p.Psk.Handshake.Slave.{
  slave_open, slave_answer, slave_finish, status_payload,
}

module _ (uart : Uart) where
  -- `send_record(sock, build_apdu_frame(slave_id, tag, payload))`
  unfoldable pub send_apdu : ℕ → Bytes → Bytes → Action uart.State (Unit {0})
  send_apdu slave_id tag payload = do
    frame ← lift (build_apdu_frame slave_id tag payload)
    send_record uart frame

  -- `parse_apdu_frame(recv_record(sock), expected_slave_id=slave_id)`
  unfoldable pub recv_apdu : ℕ → Action uart.State Apdu
  recv_apdu slave_id = do frame ← recv_record uart; lift (parse_apdu_frame frame (some slave_id))

  unfoldable pub run_master_handshake :
      ℕ → Bytes → ℕ → Bytes → Bytes → Action uart.State SessionContext
  run_master_handshake slave_id password client_id urandom r_b = do
    send_apdu slave_id tag_ss_sk_open_req []
    open_cnf ← recv_apdu slave_id
    lift (master_open open_cnf)
    offer ← lift (master_offer password urandom)
    send_apdu slave_id tag_ss_sk_data_req offer.payload
    first_cnf ← recv_apdu slave_id
    peer ← lift (master_accept offer first_cnf)
    final_payload ← lift (master_finish offer peer client_id r_b)
    send_apdu slave_id tag_ss_sk_data_req final_payload
    final_cnf ← recv_apdu slave_id
    lift (master_status final_cnf)
    lift (
        session_context master peer.server_id client_id mode_aes_gcm peer.dhsk r_b offer.rh peer.rm)

  unfoldable pub run_slave_handshake : ℕ → Bytes → ℕ → Bytes → Action uart.State SessionContext
  run_slave_handshake slave_id password server_id urandom = do
    open_req ← recv_apdu slave_id
    lift (slave_open open_req)
    send_apdu slave_id tag_ss_sk_open_cnf (system_id_version_1 ∷ [])
    first_req ← recv_apdu slave_id
    answer ← lift (slave_answer password urandom server_id first_req)
    send_apdu slave_id tag_ss_sk_data_cnf answer.payload
    final_req ← recv_apdu slave_id
    final ← lift (slave_finish answer final_req)
    status ← lift status_payload
    send_apdu slave_id tag_ss_sk_data_cnf status
    lift (
        session_context slave server_id final.client_id answer.mode answer.dhsk final.r_b answer.rm
          answer.rh)
