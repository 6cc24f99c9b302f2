-- ===== src/Pq/Content.antt =====
-- Protected PDUs of protocols/protocols-mpq/modbus_security_pq.py: to one station or to all of
-- them, with keys of their own.
pub mod Delivery
use modbus_serial_security_p.Base.{
  ℕ, ◌+◌, not, Bool, some, ◌++◌, Bytes, length, take, drop, ltb, ◌==◌, bytes_eq, ok, protocol_error,
  wrong_tag, missing_mac, unsupported_mode,
}
use modbus_serial_security_p.Base.Action.{Action, lift, raise_if, ◌>>=◌, ◌>>◌}
use modbus_serial_security_p.Base.Json.{ℤ}
use modbus_serial_security_p.Psk.Keys.{ContentKeys}
use modbus_serial_security_p.Psk.Apdu.{Apdu}
use modbus_serial_security_p.Psk.Frame.{build_apdu_frame, parse_apdu_frame}
use modbus_serial_security_p.Psk.Cipher.{Aead, aes_gcm_encrypt, aes_gcm_decrypt}
use modbus_serial_security_p.Psk.Content.{Role, mode_aes_gcm, tag_ss_data_send}

pub record PqSessionContext : Type 0 where
  pub role : Role
  pub server_id : ℤ
  pub client_id : ℤ
  pub mode : ℕ
  pub kemsk : Bytes
  pub kemsk_b : Bytes
  pub auth_key : Bytes
  pub keys : ContentKeys
  pub send_counter : ℕ
  pub recv_counter : ℕ

-- `context.send_counter += 1` and `context.recv_counter += 1`
abbrev pub count_sent : Action PqSessionContext (Unit {0})
count_sent context = (ok tt, record context { send_counter = context.send_counter + 1 })

abbrev pub count_received : Action PqSessionContext (Unit {0})
count_received context = (ok tt, record context { recv_counter = context.recv_counter + 1 })

abbrev pub gets {ℓ} : {A : Type ℓ} → (PqSessionContext → A) → Action PqSessionContext A
gets f context = (ok (f context), context)

module _ (aead : Aead) where
  unfoldable pub build_encrypted_data_send : ℕ → Bytes → Bool → Action PqSessionContext Bytes
  build_encrypted_data_send slave_id modbus_pdu broadcast = do
    context ← gets (λ c. c)
    raise_if (not (context.mode == mode_aes_gcm)) (protocol_error unsupported_mode)
    (mac, ciphertext) ←
        lift (aes_gcm_encrypt aead context.keys context.send_counter modbus_pdu broadcast)
    count_sent
    lift (build_apdu_frame slave_id tag_ss_data_send (mac ++ ciphertext))

  unfoldable pub parse_encrypted_data_send : Bytes → ℕ → Bool → Action PqSessionContext Bytes
  parse_encrypted_data_send frame_data expected_slave_id broadcast = do
    apdu ← lift (parse_apdu_frame frame_data (some expected_slave_id))
    raise_if (not (bytes_eq apdu.tag tag_ss_data_send)) (protocol_error wrong_tag)
    raise_if (ltb (length apdu.payload) 16) (protocol_error missing_mac)
    context ← gets (λ c. c)
    raise_if (not (context.mode == mode_aes_gcm)) (protocol_error unsupported_mode)
    pdu ← lift (
        aes_gcm_decrypt aead context.keys context.recv_counter (take 16 apdu.payload)
          (drop 16 apdu.payload) broadcast)
    count_received
    lift (ok pdu)
