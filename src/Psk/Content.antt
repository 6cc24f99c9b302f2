-- ===== src/Psk/Content.antt =====
-- Protected PDUs of a session: `build_encrypted_data_send` and `parse_encrypted_data_send`, which
-- change the session's counters.
pub mod Delivery
pub mod Stream
use modbus_serial_security_p.Base.{
  ℕ, ◌+◌, not, some, [], ◌∷◌, ◌++◌, Bytes, length, take, drop, ltb, ◌==◌, false, bytes_eq, ok,
  protocol_error, wrong_tag, missing_mac, unsupported_mode,
}
use modbus_serial_security_p.Base.Action.{Action, lift, raise_if, ◌>>=◌, ◌>>◌}
use modbus_serial_security_p.Psk.Keys.{ContentKeys}
use modbus_serial_security_p.Psk.Apdu.{Apdu}
use modbus_serial_security_p.Psk.Frame.{build_apdu_frame, parse_apdu_frame}
use modbus_serial_security_p.Psk.Cipher.{Aead, aes_gcm_encrypt, aes_gcm_decrypt}

-- MODE_AES_GCM and TAG_SS_DATA_SEND
abbrev pub mode_aes_gcm : ℕ
mode_aes_gcm = 0x01

abbrev pub tag_ss_data_send : Bytes
tag_ss_data_send = 0x9f ∷ 0x90 ∷ 0x11 ∷ []

pub data Role : Type 0 where
  master slave : Role

pub record SessionContext : Type 0 where
  pub role : Role
  pub server_id : ℕ
  pub client_id : ℕ
  pub mode : ℕ
  pub dhsk : Bytes
  pub keys : ContentKeys
  pub local_point : Bytes
  pub peer_point : Bytes
  pub send_counter : ℕ
  pub recv_counter : ℕ

-- `context.send_counter += 1` and `context.recv_counter += 1`
abbrev pub count_sent : Action SessionContext (Unit {0})
count_sent context = (ok tt, record context { send_counter = context.send_counter + 1 })

abbrev pub count_received : Action SessionContext (Unit {0})
count_received context = (ok tt, record context { recv_counter = context.recv_counter + 1 })

-- An attribute of the context.
abbrev pub gets {ℓ} : {A : Type ℓ} → (SessionContext → A) → Action SessionContext A
gets f context = (ok (f context), context)

module _ (aead : Aead) where
  unfoldable pub build_encrypted_data_send : ℕ → Bytes → Action SessionContext Bytes
  build_encrypted_data_send slave_id modbus_pdu = do
    context ← gets (λ c. c)
    raise_if (not (context.mode == mode_aes_gcm)) (protocol_error unsupported_mode)
    (mac, ciphertext) ←
        lift (aes_gcm_encrypt aead context.keys context.send_counter modbus_pdu false)
    count_sent
    lift (build_apdu_frame slave_id tag_ss_data_send (mac ++ ciphertext))

  unfoldable pub parse_encrypted_data_send : Bytes → ℕ → Action SessionContext Bytes
  parse_encrypted_data_send frame_data expected_slave_id = do
    apdu ← lift (parse_apdu_frame frame_data (some expected_slave_id))
    raise_if (not (bytes_eq apdu.tag tag_ss_data_send)) (protocol_error wrong_tag)
    raise_if (ltb (length apdu.payload) 16) (protocol_error missing_mac)
    context ← gets (λ c. c)
    raise_if (not (context.mode == mode_aes_gcm)) (protocol_error unsupported_mode)
    pdu ← lift (
        aes_gcm_decrypt aead context.keys context.recv_counter (take 16 apdu.payload)
          (drop 16 apdu.payload) false)
    count_received
    lift (ok pdu)
