-- ===== src/Ecc/Session.antt =====
-- `SecureSession` of protocols/protocols-ECC/secure_modbus/session.py: what it keeps, its messages,
-- and the file of its context.
pub mod Ensures
pub mod Client
pub mod Server
pub mod Protected
use modbus_serial_security_p.Base.{
  ℕ, ◌+◌, not, Bool, true, false, Option, none, some, [], ◌∷◌, List, Bytes, replicate, ◌==◌,
  bytes_eq, if◌then◌else◌, Result, ok, err, Reason, key_error, protocol_error, wrong_tag,
  not_initialized,
}
use modbus_serial_security_p.Base.Action.{Action, pure, raise, lift, raise_if, ◌>>=◌, ◌>>◌}
use modbus_serial_security_p.Base.Json.{
  Json, integer, text, object, no_member, member, pos, subscript,
}
use modbus_serial_security_p.Psk.Payload.{Items, get}
use modbus_serial_security_p.Ecc.Suite.{EccSuite, to_hex, from_hex_json}
use modbus_serial_security_p.Ecc.Certificates.{DeviceIdentity}
use modbus_serial_security_p.Ecc.Content.{encrypt_content, decrypt_content}
use modbus_serial_security_p.Ecc.Sac.{SacChannel, pack, unpack}
use modbus_serial_security_p.Ecc.Tlv.{DataMessage, encode_data_message}
use modbus_serial_security_p.Ecc.Line.{Transport}
use modbus_serial_security_p.Ecc.Pki.{client_text}

-- SYSTEM_ID_V1, STATUS_OK and MODE_AES_GCM
abbrev pub system_id_v1 : ℕ
system_id_v1 = 0x01

abbrev pub status_ok : ℕ
status_ok = 0

abbrev pub mode_aes_gcm : ℕ
mode_aes_gcm = 1

abbrev pub apdu_open_req : ℕ
apdu_open_req = 0x01

abbrev pub apdu_open_cnf : ℕ
apdu_open_cnf = 0x02

abbrev pub apdu_data_req : ℕ
apdu_data_req = 0x03

abbrev pub apdu_data_cnf : ℕ
apdu_data_cnf = 0x04

abbrev pub apdu_sync_req : ℕ
apdu_sync_req = 0x05

abbrev pub apdu_sync_cnf : ℕ
apdu_sync_cnf = 0x06

abbrev pub apdu_sac_data_req : ℕ
apdu_sac_data_req = 0x07

abbrev pub apdu_sac_data_cnf : ℕ
apdu_sac_data_cnf = 0x08

abbrev pub apdu_sac_sync_req : ℕ
apdu_sac_sync_req = 0x09

abbrev pub apdu_sac_sync_cnf : ℕ
apdu_sac_sync_cnf = 0x0A

abbrev pub apdu_data_send : ℕ
apdu_data_send = 0x0B

abbrev pub dt_client_id : ℕ
dt_client_id = 1

abbrev pub dt_server_id : ℕ
dt_server_id = 2

abbrev pub dt_client_brand_cert : ℕ
dt_client_brand_cert = 3

abbrev pub dt_server_brand_cert : ℕ
dt_server_brand_cert = 4

abbrev pub dt_kp : ℕ
dt_kp = 7

abbrev pub dt_dhph : ℕ
dt_dhph = 8

abbrev pub dt_dhpm : ℕ
dt_dhpm = 9

abbrev pub dt_client_dev_cert : ℕ
dt_client_dev_cert = 10

abbrev pub dt_server_dev_cert : ℕ
dt_server_dev_cert = 11

abbrev pub dt_rm : ℕ
dt_rm = 12

abbrev pub dt_rh : ℕ
dt_rh = 13

abbrev pub dt_ns_h : ℕ
dt_ns_h = 15

abbrev pub dt_ns_m : ℕ
dt_ns_m = 16

abbrev pub dt_akh : ℕ
dt_akh = 17

abbrev pub dt_status : ℕ
dt_status = 20

pub record SecureSession : Type 0 where
  pub address : ℕ
  pub identity : DeviceIdentity
  pub peer_id : Option Bytes
  pub dhsk : Option Bytes
  pub auth_key : Option Bytes
  pub sac : Option SacChannel
  pub ck : Option Bytes
  pub civ : Option Bytes
  pub bck : Option Bytes
  pub bciv : Option Bytes
  pub tx_content_counter : ℕ

-- `SecureSession(sock, address, identity)`
abbrev pub new_session : ℕ → DeviceIdentity → SecureSession
new_session address identity = record {
  address = address;
  identity = identity;
  peer_id = none;
  dhsk = none;
  auth_key = none;
  sac = none;
  ck = none;
  civ = none;
  bck = none;
  bciv = none;
  tx_content_counter = 1;
}

-- `values[key]`
unfoldable pub require_value : ℕ → Items → Result Bytes
require_value key values = elim (get key values) [ none ↦ err key_error | some v ↦ ok v ]

-- `a == b`, where `None` is equal to itself.
abbrev pub same_option : Option Bytes → Option Bytes → Bool
same_option none none = true
same_option none (some b) = false
same_option (some a) none = false
same_option (some a) (some b) = bytes_eq a b

-- `key in requests`
abbrev pub requests_type : ℕ → List ℕ → Bool
requests_type t [] = false
requests_type t (x ∷ xs) = if x == t then true else requests_type t xs

-- `key in values`
abbrev pub has_value : ℕ → Items → Bool
has_value key values = elim (get key values) [ none ↦ false | some v ↦ true ]

-- `value or default`
abbrev pub value_or : Option Bytes → Bytes → Bytes
value_or none d = d
value_or (some []) d = d
value_or (some (b ∷ bs)) d = b ∷ bs

-- `encode_data_message(values, requests)`
abbrev pub message_of : Items → List ℕ → DataMessage
message_of values requests = record { system_id_bitmask = 1; values = values; requests = requests }

abbrev key_auth_key : Bytes
key_auth_key = b'a' ∷ b'u' ∷ b't' ∷ b'h' ∷ b'_' ∷ b'k' ∷ b'e' ∷ b'y' ∷ []

abbrev key_dhsk : Bytes
key_dhsk = b'd' ∷ b'h' ∷ b's' ∷ b'k' ∷ []

abbrev key_mode : Bytes
key_mode = b'm' ∷ b'o' ∷ b'd' ∷ b'e' ∷ []

abbrev key_peer_id : Bytes
key_peer_id = b'p' ∷ b'e' ∷ b'e' ∷ b'r' ∷ b'_' ∷ b'i' ∷ b'd' ∷ []

-- `0 if self.identity.role == "client" else 1`, and the direction of the peer.
abbrev pub own_direction : DeviceIdentity → ℕ
own_direction identity = if bytes_eq identity.role client_text then 0 else 1

abbrev pub peer_direction : DeviceIdentity → ℕ
peer_direction identity = if bytes_eq identity.role client_text then 1 else 0

module _ (suite : EccSuite) (transport : Transport) where
  -- The line, the session, and what `json.loads` makes of the file of the context, if there is one.
  pub record World : Type 0 where
    pub line : transport.State
    pub session : SecureSession
    pub saved : Option (Result Json)

  abbrev pub session_of : Action World SecureSession
  session_of w = (ok w.session, w)

  -- `self.… = …`
  abbrev pub update : (SecureSession → SecureSession) → Action World (Unit {0})
  update f w = (ok tt, record w { session = f w.session })

  abbrev pub on_line {ℓ} : {A : Type ℓ} → Action transport.State A → Action World A
  on_line m w = ((m w.line).0, record w { line = (m w.line).1 })

  -- An action on the channel, which may not be there.
  abbrev on_channel_of : Option SacChannel → Action SacChannel Bytes → Action World Bytes
  on_channel_of none m w = (err (protocol_error not_initialized), w)
  on_channel_of (some channel) m w =
      ((m channel).0, record w { session = record (w.session) { sac = some (m channel).1 } })

  abbrev pub on_channel : Action SacChannel Bytes → Action World Bytes
  on_channel m w = on_channel_of w.session.sac m w

  unfoldable pub send : ℕ → Bytes → Action World (Unit {0})
  send tag payload = do
    session ← session_of
    on_line (transport.send_secure_apdu session.address tag payload)

  unfoldable pub recv : ℕ → Action World Bytes
  recv expected_tag = do
    session ← session_of
    (tag, payload) ← on_line (transport.recv_secure_apdu session.address)
    raise_if (not (tag == expected_tag)) (protocol_error wrong_tag)
    pure payload

  unfoldable pub send_sac : ℕ → Bytes → Action World (Unit {0})
  unfolding send
  send_sac tag payload = do
    message ← on_channel (pack suite.primitives payload true)
    send tag message

  -- `if channel is None: raise ProtocolError(…)`
  abbrev require_channel : Option SacChannel → Result (Unit {0})
  require_channel none = err (protocol_error not_initialized)
  require_channel (some channel) = ok tt

  unfoldable pub recv_sac : ℕ → Action World Bytes
  unfolding recv
  recv_sac expected_tag = do
    session ← session_of
    lift (require_channel session.sac)
    message ← recv expected_tag
    on_channel (unpack suite.primitives message)

  -- `if self.ck is None or self.civ is None: raise ProtocolError(…)`
  abbrev pub content_key : Option Bytes → Option Bytes → Result (Bytes × Bytes)
  content_key (some ck) (some civ) = ok (ck, civ)
  content_key (some ck) none = err (protocol_error not_initialized)
  content_key none civ = err (protocol_error not_initialized)

  unfoldable pub send_encrypted_pdu : Bytes → Action World (Unit {0})
  unfolding send
  send_encrypted_pdu pdu = do
    session ← session_of
    (ck, civ) ← lift (content_key session.ck session.civ)
    payload ← lift (
        encrypt_content suite ck civ pdu session.tx_content_counter
          (own_direction session.identity))
    update (λ s. record s { tx_content_counter = s.tx_content_counter + 1 })
    send apdu_data_send payload

  unfoldable pub recv_encrypted_pdu : Action World Bytes
  unfolding recv
  recv_encrypted_pdu = do
    session ← session_of
    (ck, civ) ← lift (content_key session.ck session.civ)
    payload ← recv apdu_data_send
    (pdu, counter) ← lift (decrypt_content suite ck civ payload (peer_direction session.identity))
    pure pdu

  abbrev context_json : Bytes → Bytes → Bytes → Json
  context_json peer_id dhsk auth_key = object (
      member key_auth_key (text (to_hex auth_key)) (
        member key_dhsk (text (to_hex dhsk)) (
          member key_mode (integer (pos mode_aes_gcm))
            (member key_peer_id (text (to_hex peer_id)) no_member))))

  -- Without an identifier and both keys nothing is written.
  abbrev saved_context : SecureSession → Option (Result Json) → Option (Result Json)
  saved_context s old = elim s.peer_id [
    | none ↦ old
    | some peer_id ↦ elim s.dhsk [
      | none ↦ old
      | some dhsk ↦ elim s.auth_key [
        | none ↦ old
        | some auth_key ↦ some (ok (context_json peer_id dhsk auth_key))
      ]
    ]
  ]

  unfoldable pub save_context : Action World (Unit {0})
  unfolding to_hex
  save_context w = (ok tt, record w { saved = saved_context w.session w.saved })

  -- `bytes.fromhex(data[key])`
  unfoldable pub hex_item : Bytes → Json → Action World Bytes
  unfolding from_hex_json
  hex_item key context = do v ← lift (subscript key context); lift (from_hex_json v)

  unfoldable pub read_context : Json → Action World Bool
  unfolding hex_item
  read_context context = do
    peer_id ← hex_item key_peer_id context
    update (λ s. record s { peer_id = some peer_id })
    dhsk ← hex_item key_dhsk context
    update (λ s. record s { dhsk = some dhsk })
    auth_key ← hex_item key_auth_key context
    update (λ s. record s { auth_key = some auth_key })
    pure true

  abbrev pub load_from : Option (Result Json) → Action World Bool
  unfolding read_context
  load_from none = pure false
  load_from (some (err e)) = raise e
  load_from (some (ok context)) = read_context context

  unfoldable pub load_context : Action World Bool
  load_context w = load_from w.saved w
