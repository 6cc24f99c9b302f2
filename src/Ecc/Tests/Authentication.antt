-- ===== src/Ecc/Tests/Authentication.antt =====
-- An authentication with certificates, with the messages of the client given.
use modbus_serial_security_p.Base.{
  ℕ, ◌≡◌, refl, none, List, [], ◌∷◌, Bytes, Result, ok, err, eof_error, value_error, ◌==◌,
  if◌then◌else◌, to_bytes, be_bytes, to_byte_string, from_bytes, bytes_eq, index,
}
use modbus_serial_security_p.Ecc.Tests.Devices.{demo_keys, test_suite, client_device, server_device}
use modbus_serial_security_p.Pq.Tests.Codec.{dump}
use modbus_serial_security_p.Ecc.Suite.{
  digest, derive_dhsk, derive_auth_key, from_hex, from_hex_json, to_hex, EccSuite,
}
use modbus_serial_security_p.Ecc.Certificates.{
  DeviceIdentity, make_certificate, body_item, cert_public_key, sign_json, verify_certificate,
  verify_fields, verify_json, verify_peer_chain, verify_signatures,
}
use modbus_serial_security_p.Ecc.Pki.{DemoPki, init_demo_pki}
use modbus_serial_security_p.Base.Json.{Json}
use modbus_serial_security_p.Psk.Payload.{get, set_item, decode_items}
use modbus_serial_security_p.Ecc.Session.Client.{
  ClientDraws, client_full, send_message, recv_message,
}
use modbus_serial_security_p.Ecc.Line.{Transport}
use modbus_serial_security_p.Ecc.Tlv.{
  DataMessage, encode_data_message, encode_values, decode_data_message,
}
use modbus_serial_security_p.Ecc.Session.{
  World, apdu_data_req, dt_server_brand_cert, dt_server_dev_cert, dt_dhpm, dt_rm, send, recv,
  save_context, require_value, new_session, message_of, apdu_data_cnf, dt_client_brand_cert,
  dt_client_dev_cert, dt_dhph, dt_rh, dt_akh,
}
use modbus_serial_security_p.Ecc.Session.Client.Verified.{HasKeys, client_full_sound}
use modbus_serial_security_p.Ecc.Session.Server.{
  ServerDraws, server_chain, server_key, server_confirm, server_full,
}
use modbus_serial_security_p.Ecc.Session.Server.Authentic.{IsKeyed, IsShown, server_full_sound}

-- Certificates without their texts: all are written as one byte, and a number names one of them.
abbrev numbered : (Bytes → Result Json) → EccSuite
numbered loads = record test_suite { json = record { dumps = λ v. 0 ∷ []; loads = loads } }

abbrev pki : DemoPki
pki = init_demo_pki (numbered (λ bs. err value_error)) demo_keys

abbrev certificate : Bytes → Result Json
certificate [] = err value_error
certificate (n ∷ rest) =
    if n == 1 then ok pki.brand_cert else if n == 2 then ok pki.client_cert else ok pki.server_cert

abbrev suite : EccSuite
suite = numbered certificate

abbrev server_side : DeviceIdentity
server_side = record server_device {
  device_cert = pki.server_cert;
  brand_cert = pki.brand_cert;
  root_cert = pki.root_cert;
}

abbrev Script : Type 0
Script = List (ℕ × Bytes)

abbrev next_message : Script → Result (ℕ × Bytes) × Script
next_message [] = (err eof_error, [])
next_message (m ∷ rest) = (ok m, rest)

-- A line that gives the messages of a list.
abbrev scripted : Transport
scripted = record {
  State = Script;
  send_secure_apdu = λ address tag payload line. (ok tt, line);
  recv_secure_apdu = λ address line. next_message line;
}

abbrev encoded : Result Bytes → Bytes
encoded (ok bs) = bs
encoded (err e) = []

abbrev draws : ServerDraws
draws = record { ephemeral = 9 ∷ []; channel_nonce = []; key_nonce = [] }

abbrev dhsk : Bytes
dhsk = derive_dhsk suite (9 ∷ 8 ∷ []) client_device.device_id server_side.device_id

abbrev auth_key : Bytes
auth_key = derive_auth_key suite dhsk client_device.device_id server_side.device_id

abbrev messages : List DataMessage
messages =
    message_of
      ((dt_client_brand_cert, 1 ∷ []) ∷ (dt_client_dev_cert, 2 ∷ []) ∷ (dt_dhph, 8 ∷ []) ∷ []) []
    ∷ message_of
        ((dt_rh, digest suite ((9 ∷ []) ∷ (8 ∷ []) ∷ dhsk ∷ client_device.device_id ∷ []) 32) ∷ [])
        []
    ∷ message_of ((dt_akh, auth_key) ∷ []) []
    ∷ []

abbrev script_of : List DataMessage → Script
script_of [] = []
script_of (m ∷ ms) = (apdu_data_cnf, encoded (encode_data_message m)) ∷ script_of ms

abbrev start : World suite scripted
start = record { line = script_of messages; session = new_session 5 server_side; saved = none }

returns : (server_full suite scripted draws start).0 ≡ ok tt
unfolding server_full server_chain server_key server_confirm send_message recv_message send recv
    encode_data_message encode_values decode_data_message decode_items set_item to_bytes be_bytes
    index from_bytes require_value get bytes_eq body_item cert_public_key make_certificate sign_json
    verify_certificate verify_fields verify_json verify_peer_chain verify_signatures save_context
    digest derive_dhsk derive_auth_key from_hex from_hex_json to_hex init_demo_pki dump
    to_byte_string
returns = refl

server_full_sound_example :
    (client_id key : Bytes) × IsKeyed suite scripted server_side 5 draws client_id key
      (server_full suite scripted draws start).1.session
    × IsShown suite scripted server_side 5 key
server_full_sound_example =
    server_full_sound suite scripted draws start (server_full suite scripted draws start).1
      (λ i. (returns i, (server_full suite scripted draws start).1))

-- The same for a client, with the messages of the server.
abbrev client_side : DeviceIdentity
client_side = record client_device {
  device_cert = pki.client_cert;
  brand_cert = pki.brand_cert;
  root_cert = pki.root_cert;
}

abbrev request : DataMessage
request = message_of ((dt_server_brand_cert, 1 ∷ []) ∷ (dt_server_dev_cert, 3 ∷ []) ∷ []) []

abbrev client_draws : ClientDraws
client_draws = record { ephemeral = 9 ∷ []; channel_nonce = []; key_nonce = [] }

abbrev answers : Script
answers =
    (
      apdu_data_req,
      encoded (
          encode_data_message (
            message_of
              ((dt_dhpm, 8 ∷ [])
                ∷ (
                  dt_rm,
                  digest suite ((9 ∷ []) ∷ (8 ∷ []) ∷ dhsk ∷ server_device.device_id ∷ []) 32,
                )
                ∷ [])
              [])),
    )
    ∷ (apdu_data_req, encoded (encode_data_message (message_of [] (dt_akh ∷ []))))
    ∷ []

abbrev client_start : World suite scripted
client_start = record { line = answers; session = new_session 5 client_side; saved = none }

client_returns : (client_full suite scripted client_draws request client_start).0 ≡ ok tt
unfolding client_full send_message recv_message send recv encode_data_message encode_values
    decode_data_message decode_items set_item to_bytes be_bytes index from_bytes require_value get
    bytes_eq body_item cert_public_key make_certificate sign_json verify_certificate verify_fields
    verify_json verify_peer_chain verify_signatures save_context digest derive_dhsk derive_auth_key
    from_hex from_hex_json to_hex init_demo_pki dump to_byte_string
client_returns = refl

client_full_sound_example :
    (server_id key : Bytes) × HasKeys suite scripted client_side 5 client_draws request server_id
      key
      (client_full suite scripted client_draws request client_start).1.session
client_full_sound_example =
    client_full_sound suite scripted client_draws request client_start
      (client_full suite scripted client_draws request client_start).1
      (λ i. (client_returns i, (client_full suite scripted client_draws request client_start).1))
