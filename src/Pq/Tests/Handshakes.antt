-- ===== src/Pq/Tests/Handshakes.antt =====
-- A post-quantum handshake on concrete values.
use modbus_serial_security_p.Base.{
  ◌≡◌, ◌⊎◌, refl, arith, false, [], ◌∷◌, Bytes, length, replicate, Result, ok, err, some, bytes_eq,
  protocol_error, invalid_akh, from_bytes, to_bytes, be_bytes, to_byte_string, index, Option, none,
  Error, value_error, attribute_error, IsProtocolSafe,
}
use modbus_serial_security_p.Psk.Sm3.{sm3}
use modbus_serial_security_p.Psk.Payload.{
  DataPayload, get, set_item, encode_items, encode_cnf, decode_items, decode_cnf,
}
use modbus_serial_security_p.Psk.Content.{mode_aes_gcm}
use modbus_serial_security_p.Base.Json.{pos, Json}
use modbus_serial_security_p.Pq.Certificates.{
  client, server, DeviceMaterial, Draws, validate_secret_key, signed_json, make_device_material,
  verify_device_certificate, Verified, decaps, verify_signed_json, brand_text,
}
use modbus_serial_security_p.Pq.Certificates.Escapes.{
  RaisesValueError, IsOddCertificate, verify_signed_json_escapes,
}
use modbus_serial_security_p.Pq.Certificates.Laws.{verified_device, verify-make_device_material}
use modbus_serial_security_p.Pq.Certificates.Sound.{IsCertified, verify_device_certificate_sound}
use modbus_serial_security_p.Pq.Keys.{int_to_bytes, compute_auth_key}
use modbus_serial_security_p.Pq.Content.{PqSessionContext}
use modbus_serial_security_p.Pq.Content.Delivery.{IsInStep}
use modbus_serial_security_p.Pq.Handshake.Master.{MasterDraws, response_payload, akh_payload}
use modbus_serial_security_p.Pq.Handshake.{
  type_akh, type_kem_c, type_client_dev_cert, type_client_brand_cert,
}
use modbus_serial_security_p.Pq.Handshake.Slave.{slave_accept}
use modbus_serial_security_p.Pq.Handshake.Confirm.{slave_confirm_sound}
use modbus_serial_security_p.Pq.Handshake.Agreement.{exchange, exchange_completes}
use modbus_serial_security_p.Pq.Handshake.Agreement.Handlers.{
  data_cnf, agreed, agreed_broadcast, agreed_secrets, response_accepted, akh_confirmed,
}
use modbus_serial_security_p.Pq.Tests.Codec.{marks, dump, read, loads, whole}
use modbus_serial_security_p.Pq.Tests.Primitives.{plain_base64, test_suite, test_suite_laws}

abbrev draws_s : Draws
draws_s = record {
  brand_signing = [];
  key_pair = 9 ∷ [];
  broadcast_pair = 9 ∷ 9 ∷ [];
  device_signing = [];
}

abbrev draws_m : MasterDraws
draws_m = record { unicast = 7 ∷ []; broadcast = []; material = draws_s }

-- What a call returned.
abbrev value_of {ℓ} : {A : Type ℓ} → A → Result A → A
value_of d (ok a) = a
value_of d (err e) = d

abbrev blank : DeviceMaterial
blank = record {
  role = client;
  device_id = 0;
  kem_secret = [];
  kem_public = [];
  brand_cert = [];
  device_cert = [];
  broadcast_kem_secret = [];
}

abbrev server_side : DeviceMaterial
unfolding make_device_material signed_json validate_secret_key dump
server_side = value_of blank (make_device_material test_suite draws_s server 0x11)

abbrev client_side : DeviceMaterial
unfolding make_device_material signed_json validate_secret_key dump
client_side = value_of blank (make_device_material test_suite draws_s client 0x22)

server_made : make_device_material test_suite draws_s server 0x11 ≡ ok server_side
unfolding make_device_material signed_json validate_secret_key dump
server_made = refl

client_made : make_device_material test_suite draws_s client 0x22 ≡ ok client_side
unfolding make_device_material signed_json validate_secret_key dump
client_made = refl

verify-make_device_material_example :
    verify_device_certificate test_suite server_side.device_cert server_side.brand_cert server
    ≡ ok (verified_device test_suite test_suite_laws draws_s server 0x11)
verify-make_device_material_example =
    verify-make_device_material test_suite test_suite_laws draws_s server 0x11 server_side
      server_made

exchange_completes_example :
    ((m s : PqSessionContext) × (exchange test_suite draws_m draws_s 0x11 0x22 ≡ ok (m, s))
      × IsInStep m s
      × IsInStep s m
      × (s.client_id ≡ pos 0x22)
      × (m.server_id ≡ pos 0x11))
    ⊎ ((compute_auth_key
            (pos 0x11)
            (pos 0x22)
            (agreed test_suite test_suite_laws draws_s draws_m.unicast).1
          ≡ ok (replicate 32 0))
        × (exchange test_suite draws_m draws_s 0x11 0x22 ≡ err (protocol_error invalid_akh)))
unfolding server_side bytes_eq
exchange_completes_example =
    exchange_completes test_suite test_suite_laws draws_m draws_s 0x11 0x22 server_side client_side
      server_made client_made (omega arith) (omega arith) (omega arith) (omega arith) (omega arith)
      (omega arith)

verify_device_certificate_sound_example :
    IsCertified test_suite server_side.device_cert server_side.brand_cert server
      (verified_device test_suite test_suite_laws draws_s server 0x11)
verify_device_certificate_sound_example =
    verify_device_certificate_sound test_suite server_side.device_cert server_side.brand_cert server
      (verified_device test_suite test_suite_laws draws_s server 0x11)
      (verify-make_device_material test_suite test_suite_laws draws_s server 0x11 server_side
        server_made)

abbrev test_auth_key : Bytes
unfolding compute_auth_key int_to_bytes to_bytes be_bytes sm3 from_bytes
test_auth_key =
    value_of [] (
      compute_auth_key (pos 0x11) (pos 0x22) (agreed test_suite test_suite_laws draws_s (7 ∷ [])).1)

auth_key_made :
    compute_auth_key (pos 0x11) (pos 0x22) (agreed test_suite test_suite_laws draws_s (7 ∷ [])).1
    ≡ ok test_auth_key
unfolding compute_auth_key int_to_bytes to_bytes be_bytes sm3 from_bytes test_auth_key
auth_key_made = refl

abbrev test_response : DataPayload
test_response =
    response_payload (agreed test_suite test_suite_laws draws_s (7 ∷ [])).0
      (agreed_broadcast test_suite test_suite_laws draws_s []).0 client_side

abbrev test_raw : Bytes
unfolding encode_cnf encode_items to_byte_string to_bytes be_bytes client_side
test_raw = value_of [] (encode_cnf test_response)

test_decoded : decode_cnf test_raw ≡ ok test_response
unfolding encode_cnf encode_items to_byte_string to_bytes be_bytes client_side test_raw decode_cnf
    decode_items index set_item from_bytes bytes_eq
test_decoded = refl

test_accepted :
    slave_accept test_suite server_side 0x11 (data_cnf test_raw)
    ≡ ok (agreed_secrets test_suite test_suite_laws draws_m draws_s 0x22 test_auth_key)
test_accepted =
    response_accepted test_suite test_suite_laws draws_m draws_s 0x11 0x22 server_side client_side
      test_raw test_auth_key server_made client_made test_decoded auth_key_made

abbrev test_final : Bytes
unfolding encode_cnf encode_items to_byte_string to_bytes be_bytes test_auth_key
test_final = value_of [] (encode_cnf (akh_payload test_auth_key))

final_decoded : decode_cnf test_final ≡ ok (akh_payload test_auth_key)
unfolding encode_cnf encode_items to_byte_string to_bytes be_bytes test_auth_key test_final
    decode_cnf decode_items index set_item from_bytes
final_decoded = refl

not_zeros : bytes_eq test_auth_key (replicate 32 0) ≡ false
unfolding bytes_eq test_auth_key
not_zeros = refl

slave_confirm_sound_example :
    (response payload : DataPayload) × (dev brand kem_c kemsk auth_key : Bytes) × (v : Verified)
    × (decode_cnf test_raw ≡ ok response)
    × (get type_client_dev_cert response.send ≡ some dev)
    × (get type_client_brand_cert response.send ≡ some brand)
    × (verify_device_certificate test_suite dev brand client ≡ ok v)
    × (get type_kem_c response.send ≡ some kem_c)
    × (decaps test_suite server_side.kem_secret kem_c ≡ ok kemsk)
    × (compute_auth_key (pos 0x11) v.device_id kemsk ≡ ok auth_key)
    × (decode_cnf test_final ≡ ok payload)
    × (get type_akh payload.send ≡ some auth_key)
    × (bytes_eq auth_key (replicate 32 0) ≡ false)
    × (pos 0x22 ≡ v.device_id)
    × (mode_aes_gcm ≡ mode_aes_gcm)
slave_confirm_sound_example =
    slave_confirm_sound test_suite server_side 0x11 (data_cnf test_raw) (data_cnf test_final)
      (agreed_secrets test_suite test_suite_laws draws_m draws_s 0x22 test_auth_key) test_accepted
      (akh_confirmed test_suite
        (agreed_secrets test_suite test_suite_laws draws_m draws_s 0x22 test_auth_key) test_final
        final_decoded not_zeros)

whole_raises : (o : Option (Json × Bytes)) (e : Error) → whole o ≡ err e → e ≡ value_error
whole_raises none e h = cc
whole_raises (some (v, [])) e h = cc
whole_raises (some (v, b ∷ rest)) e h = cc

marks_raise : RaisesValueError marks plain_base64
unfolding loads
marks_raise = record {
  loads_raises = λ raw e h. whole_raises (read (length raw) raw) e h;
  decode_raises = λ t e h. cc;
}

-- The certificate is the JSON text `null`.
verify_signed_json_escapes_example :
    IsProtocolSafe (verify_signed_json test_suite (0 ∷ []) (1 ∷ 1 ∷ []) brand_text)
    ⊎ (((parsed : Json) × (loads (0 ∷ []) ≡ ok parsed) × IsOddCertificate parsed)
        × (verify_signed_json test_suite (0 ∷ []) (1 ∷ 1 ∷ []) brand_text ≡ err attribute_error))
verify_signed_json_escapes_example =
    verify_signed_json_escapes test_suite (0 ∷ []) (1 ∷ 1 ∷ []) brand_text marks_raise
