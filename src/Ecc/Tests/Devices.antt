-- ===== src/Ecc/Tests/Devices.antt =====
-- Concrete primitives for the certificate profile, its demo hierarchy, and the nonces.
use modbus_serial_security_p.Base.{
  ℕ, ◌%◌, ◌≡◌, refl, arith, [], ◌∷◌, ◌++◌, Bytes, bytes_eq, bytes_eq_refl, replicate, take, length,
  if◌then◌else◌, ok, err, invalid_signature, be_bytes, to_bytes,
}
use modbus_serial_security_p.Base.Json.{Json, text}
use modbus_serial_security_p.Psk.Tests.Session.{plain_cipher}
use modbus_serial_security_p.Pq.Tests.Codec.{marks, marks_laws, dump}
use modbus_serial_security_p.Pq.Tests.Primitives.{plain_base64, plain_base64_laws}
use modbus_serial_security_p.Ecc.Sac.Tests.{clear}
use modbus_serial_security_p.Ecc.Suite.{Curve, EccSuite, from_hex, from_hex_json}
use modbus_serial_security_p.Ecc.Certificates.{DeviceIdentity, verify_peer_chain}
use modbus_serial_security_p.Ecc.Certificates.Laws.{IsChain, verify_peer_chain_sound}
use modbus_serial_security_p.Ecc.Pki.Accepted.{EccLaws, demo_chains_accepted}
use modbus_serial_security_p.Ecc.Pki.{
  DemoKeys, DemoPki, init_demo_pki, client_identity, server_identity, client_text, server_text,
}
use modbus_serial_security_p.Ecc.Content.{content_nonce, encrypt_content}
use modbus_serial_security_p.Ecc.Content.Laws.{content_nonce_injective}

-- Keys are their own public keys, and a signature shows key and message.
abbrev open_curve : Curve
open_curve = record {
  public_key = λ key. key;
  from_encoded_point = λ point. ok point;
  exchange = λ key point. ok (key ++ point);
  sign = λ random key message. key ++ message;
  verify = λ public signature message.
      if bytes_eq signature (public ++ message) then ok tt else err invalid_signature;
}

abbrev pub test_suite : EccSuite
test_suite = record {
  curve = open_curve;
  sha256 = λ bs. take 32 (bs ++ replicate 32 0);
  hkdf_sha256 = λ size salt info secret. replicate size (length secret);
  aead = plain_cipher;
  primitives = clear;
  json = marks;
  base64 = plain_base64;
  equal = λ a b. bytes_eq (dump a) (dump b);
}

test_laws : EccLaws test_suite
test_laws = record {
  json_laws = marks_laws;
  base64_laws = plain_base64_laws;
  loads_key = λ key. refl;
  verifies = λ random key message. rw (bytes_eq_refl (key ++ message)) refl;
  equal_texts = λ a. bytes_eq_refl (dump (text a));
}

abbrev pub demo_keys : DemoKeys
demo_keys = record {
  root_key = 1 ∷ [];
  brand_key = 2 ∷ [];
  client_key = 3 ∷ [];
  server_key = 4 ∷ [];
  signing = [];
}

abbrev demo_pki : DemoPki
demo_pki = init_demo_pki test_suite demo_keys

abbrev pub client_device : DeviceIdentity
client_device = record {
  role = client_text;
  device_id = 1 ∷ 2 ∷ 3 ∷ 4 ∷ 5 ∷ 6 ∷ 7 ∷ 8 ∷ [];
  device_key = 3 ∷ [];
  device_cert = demo_pki.client_cert;
  brand_cert = demo_pki.brand_cert;
  root_cert = demo_pki.root_cert;
}

abbrev pub server_device : DeviceIdentity
server_device = record {
  role = server_text;
  device_id = 0x11 ∷ 0x12 ∷ 0x13 ∷ 0x14 ∷ 0x15 ∷ 0x16 ∷ 0x17 ∷ 0x18 ∷ [];
  device_key = 4 ∷ [];
  device_cert = demo_pki.server_cert;
  brand_cert = demo_pki.brand_cert;
  root_cert = demo_pki.root_cert;
}

client_loaded : client_identity test_suite demo_pki ≡ ok client_device
unfolding client_identity init_demo_pki from_hex bytes_eq from_hex_json
client_loaded = refl

server_loaded : server_identity test_suite demo_pki ≡ ok server_device
unfolding server_identity init_demo_pki from_hex bytes_eq from_hex_json
server_loaded = refl

demo_chains_accepted_example :
    (verify_peer_chain test_suite client_device
        (dump server_device.brand_cert)
        (dump server_device.device_cert)
        server_text
      ≡ ok (0x11 ∷ 0x12 ∷ 0x13 ∷ 0x14 ∷ 0x15 ∷ 0x16 ∷ 0x17 ∷ 0x18 ∷ []))
    × (verify_peer_chain test_suite server_device
          (dump client_device.brand_cert)
          (dump client_device.device_cert)
          client_text
        ≡ ok (1 ∷ 2 ∷ 3 ∷ 4 ∷ 5 ∷ 6 ∷ 7 ∷ 8 ∷ []))
demo_chains_accepted_example =
    demo_chains_accepted test_suite test_laws demo_keys client_device server_device client_loaded
      server_loaded

verify_peer_chain_sound_example :
    (brand device : Json) × (marks.loads (dump server_device.brand_cert) ≡ ok brand)
    × (marks.loads (dump server_device.device_cert) ≡ ok device)
    × IsChain test_suite client_device brand device server_text
        (0x11 ∷ 0x12 ∷ 0x13 ∷ 0x14 ∷ 0x15 ∷ 0x16 ∷ 0x17 ∷ 0x18 ∷ [])
verify_peer_chain_sound_example =
    verify_peer_chain_sound test_suite client_device (dump server_device.brand_cert)
      (dump server_device.device_cert) server_text
      (0x11 ∷ 0x12 ∷ 0x13 ∷ 0x14 ∷ 0x15 ∷ 0x16 ∷ 0x17 ∷ 0x18 ∷ []) demo_chains_accepted_example.0

abbrev pub initial : Bytes
initial = replicate 12 7

abbrev nonce_three : Bytes
nonce_three = 135 ∷ 7 ∷ 7 ∷ 7 ∷ 7 ∷ 7 ∷ 7 ∷ 7 ∷ 7 ∷ 7 ∷ 7 ∷ 4 ∷ []

nonce_of_three : content_nonce initial 1 (be_bytes 4 3) ≡ ok nonce_three
unfolding content_nonce be_bytes
nonce_of_three = refl

content_nonce_injective_example : (◌≡◌ {A = ℕ} 3 3) × (◌≡◌ {A = ℕ} (1 % 2) (1 % 2))
content_nonce_injective_example =
    content_nonce_injective initial nonce_three 1 1 3 3 (omega arith) (omega arith) nonce_of_three
      nonce_of_three

abbrev payload : Bytes
payload = nonce_three ++ (0 ∷ 0 ∷ 0 ∷ 0 ∷ 0 ∷ 0 ∷ 0 ∷ 3 ∷ 3 ∷ 9 ∷ [])

encrypted : encrypt_content test_suite (1 ∷ []) initial (3 ∷ 9 ∷ []) 3 1 ≡ ok payload
unfolding encrypt_content to_bytes be_bytes content_nonce
encrypted = refl
