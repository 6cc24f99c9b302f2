-- ===== src/Ecc/Pki.antt =====
-- `init_demo_pki` of protocols/protocols-ECC/secure_modbus/pki.py: the certificates and keys that it
-- writes to the files of both roles.
pub mod Accepted
use modbus_serial_security_p.Base.{[], ◌∷◌, Bytes, Result}
use modbus_serial_security_p.Base.Json.{Json}
use modbus_serial_security_p.Ecc.Suite.{EccSuite}
use modbus_serial_security_p.Ecc.Certificates.{DeviceIdentity, make_certificate, load_identity}

-- "ROOT-DEMO"
abbrev pub root_demo : Bytes
root_demo = b'R' ∷ b'O' ∷ b'O' ∷ b'T' ∷ b'-' ∷ b'D' ∷ b'E' ∷ b'M' ∷ b'O' ∷ []

-- "BRAND-DEMO"
abbrev pub brand_demo : Bytes
brand_demo = b'B' ∷ b'R' ∷ b'A' ∷ b'N' ∷ b'D' ∷ b'-' ∷ b'D' ∷ b'E' ∷ b'M' ∷ b'O' ∷ []

abbrev pub root_text : Bytes
root_text = b'r' ∷ b'o' ∷ b'o' ∷ b't' ∷ []

abbrev pub brand_text : Bytes
brand_text = b'b' ∷ b'r' ∷ b'a' ∷ b'n' ∷ b'd' ∷ []

abbrev pub client_text : Bytes
client_text = b'c' ∷ b'l' ∷ b'i' ∷ b'e' ∷ b'n' ∷ b't' ∷ []

abbrev pub server_text : Bytes
server_text = b's' ∷ b'e' ∷ b'r' ∷ b'v' ∷ b'e' ∷ b'r' ∷ []

-- "0102030405060708"
abbrev pub demo_client_id : Bytes
demo_client_id =
    b'0' ∷ b'1' ∷ b'0' ∷ b'2' ∷ b'0' ∷ b'3' ∷ b'0' ∷ b'4' ∷ b'0' ∷ b'5' ∷ b'0' ∷ b'6' ∷ b'0' ∷ b'7'
    ∷ b'0' ∷ b'8' ∷ []

-- "1112131415161718"
abbrev pub demo_server_id : Bytes
demo_server_id =
    b'1' ∷ b'1' ∷ b'1' ∷ b'2' ∷ b'1' ∷ b'3' ∷ b'1' ∷ b'4' ∷ b'1' ∷ b'5' ∷ b'1' ∷ b'6' ∷ b'1' ∷ b'7'
    ∷ b'1' ∷ b'8' ∷ []

-- The four private keys that are generated, and what signing draws.
pub record DemoKeys : Type 0 where
  pub root_key : Bytes
  pub brand_key : Bytes
  pub client_key : Bytes
  pub server_key : Bytes
  pub signing : Bytes

-- The files: `root_cert.json`, and key and certificates in the directory of each role.
pub record DemoPki : Type 0 where
  pub root_cert : Json
  pub brand_cert : Json
  pub client_cert : Json
  pub server_cert : Json
  pub keys : DemoKeys

module _ (suite : EccSuite) where
  open suite use {curve}

  unfoldable pub init_demo_pki : DemoKeys → DemoPki
  unfolding make_certificate
  init_demo_pki keys =
      let root_cert =
        make_certificate suite keys.signing root_demo (curve.public_key keys.root_key) root_demo
          keys.root_key root_text in
      let brand_cert =
        make_certificate suite keys.signing brand_demo (curve.public_key keys.brand_key) root_demo
          keys.root_key brand_text in
      let client_cert =
        make_certificate suite keys.signing demo_client_id (curve.public_key keys.client_key)
          brand_demo keys.brand_key client_text in
      let server_cert =
        make_certificate suite keys.signing demo_server_id (curve.public_key keys.server_key)
          brand_demo keys.brand_key server_text in
      record {
        root_cert = root_cert;
        brand_cert = brand_cert;
        client_cert = client_cert;
        server_cert = server_cert;
        keys = keys;
      }

  -- `load_identity(pki_dir, role)` on these files.
  unfoldable pub client_identity : DemoPki → Result DeviceIdentity
  unfolding load_identity
  client_identity pki =
      load_identity suite client_text pki.keys.client_key pki.client_cert pki.brand_cert
        pki.root_cert

  unfoldable pub server_identity : DemoPki → Result DeviceIdentity
  unfolding load_identity
  server_identity pki =
      load_identity suite server_text pki.keys.server_key pki.server_cert pki.brand_cert
        pki.root_cert
