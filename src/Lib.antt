-- ===== src/Lib.antt =====
-- Verification of the secure Modbus serial protocols.
--
-- The program protects Modbus RTU traffic on a serial line. protocols/protocols-psw is the profile
-- with a pre-shared password: a master and a slave exchange records on a UART, agree on content
-- keys in a handshake, and then send encrypted PDUs. Each layer works on the one below it: PDUs are
-- encrypted, put into an APDU, the APDU into an RTU frame with a checksum, and the frame into a
-- record with a length prefix. protocols/protocols-mpq is the post-quantum profile, with the same
-- layers, certificates signed by ML-DSA and a handshake over ML-KEM. protocols/protocols-ECC is the
-- certificate profile: a session authenticates with certificates and a Diffie-Hellman exchange, or
-- by a saved key, opens a channel, agrees on content keys in the channel, and then carries the PDUs
-- between a client that reads and writes registers and a slave that holds them.
--
-- The definitions of Crc and Psk, but for those of Psk/Endpoints, model
-- protocols/protocols-psw/modbus_security_psk.py:
--   Crc           crc16_modbus
--   Psk/Ber       encode_ber_length, decode_ber_length
--   Psk/Apdu      class APDU
--   Psk/Rtu       class RtuFrame
--   Psk/Payload   class DataPayload; its dict is an association list in the order of insertion
--   Psk/Frame     build_apdu_frame, parse_apdu_frame
--   Psk/Registers read_holding_registers_pdu, handle_modbus_pdu, parse_register_response
--   Psk/Records   _read_exact, send_record, recv_record, with the UART as a parameter
--   Psk/Sm3       sm3
--   Psk/Sm2       sm2_inverse, sm2_add, sm2_mul, encode_point, decode_point
--   Psk/Keys      private_from_password, derive_content_keys, compute_server_auth,
--                 compute_master_auth; what os.urandom returns is an argument
--   Psk/Cipher    aes_gcm_encrypt, aes_gcm_decrypt, with the AES-GCM of `cryptography` as a
--                 parameter
--   Psk/Content   SessionContext, build_encrypted_data_send, parse_encrypted_data_send
--   Psk/Handshake run_master_handshake, run_slave_handshake: Master and Slave hold what each side
--                 does between two messages, Run the messages in their order on the line
--   Psk/Endpoints serve_connection and serve of protocols/protocols-psw/slave_server.py, run_master
--                 of protocols/protocols-psw/master_server.py
-- The definitions of Pq model protocols/protocols-mpq/modbus_security_pq.py where it differs from the
-- module above; what the two have in the same words is modelled once, under Psk:
--   Pq/Suite      ml_kem_768 and ml_dsa_44 of pqcrypto, json, base64 and int(text, 0) as
--                 parameters
--   Pq/Certificates make_device_material, verify_device_certificate, _signed_json,
--                 _verify_signed_json
--   Pq/Keys       derive_pq_content_keys, compute_auth_key
--   Pq/Content    PQSessionContext, build_encrypted_data_send, parse_encrypted_data_send
--   Pq/Handshake  run_master_handshake, run_slave_handshake, split as in Psk/Handshake
--   Pq/Endpoints  slave_server.py and master_server.py of protocols/protocols-mpq
-- The definitions of Ecc model protocols/protocols-ECC/secure_modbus:
--   Ecc/Frame     build_rtu_frame, parse_rtu_frame, build_apdu, parse_apdu, send_secure_apdu and
--                 recv_secure_apdu of frame.py, up to the line
--   Ecc/Line      send_packet, recv_exact, recv_packet of frame.py, and the two above on the line
--   Ecc/Tlv       tlv.py
--   Ecc/Crypto    hmac16, aes_cbc_encrypt and aes_cbc_decrypt of crypto.py
--   Ecc/Suite     digest, hkdf and the key derivations of crypto.py
--   Ecc/Certificates sign_json, verify_json, make_certificate, class DeviceIdentity and
--                 load_identity of crypto.py
--   Ecc/Content   encrypt_content, decrypt_content of crypto.py
--   Ecc/Pki       init_demo_pki of pki.py
--   Ecc/Sac       class SacChannel of sac.py
--   Ecc/Session   class SecureSession of session.py; Client and Server hold the two sides of the
--                 handshake, where server_authenticate falls into server_resume and the
--                 stages server_chain, server_key and server_confirm of server_full; Ensures
--                 holds the rules for what a method leaves in the session where it returns
--   Ecc/Registers class RegisterBank of slave_server.py
--   Ecc/Master    class MasterClient of master_server.py and handle_client of slave_server.py;
--                 Status holds its method status
-- Modules below one of these hold its lemmas; modules named Tests run the model on small inputs.
-- Base holds what the components share: byte strings, list and bit lemmas, results that are a value
-- or a Python exception, and actions on a state that survives an exception.
--
-- Integers are natural numbers with every mask and range check written out; `to_bytes` of a number
-- that does not fit is OverflowError, `bytes` of a number above 255 ValueError, and an index out of
-- range IndexError. Texts are their UTF-8 bytes. A JSON value is a data type whose objects are lists
-- of members, in ascending order of the keys where the code sorts them; the context file of a
-- session is its parsed value. Random bytes, times and generated keys are arguments. Loops over a
-- range are recursion on the number of rounds. The other loops run on fuel: `_read_exact` and
-- `recv_exact` with one round for each byte wanted, since each round reads a byte or ends;
-- `sm2_mul` and `pow` with 256 rounds, one for each bit of numbers below 2 ^ 256;
-- and the loop of `serve_connection`, for which any fuel above the bytes still to arrive will do,
-- since a round takes the two bytes of a record's prefix at least. The accept loop of `serve` and
-- the request loop of `handle_client` have no end of their own: their fuel is the number of rounds
-- that are looked at.
--
-- The hypotheses on code outside the repository are records: UartLaws (a read takes a nonempty
-- front of the input, a write appends to the output), AeadLaws (decryption undoes encryption,
-- and a ciphertext is 16 bytes longer than its plaintext), PrimitivesLaws (CBC decryption and
-- the removal of the padding undo encryption and padding, and nothing gets shorter), JsonLaws and
-- Base64Laws (what is written is read back), SuiteLaws (the sizes of ML-KEM and ML-DSA values,
-- decapsulation gives the encapsulated secret, a signature of the fixed keys verifies), and EccLaws
-- (a signature verifies under the public key of its key). Concrete instances stand in the modules
-- named Tests.
--
-- Not modelled: the argument parsing and printing of the endpoints, PEM and JSON files as such, the
-- HTTP servers and pages (ui_server.py, web_frontend.py, unified_server.py), which start the
-- endpoints and show what they print, and the demo data.
pub mod Base
pub mod Crc
pub mod Psk
pub mod Ecc
pub mod Pq
