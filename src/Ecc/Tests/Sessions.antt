-- ===== src/Ecc/Tests/Sessions.antt =====
-- Sessions, registers, client and status on concrete values.
use modbus_serial_security_p.Base.{
  ℕ, bytes_eq, to_bytes, be_bytes, ◌≡◌, refl, arith, Option, none, some, List, [], ◌∷◌, Bytes,
  replicate, ◌==◌, if◌then◌else◌, Result, ok, err, connection_closed, protocol_error, os_error,
  wrong_address, ◌⊎◌, ◌≤◌, length, ◌++◌, le_bytes, to_byte_string, to_bytes_little, from_bytes,
}
use modbus_serial_security_p.Psk.Tests.Session.{plain_laws}
use modbus_serial_security_p.Ecc.Tests.Devices.{test_suite, client_device, server_device, initial}
use modbus_serial_security_p.Ecc.Content.{encrypt_content, decrypt_content}
use modbus_serial_security_p.Ecc.Line.{Transport, uart_transport, send_apdu}
use modbus_serial_security_p.Ecc.Line.Laws.{packet_bytes}
use modbus_serial_security_p.Psk.Tests.Line.{slow_line, slow_laws}
use modbus_serial_security_p.Ecc.Frame.{secure_frame, build_apdu, build_rtu_frame}
use modbus_serial_security_p.Crc.{crc16_modbus}
use modbus_serial_security_p.Ecc.Session.{
  World, SecureSession, new_session, send_encrypted_pdu, recv_encrypted_pdu, apdu_data_send, send,
  recv,
}
use modbus_serial_security_p.Ecc.Session.Protected.{
  IsPeer, recv-send_encrypted_pdu, recv_encrypted_pdu_replay,
}
use modbus_serial_security_p.Ecc.Registers.{new_registers}
use modbus_serial_security_p.Ecc.Registers.Refinement.{
  Memory, Request, reads, writes, Holds, serve_all, respond_all, serve_all-respond_all,
}
use modbus_serial_security_p.Ecc.Master.{MasterClient, MasterDraws, read_holding_registers, close}
use modbus_serial_security_p.Ecc.Master.Invariant.{
  IsConsistent, new_client, Step, here, next, Reach-IsConsistent,
}

-- A line that holds one message.
abbrev Slot : Type 0
Slot = Option (ℕ × (ℕ × Bytes))

abbrev read_slot : ℕ → Slot → Result (ℕ × Bytes) × Slot
read_slot address none = (err (protocol_error connection_closed), none)
read_slot address (some (a, message)) =
    if a == address then (ok message, none) else (err (protocol_error wrong_address), none)

abbrev slot : Transport
slot = record {
  State = Slot;
  send_secure_apdu = λ address tag payload line. (ok tt, some (address, (tag, payload)));
  recv_secure_apdu = read_slot;
}

abbrev client_session : SecureSession
client_session = record (new_session 5 client_device) { ck = some (1 ∷ []); civ = some initial }

abbrev server_session : SecureSession
server_session = record (new_session 5 server_device) { ck = some (1 ∷ []); civ = some initial }

abbrev client_world : World test_suite slot
client_world = record { line = none; session = client_session; saved = none }

abbrev sent_world : World test_suite slot
sent_world = (send_encrypted_pdu test_suite slot (3 ∷ 9 ∷ []) client_world).1

abbrev server_world : World test_suite slot
server_world = record { line = sent_world.line; session = server_session; saved = none }

is_peer : IsPeer client_session server_session (1 ∷ []) initial
unfolding bytes_eq
is_peer = record {
  sender_key = refl;
  sender_initial = refl;
  receiver_key = refl;
  receiver_initial = refl;
  other_role = refl;
}

sent : send_encrypted_pdu test_suite slot (3 ∷ 9 ∷ []) client_world ≡ (ok tt, sent_world)
unfolding send_encrypted_pdu encrypt_content to_bytes be_bytes bytes_eq
sent = refl

read_back :
    recv_encrypted_pdu test_suite slot server_world
    ≡ (ok (3 ∷ 9 ∷ []), record server_world { line = none })
unfolding send_encrypted_pdu recv_encrypted_pdu recv encrypt_content decrypt_content to_bytes
    be_bytes from_bytes bytes_eq
read_back = refl

-- The serial line of the sender, and the one of a receiver behind a device that adds the length.
abbrev slow : Transport
slow = uart_transport slow_line

abbrev client_on_line : World test_suite slow
client_on_line = record { line = ([], []); session = client_session; saved = none }

abbrev client_sent : World test_suite slow
client_sent = (send_encrypted_pdu test_suite slow (3 ∷ 9 ∷ []) client_on_line).1

abbrev frame : Bytes
frame =
    5 ∷ 0 ∷ 11 ∷ 0 ∷ 22 ∷ 7 ∷ 7 ∷ 7 ∷ 7 ∷ 7 ∷ 7 ∷ 7 ∷ 7 ∷ 7 ∷ 7 ∷ 7 ∷ 6 ∷ 0 ∷ 0 ∷ 0 ∷ 0 ∷ 0 ∷ 0 ∷ 0
    ∷ 1 ∷ 3 ∷ 9 ∷ 101 ∷ 116 ∷ []

abbrev server_on_line : World test_suite slow
server_on_line = record {
  line = (packet_bytes frame ++ (8 ∷ []), []);
  session = server_session;
  saved = none;
}

sent_on_line : send_encrypted_pdu test_suite slow (3 ∷ 9 ∷ []) client_on_line ≡ (ok tt, client_sent)
unfolding send_encrypted_pdu send encrypt_content to_bytes be_bytes bytes_eq send_apdu secure_frame
    build_apdu build_rtu_frame to_byte_string to_bytes_little le_bytes crc16_modbus
sent_on_line = refl

frame_written : client_sent.line.1 ≡ [] ++ frame
unfolding send_encrypted_pdu send encrypt_content to_bytes be_bytes bytes_eq send_apdu secure_frame
    build_apdu build_rtu_frame to_byte_string to_bytes_little le_bytes crc16_modbus
frame_written = refl

recv-send_encrypted_pdu_example :
    (client_sent.session.tx_content_counter ≡ 2)
    × ((line : Bytes × Bytes) × (recv_encrypted_pdu test_suite slow server_on_line
          ≡ (ok (3 ∷ 9 ∷ []), record server_on_line { line = line }))
        × (line.0 ≡ 8 ∷ []))
    × (((recv_encrypted_pdu test_suite slow (record server_on_line { line = (frame, []) })).0
          ≡ err (protocol_error connection_closed))
        ⊎ (1282 ≤ length frame))
recv-send_encrypted_pdu_example =
    recv-send_encrypted_pdu test_suite slow_line plain_laws slow_laws (1 ∷ []) initial (3 ∷ 9 ∷ [])
      frame (8 ∷ []) client_on_line server_on_line client_sent (frame, []) is_peer refl sent_on_line
      frame_written (omega arith) refl refl

abbrev payload : Bytes
payload = 7 ∷ 7 ∷ 7 ∷ 7 ∷ 7 ∷ 7 ∷ 7 ∷ 7 ∷ 7 ∷ 7 ∷ 7 ∷ 6 ∷ 0 ∷ 0 ∷ 0 ∷ 0 ∷ 0 ∷ 0 ∷ 0 ∷ 1 ∷ 3 ∷ 9 ∷ []

arrived : slot.recv_secure_apdu 5 server_world.line ≡ (ok (apdu_data_send, payload), none)
unfolding send_encrypted_pdu encrypt_content to_bytes be_bytes bytes_eq
arrived = refl

recv_encrypted_pdu_replay_example :
    (server_session ≡ server_session)
    × (recv_encrypted_pdu test_suite slot server_world
        ≡ (ok (3 ∷ 9 ∷ []), record server_world { line = none }))
recv_encrypted_pdu_replay_example =
    recv_encrypted_pdu_replay test_suite slot payload (3 ∷ 9 ∷ []) server_world
      (record server_world { line = none }) server_world none none arrived read_back refl arrived

abbrev requests : List Request
requests = writes 2 70 ∷ reads 1 2 ∷ reads 3 2 ∷ []

abbrev memory : Memory
memory = record { size = 4; cell = λ i. i }

four_registers : Holds (new_registers 4) memory
four_registers = record { same_size = refl; same_cells = λ i h. ground arith }

serve_all-respond_all_example :
    ((serve_all requests (new_registers 4)).0 ≡ (respond_all requests memory).0)
    × Holds (serve_all requests (new_registers 4)).1 (respond_all requests memory).1
serve_all-respond_all_example =
    serve_all-respond_all requests (new_registers 4) memory
      ((omega arith, omega arith), ((omega arith, omega arith), ((omega arith, omega arith), tt)))
      four_registers

abbrev shown : Bytes
shown =
    b'f' ∷ b'f' ∷ b'f' ∷ b'f' ∷ b'f' ∷ b'f' ∷ b'f' ∷ b'f' ∷ b'f' ∷ b'f' ∷ b'f' ∷ b'f' ∷ b'.' ∷ b'.'
    ∷ b'.' ∷ b'f' ∷ b'f' ∷ b'f' ∷ b'f' ∷ b'f' ∷ b'f' ∷ b'f' ∷ b'f' ∷ b'f' ∷ b'f' ∷ b'f' ∷ b'f' ∷ []

abbrev thirteen : Bytes
thirteen = replicate 13 255

abbrev draws : MasterDraws test_suite slot
draws = record {
  connection = err os_error;
  client = record { ephemeral = 9 ∷ []; channel_nonce = []; key_nonce = [] };
  time = [];
}

abbrev fresh : MasterClient test_suite slot
fresh = new_client test_suite slot 5 client_device none none

abbrev tried : MasterClient test_suite slot
tried = (read_holding_registers test_suite slot draws 0 1 fresh).1

Reach-IsConsistent_example : IsConsistent test_suite slot (close test_suite slot tried)
Reach-IsConsistent_example =
    Reach-IsConsistent test_suite slot 5 client_device none none (close test_suite slot tried)
      (next (next here (Step.reads draws 0 1)) Step.closes)
