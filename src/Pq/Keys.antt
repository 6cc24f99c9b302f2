-- ===== src/Pq/Keys.antt =====
-- `derive_pq_content_keys` and `compute_auth_key` of protocols/protocols-mpq/modbus_security_pq.py.
pub mod Laws
use modbus_serial_security_p.Base.{
  ℕ, not, ◌||◌, ◌++◌, Bytes, length, take, drop, ◌==◌, Result, ok, err, ◌>>=◌, ◌>>◌, raise_if,
  to_bytes, protocol_error, secret_length, overflow_error,
}
use modbus_serial_security_p.Base.Json.{ℤ, pos, negsuc}
use modbus_serial_security_p.Psk.Sm3.{sm3}
use modbus_serial_security_p.Psk.Keys.{ContentKeys}
use modbus_serial_security_p.Pq.Suite.{Suite}

-- `value.to_bytes(size, "big")`: a negative number is an OverflowError.
unfoldable pub int_to_bytes : ℤ → ℕ → Result Bytes
int_to_bytes (pos n) size = to_bytes size n
int_to_bytes (negsuc n) size = err overflow_error

unfoldable pub derive_pq_content_keys : Suite → Bytes → Bytes → ℤ → ℤ → Result ContentKeys
derive_pq_content_keys suite kemsk kemsk_b server_id client_id = do
  raise_if
      (not (length kemsk == suite.kem.plaintext_size)
        || not (length kemsk_b == suite.kem.plaintext_size))
      (protocol_error secret_length)
  server_id_b ← int_to_bytes server_id 8
  content ← sm3 (kemsk ++ server_id_b)
  client_id_b ← int_to_bytes client_id 8
  broadcast ← sm3 (kemsk_b ++ client_id_b)
  ok (record {
    ck = take 16 content;
    civ = drop 16 content;
    bck = take 16 broadcast;
    bciv = drop 16 broadcast;
  })

unfoldable pub compute_auth_key : ℤ → ℤ → Bytes → Result Bytes
compute_auth_key server_id client_id kemsk = do
  server_id_b ← int_to_bytes server_id 8
  client_id_b ← int_to_bytes client_id 8
  sm3 (server_id_b ++ (client_id_b ++ kemsk))
