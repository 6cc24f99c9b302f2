-- ===== src/Psk/Keys.antt =====
-- Secrets: `private_from_password`, `derive_content_keys`, `compute_server_auth` and
-- `compute_master_auth`. What `os.urandom(32)` returns is an argument.
pub mod Laws
use modbus_serial_security_p.Base.{
  ℕ, ◌%◌, not, Option, none, some, [], ◌∷◌, ◌++◌, Bytes, length, take, drop, ◌==◌, if◌then◌else◌,
  Result, ok, ◌>>=◌, ◌>>◌, raise_if, to_bytes, from_bytes, value_error,
}
use modbus_serial_security_p.Psk.Sm3.{sm3}
use modbus_serial_security_p.Psk.Sm2.{sm2_n}

pub record ContentKeys : Type 0 where
  pub ck : Bytes
  pub civ : Bytes
  pub bck : Bytes
  pub bciv : Bytes

-- `random_r or os.urandom(32)`: an empty value counts as missing.
abbrev random_or : Option Bytes → Bytes → Bytes
random_or none urandom = urandom
random_or (some []) urandom = urandom
random_or (some (b ∷ bs)) urandom = b ∷ bs

unfoldable pub private_from_password : Bytes → Option Bytes → Bytes → Result (ℕ × Bytes)
private_from_password password random_r urandom = do
  let random = random_or random_r urandom
  raise_if (not (length random == 32)) value_error
  digest ← sm3 (password ++ random)
  let reduced = from_bytes digest % sm2_n
  ok (if reduced == 0 then 1 else reduced, random)

unfoldable pub derive_content_keys : Bytes → ℕ → ℕ → Bytes → Result ContentKeys
derive_content_keys dhsk server_id client_id r_b = do
  server_id_b ← to_bytes 8 server_id
  client_id_b ← to_bytes 8 client_id
  material ← sm3 (dhsk ++ server_id_b)
  broadcast ← sm3 (dhsk ++ (r_b ++ client_id_b))
  ok (record {
    ck = take 16 material;
    civ = drop 16 material;
    bck = take 16 broadcast;
    bciv = drop 16 broadcast;
  })

unfoldable pub compute_server_auth : Bytes → Bytes → Bytes → ℕ → Result Bytes
compute_server_auth rh rm dhsk server_id = do
  server_id_b ← to_bytes 8 server_id
  sm3 (rh ++ (rm ++ (dhsk ++ server_id_b)))

unfoldable pub compute_master_auth : Bytes → Bytes → Bytes → ℕ → Result Bytes
compute_master_auth rh rm dhsk client_id = do
  client_id_b ← to_bytes 8 client_id
  sm3 (rm ++ (rh ++ (dhsk ++ client_id_b)))
