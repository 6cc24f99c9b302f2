-- ===== src/Psk/Keys/Laws.antt =====
-- The range of the private number and the sizes of the derived keys.
use native.Mathlib.Decide.{dec_le}
use modbus_serial_security_p.Base.{
  ℕ, ◌+◌, ◌^◌, ◌≤◌, ◌<◌, ◌≡◌, ◌⊎◌, inl, inr, refl, Option, ◌++◌, arith, Bytes, length, take, drop,
  length-append, length-take, length-drop, ok, err, to_bytes, to_bytes_lem, be_bytes,
  length-be_bytes, overflow_error,
}
use modbus_serial_security_p.Psk.Sm3.Digest.{sm3_total}
use modbus_serial_security_p.Psk.Sm2.{sm2_n}
use modbus_serial_security_p.Psk.Keys.{ContentKeys, private_from_password, derive_content_keys}

-- Whenever it is returned, the private number lies between 1 and the order less one, and the
-- random bytes returned with it are 32.
pub private_from_password_range :
    (password urandom random : Bytes) (random_r : Option Bytes) (private : ℕ)
    → private_from_password password random_r urandom ≡ ok (private, random)
    → (1 ≤ private) × (private < sm2_n) × (length random ≡ 32)
unfolding private_from_password
private_from_password_range password urandom random random_r private h = ground arith

id_bytes_length : (bs : Bytes) (id : ℕ) → length (bs ++ be_bytes 8 id) ≡ length bs + 8
id_bytes_length bs id = omega (arith, length-append bs (be_bytes 8 id), length-be_bytes 8 id)

abbrev keys_of : Bytes → Bytes → ContentKeys
keys_of material broadcast = record {
  ck = take 16 material;
  civ = drop 16 material;
  bck = take 16 broadcast;
  bciv = drop 16 broadcast;
}

derive_ok :
    (dhsk r_b : Bytes) (server_id client_id : ℕ)
    → length dhsk + length r_b < 2 ^ 60
    → server_id < 2 ^ 64
    → client_id < 2 ^ 64
    → (k : ContentKeys) × (derive_content_keys dhsk server_id client_id r_b ≡ ok k)
      × (length k.ck ≡ 16)
      × (length k.civ ≡ 16)
      × (length k.bck ≡ 16)
      × (length k.bciv ≡ 16)
unfolding derive_content_keys
derive_ok dhsk r_b server_id client_id h hs hc =
    let broadcast_input = dhsk ++ (r_b ++ be_bytes 8 client_id) in
    let (m, em, lm, bm) =
      sm3_total (dhsk ++ be_bytes 8 server_id) (omega (arith, id_bytes_length dhsk server_id)) in
    let (b, eb, lb, bb) = sm3_total broadcast_input (
      omega
        (arith, length-append dhsk (r_b ++ be_bytes 8 client_id), id_bytes_length r_b client_id)) in
    (
      keys_of m b,
      rw (to_bytes_lem 8 server_id (omega arith), to_bytes_lem 8 client_id (omega arith), em, eb)
          refl,
      omega (arith, length-take 16 m, lm),
      omega (arith, length-drop 16 m, lm),
      omega (arith, length-take 16 b, lb),
      omega (arith, length-drop 16 b, lb),
    )

derive_overflow :
    (dhsk r_b : Bytes) (server_id client_id : ℕ)
    → (2 ^ 64 ≤ server_id) ⊎ (2 ^ 64 ≤ client_id)
    → derive_content_keys dhsk server_id client_id r_b ≡ err overflow_error
unfolding derive_content_keys to_bytes
derive_overflow dhsk r_b server_id client_id h = ground arith

-- Both identifiers below 2 ^ 64 and inputs of fewer than 2 ^ 60 bytes give four keys of 16 bytes;
-- a server or client identifier of 2 ^ 64 or more is an OverflowError.
pub derive_content_keys_cases :
    (dhsk r_b : Bytes) (server_id client_id : ℕ)
    → length dhsk + length r_b < 2 ^ 60
    → ((server_id < 2 ^ 64)
        × (client_id < 2 ^ 64)
        × ((k : ContentKeys) × (derive_content_keys dhsk server_id client_id r_b ≡ ok k)
            × (length k.ck ≡ 16)
            × (length k.civ ≡ 16)
            × (length k.bck ≡ 16)
            × (length k.bciv ≡ 16)))
      ⊎ (((2 ^ 64 ≤ server_id) ⊎ (2 ^ 64 ≤ client_id))
          × (derive_content_keys dhsk server_id client_id r_b ≡ err overflow_error))
derive_content_keys_cases dhsk r_b server_id client_id h = elim (dec_le (2 ^ 64) server_id) [
  | yes large ↦ inr (inl large, derive_overflow dhsk r_b server_id client_id (inl large))
  | no small ↦ elim (dec_le (2 ^ 64) client_id) [
    | yes large ↦ inr (inr large, derive_overflow dhsk r_b server_id client_id (inr large))
    | no fits ↦ inl (
      omega arith,
      omega arith,
      derive_ok dhsk r_b server_id client_id h (omega arith) (omega arith),
    )
  ]
]
