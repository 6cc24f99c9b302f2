-- ===== src/Pq/Keys/Laws.antt =====
-- When the keys of the post-quantum profile can be derived, and their lengths.
use modbus_serial_security_p.Base.{
  ℕ, ◌^◌, ◌<◌, ◌≡◌, refl, arith, ◌++◌, Bytes, length, take, drop, length-append, length-take,
  length-drop, ok, IsBytes, ==_refl, to_bytes_lem, be_bytes, length-be_bytes,
}
use modbus_serial_security_p.Base.Json.{pos}
use modbus_serial_security_p.Psk.Sm3.{sm3}
use modbus_serial_security_p.Psk.Sm3.Digest.{sm3_total}
use modbus_serial_security_p.Psk.Keys.{ContentKeys}
use modbus_serial_security_p.Pq.Suite.{Suite}
use modbus_serial_security_p.Pq.Keys.{int_to_bytes, derive_pq_content_keys, compute_auth_key}

derived :
    (suite : Suite) (kemsk kemsk_b c b : Bytes) (server_id client_id : ℕ)
    → length kemsk ≡ suite.kem.plaintext_size
    → length kemsk_b ≡ suite.kem.plaintext_size
    → server_id < 2 ^ 64
    → client_id < 2 ^ 64
    → sm3 (kemsk ++ be_bytes 8 server_id) ≡ ok c
    → sm3 (kemsk_b ++ be_bytes 8 client_id) ≡ ok b
    → derive_pq_content_keys suite kemsk kemsk_b (pos server_id) (pos client_id)
      ≡ ok (record { ck = take 16 c; civ = drop 16 c; bck = take 16 b; bciv = drop 16 b })
unfolding derive_pq_content_keys int_to_bytes
derived suite kemsk kemsk_b c b server_id client_id hk hb hs hc ec eb =
    rw
      (
        hk,
        hb,
        ==_refl suite.kem.plaintext_size,
        to_bytes_lem 8 server_id (omega arith),
        ec,
        to_bytes_lem 8 client_id (omega arith),
        eb,
      )
      refl

-- With secrets of the length of the KEM, of fewer than 2 ^ 60 bytes, and identifiers of 64 bits,
-- the content keys are derived, each of 16 bytes.
pub derive_pq_content_keys_total :
    (suite : Suite) (kemsk kemsk_b : Bytes) (server_id client_id : ℕ)
    → length kemsk ≡ suite.kem.plaintext_size
    → length kemsk_b ≡ suite.kem.plaintext_size
    → suite.kem.plaintext_size < 2 ^ 60
    → server_id < 2 ^ 64
    → client_id < 2 ^ 64
    → (keys : ContentKeys) × (derive_pq_content_keys suite kemsk kemsk_b
          (pos server_id)
          (pos client_id)
        ≡ ok keys)
      × (length keys.ck ≡ 16)
      × (length keys.civ ≡ 16)
      × (length keys.bck ≡ 16)
      × (length keys.bciv ≡ 16)
derive_pq_content_keys_total suite kemsk kemsk_b server_id client_id hk hb hp hs hc =
    let (c, ec, lc, _) =
      sm3_total (kemsk ++ be_bytes 8 server_id)
        (omega (arith, length-append kemsk (be_bytes 8 server_id), length-be_bytes 8 server_id)) in
    let (b, eb, lb, _) =
      sm3_total (kemsk_b ++ be_bytes 8 client_id) (
        omega (arith, length-append kemsk_b (be_bytes 8 client_id), length-be_bytes 8 client_id)) in
    (
      record { ck = take 16 c; civ = drop 16 c; bck = take 16 b; bciv = drop 16 b },
      derived suite kemsk kemsk_b c b server_id client_id hk hb hs hc ec eb,
      omega (arith, length-take 16 c, lc),
      omega (arith, length-drop 16 c, lc),
      omega (arith, length-take 16 b, lb),
      omega (arith, length-drop 16 b, lb),
    )

-- The authentication key is computed for identifiers of 64 bits, and has 32 bytes.
pub compute_auth_key_total :
    (kemsk : Bytes) (server_id client_id : ℕ)
    → length kemsk < 2 ^ 60
    → server_id < 2 ^ 64
    → client_id < 2 ^ 64
    → (key : Bytes) × (compute_auth_key (pos server_id) (pos client_id) kemsk ≡ ok key)
      × (length key ≡ 32)
      × IsBytes key
unfolding compute_auth_key int_to_bytes
compute_auth_key_total kemsk server_id client_id hk hs hc =
    let sb = be_bytes 8 server_id in
    let cb = be_bytes 8 client_id in
    let (d, e, l, b) = sm3_total (sb ++ (cb ++ kemsk)) (
      omega (
        arith,
        length-append sb (cb ++ kemsk),
        length-append cb kemsk,
        length-be_bytes 8 server_id,
        length-be_bytes 8 client_id,
      )) in
    (
      d,
      rw (to_bytes_lem 8 server_id (omega arith), to_bytes_lem 8 client_id (omega arith), e) refl,
      l,
      b,
    )
