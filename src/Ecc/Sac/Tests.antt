-- ===== src/Ecc/Sac/Tests.antt =====
-- A channel over primitives that hide nothing.
use modbus_serial_security_p.Base.{
  ◌-◌, ◌≡◌, refl, arith, true, [], ◌∷◌, ◌++◌, Bytes, length, take, replicate, take-append,
  length-append, length-take, ok, err, to_bytes, be_bytes, from_bytes, index, bytes_eq,
  protocol_error, counter_mismatch, invalid_signature,
}
use modbus_serial_security_p.Ecc.Crypto.{Primitives, hmac16, aes_cbc_encrypt, aes_cbc_decrypt}
use modbus_serial_security_p.Ecc.Sac.{SacChannel, header_of, pack, open_body, unpack}
use modbus_serial_security_p.Ecc.Sac.Channel.{
  PrimitivesLaws, IsPaired, sent, received, unpack-pack, unpack_replay, unpack_after_forged,
}

abbrev pub clear : Primitives
clear = record {
  hmac_sha256 = λ key message. take 32 (message ++ replicate 32 0);
  pkcs7_pad = λ bs. bs ++ (1 ∷ []);
  pkcs7_unpad = λ bs. ok (take (length bs - 1) bs);
  cbc_encrypt = λ key iv bs. bs;
  cbc_decrypt = λ key iv bs. ok bs;
}

clear_laws : PrimitivesLaws clear
clear_laws = record {
  length_hmac = λ key message.
      omega
        (arith, length-take 32 (message ++ replicate 32 0), length-append message (replicate 32 0));
  unpad_pad = λ bs.
      rw
        (take-append bs (1 ∷ []) (length (bs ++ (1 ∷ [])) - 1)
          (omega (arith, length-append bs (1 ∷ []))))
        refl;
  length_pad = λ bs. omega (arith, length-append bs (1 ∷ []));
  decrypt_encrypt = λ key iv bs. refl;
  length_encrypt = λ key iv bs. refl;
}

abbrev end : SacChannel
end = record { sak = 1 ∷ []; sek = 2 ∷ []; send_counter = 1; recv_counter = 1 }

paired : IsPaired end end
paired = record { same_sak = refl; same_sek = refl; same_counter = refl }

abbrev packed_message : Bytes
packed_message =
    0 ∷ 0 ∷ 0 ∷ 1 ∷ 1 ∷ 0 ∷ 0 ∷ 1 ∷ 7 ∷ 8 ∷ 0 ∷ 0 ∷ 0 ∷ 1 ∷ 0 ∷ 0 ∷ 0 ∷ 1 ∷ 1 ∷ 0 ∷ 0 ∷ 1 ∷ 7 ∷ 0
    ∷ 0 ∷ 1 ∷ []

packed : pack clear (7 ∷ []) true end ≡ (ok packed_message, sent end)
unfolding pack header_of hmac16 aes_cbc_encrypt to_bytes be_bytes
packed = refl

unpack-pack_example :
    (sent end ≡ sent end)
    × (unpack clear packed_message end ≡ (ok (7 ∷ []), received end))
    × IsPaired (sent end) (received end)
unpack-pack_example =
    unpack-pack clear clear_laws (7 ∷ []) packed_message true end (sent end) end paired packed

unpacked : unpack clear packed_message end ≡ (ok (7 ∷ []), received end)
unfolding unpack open_body hmac16 aes_cbc_decrypt to_bytes be_bytes from_bytes index bytes_eq
unpacked = refl

unpack_replay_example :
    unpack clear packed_message (received end)
    ≡ (err (protocol_error counter_mismatch), received end)
unpack_replay_example = unpack_replay clear packed_message (7 ∷ []) end (received end) unpacked

-- The payload byte is changed on the way.
abbrev forged_message : Bytes
forged_message =
    0 ∷ 0 ∷ 0 ∷ 1 ∷ 1 ∷ 0 ∷ 0 ∷ 1 ∷ 6 ∷ 8 ∷ 0 ∷ 0 ∷ 0 ∷ 1 ∷ 0 ∷ 0 ∷ 0 ∷ 1 ∷ 1 ∷ 0 ∷ 0 ∷ 1 ∷ 7 ∷ 0
    ∷ 0 ∷ 1 ∷ []

forged_fails : unpack clear forged_message end ≡ (err invalid_signature, received end)
unfolding unpack open_body hmac16 aes_cbc_decrypt to_bytes be_bytes from_bytes index bytes_eq
forged_fails = refl

unpack_after_forged_example :
    unpack clear packed_message (received end)
    ≡ (err (protocol_error counter_mismatch), received end)
unpack_after_forged_example =
    unpack_after_forged clear forged_message packed_message (7 ∷ []) end (received end)
      (received end) forged_fails unpacked
