-- ===== src/Ecc/Sac.antt =====
-- `SacChannel` of protocols/protocols-ECC/secure_modbus/sac.py: messages with a counter and an
-- authentication code, encrypted or in the clear.
pub mod Channel
pub mod Tests
use modbus_serial_security_p.Base.{
  ℕ, ◌+◌, not, Bool, List, [], ◌∷◌, ◌++◌, Bytes, length, take, drop, slice, ltb, ◌==◌,
  if◌then◌else◌, bytes_eq, ok, err, to_bytes, from_bytes, index, protocol_error, too_short,
  counter_mismatch, unsupported_flag, length_mismatch, invalid_signature, Result,
}
use modbus_serial_security_p.Base.Action.{Action, pure, lift, raise_if, ◌>>=◌, ◌>>◌}
use modbus_serial_security_p.Ecc.Crypto.{Primitives, hmac16, aes_cbc_encrypt, aes_cbc_decrypt}

pub record SacChannel : Type 0 where
  pub sak : Bytes
  pub sek : Bytes
  pub send_counter : ℕ
  pub recv_counter : ℕ

abbrev pub gets {ℓ} : {A : Type ℓ} → (SacChannel → A) → Action SacChannel A
gets f channel = (ok (f channel), channel)

-- `self.send_counter += 1` and `self.recv_counter += 1`
abbrev pub count_sent : Action SacChannel (Unit {0})
count_sent channel = (ok tt, record channel { send_counter = channel.send_counter + 1 })

abbrev pub count_received : Action SacChannel (Unit {0})
count_received channel = (ok tt, record channel { recv_counter = channel.recv_counter + 1 })

module _ (primitives : Primitives) where
  -- The header is counter, flag, 0, length; it is written after the counter has advanced.
  unfoldable pub header_of : ℕ → Bool → Bytes → Action SacChannel (Bytes × Bytes)
  header_of counter encrypt payload = do
    counter_b ← lift (to_bytes 4 counter)
    len ← lift (to_bytes 2 (length payload))
    pure (counter_b, counter_b ++ ((if encrypt then 1 else 0) ∷ 0 ∷ len))

  -- `hmac16(self.sak, bytes([len(header)]), counter.to_bytes(4, "big"), header, payload)`
  abbrev pub code_of : SacChannel → Bytes → Bytes → Bytes → Bytes
  code_of channel counter_b header payload =
      hmac16 primitives channel.sak ((length header ∷ []) ∷ counter_b ∷ header ∷ payload ∷ [])

  unfoldable pub pack : Bytes → Bool → Action SacChannel Bytes
  pack payload encrypt = do
    channel ← gets (λ c. c)
    count_sent
    (counter_b, header) ← header_of channel.send_counter encrypt payload
    let signed = payload ++ code_of channel counter_b header payload
    pure (header ++ (if encrypt then aes_cbc_encrypt primitives channel.sek signed else signed))

  -- The body in the clear, by the flag.
  unfoldable pub open_body : SacChannel → ℕ → Bytes → Result Bytes
  open_body channel flag body =
      if flag == 1
      then aes_cbc_decrypt primitives channel.sek body
      else if flag == 0
      then ok body
      else err (protocol_error unsupported_flag)

  unfoldable pub unpack : Bytes → Action SacChannel Bytes
  unpack message = do
    raise_if (ltb (length message) (8 + 16)) (protocol_error too_short)
    let header = take 8 message
    let counter = from_bytes (take 4 header)
    channel ← gets (λ c. c)
    raise_if (not (counter == channel.recv_counter)) (protocol_error counter_mismatch)
    count_received
    flag ← lift (index header 4)
    let len = from_bytes (slice header 6 8)
    payload_auth ← lift (open_body channel flag (drop 8 message))
    raise_if (not (length payload_auth == len + 16)) (protocol_error length_mismatch)
    let payload = take len payload_auth
    counter_b ← lift (to_bytes 4 counter)
    raise_if (not (bytes_eq (drop len payload_auth) (code_of channel counter_b header payload)))
        invalid_signature
    pure payload
