-- ===== src/Psk/Frame/Laws.antt =====
-- `parse_apdu_frame` on what `build_apdu_frame` returns.
use modbus_serial_security_p.Base.{
  ℕ, ◌≡◌, ◌≢◌, none, some, Bytes, ok, err, >>=-eq-ok, arith, protocol_error, wrong_address,
}
use modbus_serial_security_p.Psk.Apdu
use modbus_serial_security_p.Psk.Apdu.{Apdu}
use modbus_serial_security_p.Psk.Apdu.Laws
use modbus_serial_security_p.Psk.Rtu
use modbus_serial_security_p.Psk.Rtu.{RtuFrame}
use modbus_serial_security_p.Psk.Rtu.Laws as RtuLaws
use modbus_serial_security_p.Psk.Frame.{function_security, build_apdu_frame, parse_apdu_frame}

abbrev pub secured : ℕ → Bytes → RtuFrame
secured slave_id body = record { slave_id = slave_id; function = function_security; payload = body }

-- The two decoders under a built frame.
pub built :
    (slave_id : ℕ) (tag payload raw : Bytes)
    → build_apdu_frame slave_id tag payload ≡ ok raw
    → (body : Bytes) × (Rtu.decode raw ≡ ok (secured slave_id body))
      × (Apdu.decode body ≡ ok (record { tag = tag; payload = payload }))
unfolding build_apdu_frame
built slave_id tag payload raw h =
    let a : Apdu = record { tag = tag; payload = payload } in
    let (body, e, r) = >>=-eq-ok (Apdu.encode a) (λ body. Rtu.encode (secured slave_id body)) h in
    (body, RtuLaws.decode-encode (secured slave_id body) raw r, Laws.decode-encode a body e)

-- A frame that `build_apdu_frame` returns is parsed to its tag and payload, where no slave or its
-- own slave is expected.
pub parse-build_apdu_frame :
    (slave_id : ℕ) (tag payload raw : Bytes)
    → build_apdu_frame slave_id tag payload ≡ ok raw
    → (parse_apdu_frame raw none ≡ ok (record { tag = tag; payload = payload }))
      × (parse_apdu_frame raw (some slave_id) ≡ ok (record { tag = tag; payload = payload }))
unfolding parse_apdu_frame
parse-build_apdu_frame slave_id tag payload raw h =
    let (body, r, a) = built slave_id tag payload raw h in (ground arith, ground arith)

-- A frame that `build_apdu_frame` returns for one slave is refused where another is expected.
pub parse-build_wrong_address :
    (slave_id other : ℕ) (tag payload raw : Bytes)
    → build_apdu_frame slave_id tag payload ≡ ok raw
    → slave_id ≢ other
    → parse_apdu_frame raw (some other) ≡ err (protocol_error wrong_address)
unfolding parse_apdu_frame
parse-build_wrong_address slave_id other tag payload raw h differs =
    let (body, r, a) = built slave_id tag payload raw h in ground arith
