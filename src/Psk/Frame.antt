-- ===== src/Psk/Frame.antt =====
-- APDUs in RTU frames: `build_apdu_frame` and `parse_apdu_frame`.
pub mod Laws
pub mod Safety
use modbus_serial_security_p.Base.{
  ℕ, Bool, false, not, Option, none, some, Bytes, ◌==◌, Result, ok, ◌>>=◌, ◌>>◌, raise_if,
  protocol_error, wrong_address, wrong_function,
}
use modbus_serial_security_p.Psk.Apdu
use modbus_serial_security_p.Psk.Apdu.{Apdu}
use modbus_serial_security_p.Psk.Rtu
use modbus_serial_security_p.Psk.Rtu.{RtuFrame}

-- FUNCTION_SECURITY
abbrev pub function_security : ℕ
function_security = 0x00

unfoldable pub build_apdu_frame : ℕ → Bytes → Bytes → Result Bytes
build_apdu_frame slave_id tag payload = do
  body ← Apdu.encode (record { tag = tag; payload = payload })
  Rtu.encode (record { slave_id = slave_id; function = function_security; payload = body })

-- `expected_slave_id is not None and frame.slave_id != expected_slave_id`
abbrev is_unexpected : Option ℕ → ℕ → Bool
is_unexpected none slave_id = false
is_unexpected (some expected) slave_id = not (slave_id == expected)

unfoldable pub parse_apdu_frame : Bytes → Option ℕ → Result Apdu
parse_apdu_frame frame_data expected_slave_id = do
  frame ← Rtu.decode frame_data
  raise_if (is_unexpected expected_slave_id frame.slave_id) (protocol_error wrong_address)
  raise_if (not (frame.function == function_security)) (protocol_error wrong_function)
  Apdu.decode frame.payload
