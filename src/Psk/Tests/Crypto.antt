-- ===== src/Psk/Tests/Crypto.antt =====
-- The curve and the digest on concrete values.
use modbus_serial_security_p.Base.{◌≡◌, ◌↔◌, refl, [], ◌∷◌, some, Bytes, ok, from_bytes}
use modbus_serial_security_p.Psk.Sm2.{
  Point, sm2_g, sm2_inverse, sm2_add, sm2_mul, mul_loop, pow_mod, decode_point,
}
use modbus_serial_security_p.Psk.Sm2.Decode.{Accepted, decode_point_exact}

-- Twice the generator.
abbrev double_g : Point
double_g = (
  0x5E1E24ACC7FB884895BB954DE21FE26456357D9EE8A32410635F35CDFB0D2846,
  0x8314D639881A8BAF1BDD076BF82B090020D80F7A5ACC3C56BDB61BBD305708F4,
)

double_g_lem : sm2_add (some sm2_g) (some sm2_g) ≡ some double_g
unfolding sm2_add sm2_inverse pow_mod
double_g_lem = refl

abbrev double_raw : Bytes
double_raw =
    94 ∷ 30 ∷ 36 ∷ 172 ∷ 199 ∷ 251 ∷ 136 ∷ 72 ∷ 149 ∷ 187 ∷ 149 ∷ 77 ∷ 226 ∷ 31 ∷ 226 ∷ 100 ∷ 86
    ∷ 53 ∷ 125 ∷ 158 ∷ 232 ∷ 163 ∷ 36 ∷ 16 ∷ 99 ∷ 95 ∷ 53 ∷ 205 ∷ 251 ∷ 13 ∷ 40 ∷ 70 ∷ 131 ∷ 20
    ∷ 214 ∷ 57 ∷ 136 ∷ 26 ∷ 139 ∷ 175 ∷ 27 ∷ 221 ∷ 7 ∷ 107 ∷ 248 ∷ 43 ∷ 9 ∷ 0 ∷ 32 ∷ 216 ∷ 15 ∷ 122
    ∷ 90 ∷ 204 ∷ 60 ∷ 86 ∷ 189 ∷ 182 ∷ 27 ∷ 189 ∷ 48 ∷ 87 ∷ 8 ∷ 244 ∷ []

double_decoded : decode_point double_raw ≡ ok double_g
unfolding decode_point from_bytes sm2_mul mul_loop
double_decoded = refl

decode_point_exact_example : (decode_point double_raw ≡ ok double_g) ↔ Accepted double_raw double_g
decode_point_exact_example = decode_point_exact double_raw double_g

abbrev abc : Bytes
abc = 0x61 ∷ 0x62 ∷ 0x63 ∷ []
