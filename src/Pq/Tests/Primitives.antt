-- ===== src/Pq/Tests/Primitives.antt =====
-- Concrete primitives for the post-quantum profile: a key encapsulation whose secrets add up the
-- numbers of both sides, and signatures that show key and message.
use modbus_serial_security_p.Base.{
  ℕ, zero, suc, ◌+◌, ◌-◌, ◌*◌, ◌/◌, ◌%◌, ◌^◌, ◌<◌, ◌≡◌, refl, ap, ◌∙◌, arith, [], ◌∷◌, ◌++◌, Bytes,
  length, drop, leb, if◌then◌else◌, replicate, length-replicate, from_bytes, bytes_eq,
  bytes_eq_refl, ok,
}
use native.Mathlib.Nat.{pow-suc}
use modbus_serial_security_p.Base.Json.{pos, Base64, Base64Laws}
use modbus_serial_security_p.Pq.Suite.{MlKem, MlDsa, Suite, hex_digit, hex_digits, hex16}
use modbus_serial_security_p.Pq.Certificates.Laws.{SuiteLaws}
use modbus_serial_security_p.Pq.Tests.Codec.{marks, marks_laws}

abbrev pub sum_kem : MlKem
sum_kem = record {
  generate_keypair = λ seed. (length seed ∷ [], length seed ∷ []);
  encrypt = λ random public. (length random ∷ [], replicate 32 (length random + from_bytes public));
  decrypt = λ secret ciphertext. ok (replicate 32 (from_bytes ciphertext + from_bytes secret));
  ciphertext_size = 1;
  plaintext_size = 32;
  public_key_size = 1;
  secret_key_size = 1;
}

abbrev pub open_dsa : MlDsa
open_dsa = record {
  sign = λ random secret message. secret ++ message;
  verify = λ public message signature. ok (bytes_eq signature (public ++ message));
  public_key_size = 2;
  secret_key_size = 2;
}

abbrev pub plain_base64 : Base64
plain_base64 = record { b64encode = λ bs. bs; b64decode = λ t. ok t }

pub plain_base64_laws : Base64Laws plain_base64
plain_base64_laws = record { decode_encode = λ bs. refl }

abbrev digit_value : ℕ → ℕ
digit_value d = if leb b'a' d then d + 10 - b'a' else d - b'0'

abbrev hex_value : ℕ → Bytes → ℕ
hex_value acc [] = acc
hex_value acc (d ∷ ds) = hex_value (acc * 16 + digit_value d) ds

digit_value-hex_digit : (n : ℕ) → n < 16 → digit_value (hex_digit n) ≡ n
digit_value-hex_digit n h = ground arith

hex_value-snoc :
    (acc : ℕ) (ds : Bytes) (d : ℕ)
    → hex_value acc (ds ++ (d ∷ [])) ≡ hex_value acc ds * 16 + digit_value d
hex_value-snoc acc [] d = refl
hex_value-snoc acc (x ∷ ds) d = hex_value-snoc (acc * 16 + digit_value x) ds d

hex_value-hex_digits : (k n : ℕ) → n < 16 ^ k → hex_value 0 (hex_digits k n) ≡ n
hex_value-hex_digits zero n h = omega arith
hex_value-hex_digits (suc k) n h =
    hex_value-snoc 0 (hex_digits k (n / 16)) (hex_digit (n % 16))
    ∙ omega (
      arith,
      digit_value-hex_digit (n % 16) (omega arith),
      hex_value-hex_digits k (n / 16) (omega (arith, pow-suc 16 k)),
    )

abbrev pub test_suite : Suite
test_suite = record {
  kem = sum_kem;
  dsa = open_dsa;
  json = marks;
  base64 = plain_base64;
  int_of_text = λ t. ok (pos (hex_value 0 (drop 2 t)));
  anchor = record {
    root_secret = 1 ∷ 1 ∷ [];
    root_public = 1 ∷ 1 ∷ [];
    brand_secret = 2 ∷ 2 ∷ [];
    brand_public = 2 ∷ 2 ∷ [];
  };
}

int_of_hex16 : (n : ℕ) → n < 2 ^ 64 → test_suite.int_of_text (hex16 n) ≡ ok (pos n)
int_of_hex16 n h = ap (λ (x : ℕ). ok (pos x)) (hex_value-hex_digits 16 n (omega arith))

same_secret :
    (seed random : Bytes)
    → sum_kem.decrypt
        (sum_kem.generate_keypair seed).1
        (sum_kem.encrypt random (sum_kem.generate_keypair seed).0).0
      ≡ ok (sum_kem.encrypt random (sum_kem.generate_keypair seed).0).1
unfolding from_bytes
same_secret seed random = ap (λ (x : ℕ). ok (replicate 32 x)) (omega arith)

pub test_suite_laws : SuiteLaws test_suite
test_suite_laws = record {
  json_laws = marks_laws;
  base64_laws = plain_base64_laws;
  int_of_hex = int_of_hex16;
  root_verifies = λ random message. ap ok (bytes_eq_refl (1 ∷ 1 ∷ message));
  brand_verifies = λ random message. ap ok (bytes_eq_refl (2 ∷ 2 ∷ message));
  length_root_public = refl;
  length_root_secret = refl;
  length_brand_public = refl;
  length_brand_secret = refl;
  length_kem_public = λ seed. refl;
  length_kem_secret = λ seed. refl;
  length_ciphertext = λ random public. refl;
  length_secret = λ random public. length-replicate 32 (length random + from_bytes public);
  decrypt_encrypt = same_secret;
}
