-- ===== src/Ecc/Master/Status.antt =====
-- `status` of `MasterClient`: what the console shows, without the constants of the transport.
use modbus_serial_security_p.Base.{
  ℕ, ◌-◌, ◌*◌, ◌≤◌, ◌≡◌, refl, arith, Bool, true, false, ◌&&◌, Option, none, some, List, [], ◌∷◌,
  ◌++◌, Bytes, length, take, drop, leb, Bool-cases, inl, inr, if◌then◌else◌, length-append,
  length-take, length-drop, ◌⊎◌, ◌<◌,
}
use modbus_serial_security_p.Ecc.Suite.{EccSuite, to_hex}
use modbus_serial_security_p.Ecc.Line.{Transport}
use modbus_serial_security_p.Ecc.Session.{SecureSession}
use modbus_serial_security_p.Ecc.Master.{Entry, MasterClient}

pub record Stages : Type 0 where
  pub authenticated : Bool
  pub sac_ready : Bool
  pub content_key : Bool
  pub encrypted_pdu : Bool

pub record ShownKeys : Type 0 where
  pub akh : Option Bytes
  pub dhsk : Option Bytes
  pub sak : Option Bytes
  pub sek : Option Bytes
  pub ck : Option Bytes
  pub civ : Option Bytes
  pub bck : Option Bytes
  pub bciv : Option Bytes

pub record Counters : Type 0 where
  pub sac_send : Option ℕ
  pub sac_recv : Option ℕ
  pub content_tx : Option ℕ

pub record Status : Type 0 where
  pub slave_address : ℕ
  pub connected : Bool
  pub client_id : Bytes
  pub server_id : Option Bytes
  pub context_cached : Bool
  pub stages : Stages
  pub keys : ShownKeys
  pub counters : Counters
  pub last_error : Bool
  pub log : List Entry

-- `f"{text[:keep]}...{text[-keep:]}"`
abbrev shortened : ℕ → Bytes → Bytes
shortened keep text =
    take keep text ++ ((b'.' ∷ b'.' ∷ b'.' ∷ []) ++ drop (length text - keep) text)

abbrev pub keep_default : ℕ
keep_default = 12

unfoldable pub short_hex : Option Bytes → Option Bytes
unfolding to_hex
short_hex none = none
short_hex (some []) = none
short_hex (some (b ∷ bs)) =
    let text = to_hex (b ∷ bs) in
    some (if leb (length text) (keep_default * 2) then text else shortened keep_default text)

-- `bool(value)` of an optional byte string.
abbrev is_filled : Option Bytes → Bool
is_filled none = false
is_filled (some []) = false
is_filled (some (b ∷ bs)) = true

abbrev is_there {ℓ} : {A : Type ℓ} → Option A → Bool
is_there none = false
is_there (some a) = true

-- A part of an optional object.
abbrev part {ℓ κ} : {A : Type ℓ} {B : Type κ} → (A → B) → Option A → Option B
part f none = none
part f (some a) = some (f a)

abbrev flatten {ℓ} : {A : Type ℓ} → Option (Option A) → Option A
flatten none = none
flatten (some o) = o

-- `session.peer_id.hex() if session and session.peer_id else None`
abbrev shown_id : Option Bytes → Option Bytes
unfolding to_hex
shown_id none = none
shown_id (some []) = none
shown_id (some (b ∷ bs)) = some (to_hex (b ∷ bs))

module _ (suite : EccSuite) (transport : Transport) where
  abbrev stages_of : Option SecureSession → Bool → Stages
  stages_of session connected = record {
    authenticated = is_filled (flatten (part (λ s. s.auth_key) session));
    sac_ready = is_there (flatten (part (λ s. s.sac) session));
    content_key =
        is_filled (flatten (part (λ s. s.ck) session))
        && is_filled (flatten (part (λ s. s.civ) session));
    encrypted_pdu = connected;
  }

  abbrev keys_of : Option SecureSession → ShownKeys
  unfolding short_hex
  keys_of session =
      let channel = flatten (part (λ s. s.sac) session) in
      record {
        akh = short_hex (flatten (part (λ s. s.auth_key) session));
        dhsk = short_hex (flatten (part (λ s. s.dhsk) session));
        sak = short_hex (part (λ c. c.sak) channel);
        sek = short_hex (part (λ c. c.sek) channel);
        ck = short_hex (flatten (part (λ s. s.ck) session));
        civ = short_hex (flatten (part (λ s. s.civ) session));
        bck = short_hex (flatten (part (λ s. s.bck) session));
        bciv = short_hex (flatten (part (λ s. s.bciv) session));
      }

  abbrev counters_of : Option SecureSession → Counters
  counters_of session =
      let channel = flatten (part (λ s. s.sac) session) in
      record {
        sac_send = part (λ c. c.send_counter) channel;
        sac_recv = part (λ c. c.recv_counter) channel;
        content_tx = part (λ s. s.tx_content_counter) session;
      }

  unfoldable pub status : MasterClient suite transport → Status
  unfolding keys_of shown_id to_hex
  status c =
      let connected = is_there c.session && c.sock in
      record {
        slave_address = c.address;
        connected = connected;
        client_id = to_hex c.identity.device_id;
        server_id = shown_id (flatten (part (λ s. s.peer_id) c.session));
        context_cached = is_there c.saved;
        stages = stages_of c.session connected;
        keys = keys_of c.session;
        counters = counters_of c.session;
        last_error = c.last_error;
        log = c.operation_log;
      }

length-to_hex : (bs : Bytes) → length (to_hex bs) ≡ length bs * 2
unfolding to_hex
length-to_hex [] = refl
length-to_hex (b ∷ bs) = omega (arith, length-to_hex bs)

length-shortened : (text : Bytes) → 24 < length text → length (shortened 12 text) ≡ 27
length-shortened text h = omega (
  arith,
  length-append (take 12 text) ((b'.' ∷ b'.' ∷ b'.' ∷ []) ++ drop (length text - 12) text),
  length-take 12 text,
  length-drop (length text - 12) text,
)

-- The status shows the digits of a value of at most twelve bytes, and 27 characters of a longer one.
pub length-short_hex :
    (key text : Bytes)
    → short_hex (some key) ≡ some text
    → ((length key ≤ 12) × (text ≡ to_hex key)) ⊎ ((12 < length key) × (length text ≡ 27))
unfolding short_hex
length-short_hex [] text h = cc
length-short_hex (b ∷ bs) text h =
    let n = length-to_hex (b ∷ bs) in
    elim (Bool-cases (leb (length (to_hex (b ∷ bs))) 24)) [
      | inl short ↦ inl (ground (arith, n), ground arith)
      | inr long ↦
          let size : 24 < length (to_hex (b ∷ bs)) = ground arith in
          let same : text ≡ shortened 12 (to_hex (b ∷ bs)) = ground arith in
          inr (omega (arith, n, size), rw same (length-shortened (to_hex (b ∷ bs)) size))
    ]
