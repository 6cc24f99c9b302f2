-- ===== src/Base/Json.antt =====
-- What the programs use of Python's `json` and `base64`: JSON values as `loads` returns them, the
-- operations of `dict` on them, and the two codecs as parameters with their documented behaviour.
use Prim.Native.Nat.{ℕ}
use mathlib.Core.Path.{◌≡◌}
use mathlib.Core.Bool.{Bool, true, false, ◌&&◌}
use mathlib.Core.Option.{Option, none, some}
use mathlib.Core.List.{[], ◌∷◌}
use modbus_serial_security_p.Base.Tests.{ltb, ◌==◌, if◌then◌else◌}
use modbus_serial_security_p.Base.Outcome.{Result, ok, err, type_error, key_error, attribute_error}
use modbus_serial_security_p.Base.ByteStrings.{Bytes, bytes_eq}

-- Python's `int`, over the native numbers: `negsuc n` is `-(n + 1)`.
pub data ℤ : Type 0 where
  pos : ℕ → ℤ
  negsuc : ℕ → ℤ

-- Texts are their bytes in UTF-8. A `real` is a number that is no `int`, by what `str` makes of it.
-- A dict has its keys in ascending order: nothing here depends on the order of insertion.
mutual
  pub data Json : Type 0 where
    null : Json
    boolean : Bool → Json
    integer : ℤ → Json
    real : Bytes → Json
    text : Bytes → Json
    array : Values → Json
    object : Members → Json

  pub data Values : Type 0 where
    no_value : Values
    value : Json → Values → Values

  pub data Members : Type 0 where
    no_member : Members
    member : Bytes → Json → Members → Members

-- `a < b` on texts.
abbrev pub text_lt : Bytes → Bytes → Bool
text_lt a [] = false
text_lt [] (y ∷ b) = true
text_lt (x ∷ a) (y ∷ b) = if x == y then text_lt a b else ltb x y

-- `members.get(key)`
abbrev pub find_member : Bytes → Members → Option Json
find_member key no_member = none
find_member key (member k v rest) = if bytes_eq k key then some v else find_member key rest

-- `del members[key]`, where the key may be missing.
abbrev pub remove_member : Bytes → Members → Members
remove_member key no_member = no_member
remove_member key (member k v rest) =
    if bytes_eq k key then rest else member k v (remove_member key rest)

-- `members[key] = v`
abbrev pub put_member : Bytes → Json → Members → Members
put_member key v no_member = member key v no_member
put_member key v (member k w rest) =
    if bytes_eq k key
    then member k v rest
    else if text_lt key k
    then member key v (member k w rest)
    else member k w (put_member key v rest)

-- `members[key]`
abbrev pub item_of : Bytes → Members → Result Json
item_of key members = elim (find_member key members) [ none ↦ err key_error | some v ↦ ok v ]

-- `data[key]` on any JSON value: a list and a text want a number for an index.
abbrev pub subscript : Bytes → Json → Result Json
subscript key (object members) = item_of key members
subscript key v = err type_error

-- The test `v == t` against a text.
abbrev pub is_text : Bytes → Option Json → Bool
is_text t (some (text u)) = bytes_eq u t
is_text t v = false

abbrev pub starts_with : Bytes → Bytes → Bool
starts_with [] b = true
starts_with (x ∷ a) [] = false
starts_with (x ∷ a) (y ∷ b) = x == y && starts_with a b

-- `t in u` on texts.
abbrev pub occurs_in : Bytes → Bytes → Bool
occurs_in t [] = starts_with t []
occurs_in t (y ∷ u) = if starts_with t (y ∷ u) then true else occurs_in t u

abbrev pub is_element : Bytes → Values → Bool
is_element t no_value = false
is_element t (value v rest) = if is_text t (some v) then true else is_element t rest

abbrev is_key : Bytes → Members → Bool
is_key t members = elim (find_member t members) [ none ↦ false | some v ↦ true ]

-- `t in v`: an element of a list, a part of a text, a key of a dict.
abbrev pub contains : Bytes → Json → Result Bool
contains t (array values) = ok (is_element t values)
contains t (text u) = ok (occurs_in t u)
contains t (object members) = ok (is_key t members)
contains t v = err type_error

-- The first key, for the order of the keys.
abbrev below_first : Bytes → Members → Bool
below_first key no_member = true
below_first key (member k v rest) = text_lt key k

-- Dicts with their keys in order, down to the leaves, and no numbers but `int`.
unfoldable mutual
  pub is_plain : Json → Bool
  is_plain null = true
  is_plain (boolean b) = true
  is_plain (integer z) = true
  is_plain (real r) = false
  is_plain (text t) = true
  is_plain (array values) = are_plain values
  is_plain (object members) = are_plain_members members

  pub are_plain : Values → Bool
  are_plain no_value = true
  are_plain (value v rest) = is_plain v && are_plain rest

  pub are_plain_members : Members → Bool
  are_plain_members no_member = true
  are_plain_members (member k v rest) = below_first k rest && (is_plain v && are_plain_members rest)

-- `json.dumps(…, sort_keys=True, separators=(",", ":"))` encoded, and `json.loads` of decoded bytes.
pub record JsonCodec : Type 0 where
  pub dumps : Json → Bytes
  pub loads : Bytes → Result Json

-- What the code relies on: the values it writes are read back.
pub record JsonLaws (codec : JsonCodec) : Type 0 where
  pub loads_dumps : (v : Json) → is_plain v ≡ true → codec.loads (codec.dumps v) ≡ ok v

-- `base64.b64encode` and `base64.b64decode`, between bytes and texts.
pub record Base64 : Type 0 where
  pub b64encode : Bytes → Bytes
  pub b64decode : Bytes → Result Bytes

pub record Base64Laws (base64 : Base64) : Type 0 where
  pub decode_encode : (bs : Bytes) → base64.b64decode (base64.b64encode bs) ≡ ok bs

-- `b64decode` of a JSON value: only a text has `encode`.
abbrev pub unb64 : Base64 → Json → Result Bytes
unb64 base64 (text t) = base64.b64decode t
unb64 base64 v = err attribute_error
