-- ===== src/Session/Claims.antt =====
-- `SessionClaims` with its two conversions. `is_hex` stands for `bytes.fromhex` not raising.
use Prim.Native.String.{count}
use zigbeelens.Common.{
  ℕ, ◌*◌, String, ◌≡◌, refl, Bool, true, false, ◌&&◌, Option, none, some, List, [], ◌∷◌, map, ◌==◌,
  if◌then◌else◌, str_eq, elem,
}
use zigbeelens.Common.Integers.{ℤ}

-- A value of decoded JSON; `other` is a value that is neither an integer nor a text, and `true` and
-- `false` are such values.
pub data Value : Type 0 where
  number : ℤ → Value
  text : String → Value
  other : Value

pub record Field : Type 0 where
  pub key : String
  pub value : Value

-- What a serializer returns: a dictionary, or something else.
pub data Payload : Type 0 where
  object : List Field → Payload
  not_object : Payload

pub record SessionClaims : Type 0 where
  pub version : ℤ
  pub session_id : String
  pub issued_at : ℤ
  pub expires_at : ℤ
  pub api_credential_binding : String

abbrev pub session_payload_version : ℕ
session_payload_version = 1

abbrev pub session_id_bytes : ℕ
session_id_bytes = 16

-- `_valid_session_id`
unfoldable pub valid_session_id : (String → Bool) → String → Bool
valid_session_id is_hex value = count value == session_id_bytes * 2 && is_hex value

-- `payload[key]`
abbrev pub lookup : String → List Field → Option Value
lookup key [] = none
lookup key (f ∷ fs) = if str_eq f.key key then some f.value else lookup key fs

-- The value if `_is_strict_int` accepts it.
abbrev pub strict_int : Option Value → Option ℤ
strict_int (some (Value.number n)) = some n
strict_int (some (Value.text s)) = none
strict_int (some Value.other) = none
strict_int none = none

-- The value if it is a text.
abbrev pub strict_text : Option Value → Option String
strict_text (some (Value.text s)) = some s
strict_text (some (Value.number n)) = none
strict_text (some Value.other) = none
strict_text none = none

abbrev is_within : List String → List String → Bool
is_within [] ys = true
is_within (x ∷ xs) ys = elem x ys && is_within xs ys

-- `set(payload) == {…}`
abbrev pub has_keys : List String → List Field → Bool
has_keys names fields =
    let keys = map (λ f. f.key) fields in is_within names keys && is_within keys names

abbrev pub is_int : ℤ → ℕ → Bool
is_int (ℤ.pos n) m = n == m
is_int (ℤ.negsuc n) m = false

unfoldable pub to_payload : SessionClaims → List Field
to_payload c =
    record { key = "version"; value = Value.number c.version }
    ∷ record { key = "session_id"; value = Value.text c.session_id }
    ∷ record { key = "issued_at"; value = Value.number c.issued_at }
    ∷ record { key = "expires_at"; value = Value.number c.expires_at }
    ∷ record { key = "api_credential_binding"; value = Value.text c.api_credential_binding }
    ∷ []

abbrev claim_names : List String
claim_names = "version" ∷ "session_id" ∷ "issued_at" ∷ "expires_at" ∷ "api_credential_binding" ∷ []

-- The values of the fields, each tested.
unfoldable pub check_fields : (String → Bool) → List Field → Option SessionClaims
unfolding valid_session_id
check_fields is_hex fields = elim (strict_int (lookup "version" fields)) [
  | none ↦ none
  | some version ↦ elim (strict_text (lookup "session_id" fields)) [
    | none ↦ none
    | some session_id ↦ elim (strict_int (lookup "issued_at" fields)) [
      | none ↦ none
      | some issued_at ↦ elim (strict_int (lookup "expires_at" fields)) [
        | none ↦ none
        | some expires_at ↦ elim (strict_text (lookup "api_credential_binding" fields)) [
          | none ↦ none
          | some binding ↦
              if is_int version session_payload_version
                && valid_session_id is_hex session_id
                && count binding == 64
                && is_hex binding
              then some (record {
                version = version;
                session_id = session_id;
                issued_at = issued_at;
                expires_at = expires_at;
                api_credential_binding = binding;
              })
              else none
        ]
      ]
    ]
  ]
]

-- `from_payload`; `none` is its `ValueError`.
unfoldable pub from_payload : (String → Bool) → Payload → Option SessionClaims
unfolding check_fields
from_payload is_hex Payload.not_object = none
from_payload is_hex (Payload.object fields) =
    if has_keys claim_names fields then check_fields is_hex fields else none

-- Claims that a manager can issue.
pub record IsFormed (is_hex : String → Bool) (c : SessionClaims) : Type 0 where
  pub version : c.version ≡ ℤ.pos session_payload_version
  pub session_id : valid_session_id is_hex c.session_id ≡ true
  pub binding_length : count c.api_credential_binding ≡ 64
  pub binding_hex : is_hex c.api_credential_binding ≡ true

pub from_payload-to_payload :
    (is_hex : String → Bool) (c : SessionClaims)
    → IsFormed is_hex c
    → from_payload is_hex (Payload.object (to_payload c)) ≡ some c
unfolding from_payload to_payload
from_payload-to_payload is_hex c w =
    rw (w.version, w.session_id, w.binding_length, w.binding_hex) refl
