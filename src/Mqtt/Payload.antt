-- ===== src/Mqtt/Payload.antt =====
-- mqtt/payload_utils.py. `is_secret` stands for `SECRET_KEY_PATTERN.search`; `loads` and `dumps` for
-- those of `json`, `strip`, `lower` for those of `str`, and `show` for `str` of a value,
-- `decode_error` for the text of a JSONDecodeError, `contains` for `in` between texts, and `is_zero`
-- tells whether the text of a number is that of a zero.
use zigbeelens.Common.{String, Bool, ◌||◌, Option, none, some, if◌then◌else◌, str_eq}

-- A decoded JSON value; a number is known by its text.
mutual
  pub data Json : Type 0 where
    null : Json
    boolean : Bool → Json
    number : String → Json
    text : String → Json
    array : Elements → Json
    dict : Entries → Json

  pub data Elements : Type 0 where
    no_elements : Elements
    element : Json → Elements → Elements

  pub data Entries : Type 0 where
    no_entries : Entries
    entry : String → Json → Entries → Entries

abbrev pub redacted : String
redacted = "***"

-- `redact_payload_value`, its comprehension over a list, and `redact_payload_dict`.
unfoldable mutual
  pub redact_payload_value : (String → Bool) → Json → Json
  redact_payload_value is_secret null = null
  redact_payload_value is_secret (boolean b) = boolean b
  redact_payload_value is_secret (number n) = number n
  redact_payload_value is_secret (text s) = text s
  redact_payload_value is_secret (array xs) = array (redact_elements is_secret xs)
  redact_payload_value is_secret (dict fs) = dict (redact_payload_dict is_secret fs)

  pub redact_elements : (String → Bool) → Elements → Elements
  redact_elements is_secret no_elements = no_elements
  redact_elements is_secret (element x xs) =
      element (redact_payload_value is_secret x) (redact_elements is_secret xs)

  pub redact_payload_dict : (String → Bool) → Entries → Entries
  redact_payload_dict is_secret no_entries = no_entries
  redact_payload_dict is_secret (entry key value rest) =
      entry key (if is_secret key then text redacted else redact_payload_value is_secret value)
        (redact_payload_dict is_secret rest)

-- What the module calls of Python.
pub record Codec : Type 0 where
  pub loads : String → Option Json
  pub dumps : Json → String
  pub strip : String → String
  pub lower : String → String
  pub show : Json → String
  pub decode_error : String → String
  pub is_zero : String → Bool
  pub contains : String → String → Bool

-- `redact_payload_text` of a decoded payload.
unfoldable pub redact_payload_text : (String → Bool) → Codec → String → String
redact_payload_text is_secret c payload = elim (c.loads payload) [
  | none ↦ payload
  | some parsed ↦ elim parsed [
    | null ↦ payload
    | boolean b ↦ payload
    | number n ↦ payload
    | text s ↦ payload
    | array xs ↦ c.dumps (array (redact_elements is_secret xs))
    | dict fs ↦ c.dumps (dict (redact_payload_dict is_secret fs))
  ]
]

-- The value under a key.
unfoldable pub entry_of : String → Entries → Option Json
entry_of key no_entries = none
entry_of key (entry k value rest) = if str_eq k key then some value else entry_of key rest

-- `value.strip().lower()` if it is "online" or "offline"
unfoldable pub online_or_offline : Codec → String → Option String
online_or_offline c s =
    let value = c.lower (c.strip s) in
    if str_eq value "online" || str_eq value "offline" then some value else none

-- `extract_online_state`
unfoldable pub extract_online_state : Codec → Json → Option String
unfolding online_or_offline entry_of
extract_online_state c (text s) = online_or_offline c s
extract_online_state c (dict fs) =
    let second : Option String = elim (entry_of "availability" fs) [
      | none ↦ none
      | some v ↦ online_or_offline c (c.show v)
    ] in
    elim (entry_of "state" fs) [
      | none ↦ second
      | some v ↦ elim (online_or_offline c (c.show v)) [ none ↦ second | some s ↦ some s ]
    ]
extract_online_state c null = none
extract_online_state c (boolean b) = none
extract_online_state c (number n) = none
extract_online_state c (array xs) = none

-- `safe_parse_json`: the value, which is `null` for None, and the error.
unfoldable pub safe_parse_json : Codec → String → Json × Option String
safe_parse_json c payload =
    let t = c.strip payload in
    if str_eq t ""
    then (null, none)
    else elim (c.loads t) [ none ↦ (text t, some (c.decode_error t)) | some v ↦ (v, none) ]
