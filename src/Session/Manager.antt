-- ===== src/Session/Manager.antt =====
-- `BrowserSessionManager`. The signer and the text functions of Python are given; `none` stands for
-- the exception that a method raises, and `now` for the clock in whole seconds.
use Prim.Native.String.{len}
use zigbeelens.Common.{
  ℕ, ◌+◌, String, Bool, false, not, ◌&&◌, Option, none, some, List, [], ◌∷◌, leb, if◌then◌else◌,
  str_eq, is_some,
}
use zigbeelens.Common.Integers.{ℤ, leb_ℤ, ◌-ℤ◌}
use zigbeelens.Session.Claims.{
  Value, Field, Payload, SessionClaims, session_payload_version, valid_session_id, lookup,
  strict_int, strict_text, has_keys, is_int, to_payload, from_payload,
}

-- `URLSafeSerializer`; `loads` gives `none` for `BadData`.
pub record Serializer : Type 0 where
  pub dumps : Payload → String
  pub loads : String → Option Payload

-- What the module calls: `URLSafeSerializer` by secret and salt, the digest of `hmac.new` by the key
-- and the message, `str.strip`, `bytes.fromhex` not raising, and `is_loopback_bind`.
pub record Platform : Type 0 where
  pub new_serializer : String → String → Serializer
  pub digest : String → String → String
  pub strip : String → String
  pub is_hex : String → Bool
  pub is_loopback_bind : String → Bool

-- The fields of the configuration that are read.
pub record Config : Type 0 where
  pub api_token : Option String
  pub session_secret : Option String
  pub session_ttl_seconds : ℕ
  pub session_cookie_secure : Option Bool
  pub host : String

pub record BrowserSessionManager : Type 0 where
  pub enabled : Bool
  pub ttl_seconds : ℕ
  pub cookie_secure : Bool
  pub session_serializer : Option Serializer
  pub csrf_serializer : Option Serializer
  pub api_credential_binding : Option String

-- The claims, the signed cookie and the signed CSRF token.
pub record Issued : Type 0 where
  pub claims : SessionClaims
  pub cookie_value : String
  pub csrf_token : String

abbrev pub max_bytes : ℕ
max_bytes = 4096

abbrev pub max_future_clock_skew_seconds : ℕ
max_future_clock_skew_seconds = 60

-- `resolve_session_cookie_secure`
unfoldable pub resolve_session_cookie_secure : Platform → Config → Bool
resolve_session_cookie_secure p config = elim config.session_cookie_secure [
  | some explicit ↦ explicit
  | none ↦ not (p.is_loopback_bind config.host)
]

-- `browser_sessions_enabled`
unfoldable pub browser_sessions_enabled : Config → Bool
browser_sessions_enabled config = is_some config.api_token && is_some config.session_secret

-- `from_config`
unfoldable pub from_config : Platform → Config → BrowserSessionManager
from_config p config =
    let closed : BrowserSessionManager = record {
      enabled = browser_sessions_enabled config;
      ttl_seconds = config.session_ttl_seconds;
      cookie_secure = resolve_session_cookie_secure p config;
      session_serializer = none;
      csrf_serializer = none;
      api_credential_binding = none;
    } in
    elim config.session_secret [
      | none ↦ closed
      | some secret ↦ elim config.api_token [
        | none ↦ closed
        | some token ↦ record closed {
          session_serializer = some (p.new_serializer secret "zigbeelens-browser-session-v1");
          csrf_serializer = some (p.new_serializer secret "zigbeelens-csrf-token-v1");
          api_credential_binding = some (p.digest secret token);
        }
      ]
    ]

unfoldable pub csrf_payload : String → List Field
csrf_payload session_id =
    record { key = "version"; value = Value.number (ℤ.pos 1) }
    ∷ record { key = "session_id"; value = Value.text session_id }
    ∷ []

-- `issue_csrf_token`
unfoldable pub issue_csrf_token : Platform → BrowserSessionManager → String → Option String
unfolding csrf_payload
issue_csrf_token p m session_id = elim m.csrf_serializer [
  | none ↦ none
  | some s ↦
      let token = s.dumps (Payload.object (csrf_payload session_id)) in
      if not (valid_session_id p.is_hex session_id)
      then none
      else if leb (len token) max_bytes
      then some token
      else none
]

unfoldable pub new_claims : BrowserSessionManager → ℕ → String → String → SessionClaims
new_claims m now session_id binding = record {
  version = ℤ.pos session_payload_version;
  session_id = session_id;
  issued_at = ℤ.pos now;
  expires_at = ℤ.pos (now + m.ttl_seconds);
  api_credential_binding = binding;
}

-- `issue_session`; `session_id` is what `secrets.token_hex` yields.
unfoldable pub issue_session : Platform → BrowserSessionManager → ℕ → String → Option Issued
unfolding new_claims
issue_session p m now session_id = if not m.enabled then none else elim m.session_serializer [
  | none ↦ none
  | some s ↦ elim m.api_credential_binding [
    | none ↦ none
    | some binding ↦
        let claims = new_claims m now session_id binding in
        let cookie = s.dumps (Payload.object (to_payload claims)) in
        if not (leb (len cookie) max_bytes) then none else elim (issue_csrf_token p m session_id) [
          | none ↦ none
          | some token ↦
              some (record { claims = claims; cookie_value = cookie; csrf_token = token })
        ]
  ]
]

-- `_validate_claims`: whether it returns.
unfoldable pub validate_claims : BrowserSessionManager → ℕ → SessionClaims → Bool
validate_claims m now c = elim m.api_credential_binding [
  | none ↦ false
  | some binding ↦
      leb_ℤ c.issued_at (ℤ.pos (now + max_future_clock_skew_seconds))
      && not (leb_ℤ c.expires_at c.issued_at)
      && leb_ℤ (c.expires_at -ℤ c.issued_at) (ℤ.pos m.ttl_seconds)
      && not (leb_ℤ c.expires_at (ℤ.pos now))
      && str_eq c.api_credential_binding binding
]

-- `value == value.strip()`, and a length that is allowed.
unfoldable pub is_plain : Platform → String → Bool
is_plain p value = str_eq value (p.strip value) && leb (len value) max_bytes

-- `load_session_cookie`
unfoldable pub load_session_cookie :
    Platform → BrowserSessionManager → ℕ → String → Option SessionClaims
unfolding is_plain validate_claims
load_session_cookie p m now cookie = elim m.session_serializer [
  | none ↦ none
  | some s ↦ if not (m.enabled && is_plain p cookie) then none else elim (s.loads cookie) [
    | none ↦ none
    | some payload ↦ elim (from_payload p.is_hex payload) [
      | none ↦ none
      | some claims ↦ if validate_claims m now claims then some claims else none
    ]
  ]
]

-- The tests of `validate_csrf_token` on the payload.
unfoldable pub check_csrf_payload : Platform → Payload → String → Bool
check_csrf_payload p Payload.not_object session_id = false
check_csrf_payload p (Payload.object fields) session_id =
    has_keys ("version" ∷ "session_id" ∷ []) fields
    && elim (strict_int (lookup "version" fields)) [
      | none ↦ false
      | some version ↦ is_int version 1
    ]
    && elim (strict_text (lookup "session_id" fields)) [
      | none ↦ false
      | some sid ↦ valid_session_id p.is_hex sid && str_eq sid session_id
    ]

-- `validate_csrf_token`: whether it returns.
unfoldable pub validate_csrf_token : Platform → BrowserSessionManager → String → String → Bool
unfolding is_plain check_csrf_payload
validate_csrf_token p m token session_id = elim m.csrf_serializer [
  | none ↦ false
  | some s ↦
      m.enabled
      && is_plain p token
      && valid_session_id p.is_hex session_id
      && elim (s.loads token) [
        | none ↦ false
        | some payload ↦ check_csrf_payload p payload session_id
      ]
]
