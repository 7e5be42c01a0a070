-- ===== src/Session/Examples.antt =====
-- Runs of the session theorems: a signer that reads each value as the session of the example.
use zigbeelens.Common.{
  ℕ, ◌+◌, String, ◌≡◌, refl, true, false, ◌&&◌, none, some, ltb, leb, if◌then◌else◌, str_eq, arith,
}
use zigbeelens.Common.Integers.{ℤ}
use zigbeelens.Session.Claims.{Payload, SessionClaims, valid_session_id, to_payload, from_payload}
use zigbeelens.Session.Manager.{
  Serializer, Platform, Config, BrowserSessionManager, Issued, from_config, csrf_payload,
  issue_csrf_token, new_claims, issue_session, is_plain, load_session_cookie, validate_csrf_token,
  resolve_session_cookie_secure, browser_sessions_enabled,
}
use zigbeelens.Session.Lifetime.{IsIssuable, issued_session_lifetime}
use zigbeelens.Session.Forgery.{IsAlive, IsSigned, load-IsAlive, validate-issue_csrf_token}

abbrev id : String
id = "0123456789abcdef0123456789abcdef"

abbrev digest : String
digest = "0123456789abcdef0123456789abcdef0123456789abcdef0123456789abcdef"

abbrev claims : SessionClaims
claims = record {
  version = ℤ.pos 1;
  session_id = id;
  issued_at = ℤ.pos 1000;
  expires_at = ℤ.pos 1300;
  api_credential_binding = digest;
}

abbrev session_signer : Serializer
session_signer = record {
  dumps = λ payload. "session";
  loads =
      λ value. if str_eq value "session" then some (Payload.object (to_payload claims)) else none;
}

abbrev csrf_signer : Serializer
csrf_signer = record {
  dumps = λ payload. "csrf";
  loads = λ value. if str_eq value "csrf" then some (Payload.object (csrf_payload id)) else none;
}

abbrev platform : Platform
platform = record {
  new_serializer = λ secret salt.
      if str_eq salt "zigbeelens-browser-session-v1" then session_signer else csrf_signer;
  digest = λ key message. digest;
  strip = λ value. value;
  is_hex = λ value. true;
  is_loopback_bind = λ host. str_eq host "localhost";
}

abbrev config : Config
config = record {
  api_token = some "token";
  session_secret = some "secret";
  session_ttl_seconds = 300;
  session_cookie_secure = none;
  host = "localhost";
}

abbrev manager : BrowserSessionManager
manager = record {
  enabled = true;
  ttl_seconds = 300;
  cookie_secure = false;
  session_serializer = some session_signer;
  csrf_serializer = some csrf_signer;
  api_credential_binding = some digest;
}

manager_of_config : from_config platform config ≡ manager
unfolding from_config resolve_session_cookie_secure browser_sessions_enabled
manager_of_config = refl

issuable : IsIssuable platform config "secret" "token" 1000 id
unfolding from_config new_claims valid_session_id is_plain to_payload
issuable = record {
  id_hex = refl;
  digest_length = refl;
  digest_hex = refl;
  cookie_plain = refl;
  cookie_loads = refl;
  csrf_fits = refl;
}

issued_session_lifetime_example :
    (r : Issued) × (issue_session platform (from_config platform config) 1000 id ≡ some r)
    × ((later : ℕ)
        → load_session_cookie platform (from_config platform config) later r.cookie_value
          ≡ (if leb 1000 (later + 60) && ltb later (1000 + 300) then some r.claims else none))
issued_session_lifetime_example =
    issued_session_lifetime platform config "secret" "token" 1000 id refl refl (omega arith)
      issuable

load-IsAlive_example : IsAlive manager 1299 claims × IsSigned platform manager "session" claims
unfolding load_session_cookie to_payload from_payload
load-IsAlive_example = load-IsAlive platform manager 1299 "session" claims refl

-- Another session's id is refused.
validate-issue_csrf_token_example :
    validate_csrf_token platform manager "csrf" "fedcba9876543210fedcba9876543210" ≡ false
unfolding issue_csrf_token is_plain valid_session_id
validate-issue_csrf_token_example =
    validate-issue_csrf_token platform manager csrf_signer id "csrf"
      "fedcba9876543210fedcba9876543210" refl refl refl refl refl
