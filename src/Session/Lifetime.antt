-- ===== src/Session/Lifetime.antt =====
-- From the issuing of a session to the end of its lifetime.
use Prim.Native.String.{count, len}
use zigbeelens.Common.{
  ℕ, ◌+◌, ◌<◌, String, ◌≡◌, refl, ap, ◌∙◌, true, ◌&&◌, none, some, arith, ltb, leb, if◌then◌else◌,
  eq_refl,
}
use zigbeelens.Session.Claims.{
  Payload, SessionClaims, valid_session_id, to_payload, IsFormed, from_payload-to_payload,
}
use zigbeelens.Session.Manager.{
  Serializer, Platform, Config, BrowserSessionManager, Issued, from_config, csrf_payload,
  issue_csrf_token, new_claims, browser_sessions_enabled, issue_session, validate_claims, is_plain,
  load_session_cookie, max_bytes,
}

-- A manager with its secrets.
record IsConfigured (m : BrowserSessionManager) (signer csrf : Serializer) (binding : String)
    : Type 0 where
  enabled : m.enabled ≡ true
  session_serializer : m.session_serializer ≡ some signer
  csrf_serializer : m.csrf_serializer ≡ some csrf
  api_credential_binding : m.api_credential_binding ≡ some binding

validate-new_claims :
    (m : BrowserSessionManager) (now later : ℕ) (id binding : String)
    → 0 < m.ttl_seconds
    → m.api_credential_binding ≡ some binding
    → validate_claims m later (new_claims m now id binding)
      ≡ (leb now (later + 60) && ltb later (now + m.ttl_seconds))
unfolding validate_claims new_claims
validate-new_claims m now later id binding t b =
    let same = eq_refl binding in rw (b, same) (ground arith)

module _ (p : Platform) (m : BrowserSessionManager) (signer csrf : Serializer) (binding id : String)
    (w : IsConfigured m signer csrf binding) where
  load-new_claims :
      (now later : ℕ) (cookie : String)
      → IsFormed p.is_hex (new_claims m now id binding)
      → is_plain p cookie ≡ true
      → signer.loads cookie ≡ some (Payload.object (to_payload (new_claims m now id binding)))
      → load_session_cookie p m later cookie ≡ (
          if validate_claims m later (new_claims m now id binding)
          then some (new_claims m now id binding)
          else none)
  unfolding load_session_cookie new_claims
  load-new_claims now later cookie f plain loads =
      let parsed = from_payload-to_payload p.is_hex (new_claims m now id binding) f in
      rw (w.session_serializer, w.enabled, plain, loads, parsed) refl

  issue-new_claims :
      (now : ℕ)
      → valid_session_id p.is_hex id ≡ true
      → leb
          (len (signer.dumps (Payload.object (to_payload (new_claims m now id binding)))))
          max_bytes
        ≡ true
      → leb (len (csrf.dumps (Payload.object (csrf_payload id)))) max_bytes ≡ true
      → issue_session p m now id
        ≡ some (record {
          claims = new_claims m now id binding;
          cookie_value = signer.dumps (Payload.object (to_payload (new_claims m now id binding)));
          csrf_token = csrf.dumps (Payload.object (csrf_payload id));
        })
  unfolding issue_session issue_csrf_token new_claims
  issue-new_claims now valid fits csrf_fits =
      let e = w.enabled in
      let a = w.session_serializer in
      let b = w.csrf_serializer in let c = w.api_credential_binding in ground (arith, e, a, b, c)

-- The serializer of `from_config` for a secret, by the salt.
abbrev pub signer_of : Platform → String → Serializer
signer_of p secret = p.new_serializer secret "zigbeelens-browser-session-v1"

abbrev pub csrf_signer_of : Platform → String → Serializer
csrf_signer_of p secret = p.new_serializer secret "zigbeelens-csrf-token-v1"

-- The claims of a session that is issued under a configuration with both secrets.
abbrev pub claims_of : Platform → Config → String → String → ℕ → String → SessionClaims
claims_of p config secret token now id =
    new_claims (from_config p config) now id (p.digest secret token)

-- What the called code does for one session: `token_hex` and `hexdigest` yield as many hexadecimal
-- digits as they say, and the serializer reads what it wrote, which is short and has no space
-- around it.
pub record IsIssuable (p : Platform) (config : Config) (secret token : String) (now : ℕ)
    (id : String) : Type 0 where
  pub id_hex : valid_session_id p.is_hex id ≡ true
  pub digest_length : count (p.digest secret token) ≡ 64
  pub digest_hex : p.is_hex (p.digest secret token) ≡ true
  pub cookie_plain :
      is_plain p (
        (signer_of p secret).dumps
          (Payload.object (to_payload (claims_of p config secret token now id))))
      ≡ true
  pub cookie_loads :
      (signer_of p secret).loads (
        (signer_of p secret).dumps
          (Payload.object (to_payload (claims_of p config secret token now id))))
      ≡ some (Payload.object (to_payload (claims_of p config secret token now id)))
  pub csrf_fits :
      leb (len ((csrf_signer_of p secret).dumps (Payload.object (csrf_payload id)))) max_bytes
      ≡ true

configured :
    (p : Platform) (config : Config) (secret token : String)
    → config.session_secret ≡ some secret
    → config.api_token ≡ some token
    → IsConfigured
        (from_config p config)
        (signer_of p secret)
        (csrf_signer_of p secret)
        (p.digest secret token)
unfolding from_config browser_sessions_enabled
configured p config secret token s t = record {
  enabled = ground arith;
  session_serializer = ground arith;
  csrf_serializer = ground arith;
  api_credential_binding = ground arith;
}

ttl-from_config :
    (p : Platform) (config : Config)
    → (from_config p config).ttl_seconds ≡ config.session_ttl_seconds
unfolding from_config
ttl-from_config p config = ground arith

new_claims-IsFormed :
    (p : Platform) (m : BrowserSessionManager) (now : ℕ) (id binding : String)
    → valid_session_id p.is_hex id ≡ true
    → count binding ≡ 64
    → p.is_hex binding ≡ true
    → IsFormed p.is_hex (new_claims m now id binding)
unfolding new_claims
new_claims-IsFormed p m now id binding a b c = record {
  version = refl;
  session_id = a;
  binding_length = b;
  binding_hex = c;
}

plain_fits :
    (p : Platform) (value : String) → is_plain p value ≡ true → leb (len value) max_bytes ≡ true
unfolding is_plain
plain_fits p value h = ground arith

-- Under a configuration with both secrets and a positive lifetime, a session is issued, and its
-- cookie loads, with the same claims, exactly from a minute before it was issued until the lifetime
-- has passed, provided the called code works for this session.
pub issued_session_lifetime :
    (p : Platform) (config : Config) (secret token : String) (now : ℕ) (id : String)
    → config.session_secret ≡ some secret
    → config.api_token ≡ some token
    → 0 < config.session_ttl_seconds
    → IsIssuable p config secret token now id
    → (r : Issued) × (issue_session p (from_config p config) now id ≡ some r)
      × ((later : ℕ)
          → load_session_cookie p (from_config p config) later r.cookie_value ≡ (
              if leb now (later + 60) && ltb later (now + config.session_ttl_seconds)
              then some r.claims
              else none))
issued_session_lifetime p config secret token now id s t ttl works =
    let m = from_config p config in
    let w = configured p config secret token s t in
    let binding = p.digest secret token in
    let formed =
      new_claims-IsFormed p m now id binding works.id_hex works.digest_length works.digest_hex in
    let signer = signer_of p secret in
    let csrf = csrf_signer_of p secret in
    let cookie = signer.dumps (Payload.object (to_payload (new_claims m now id binding))) in
    let length = ttl-from_config p config in
    (
      record {
        claims = new_claims m now id binding;
        cookie_value = cookie;
        csrf_token = csrf.dumps (Payload.object (csrf_payload id));
      },
      issue-new_claims p m signer csrf binding id w now works.id_hex
          (plain_fits p cookie works.cookie_plain) works.csrf_fits,
      λ later.
          let e =
            load-new_claims p m signer csrf binding id w now later cookie formed works.cookie_plain
              works.cookie_loads in
          let v =
            validate-new_claims m now later id binding (rw length ttl) w.api_credential_binding in
          let within = v ∙ ap (λ ttl. leb now (later + 60) && ltb later (now + ttl)) length in
          e ∙ ap (λ b. if b then some (new_claims m now id binding) else none) within,
    )
