-- ===== src/Session/Forgery.antt =====
-- What an accepted cookie or token shows about its origin.
use zigbeelens.Common.{
  ℕ, ◌+◌, ◌≤◌, ◌<◌, String, ◌≡◌, refl, true, false, some, arith, str_eq, eq_iff, Bool-cases,
  Option-cases, inl, inr,
}
use zigbeelens.Common.Integers.{ℤ, leb_ℤ, ◌-ℤ◌}
use zigbeelens.Session.Claims.{Payload, SessionClaims, valid_session_id, from_payload}
use zigbeelens.Session.Manager.{
  Serializer, Platform, BrowserSessionManager, csrf_payload, issue_csrf_token, validate_claims,
  is_plain, load_session_cookie, check_csrf_payload, validate_csrf_token,
}

-- The instants of claims that are accepted.
window :
    (now ttl : ℕ) (issued expires : ℤ)
    → leb_ℤ issued (ℤ.pos (now + 60)) ≡ true
    → leb_ℤ (expires -ℤ issued) (ℤ.pos ttl) ≡ true
    → leb_ℤ expires (ℤ.pos now) ≡ false
    → (e : ℕ) × (expires ≡ ℤ.pos e) × (now < e) × (e ≤ now + 60 + ttl)
window now ttl (ℤ.pos i) (ℤ.pos e) a b c = (e, refl, ground arith, ground arith)
window now ttl (ℤ.negsuc i) (ℤ.pos e) a b c = (e, refl, ground arith, ground arith)
window now ttl i (ℤ.negsuc e) a b c = absurd (cc c)

-- Claims of a session that is alive under a manager.
pub record IsAlive (m : BrowserSessionManager) (now : ℕ) (c : SessionClaims) : Type 0 where
  pub expiry : ℕ
  pub expires : c.expires_at ≡ ℤ.pos expiry
  pub not_expired : now < expiry
  pub bounded : expiry ≤ now + 60 + m.ttl_seconds
  pub binding : m.api_credential_binding ≡ some c.api_credential_binding

-- A cookie that the manager's serializer reads as the claims.
pub record IsSigned (p : Platform) (m : BrowserSessionManager) (cookie : String) (c : SessionClaims)
    : Type 0 where
  pub signer : Serializer
  pub signs : m.session_serializer ≡ some signer
  pub payload : Payload
  pub loads : signer.loads cookie ≡ some payload
  pub parses : from_payload p.is_hex payload ≡ some c

validate-IsAlive :
    (m : BrowserSessionManager) (now : ℕ) (c : SessionClaims)
    → validate_claims m now c ≡ true
    → IsAlive m now c
unfolding validate_claims
validate-IsAlive m now c h = elim (Option-cases m.api_credential_binding) [
  | inl e ↦ absurd (ground (arith, e, h))
  | inr s ↦
      let e = s.1 in
      let w =
        window now m.ttl_seconds c.issued_at c.expires_at (ground (arith, e)) (ground (arith, e))
          (ground (arith, e)) in
      let same : c.api_credential_binding ≡ s.0 =
        (eq_iff c.api_credential_binding s.0).0 (ground (arith, e)) in
      record {
        expiry = w.0;
        expires = w.1;
        not_expired = w.2;
        bounded = w.3;
        binding = cc (e, same);
      }
]

-- A cookie that loads was read by the manager's own serializer from a signed payload with these
-- claims; the claims expire after now and at most a minute and the lifetime later; and they are bound to
-- the manager's own API token.
pub load-IsAlive :
    (p : Platform) (m : BrowserSessionManager) (now : ℕ) (cookie : String) (c : SessionClaims)
    → load_session_cookie p m now cookie ≡ some c
    → IsAlive m now c × IsSigned p m cookie c
unfolding load_session_cookie
load-IsAlive p m now cookie c h = elim (Option-cases m.session_serializer) [
  | inl e ↦ absurd (ground (arith, e))
  | inr s ↦ elim (Option-cases (s.0.loads cookie)) [
    | inl e ↦ absurd (ground (arith, s.1, e))
    | inr payload ↦ elim (Option-cases (from_payload p.is_hex payload.0)) [
      | inl e ↦ absurd (ground (arith, s.1, payload.1, e))
      | inr claims ↦
          let same : claims.0 ≡ c = ground (arith, s.1, payload.1, claims.1) in
          let valid : validate_claims m now claims.0 ≡ true =
            ground (arith, s.1, payload.1, claims.1) in
          (
            validate-IsAlive m now c (rw⁻¹ same valid),
            record {
              signer = s.0;
              signs = s.1;
              payload = payload.0;
              loads = payload.1;
              parses = rw⁻¹ same claims.1;
            },
          )
    ]
  ]
]

check-csrf_payload :
    (p : Platform) (id sid : String)
    → valid_session_id p.is_hex id ≡ true
    → check_csrf_payload p (Payload.object (csrf_payload id)) sid ≡ str_eq id sid
unfolding check_csrf_payload csrf_payload
check-csrf_payload p id sid h = rw h refl

-- A CSRF token that was issued for a session is accepted exactly with the id of that session, where
-- sessions are enabled, the token has no space around it and the serializer reads what it wrote.
pub validate-issue_csrf_token :
    (p : Platform) (m : BrowserSessionManager) (csrf : Serializer) (id token sid : String)
    → m.enabled ≡ true
    → m.csrf_serializer ≡ some csrf
    → issue_csrf_token p m id ≡ some token
    → is_plain p token ≡ true
    → csrf.loads token ≡ some (Payload.object (csrf_payload id))
    → validate_csrf_token p m token sid ≡ str_eq id sid
unfolding issue_csrf_token validate_csrf_token
validate-issue_csrf_token p m csrf id token sid on s issued plain loads =
    let valid : valid_session_id p.is_hex id ≡ true = ground (arith, s, issued) in
    let check = check-csrf_payload p id sid valid in
    elim (Bool-cases (str_eq id sid)) [
      | inl e ↦
          let same = (eq_iff id sid).0 e in
          let valid' : valid_session_id p.is_hex sid ≡ true = rw⁻¹ same valid in
          ground (arith, on, s, plain, loads, check, valid', e)
      | inr e ↦ ground (arith, on, s, plain, loads, check, e)
    ]
