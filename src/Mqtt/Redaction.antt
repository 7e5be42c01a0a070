-- ===== src/Mqtt/Redaction.antt =====
-- What redaction keeps and what it removes.
use zigbeelens.Common.{◌↔◌, subst, String, ◌≡◌, refl, ap, Bool, true, Bool-cases, inl, inr}
use zigbeelens.Mqtt.Payload.{
  Json, null, boolean, number, text, array, dict, Elements, no_elements, element, Entries,
  no_entries, entry, redacted, redact_payload_value, redact_elements, redact_payload_dict,
}

module _ (is_secret : String → Bool) where
  -- Below every secret key, at any depth, stands the mark of redaction.
  unfoldable mutual
    pub IsClean : Json → Type 0
    IsClean null = Unit
    IsClean (boolean b) = Unit
    IsClean (number n) = Unit
    IsClean (text s) = Unit
    IsClean (array xs) = AreClean xs
    IsClean (dict fs) = HasClean fs

    pub AreClean : Elements → Type 0
    AreClean no_elements = Unit
    AreClean (element x xs) = IsClean x × AreClean xs

    pub HasClean : Entries → Type 0
    HasClean no_entries = Unit
    HasClean (entry k v fs) = (is_secret k ≡ true → v ≡ text redacted) × IsClean v × HasClean fs

  mutual
    unfolding redact_payload_value IsClean

    redact-IsClean : (j : Json) → IsClean (redact_payload_value is_secret j)
    redact-IsClean null = tt
    redact-IsClean (boolean b) = tt
    redact-IsClean (number n) = tt
    redact-IsClean (text s) = tt
    redact-IsClean (array xs) = redact-AreClean xs
    redact-IsClean (dict fs) = redact-HasClean fs

    redact-AreClean : (xs : Elements) → AreClean (redact_elements is_secret xs)
    redact-AreClean no_elements = tt
    redact-AreClean (element x xs) = (redact-IsClean x, redact-AreClean xs)

    redact-HasClean : (fs : Entries) → HasClean (redact_payload_dict is_secret fs)
    redact-HasClean no_entries = tt
    redact-HasClean (entry k v fs) =
        let value = redact-IsClean v in
        let rest = redact-HasClean fs in
        elim (Bool-cases (is_secret k)) [
          | inl e ↦ rw e (λ h. refl, tt, rest)
          | inr e ↦ rw e (λ h. absurd (cc h), value, rest)
        ]

  -- What is clean is left as it is.
  mutual
    unfolding redact_payload_value IsClean

    redact_clean : (j : Json) → IsClean j → redact_payload_value is_secret j ≡ j
    redact_clean null h = refl
    redact_clean (boolean b) h = refl
    redact_clean (number n) h = refl
    redact_clean (text s) h = refl
    redact_clean (array xs) h = ap array (redact_clean_elements xs h)
    redact_clean (dict fs) h = ap dict (redact_clean_entries fs h)

    redact_clean_elements : (xs : Elements) → AreClean xs → redact_elements is_secret xs ≡ xs
    redact_clean_elements no_elements h = refl
    redact_clean_elements (element x xs) h = cc (redact_clean x h.0, redact_clean_elements xs h.1)

    redact_clean_entries : (fs : Entries) → HasClean fs → redact_payload_dict is_secret fs ≡ fs
    redact_clean_entries no_entries h = refl
    redact_clean_entries (entry k v fs) h =
        let value = redact_clean v h.1 in
        let rest = redact_clean_entries fs h.2 in
        elim (Bool-cases (is_secret k)) [
          | inl e ↦ let marked = h.0 e in rw e (cc (marked, rest))
          | inr e ↦ rw e (cc (value, rest))
        ]

-- A redacted value has the mark of redaction, and nothing else, under every secret key at any depth;
-- and redaction leaves exactly those values unchanged that were so before, hence its own results.
pub redact-redact :
    (is_secret : String → Bool) (j : Json)
    → IsClean is_secret (redact_payload_value is_secret j)
      × ((redact_payload_value is_secret j ≡ j) ↔ IsClean is_secret j)
      × (redact_payload_value is_secret (redact_payload_value is_secret j)
          ≡ redact_payload_value is_secret j)
redact-redact is_secret j =
    let clean = redact-IsClean is_secret j in
    (
      clean,
      (λ e. subst (IsClean is_secret) e clean, redact_clean is_secret j),
      redact_clean is_secret (redact_payload_value is_secret j) clean,
    )
