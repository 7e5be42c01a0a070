-- ===== src/Health/Device/Primary.antt =====
-- The verdict of `classify_device`: flags, primary flag, severity and confidence.
use zigbeelens.Common.{
  ℕ, String, ◌≡◌, ◌↔◌, refl, sym, ap, ◌∙◌, Bool, true, false, not, ◌&&◌, ◌||◌, Option, List, [],
  ◌∷◌, arith, if◌then◌else◌, is_empty, Bool-cases, inl, inr,
}
use zigbeelens.Common.Sorting.{has}
use zigbeelens.Health.Types.{
  HealthFlag, HealthSeverity, same_flag, DeviceHealthContext, DiagnosticsConfig, HealthResult,
}
use zigbeelens.Health.Device.{
  Notes, Findings, has_flag, choose_primary, severity_for_primary, note_unknown, conclude,
  classify_device, run_checks, sorted_flags,
}
use zigbeelens.Health.Device.Checks.{has_signal}
use zigbeelens.Health.Device.Order.{has-sorted_flags}
use zigbeelens.Health.Device.Flags.{
  is_unavailable, is_unstable, is_router, found, raised, Match, run_checks-found, run_checks-flags,
}

-- What the rules make of the findings: some check for a health concern applies.
abbrev pub is_concern : Findings → Bool
is_concern r = r.unavailable || r.unstable || r.interview || r.stale || r.weak || r.low_bat

-- The findings fit together as the checks for a router and for health make them.
pub record Fit (ctx : DeviceHealthContext) (r : Findings) : Type 0 where
  pub router :
      r.router ≡ (is_router ctx && (r.unavailable || r.unstable || r.weak || r.stale || r.low_bat))
  pub healthy : r.healthy ≡ (not (is_concern r) && has_signal ctx)
  pub unavailable : r.unavailable ≡ is_unavailable ctx

-- The primary flag, in the order of its rules, for findings that fit together.
unfoldable pub primary_of : DeviceHealthContext → Findings → HealthFlag
primary_of ctx r =
    if r.unavailable
    then HealthFlag.unavailable
    else if r.unstable
    then (if is_router ctx then HealthFlag.router_risk else HealthFlag.recently_unstable)
    else if r.interview
    then HealthFlag.interview_issue
    else if r.stale
    then HealthFlag.stale_reporting
    else if r.weak
    then HealthFlag.weak_link
    else if r.low_bat
    then HealthFlag.low_battery
    else if has_signal ctx
    then HealthFlag.healthy
    else HealthFlag.unknown

-- The severity that a primary flag stands for.
unfoldable pub severity_of : HealthFlag → HealthSeverity
severity_of HealthFlag.unavailable = HealthSeverity.incident
severity_of HealthFlag.healthy = HealthSeverity.ok
severity_of HealthFlag.unknown = HealthSeverity.unknown
severity_of _ = HealthSeverity.watch

or_false : (b : Bool) → (b || false) ≡ b
or_false b = ground arith

has_all_false : (fs : List HealthFlag) → ((f : HealthFlag) → has same_flag f fs ≡ false) → fs ≡ []
unfolding same_flag
has_all_false [] h = refl
has_all_false (HealthFlag.healthy ∷ fs) h = cc (h HealthFlag.healthy)
has_all_false (HealthFlag.unavailable ∷ fs) h = cc (h HealthFlag.unavailable)
has_all_false (HealthFlag.recently_unstable ∷ fs) h = cc (h HealthFlag.recently_unstable)
has_all_false (HealthFlag.weak_link ∷ fs) h = cc (h HealthFlag.weak_link)
has_all_false (HealthFlag.low_battery ∷ fs) h = cc (h HealthFlag.low_battery)
has_all_false (HealthFlag.stale_reporting ∷ fs) h = cc (h HealthFlag.stale_reporting)
has_all_false (HealthFlag.interview_issue ∷ fs) h = cc (h HealthFlag.interview_issue)
has_all_false (HealthFlag.router_risk ∷ fs) h = cc (h HealthFlag.router_risk)
has_all_false (HealthFlag.unknown ∷ fs) h = cc (h HealthFlag.unknown)

non_empty :
    (f : HealthFlag) (fs : List HealthFlag) → has same_flag f fs ≡ true → is_empty fs ≡ false
non_empty f [] h = cc
non_empty f (x ∷ fs) h = refl

module _ (ctx : DeviceHealthContext) (n : Notes) (r : Findings) (m : Match n r)
    (fit : Fit ctx r) where
  choose_primary-fit : choose_primary ctx n.flags r ≡ primary_of ctx r
  unfolding choose_primary primary_of raised is_router
  choose_primary-fit = ground (arith, m.flag HealthFlag.router_risk)

  is_unknown : Bool
  is_unknown = same_flag (primary_of ctx r) HealthFlag.unknown

  raised_none : is_unknown ≡ true → (f : HealthFlag) → raised r f ≡ false
  unfolding is_unknown primary_of raised same_flag
  raised_none u HealthFlag.unavailable = ground arith
  raised_none u HealthFlag.recently_unstable = ground arith
  raised_none u HealthFlag.interview_issue = ground arith
  raised_none u HealthFlag.stale_reporting = ground arith
  raised_none u HealthFlag.weak_link = ground arith
  raised_none u HealthFlag.low_battery = ground arith
  raised_none u HealthFlag.router_risk = ground arith
  raised_none u HealthFlag.healthy = ground arith
  raised_none u HealthFlag.unknown = refl

  raised-primary : is_unknown ≡ false → raised r (primary_of ctx r) ≡ true
  unfolding is_unknown primary_of raised same_flag
  raised-primary k = ground arith

  flags_none : is_unknown ≡ true → n.flags ≡ []
  flags_none u = has_all_false n.flags (λ f. m.flag f ∙ raised_none u f)

  flags_some : is_unknown ≡ false → is_empty n.flags ≡ false
  flags_some k = non_empty (primary_of ctx r) n.flags (m.flag (primary_of ctx r) ∙ raised-primary k)

  pub conclude-primary : (conclude ctx n r).primary ≡ primary_of ctx r
  unfolding conclude
  conclude-primary = choose_primary-fit

  conclude_unknown : is_unknown ≡ true → (conclude ctx n r).flags ≡ HealthFlag.unknown ∷ []
  unfolding conclude note_unknown sorted_flags is_unknown same_flag
  conclude_unknown u = rw (choose_primary-fit, u) (rw (flags_none u) refl)

  conclude_known : is_unknown ≡ false → (conclude ctx n r).flags ≡ sorted_flags n.flags
  unfolding conclude is_unknown
  conclude_known k = rw (choose_primary-fit, k) (rw (flags_some k) refl)

  has-conclude :
      (f : HealthFlag)
      → has same_flag f (conclude ctx n r).flags
        ≡ (if is_unknown then same_flag HealthFlag.unknown f else raised r f)
  has-conclude f = elim (Bool-cases is_unknown) [
    | inl u ↦ rw (conclude_unknown u, u) (or_false _)
    | inr k ↦ rw (conclude_known k, k) (has-sorted_flags f n.flags ∙ m.flag f)
  ]

  conclude-severity : (conclude ctx n r).severity ≡ severity_of (primary_of ctx r)
  unfolding conclude severity_for_primary severity_of primary_of raised is_unavailable is_router
      choose_primary same_flag note_unknown
  conclude-severity = ground (arith, m.flag HealthFlag.unavailable, m.flag HealthFlag.router_risk)

  primary_or_unknown :
      (if is_unknown
        then same_flag HealthFlag.unknown (primary_of ctx r)
        else raised r (primary_of ctx r))
      ≡ true
  unfolding is_unknown primary_of raised same_flag
  primary_or_unknown = ground arith

  conclude-mem : has same_flag (conclude ctx n r).primary (conclude ctx n r).flags ≡ true
  conclude-mem = rw conclude-primary (has-conclude (primary_of ctx r) ∙ primary_or_unknown)

-- The findings of the checks fit together.
found-Fit :
    (parse : String → Option ℕ) (ctx : DeviceHealthContext) (config : DiagnosticsConfig) (now : ℕ)
    → Fit ctx (found parse ctx config now)
unfolding found
found-Fit parse ctx config now = record { router = refl; healthy = refl; unavailable = refl }

-- When a flag is among the flags of the result.
unfoldable pub flag_holds :
    (String → Option ℕ) → DeviceHealthContext → DiagnosticsConfig → ℕ → HealthFlag → Bool
unfolding found raised
flag_holds parse ctx config now HealthFlag.unknown =
    not (is_concern (found parse ctx config now)) && not (has_signal ctx)
flag_holds parse ctx config now f = raised (found parse ctx config now) f

module _ (parse : String → Option ℕ) (ctx : DeviceHealthContext) (config : DiagnosticsConfig)
    (now : ℕ) where
  abbrev r : Findings
  r = found parse ctx config now

  abbrev result : HealthResult
  result = classify_device parse ctx config now

  classify-conclude : result ≡ conclude ctx (run_checks parse ctx config now).0 r
  unfolding classify_device
  classify-conclude =
      ap (conclude ctx (run_checks parse ctx config now).0) (run_checks-found parse ctx config now)

  noted : Match (run_checks parse ctx config now).0 r
  noted = run_checks-flags parse ctx config now

  fit : Fit ctx r
  fit = found-Fit parse ctx config now

  unknown_result : Bool
  unknown_result = is_unknown ctx (run_checks parse ctx config now).0 r noted fit

  -- On every flag, an unknown device has none but `unknown`.
  unknown-or-raised :
      (f : HealthFlag)
      → (if unknown_result then same_flag HealthFlag.unknown f else raised r f)
        ≡ flag_holds parse ctx config now f
  unfolding unknown_result is_unknown primary_of flag_holds same_flag
  unknown-or-raised HealthFlag.unavailable = ground arith
  unknown-or-raised HealthFlag.recently_unstable = ground arith
  unknown-or-raised HealthFlag.interview_issue = ground arith
  unknown-or-raised HealthFlag.stale_reporting = ground arith
  unknown-or-raised HealthFlag.weak_link = ground arith
  unknown-or-raised HealthFlag.low_battery = ground arith
  unknown-or-raised HealthFlag.router_risk = ground arith
  unknown-or-raised HealthFlag.healthy = ground arith
  unknown-or-raised HealthFlag.unknown = ground arith

  -- The result has a flag exactly when the condition of that flag holds: `unavailable` when the
  -- availability is offline, and so on for each check; `router_risk` when the device is a router and
  -- some check other than the interview's applies; `healthy` when no check applies and the device was heard of or is
  -- online; `unknown` when no check applies and it was not.
  pub classify-flags :
      (f : HealthFlag) → has_flag f result.flags ≡ flag_holds parse ctx config now f
  classify-flags f = rw classify-conclude (
      unfold unknown_result in
      has-conclude ctx (run_checks parse ctx config now).0 r noted fit f ∙ unknown-or-raised f)

  -- The primary flag is the first whose rule applies, it is one of the flags, and the severity
  -- follows from it alone: `incident` for an unavailable device, `ok` for a healthy one, `unknown`
  -- for an unknown one, and `watch` otherwise.
  pub classify-primary :
      (result.primary ≡ primary_of ctx r)
      × (has_flag result.primary result.flags ≡ true)
      × (result.severity ≡ severity_of result.primary)
  classify-primary = rw classify-conclude (
    conclude-primary ctx (run_checks parse ctx config now).0 r noted fit,
    conclude-mem ctx (run_checks parse ctx config now).0 r noted fit,
    conclude-severity ctx (run_checks parse ctx config now).0 r noted fit
        ∙ ap severity_of
            (sym (conclude-primary ctx (run_checks parse ctx config now).0 r noted fit)),
  )

  risk_only :
      primary_of ctx r ≡ HealthFlag.router_risk
      → (is_router ctx ≡ true) × (is_unavailable ctx ≡ false) × (is_unstable ctx config ≡ true)
  unfolding primary_of found
  risk_only e = (ground arith, ground arith, ground arith)

  risk_if :
      is_router ctx ≡ true
      → is_unavailable ctx ≡ false
      → is_unstable ctx config ≡ true
      → primary_of ctx r ≡ HealthFlag.router_risk
  unfolding primary_of found
  risk_if a b c = ground arith

  -- A result has `router_risk` as its primary flag exactly for a router that is not offline and
  -- whose availability changed at least as often as the flapping threshold.
  pub router_risk_primary :
      (result.primary ≡ HealthFlag.router_risk)
      ↔ ((is_router ctx ≡ true) × (is_unavailable ctx ≡ false) × (is_unstable ctx config ≡ true))
  router_risk_primary = (
    λ e. risk_only (sym (classify-primary.0) ∙ e),
    λ (a, b, c). classify-primary.0 ∙ risk_if a b c,
  )
