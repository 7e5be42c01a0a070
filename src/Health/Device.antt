-- ===== src/Health/Device.antt =====
-- diagnostics/device_health.py: `classify_device`. Each check appends to the notes of the device and
-- says whether it applies. Instants are microseconds; `parse` stands for
-- `datetime.fromisoformat(value.replace("Z", "+00:00"))`, with `none` for a `ValueError`.
mod Checks
mod Order
pub mod Flags
pub mod Primary
mod Examples
pub use Checks.{Notes, Findings}
unfoldable pub use Checks.{run_checks}
unfoldable pub use Order.{sorted_flags, flag_order}
use zigbeelens.Common.{
  ℕ, String, Bool, true, false, not, ◌&&◌, ◌||◌, Option, none, some, List, [], ◌∷◌, ◌++◌, leb,
  if◌then◌else◌, any, is_empty, str_eq, filter, ◌∙◌,
}
use zigbeelens.Health.Types.{
  HealthFlag, HealthSeverity, HealthConfidence, same_flag, Evidence, Limitation,
  DeviceHealthContext, DiagnosticsConfig, HealthResult,
}

abbrev pub has_flag : HealthFlag → List HealthFlag → Bool
has_flag f = any (λ g. same_flag g f)

-- `_choose_primary`
unfoldable pub choose_primary : DeviceHealthContext → List HealthFlag → Findings → HealthFlag
choose_primary ctx flags r =
    if r.unavailable
    then HealthFlag.unavailable
    else if str_eq ctx.device_type "Router" && r.router && (r.unavailable || r.unstable)
    then HealthFlag.router_risk
    else if r.unstable
    then HealthFlag.recently_unstable
    else if r.interview
    then HealthFlag.interview_issue
    else if r.stale
    then HealthFlag.stale_reporting
    else if r.weak
    then HealthFlag.weak_link
    else if r.low_bat
    then HealthFlag.low_battery
    else if has_flag HealthFlag.router_risk flags
    then HealthFlag.router_risk
    else if r.healthy
    then HealthFlag.healthy
    else HealthFlag.unknown

-- `_severity_for_primary`
unfoldable pub severity_for_primary :
    HealthFlag → List HealthFlag → DeviceHealthContext → HealthSeverity
severity_for_primary primary flags ctx =
    if same_flag primary HealthFlag.unavailable
    then HealthSeverity.incident
    else if same_flag primary HealthFlag.router_risk && str_eq ctx.availability "offline"
    then HealthSeverity.incident
    else if same_flag primary HealthFlag.healthy
    then HealthSeverity.ok
    else if same_flag primary HealthFlag.unknown
    then HealthSeverity.unknown
    else if same_flag primary HealthFlag.stale_reporting && has_flag HealthFlag.unavailable flags
    then HealthSeverity.incident
    else HealthSeverity.watch

-- `_confidence_for_primary`
unfoldable pub confidence_for_primary : HealthFlag → DeviceHealthContext → HealthConfidence
confidence_for_primary primary ctx =
    if same_flag primary HealthFlag.unavailable
    then HealthConfidence.high
    else if same_flag primary HealthFlag.low_battery
    then HealthConfidence.high
    else if same_flag primary HealthFlag.healthy
    then (if str_eq ctx.availability "unknown"
        then HealthConfidence.medium
        else HealthConfidence.high)
    else if same_flag primary HealthFlag.unknown
    then HealthConfidence.low
    else if same_flag primary HealthFlag.recently_unstable && leb 5 ctx.availability_change_count
    then HealthConfidence.high
    else HealthConfidence.medium

-- Whether the text of an item of evidence contains the word "inventory".
abbrev pub names_inventory : Evidence → Bool
names_inventory Evidence.in_inventory = true
names_inventory (Evidence.inventory_interview state) = true
names_inventory _ = false

-- Whether it contains the word "payload", in lower case.
abbrev pub names_payload : Evidence → Bool
names_payload Evidence.no_payload_yet = true
names_payload (Evidence.no_payload_for hours) = true
names_payload Evidence.recent_payload = true
names_payload _ = false

abbrev pub is_not_enough_history : Limitation → Bool
is_not_enough_history Limitation.not_enough_history = true
is_not_enough_history _ = false

abbrev pub is_availability_maybe_disabled : Limitation → Bool
is_availability_maybe_disabled Limitation.availability_maybe_disabled = true
is_availability_maybe_disabled _ = false

-- The block `if primary == HealthFlag.unknown`.
unfoldable pub note_unknown : Notes → Notes
note_unknown n =
    let healthy_off = filter (λ f. not (same_flag f HealthFlag.healthy)) n.flags in
    let evidence' =
      if any names_inventory n.evidence then n.evidence else Evidence.in_inventory ∷ n.evidence in
    let limitations' =
      if any is_availability_maybe_disabled n.limitations
      then n.limitations
      else n.limitations ++ Limitation.availability_maybe_disabled ∷ [] in
    record n {
      flags =
          if has_flag HealthFlag.unknown healthy_off
          then healthy_off
          else healthy_off ++ HealthFlag.unknown ∷ [];
      evidence =
          if any names_payload evidence'
          then evidence'
          else evidence' ++ Evidence.no_payload_yet ∷ [];
      limitations =
          if any is_not_enough_history limitations'
          then limitations'
          else limitations' ++ Limitation.not_enough_history ∷ [];
    }

-- What `classify_device` makes of the notes, once the checks have run.
unfoldable pub conclude : DeviceHealthContext → Notes → Findings → HealthResult
unfolding choose_primary note_unknown sorted_flags same_flag
conclude ctx noted r =
    let primary = choose_primary ctx noted.flags r in
    let n = if same_flag primary HealthFlag.unknown then note_unknown noted else noted in
    record {
      primary = primary;
      flags = sorted_flags (if is_empty n.flags then HealthFlag.unknown ∷ [] else n.flags);
      severity = severity_for_primary primary n.flags ctx;
      confidence = confidence_for_primary primary ctx;
      evidence = n.evidence;
      counter_evidence = n.counter;
      limitations = n.limitations;
    }

unfoldable pub classify_device :
    (String → Option ℕ) → DeviceHealthContext → DiagnosticsConfig → ℕ → HealthResult
unfolding conclude run_checks
classify_device parse ctx config now =
    let (noted, r) = run_checks parse ctx config now in conclude ctx noted r
