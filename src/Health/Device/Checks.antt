-- ===== src/Health/Device/Checks.antt =====
-- The checks of diagnostics/device_health.py, in the order of `classify_device`.
use zigbeelens.Common.{
  ℕ, ◌+◌, ◌-◌, ◌*◌, ◌/◌, String, Bool, true, false, not, ◌&&◌, ◌||◌, Option, none, some, List, [],
  ◌∷◌, ◌++◌, ltb, leb, ◌==◌, if◌then◌else◌, is_empty, str_eq,
}
use zigbeelens.Health.Types.{
  HealthFlag, Issue, Evidence, Counter, Limitation, DeviceHealthContext, DiagnosticsConfig,
}

-- The four lists that `classify_device` hands to every check.
pub record Notes : Type 0 where
  pub flags : List HealthFlag
  pub evidence : List Evidence
  pub counter : List Counter
  pub limitations : List Limitation

abbrev pub nothing : Notes
nothing = record { flags = []; evidence = []; counter = []; limitations = [] }

-- What the checks answer.
pub record Findings : Type 0 where
  pub unavailable : Bool
  pub unstable : Bool
  pub interview : Bool
  pub stale : Bool
  pub weak : Bool
  pub low_bat : Bool
  pub router : Bool
  pub healthy : Bool

-- `if value:` for a text that may be `None`
abbrev pub is_given : Option String → Bool
is_given none = false
is_given (some s) = not (str_eq s "")

abbrev pub hour : ℕ
hour = 3_600_000_000

abbrev note : HealthFlag → List Evidence → List Limitation → Notes → Notes
note flag evidence limitations n = record n {
  flags = n.flags ++ flag ∷ [];
  evidence = n.evidence ++ evidence;
  limitations = n.limitations ++ limitations;
}

unfoldable pub check_unavailable : DeviceHealthContext → Notes → Notes × Bool
check_unavailable ctx n =
    if str_eq ctx.availability "offline"
    then (let t =
          note HealthFlag.unavailable (Evidence.availability_offline ∷ [])
            (Limitation.availability_when_enabled ∷ []) n in
        (
          if is_given ctx.last_payload_at
              then record t { counter = t.counter ++ Counter.intermittent_reporting ∷ [] }
              else t,
          true,
        ))
    else (n, false)

unfoldable pub check_unstable : DeviceHealthContext → DiagnosticsConfig → Notes → Notes × Bool
check_unstable ctx config n =
    if leb config.flapping_threshold ctx.availability_change_count
    then (
      note HealthFlag.recently_unstable
          (Evidence.availability_changed ctx.availability_change_count
              config.recently_unstable_window_hours
            ∷ [])
          (Limitation.instability_cause ∷ []) n,
      true,
    )
    else (n, false)

unfoldable pub check_interview : DeviceHealthContext → Notes → Notes × Bool
check_interview ctx n =
    if str_eq ctx.interview_state "failed" || str_eq ctx.interview_state "in_progress"
    then (
      note HealthFlag.interview_issue (Evidence.inventory_interview ctx.interview_state ∷ [])
          (Limitation.interview_from_inventory ∷ []) n,
      true,
    )
    else if str_eq ctx.interview_state "unknown" && not (is_given ctx.last_payload_at)
    then (n, false)
    else (n, false)

-- `_parse_ts`
abbrev pub parse_ts : (String → Option ℕ) → Option String → Option ℕ
parse_ts parse none = none
parse_ts parse (some s) = if str_eq s "" then none else parse s

-- `_parse_ts(ctx.last_payload_at) or _parse_ts(ctx.last_seen)`
unfoldable pub last_heard : (String → Option ℕ) → DeviceHealthContext → Option ℕ
last_heard parse ctx = elim (parse_ts parse ctx.last_payload_at) [
  | some ts ↦ some ts
  | none ↦ parse_ts parse ctx.last_seen
]

unfoldable pub stale_threshold_hours : DeviceHealthContext → DiagnosticsConfig → ℕ
stale_threshold_hours ctx config =
    if str_eq ctx.device_type "Router" || str_eq ctx.power_source "Mains"
    then config.mains_stale_after_hours
    else if str_eq ctx.power_source "Battery"
    then config.battery_stale_after_hours
    else config.stale_after_hours

abbrev stale_since : Option ℕ → ℕ → ℕ → Notes → Notes × Bool
stale_since none hours now n = (n, false)
stale_since (some ts) hours now n =
    if ltb (ts + hours * hour) now
    then (
      note HealthFlag.stale_reporting
          (Evidence.no_payload_for ((now - ts) / hour) ∷ Evidence.stale_threshold hours ∷ [])
          (Limitation.sleepy_by_design ∷ []) n,
      true,
    )
    else (n, false)

unfoldable pub check_stale :
    (String → Option ℕ) → DeviceHealthContext → DiagnosticsConfig → ℕ → Notes → Notes × Bool
check_stale parse ctx config now n =
    stale_since (last_heard parse ctx) (stale_threshold_hours ctx config) now n

abbrev weak_reading : Option ℕ → ℕ → Notes → Notes × Bool
weak_reading none threshold n = (n, false)
weak_reading (some linkquality) threshold n =
    if leb linkquality threshold
    then (
      note HealthFlag.weak_link (Evidence.linkquality_below linkquality threshold ∷ [])
          (Limitation.single_reading ∷ []) n,
      true,
    )
    else (n, false)

unfoldable pub check_weak_link : DeviceHealthContext → DiagnosticsConfig → Notes → Notes × Bool
check_weak_link ctx config n = weak_reading ctx.linkquality config.weak_link_threshold n

abbrev low_reading : Option ℕ → ℕ → Notes → Notes × Bool
low_reading none threshold n = (n, false)
low_reading (some battery) threshold n =
    if leb battery threshold
    then (
      note HealthFlag.low_battery (Evidence.battery_below battery threshold ∷ [])
          (Limitation.battery_unreliable ∷ []) n,
      true,
    )
    else (n, false)

unfoldable pub check_low_battery : DeviceHealthContext → DiagnosticsConfig → Notes → Notes × Bool
check_low_battery ctx config n = low_reading ctx.battery config.low_battery_percent n

abbrev when : Bool → Issue → List Issue
when b i = if b then i ∷ [] else []

abbrev router_evidence : Option ℕ → List Evidence
router_evidence none = []
router_evidence (some links) = if links == 0 then [] else Evidence.topology_links links ∷ []

-- `if getattr(ctx, "topology_linked_devices", None)`
abbrev router_limitation : Option ℕ → Limitation
router_limitation none = Limitation.routing_without_topology
router_limitation (some links) =
    if links == 0 then Limitation.routing_without_topology else Limitation.routing_from_snapshot

unfoldable pub check_router_risk :
    DeviceHealthContext → (unavailable unstable weak stale low_bat : Bool) → Notes → Notes × Bool
check_router_risk ctx unavailable unstable weak stale low_bat n =
    let issues =
      when unavailable Issue.unavailable
      ++ (when unstable Issue.recently_unstable
          ++ (when weak Issue.weak_link
              ++ (when stale Issue.stale_reporting ++ when low_bat Issue.low_battery))) in
    if not (str_eq ctx.device_type "Router")
    then (n, false)
    else if is_empty issues
    then (n, false)
    else (
      note HealthFlag.router_risk
          (Evidence.zigbee_router
            ∷ Evidence.router_signals issues
            ∷ router_evidence ctx.topology_linked_devices)
          (router_limitation ctx.topology_linked_devices ∷ []) n,
      true,
    )

abbrev evidence_if : Bool → Evidence → List Evidence
evidence_if b e = if b then e ∷ [] else []

abbrev is_known : Option ℕ → Bool
is_known none = false
is_known (some v) = true

unfoldable pub has_signal : DeviceHealthContext → Bool
has_signal ctx =
    is_given ctx.last_payload_at || is_given ctx.last_seen || str_eq ctx.availability "online"

unfoldable pub check_healthy :
    DeviceHealthContext
    → (unavailable unstable interview stale weak low_bat : Bool) → Notes
    → Notes × Bool
unfolding has_signal
check_healthy ctx unavailable unstable interview stale weak low_bat n =
    if unavailable || unstable || interview || stale || weak || low_bat
    then (n, false)
    else if not (has_signal ctx)
    then (n, false)
    else let online = str_eq ctx.availability "online" in
      (
        note HealthFlag.healthy
            (evidence_if (is_given ctx.last_payload_at || is_given ctx.last_seen)
                Evidence.recent_payload
              ++ (evidence_if online Evidence.availability_online
                  ++ (evidence_if (is_known ctx.battery) Evidence.battery_above
                      ++ (evidence_if (is_known ctx.linkquality) Evidence.linkquality_above
                          ++ Evidence.no_recent_changes ∷ []))))
            (if not online && str_eq ctx.availability "unknown"
              then Limitation.availability_not_known ∷ []
              else [])
            n,
        true,
      )

-- The eight checks one after the other.
unfoldable pub run_checks :
    (String → Option ℕ) → DeviceHealthContext → DiagnosticsConfig → ℕ → Notes × Findings
run_checks parse ctx config now =
    let (n1, unavailable) = check_unavailable ctx nothing in
    let (n2, unstable) = check_unstable ctx config n1 in
    let (n3, interview) = check_interview ctx n2 in
    let (n4, stale) = check_stale parse ctx config now n3 in
    let (n5, weak) = check_weak_link ctx config n4 in
    let (n6, low_bat) = check_low_battery ctx config n5 in
    let (n7, router) = check_router_risk ctx unavailable unstable weak stale low_bat n6 in
    let (n8, healthy) = check_healthy ctx unavailable unstable interview stale weak low_bat n7 in
    (
      n8,
      record {
        unavailable = unavailable;
        unstable = unstable;
        interview = interview;
        stale = stale;
        weak = weak;
        low_bat = low_bat;
        router = router;
        healthy = healthy;
      },
    )
