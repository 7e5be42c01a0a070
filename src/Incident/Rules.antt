-- ===== src/Incident/Rules.antt =====
-- The rules of `IncidentCorrelationEngine` (diagnostics/incidents/correlator.py). `percent u t` stands
-- for `int((u / t) * 100)` in binary floating point. The texts, and what the topology and Home
-- Assistant add to them, are left out.
use zigbeelens.Common.{
  ℕ, String, Bool, true, false, not, ◌&&◌, ◌||◌, Option, none, some, List, [], ◌∷◌, ◌++◌, map,
  filter, any, length, take, leb, ltb, ◌==◌, if◌then◌else◌, str_eq, sorted, is_empty,
}
use zigbeelens.Health.Types.{HealthFlag, HealthResult, same_flag}
use zigbeelens.Health.Device.{has_flag}
use zigbeelens.Health.Bridge.{BridgeHealthState}
use zigbeelens.Incident.Types.{IncidentType, Severity, Confidence, Scope, AffectedDevice}
use zigbeelens.Incident.Identity.{Draft}

-- The fields of `DeviceRow` that the rules read.
pub record Device : Type 0 where
  pub ieee_address : String
  pub device_type : String
  pub availability : String
  pub interview_state : String
  pub last_payload_at : Option String

-- `NetworkContext`; of `offline_cluster` the keys.
pub record NetworkContext : Type 0 where
  pub network_id : String
  pub bridge_state : String
  pub bridge_health_state : BridgeHealthState
  pub devices : List Device
  pub device_health : String → Option HealthResult
  pub offline_cluster : List String

-- The fields of the configuration that are read.
pub record Thresholds : Type 0 where
  pub correlated_min_devices : ℕ
  pub network_wide_min_devices : ℕ
  pub network_wide_device_percent : ℕ
  pub stale_cluster_min_devices : ℕ
  pub low_battery_cluster_min_devices : ℕ
  pub interview_failure_min_devices : ℕ

abbrev pub is_offline : Device → Bool
is_offline d = str_eq d.availability "offline"

abbrev pub offline_devices : NetworkContext → List Device
offline_devices ctx = filter is_offline ctx.devices

abbrev pub affected : NetworkContext → String → AffectedDevice
affected ctx ieee = record { network_id = ctx.network_id; ieee_address = ieee; role = "affected" }

-- `_offline_cluster`, of the addresses in the transitions since the cutoff.
unfoldable pub offline_cluster : List Device → List String → List String
offline_cluster devices transitions =
    filter (λ ieee. any (λ d. str_eq d.ieee_address ieee && is_offline d) devices) transitions

abbrev pub is_offline_state : BridgeHealthState → Bool
is_offline_state BridgeHealthState.offline = true
is_offline_state _ = false

abbrev pub is_stale_state : BridgeHealthState → Bool
is_stale_state BridgeHealthState.stale = true
is_stale_state _ = false

-- `bridge_offline`
abbrev pub has_offline_bridge : NetworkContext → Bool
has_offline_bridge ctx =
    str_eq ctx.bridge_state "offline" || is_offline_state ctx.bridge_health_state

-- The round of `_bridge_offline_rules` for one network.
unfoldable pub bridge_offline_rule : NetworkContext → List Draft
bridge_offline_rule ctx =
    let offline = has_offline_bridge ctx in
    if not offline && not (is_stale_state ctx.bridge_health_state)
    then []
    else record {
      incident_type = IncidentType.bridge_offline;
      severity = if offline then Severity.critical else Severity.watch;
      scope = Scope.network;
      confidence = if offline then Confidence.high else Confidence.medium;
      affected_devices = [];
      network_ids = ctx.network_id ∷ [];
    }
      ∷ []

abbrev pub concat_map {ℓ κ} : {A : Type ℓ} {B : Type κ} → (A → List B) → List A → List B
concat_map f [] = []
concat_map f (x ∷ xs) = f x ++ concat_map f xs

-- `_bridge_offline_rules`
unfoldable pub bridge_offline_rules : List NetworkContext → List Draft
unfolding bridge_offline_rule
bridge_offline_rules = concat_map bridge_offline_rule

-- The condition of `affected_networks`.
unfoldable pub is_affected : Thresholds → NetworkContext → Bool
is_affected cfg ctx =
    str_eq ctx.bridge_state "offline"
    || leb cfg.correlated_min_devices (length ctx.offline_cluster)
    || leb cfg.network_wide_min_devices (length (offline_devices ctx))

-- `_multi_network_rules`
unfoldable pub multi_network_rules : Thresholds → List NetworkContext → List Draft
unfolding is_affected
multi_network_rules cfg contexts =
    let networks = map (λ ctx. ctx.network_id) (filter (is_affected cfg) contexts) in
    if ltb (length networks) 2
    then []
    else record {
      incident_type = IncidentType.multi_network_instability;
      severity = Severity.incident;
      scope = Scope.multi_network;
      confidence = Confidence.medium;
      affected_devices = [];
      network_ids = networks;
    }
      ∷ []

-- `len(ctx.devices) or 1`
abbrev pub total_of : NetworkContext → ℕ
total_of ctx = if is_empty ctx.devices then 1 else length ctx.devices

abbrev pub percent_of : (ℕ → ℕ → ℕ) → NetworkContext → ℕ
percent_of percent ctx = percent (length (offline_devices ctx)) (total_of ctx)

-- `is_network_wide`
unfoldable pub is_network_wide : (ℕ → ℕ → ℕ) → Thresholds → NetworkContext → Bool
is_network_wide percent cfg ctx =
    leb cfg.network_wide_min_devices (length (offline_devices ctx))
    || (leb cfg.network_wide_min_devices (total_of ctx)
        && leb cfg.network_wide_device_percent (percent_of percent ctx))

abbrev pub draft :
    IncidentType → Severity → Scope → Confidence → List AffectedDevice → NetworkContext → Draft
draft t severity scope confidence devices ctx = record {
  incident_type = t;
  severity = severity;
  scope = scope;
  confidence = confidence;
  affected_devices = devices;
  network_ids = ctx.network_id ∷ [];
}

-- `[…cluster…] or […offline devices…]`
abbrev pub network_wide_devices : NetworkContext → List AffectedDevice
network_wide_devices ctx =
    if is_empty ctx.offline_cluster
    then map (λ d. affected ctx d.ieee_address) (offline_devices ctx)
    else map (affected ctx) ctx.offline_cluster

-- `_network_unavailability_rules`
unfoldable pub network_unavailability_rules : (ℕ → ℕ → ℕ) → Thresholds → NetworkContext → List Draft
unfolding is_network_wide
network_unavailability_rules percent cfg ctx =
    if has_offline_bridge ctx
    then []
    else if is_network_wide percent cfg ctx
    then draft IncidentType.network_wide_instability Severity.incident Scope.network
        (if leb cfg.network_wide_device_percent (percent_of percent ctx)
          then Confidence.high
          else Confidence.medium)
        (network_wide_devices ctx) ctx
      ∷ []
    else if leb cfg.correlated_min_devices (length ctx.offline_cluster)
    then draft IncidentType.correlated_device_unavailability Severity.incident Scope.mesh_segment
        Confidence.medium (map (affected ctx) (sorted ctx.offline_cluster)) ctx
      ∷ []
    else if length (offline_devices ctx) == 1
    then draft IncidentType.single_device_unavailable Severity.incident Scope.device Confidence.high
        (map (λ d. affected ctx d.ieee_address) (offline_devices ctx)) ctx
      ∷ []
    else []

-- Whether the health of a device has a flag.
abbrev pub is_flagged : NetworkContext → HealthFlag → Device → Bool
is_flagged ctx f d = elim (ctx.device_health d.ieee_address) [
  | none ↦ false
  | some h ↦ has_flag f h.flags
]

-- `_router_risk_rules`
unfoldable pub router_risk_rules : NetworkContext → List Draft
router_risk_rules ctx =
    if str_eq ctx.bridge_state "offline"
    then []
    else map
        (λ d.
          draft IncidentType.router_risk
            (if is_flagged ctx HealthFlag.unavailable d then Severity.incident else Severity.watch)
            Scope.router_candidate Confidence.medium
            (record (affected ctx d.ieee_address) { role = "router_candidate" } ∷ []) ctx)
        (filter (λ d. str_eq d.device_type "Router" && is_flagged ctx HealthFlag.router_risk d)
          ctx.devices)

abbrev pub with_flag : NetworkContext → HealthFlag → List Device
with_flag ctx f = filter (is_flagged ctx f) ctx.devices

abbrev pub all_affected : NetworkContext → List Device → List AffectedDevice
all_affected ctx = map (λ d. affected ctx d.ieee_address)

abbrev pub has_failed : Device → Bool
has_failed d = str_eq d.interview_state "failed"

-- The three parts of `_cluster_rules`.
unfoldable pub stale_rule : Thresholds → NetworkContext → List Draft
stale_rule cfg ctx =
    let stale = with_flag ctx HealthFlag.stale_reporting in
    if leb cfg.stale_cluster_min_devices (length stale)
    then draft IncidentType.stale_reporting_cluster Severity.watch
        (if leb cfg.network_wide_min_devices (length stale)
          then Scope.network
          else Scope.mesh_segment)
        Confidence.medium (all_affected ctx stale) ctx
      ∷ []
    else []

unfoldable pub low_battery_rule : Thresholds → NetworkContext → List Draft
low_battery_rule cfg ctx =
    let low = with_flag ctx HealthFlag.low_battery in
    if leb cfg.low_battery_cluster_min_devices (length low)
    then draft IncidentType.low_battery_cluster Severity.watch Scope.network Confidence.high
        (all_affected ctx low) ctx
      ∷ []
    else []

unfoldable pub interview_rule : Thresholds → NetworkContext → List Draft
interview_rule cfg ctx =
    let interview = with_flag ctx HealthFlag.interview_issue in
    let failed = any has_failed interview in
    if leb cfg.interview_failure_min_devices (length interview)
      || ((length interview == 1) && failed)
    then draft IncidentType.interview_failure (if failed then Severity.incident else Severity.watch)
        (if ltb 1 (length interview) then Scope.network else Scope.device)
        (if failed then Confidence.high else Confidence.medium) (all_affected ctx interview) ctx
      ∷ []
    else []

-- `_cluster_rules`
unfoldable pub cluster_rules : Thresholds → NetworkContext → List Draft
unfolding stale_rule low_battery_rule interview_rule
cluster_rules cfg ctx =
    if str_eq ctx.bridge_state "offline"
    then []
    else stale_rule cfg ctx ++ (low_battery_rule cfg ctx ++ interview_rule cfg ctx)

-- `not d.last_payload_at`
abbrev pub has_no_payload : Device → Bool
has_no_payload d = elim d.last_payload_at [ none ↦ true | some s ↦ str_eq s "" ]

abbrev pub is_ambiguous : NetworkContext → Device → Bool
is_ambiguous ctx d = elim (ctx.device_health d.ieee_address) [
  | none ↦ false
  | some h ↦
      same_flag h.primary HealthFlag.unknown && str_eq d.availability "unknown" && has_no_payload d
]

-- `_unknown_rules`
unfoldable pub unknown_rules : NetworkContext → List Draft
unknown_rules ctx =
    let ambiguous = filter (is_ambiguous ctx) ctx.devices in
    if ltb (length ambiguous) 2
    then []
    else draft IncidentType.unknown_pattern Severity.watch Scope.unknown Confidence.low
        (all_affected ctx (take 5 ambiguous)) ctx
      ∷ []
