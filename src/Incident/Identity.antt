-- ===== src/Incident/Identity.antt =====
-- What a rule of the correlator finds, and its lifecycle identity (diagnostics/incidents/models.py).
use Prim.Native.String.{◌++◌ as str_append}
use zigbeelens.Common.{String, true, List, [], ◌∷◌, map, sorted, add}
use zigbeelens.Incident.Types.{IncidentType, Severity, Confidence, Scope, AffectedDevice, Candidate}

-- `IncidentCandidate` without its texts and its key.
pub record Draft : Type 0 where
  pub incident_type : IncidentType
  pub severity : Severity
  pub scope : Scope
  pub confidence : Confidence
  pub affected_devices : List AffectedDevice
  pub network_ids : List String

-- The texts of a candidate, which the correlator words from what it found.
pub record Texts : Type 0 where
  pub title : String
  pub summary : String
  pub explanation : String
  pub evidence : List String
  pub counter_evidence : List String
  pub limitations : List String

-- The values of `IncidentType`.
unfoldable pub type_name : IncidentType → String
type_name IncidentType.single_device_unavailable = "single_device_unavailable"
type_name IncidentType.correlated_device_unavailability = "correlated_device_unavailability"
type_name IncidentType.bridge_offline = "bridge_offline"
type_name IncidentType.network_wide_instability = "network_wide_instability"
type_name IncidentType.multi_network_instability = "multi_network_instability"
type_name IncidentType.router_risk = "router_risk"
type_name IncidentType.stale_reporting_cluster = "stale_reporting_cluster"
type_name IncidentType.low_battery_cluster = "low_battery_cluster"
type_name IncidentType.interview_failure = "interview_failure"
type_name IncidentType.unknown_pattern = "unknown_pattern"

-- `set(xs)`
unfoldable pub set_of : List String → List String
set_of [] = []
set_of (x ∷ xs) = add x (set_of xs)

-- The first item, or "unknown".
abbrev pub first_or_unknown : List String → String
first_or_unknown [] = "unknown"
first_or_unknown (x ∷ xs) = x

-- `",".join(xs)`
unfoldable pub join_commas : List String → String
join_commas [] = ""
join_commas (x ∷ []) = x
join_commas (x ∷ y ∷ ys) = str_append x (str_append "," (join_commas (y ∷ ys)))

-- `_network_from_devices`
unfoldable pub network_from_devices : Draft → String
unfolding set_of
network_from_devices d =
    first_or_unknown (sorted (set_of (map (λ a. a.network_id) d.affected_devices)))

-- `_single_subject`
unfoldable pub single_subject : Draft → String
single_subject d = first_or_unknown (sorted (map (λ a. a.ieee_address) d.affected_devices))

-- `primary_network`
unfoldable pub primary_network : Draft → String
unfolding set_of network_from_devices
primary_network d = elim (sorted (set_of d.network_ids)) [
  | [] ↦ network_from_devices d
  | x ∷ xs ↦ x
]

-- What follows the type and a colon in the key.
unfoldable pub key_rest : IncidentType → Draft → String
unfolding primary_network single_subject join_commas
key_rest IncidentType.multi_network_instability d = join_commas (sorted (set_of d.network_ids))
key_rest IncidentType.single_device_unavailable d =
    str_append (primary_network d) (str_append ":" (single_subject d))
key_rest IncidentType.router_risk d =
    str_append (primary_network d) (str_append ":" (single_subject d))
key_rest _ d = primary_network d

-- `incident_identity_key`
unfoldable pub incident_identity_key : Draft → String
unfolding type_name key_rest
incident_identity_key d =
    str_append (type_name d.incident_type) (str_append ":" (key_rest d.incident_type d))

-- The candidate of a draft; `__post_init__` sets its key.
unfoldable pub candidate_of : (Draft → Texts) → Draft → Candidate
candidate_of word d = record {
  dedup_key = incident_identity_key d;
  incident_type = d.incident_type;
  content = record {
    severity = d.severity;
    scope = d.scope;
    confidence = d.confidence;
    title = (word d).title;
    summary = (word d).summary;
    explanation = (word d).explanation;
    evidence = (word d).evidence;
    counter_evidence = (word d).counter_evidence;
    limitations = (word d).limitations;
  };
  affected_devices = d.affected_devices;
  network_ids = d.network_ids;
  active = true;
}
