-- ===== src/Incident/Types.antt =====
-- diagnostics/incidents/models.py, and the rows of the incident tables (storage/repository.py,
-- db/migrations/001_initial.sql, 004_incidents.sql and 011_incident_networks.sql). A JSON column
-- holds the list that it encodes.
use zigbeelens.Common.{String, Bool, true, false, Option, List, [], str_eq, ◌&&◌, ◌∷◌}

pub data IncidentType : Type 0 where
  single_device_unavailable correlated_device_unavailability bridge_offline : IncidentType
  network_wide_instability multi_network_instability router_risk : IncidentType
  stale_reporting_cluster low_battery_cluster interview_failure unknown_pattern : IncidentType

-- `IncidentLifecycle`; `open` is a reserved word.
pub data Lifecycle : Type 0 where
  opened watching resolved : Lifecycle

pub data Severity : Type 0 where
  healthy watch incident critical : Severity

pub data Confidence : Type 0 where
  low medium high : Confidence

pub data Scope : Type 0 where
  device router_candidate mesh_segment network multi_network unknown : Scope

pub record AffectedDevice : Type 0 where
  pub network_id : String
  pub ieee_address : String
  pub role : String

-- The nine fields that an update of an incident takes over from a candidate, all or none.
pub record Content : Type 0 where
  pub severity : Severity
  pub scope : Scope
  pub confidence : Confidence
  pub title : String
  pub summary : String
  pub explanation : String
  pub evidence : List String
  pub counter_evidence : List String
  pub limitations : List String

pub record Candidate : Type 0 where
  pub dedup_key : String
  pub incident_type : IncidentType
  pub content : Content
  pub affected_devices : List AffectedDevice
  pub network_ids : List String
  pub active : Bool

-- A row of `incidents`.
pub record Row : Type 0 where
  pub id : String
  pub dedup_key : Option String
  pub incident_type : IncidentType
  pub lifecycle_state : Lifecycle
  pub content : Content
  pub opened_at : String
  pub updated_at : String
  pub resolved_at : Option String

-- A row of `incident_devices`.
pub record DeviceRow : Type 0 where
  pub incident_id : String
  pub device : AffectedDevice

-- A row of `incident_networks`.
pub record NetworkRow : Type 0 where
  pub incident_id : String
  pub network_id : String

pub data EventName : Type 0 where
  incident_opened incident_updated incident_resolved incidents_updated : EventName

-- A row of `events`, as the lifecycle writes it; its own id is a fresh UUID that nothing reads.
pub record Event : Type 0 where
  pub network_id : Option String
  pub event_type : EventName
  pub severity : Severity
  pub title : String
  pub summary : String
  pub incident_id : String
  pub occurred_at : String

pub record Tables : Type 0 where
  pub incidents : List Row
  pub incident_devices : List DeviceRow
  pub incident_networks : List NetworkRow
  pub events : List Event

unfoldable pub same_lifecycle : Lifecycle → Lifecycle → Bool
same_lifecycle Lifecycle.opened Lifecycle.opened = true
same_lifecycle Lifecycle.watching Lifecycle.watching = true
same_lifecycle Lifecycle.resolved Lifecycle.resolved = true
same_lifecycle _ _ = false

unfoldable pub same_severity : Severity → Severity → Bool
same_severity Severity.healthy Severity.healthy = true
same_severity Severity.watch Severity.watch = true
same_severity Severity.incident Severity.incident = true
same_severity Severity.critical Severity.critical = true
same_severity _ _ = false

unfoldable pub same_confidence : Confidence → Confidence → Bool
same_confidence Confidence.low Confidence.low = true
same_confidence Confidence.medium Confidence.medium = true
same_confidence Confidence.high Confidence.high = true
same_confidence _ _ = false

unfoldable pub same_scope : Scope → Scope → Bool
same_scope Scope.device Scope.device = true
same_scope Scope.router_candidate Scope.router_candidate = true
same_scope Scope.mesh_segment Scope.mesh_segment = true
same_scope Scope.network Scope.network = true
same_scope Scope.multi_network Scope.multi_network = true
same_scope Scope.unknown Scope.unknown = true
same_scope _ _ = false

unfoldable pub same_texts : List String → List String → Bool
same_texts [] [] = true
same_texts (a ∷ as') (b ∷ bs) = str_eq a b && same_texts as' bs
same_texts _ _ = false

-- Equality of the nine fields.
unfoldable pub same_content : Content → Content → Bool
unfolding same_severity same_scope same_confidence same_texts
same_content a b =
    str_eq a.title b.title
    && str_eq a.summary b.summary
    && same_severity a.severity b.severity
    && same_scope a.scope b.scope
    && same_confidence a.confidence b.confidence
    && str_eq a.explanation b.explanation
    && same_texts a.evidence b.evidence
    && same_texts a.counter_evidence b.counter_evidence
    && same_texts a.limitations b.limitations
