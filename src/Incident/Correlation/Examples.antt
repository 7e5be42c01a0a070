-- ===== src/Incident/Correlation/Examples.antt =====
-- A network whose bridge is offline beside a device that is: one incident, for the bridge.
use Prim.Native.String.{◌++◌ as str_append}
use zigbeelens.Common.{
  ℕ, ◌≡◌, refl, Option, none, some, List, [], ◌∷◌, ltb, if◌then◌else◌, All, inl, map,
}
use zigbeelens.Health.Bridge.{BridgeHealthState}
use zigbeelens.Incident.Types.{IncidentType, Candidate, Tables, EventName, same_lifecycle}
use zigbeelens.Incident.Store.{
  get_incident_by_dedup_key, insert_incident, replace_incident_devices_and_networks,
  list_active_incidents, has_key, is_active,
}
use zigbeelens.Incident.Lifecycle.{
  Env, sync, sync_candidates, sync_candidate, open_incident, resolve_stale, resolve_row,
  active_keys,
}
use zigbeelens.Incident.Lifecycle.Coverage.{OpenFor}
use zigbeelens.Incident.Identity.{Draft, Texts, candidate_of, incident_identity_key}
use zigbeelens.Incident.Priority.Suppression.{IsApart}
use zigbeelens.Incident.Priority.Fates.{Fate}
use zigbeelens.Common.Order.{sort_with}
use zigbeelens.Incident.Priority.{apply_priority}
use zigbeelens.Incident.Rules.{
  Device, NetworkContext, Thresholds, bridge_offline_rules, multi_network_rules,
  network_unavailability_rules, router_risk_rules, cluster_rules, unknown_rules,
}
use zigbeelens.Incident.Correlation.{
  raw_candidates, correlate, correlate_and_sync, evaluate-OpenFor, correlate-Fate,
}

abbrev lamp : Device
lamp = record {
  ieee_address = "0xa";
  device_type = "Router";
  availability = "offline";
  interview_state = "successful";
  last_payload_at = none;
}

abbrev home : NetworkContext
home = record {
  network_id = "home";
  bridge_state = "offline";
  bridge_health_state = BridgeHealthState.offline;
  devices = lamp ∷ [];
  device_health = λ ieee. none;
  offline_cluster = "0xa" ∷ [];
}

abbrev barn : NetworkContext
barn = record home {
  network_id = "barn";
  bridge_state = "online";
  bridge_health_state = BridgeHealthState.online;
}

abbrev thresholds : Thresholds
thresholds = record {
  correlated_min_devices = 3;
  network_wide_min_devices = 5;
  network_wide_device_percent = 30;
  stale_cluster_min_devices = 3;
  low_battery_cluster_min_devices = 3;
  interview_failure_min_devices = 2;
}

abbrev percent : ℕ → ℕ → ℕ
percent u t = 0

abbrev word : Draft → Texts
word d = record {
  title = "t";
  summary = "s";
  explanation = "";
  evidence = [];
  counter_evidence = [];
  limitations = [];
}

abbrev env : Env
env = record {
  iso = λ t. if ltb t 100 then "early" else "late";
  from_iso = λ s. some 0;
  new_id = λ k. if ltb k 1 then "inc-a" else "inc-b";
  incident_watch_window_minutes = 30;
  incident_resolution_grace_minutes = 5;
}

abbrev no_tables : Tables
no_tables = record { incidents = []; incident_devices = []; incident_networks = []; events = [] }

-- Naming it opens all that a correlation computes with.
correlate_all : (ℕ → ℕ → ℕ) → Thresholds → List NetworkContext → List Draft
unfolding correlate apply_priority sort_with bridge_offline_rules multi_network_rules
    network_unavailability_rules router_risk_rules cluster_rules unknown_rules
correlate_all = correlate

-- Naming it opens all that an evaluation computes with.
evaluate : Env → List Candidate → ℕ → Tables → ℕ → Tables × Option (List EventName)
unfolding correlate_all correlate_and_sync candidate_of incident_identity_key sync sync_candidates
    sync_candidate open_incident get_incident_by_dedup_key insert_incident
    replace_incident_devices_and_networks resolve_stale list_active_incidents resolve_row
    active_keys same_lifecycle has_key is_active
evaluate = sync

-- The bridge of one network, and the device of the other.
two_types :
    map (λ d. d.incident_type) (correlate percent thresholds (home ∷ barn ∷ []))
    ≡ IncidentType.bridge_offline ∷ IncidentType.single_device_unavailable ∷ []
unfolding correlate_all
two_types = refl

correlate-Fate_example :
    IsApart (correlate percent thresholds (home ∷ barn ∷ []))
    × All
        (Fate
          (raw_candidates percent thresholds (home ∷ barn ∷ []))
          (correlate percent thresholds (home ∷ barn ∷ [])))
        (raw_candidates percent thresholds (home ∷ barn ∷ []))
correlate-Fate_example = correlate-Fate percent thresholds (home ∷ barn ∷ [])

abbrev outcome : Tables × Option (List EventName)
outcome = correlate_and_sync percent thresholds word env (home ∷ barn ∷ []) 5 no_tables 0

three_events : outcome ≡ (
  outcome.0,
  some (EventName.incident_opened ∷ EventName.incident_opened ∷ EventName.incidents_updated ∷ []),
)
unfolding evaluate
three_events = refl

evaluate-OpenFor_example :
    OpenFor (str_append "bridge_offline" (str_append ":" "home")) outcome.0.incidents
evaluate-OpenFor_example =
    evaluate-OpenFor percent thresholds word env (home ∷ barn ∷ []) 5 no_tables outcome.0 0
      (EventName.incident_opened ∷ EventName.incident_opened ∷ EventName.incidents_updated ∷ [])
      home three_events tt (inl refl) refl
