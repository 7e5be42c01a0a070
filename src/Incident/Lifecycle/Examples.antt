-- ===== src/Incident/Lifecycle/Examples.antt =====
-- A device goes offline, comes back, and its incident is resolved: the theorems at these
-- synchronisations. Instants print as one of two texts, and the watch and grace periods are short.
use zigbeelens.Common.{
  ℕ, ◌+◌, ◌*◌, ◌≤◌, String, ◌≡◌, refl, true, false, Option, none, some, List, [], ◌∷◌, inr, ltb,
  if◌then◌else◌, str_eq, eq_iff,
}
use zigbeelens.Incident.Types.{
  Lifecycle, IncidentType, Severity, Confidence, Scope, Content, Candidate, Row, Tables, EventName,
  same_lifecycle, same_content,
}
use zigbeelens.Incident.Store.{
  is_active, has_key, get_incident_by_dedup_key, insert_incident, update_incident,
  replace_incident_devices_and_networks, list_active_incidents,
}
use zigbeelens.Incident.Store.Rows.{find, HasUniqueIds}
use zigbeelens.Incident.Lifecycle.{
  Env, needs_update, minute, parse_ts, is_supported, active_keys, sync_candidate, sync_candidates,
  resolve_row, resolve_stale, sync, open_incident, fade,
}
use zigbeelens.Incident.Lifecycle.Transitions.{Moves, sync-Moves, sync_resolves_late}
use zigbeelens.Incident.Lifecycle.Coverage.{OpenFor, sync-OpenFor}
use zigbeelens.Incident.Lifecycle.Quiet.{sync_quiet}

abbrev env : Env
env = record {
  iso = λ t. if ltb t 100 then "early" else "late";
  from_iso = λ s. if str_eq s "early" then some 0 else if str_eq s "late" then some 100 else none;
  new_id = λ k. "inc-a";
  incident_watch_window_minutes = 30;
  incident_resolution_grace_minutes = 5;
}

abbrev content : Content
content = record {
  severity = Severity.incident;
  scope = Scope.device;
  confidence = Confidence.high;
  title = "Device unavailable";
  summary = "The device is offline.";
  explanation = "";
  evidence = "offline" ∷ [];
  counter_evidence = [];
  limitations = [];
}

abbrev offline : Candidate
offline = record {
  dedup_key = "bridge_offline:home";
  incident_type = IncidentType.bridge_offline;
  content = content;
  affected_devices = [];
  network_ids = "home" ∷ [];
  active = true;
}

abbrev no_tables : Tables
no_tables = record { incidents = []; incident_devices = []; incident_networks = []; events = [] }

-- Naming it opens all that a run computes with.
evaluate : Env → List Candidate → ℕ → Tables → ℕ → Tables × Option (List EventName)
unfolding sync sync_candidates sync_candidate open_incident get_incident_by_dedup_key
    insert_incident replace_incident_devices_and_networks resolve_stale list_active_incidents
    resolve_row active_keys same_lifecycle same_content fade update_incident parse_ts is_active
    has_key needs_update
evaluate = sync

abbrev opened : Tables
opened = (sync env (offline ∷ []) 0 no_tables 0).0

abbrev watched : Tables
watched = (sync env [] 0 opened 1).0

abbrev hour : ℕ
hour = 60 * minute

abbrev cleared : Tables
cleared = (sync env [] hour watched 1).0

abbrev row : Lifecycle → String → Option String → Row
row state updated_at resolved_at = record {
  id = "inc-a";
  dedup_key = some "bridge_offline:home";
  incident_type = IncidentType.bridge_offline;
  lifecycle_state = state;
  content = content;
  opened_at = "early";
  updated_at = updated_at;
  resolved_at = resolved_at;
}

opened_run :
    sync env (offline ∷ []) 0 no_tables 0
    ≡ (opened, some (EventName.incident_opened ∷ EventName.incidents_updated ∷ []))
unfolding evaluate
opened_run = refl

watched_run :
    sync env [] 0 opened 1
    ≡ (watched, some (EventName.incident_updated ∷ EventName.incidents_updated ∷ []))
unfolding evaluate
watched_run = refl

cleared_run :
    sync env [] hour watched 1
    ≡ (cleared, some (EventName.incident_resolved ∷ EventName.incidents_updated ∷ []))
unfolding evaluate
cleared_run = refl

watched_row : find "inc-a" watched.incidents ≡ some (row Lifecycle.watching "early" none)
unfolding find evaluate
watched_row = refl

cleared_row : find "inc-a" cleared.incidents ≡ some (row Lifecycle.resolved "late" (some "late"))
unfolding find evaluate
cleared_row = refl

watched-HasUniqueIds : HasUniqueIds watched.incidents
unfolding evaluate
watched-HasUniqueIds = (refl, tt)

sync-Moves_example :
    (r' : Row) × (find "inc-a" cleared.incidents ≡ some r')
    × Moves (row Lifecycle.watching "early" none) r'
sync-Moves_example =
    sync-Moves env [] hour watched cleared 1
      (EventName.incident_resolved ∷ EventName.incidents_updated ∷ []) cleared_run
      watched-HasUniqueIds "inc-a" (row Lifecycle.watching "early" none) watched_row

sync_resolves_late_example :
    (Lifecycle.watching ≡ Lifecycle.watching)
    × (is_supported [] (row Lifecycle.watching "early" none) ≡ false)
    × (since : ℕ) × (parse_ts env "early" ≡ some since)
    × (since + (30 * minute + 5 * minute) ≤ hour)
sync_resolves_late_example =
    sync_resolves_late env [] hour watched cleared 1
      (EventName.incident_resolved ∷ EventName.incidents_updated ∷ []) cleared_run
      watched-HasUniqueIds "inc-a" (row Lifecycle.watching "early" none)
      (row Lifecycle.resolved "late" (some "late")) watched_row cleared_row (λ e. cc) refl

sync-OpenFor_example : OpenFor "bridge_offline:home" opened.incidents
unfolding active_keys
sync-OpenFor_example =
    sync-OpenFor env (offline ∷ []) 0 no_tables opened 0
      (EventName.incident_opened ∷ EventName.incidents_updated ∷ []) opened_run tt
      "bridge_offline:home" refl (λ e. cc ((eq_iff "bridge_offline:home" "").1 e))

-- The candidate is there again and nothing about it is new.
quiet_run : sync env (offline ∷ []) 50 opened 1 ≡ (opened, some [])
unfolding evaluate
quiet_run = refl

sync_quiet_example : opened ≡ opened
sync_quiet_example = sync_quiet env (offline ∷ []) 50 opened opened 1 (inr quiet_run)
