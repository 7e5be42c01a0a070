-- ===== src/Incident/Lifecycle.antt =====
-- diagnostics/incidents/lifecycle.py: `IncidentLifecycleManager`. Instants are microseconds; `none`
-- is an exception, on which the transaction is rolled back.
pub mod Stale
pub mod Effect
pub mod Moves
pub mod Transitions
pub mod Quiet
pub mod Coverage
mod Examples
use Prim.Native.String.{◌++◌ as str_append}
use zigbeelens.Common.{
  ℕ, suc, ◌+◌, ◌*◌, String, Bool, true, false, not, ◌&&◌, ◌||◌, Option, none, some, List, [], ◌∷◌,
  ◌++◌, map, leb, if◌then◌else◌, str_eq, any, filter, elem, is_empty,
}
use mathlib.Core.Option
use zigbeelens.Incident.Types.{
  Lifecycle, Severity, AffectedDevice, Candidate, Content, Row, DeviceRow, NetworkRow, EventName,
  Event, Tables, same_lifecycle, same_content,
}
use zigbeelens.Incident.Store.{
  Update, get_incident_by_dedup_key, insert_incident, update_incident,
  replace_incident_devices_and_networks, list_active_incidents,
}

-- What the manager is given: `datetime.isoformat` of an instant in UTC, `datetime.fromisoformat`
-- after the replacement of "Z", the ids that `uuid4` yields, and two fields of the configuration.
pub record Env : Type 0 where
  pub iso : ℕ → String
  pub from_iso : String → Option ℕ
  pub new_id : ℕ → String
  pub incident_watch_window_minutes : ℕ
  pub incident_resolution_grace_minutes : ℕ

-- The tables, the event names of this synchronisation, and the number of ids used up.
pub record Sync : Type 0 where
  pub tables : Tables
  pub events : List EventName
  pub used : ℕ

abbrev pub minute : ℕ
minute = 60_000_000

-- `_parse_ts`
unfoldable pub parse_ts : Env → String → Option ℕ
parse_ts env value = if str_eq value "" then none else env.from_iso value

-- `row.get("role") or "affected"`
abbrev role_of : String → String
role_of role = if str_eq role "" then "affected" else role

abbrev same_device : AffectedDevice → AffectedDevice → Bool
same_device a b =
    str_eq a.network_id b.network_id && str_eq a.ieee_address b.ieee_address && str_eq a.role b.role

abbrev all {ℓ} : {A : Type ℓ} → (A → Bool) → List A → Bool
all p [] = true
all p (x ∷ xs) = p x && all p xs

-- Sets are equal exactly when their sorted lists are.
unfoldable pub same_devices : List AffectedDevice → List AffectedDevice → Bool
same_devices xs ys =
    all (λ x. any (λ y. same_device x y) ys) xs && all (λ y. any (λ x. same_device x y) xs) ys

unfoldable pub same_set : List String → List String → Bool
same_set xs ys = all (λ x. elem x ys) xs && all (λ y. elem y xs) ys

-- `list_incident_devices`, with the roles as `_needs_update` reads them
unfoldable pub devices_of : String → Tables → List AffectedDevice
devices_of id t =
    map (λ s. record s.device { role = role_of s.device.role })
      (filter (λ s. str_eq s.incident_id id) t.incident_devices)

-- The network ids that `get_incident_by_dedup_key` loads beside the row.
unfoldable pub networks_of : String → Tables → List String
networks_of id t =
    map (λ s. s.network_id) (filter (λ s. str_eq s.incident_id id) t.incident_networks)

-- `_needs_update`
unfoldable pub needs_update : Tables → Row → Candidate → Bool
unfolding same_content same_devices same_set devices_of networks_of
needs_update t existing c = not (
    same_content c.content existing.content
    && same_devices c.affected_devices (devices_of existing.id t)
    && same_set c.network_ids (networks_of existing.id t))

abbrev first : List String → Option String
first [] = none
first (x ∷ xs) = some x

-- `candidate.network_ids[0] if candidate.network_ids else None`
unfoldable pub candidate_event : EventName → Candidate → String → String → String → String → Event
candidate_event name c title summary id ts = record {
  network_id = first c.network_ids;
  event_type = name;
  severity = c.content.severity;
  title = str_append title c.content.title;
  summary = summary;
  incident_id = id;
  occurred_at = ts;
}

-- `insert_event`
abbrev insert_event : Event → Tables → Tables
insert_event e t = record t { events = t.events ++ e ∷ [] }

abbrev raised : EventName → Event → Tables → Sync → Sync
raised name e t st = record st { tables = insert_event e t; events = st.events ++ name ∷ [] }

-- The update that an open incident takes from a candidate.
unfoldable pub opened_update : Candidate → String → Update
opened_update c ts = record {
  lifecycle_state = Lifecycle.opened;
  content = some c.content;
  resolved_at = some none;
  updated_at = ts;
}

-- The update and the replaced members, with the event that tells of them.
unfoldable pub refresh : Candidate → String → String → String → String → Sync → Option Sync
unfolding opened_update candidate_event
refresh c id title summary ts st =
    let t = record st.tables {
      incidents = update_incident id (opened_update c ts) st.tables.incidents;
    } in
    elim (replace_incident_devices_and_networks id c.affected_devices c.network_ids t) [
      | none ↦ none
      | some t' ↦ some (
          raised EventName.incident_updated
            (candidate_event EventName.incident_updated c title summary id ts) t' st)
    ]

-- `_reopen_incident`
unfoldable pub reopen_incident : Row → Candidate → String → Sync → Option Sync
reopen_incident existing c ts st =
    refresh c existing.id "Incident reopened: "
      "Underlying signal returned during the watch period." ts st

-- The row that `insert_incident` writes for a candidate.
unfoldable pub new_row : String → Candidate → String → Row
new_row id c ts = record {
  id = id;
  dedup_key = some c.dedup_key;
  incident_type = c.incident_type;
  lifecycle_state = Lifecycle.opened;
  content = c.content;
  opened_at = ts;
  updated_at = ts;
  resolved_at = none;
}

-- The branch of `sync` for a candidate with no active incident.
unfoldable pub open_incident : Env → Candidate → String → Sync → Option Sync
unfolding new_row candidate_event
open_incident env c ts st =
    let id = env.new_id st.used in
    elim (insert_incident (new_row id c ts) st.tables.incidents) [
      | none ↦ none
      | some rows ↦
          elim (replace_incident_devices_and_networks id c.affected_devices c.network_ids
            (record st.tables { incidents = rows })) [
              | none ↦ none
              | some t' ↦ some (
                  raised EventName.incident_opened
                    (candidate_event EventName.incident_opened c "Incident opened: "
                      c.content.summary id ts)
                    t' (record st { used = st.used + 1 }))
            ]
    ]

-- One round of the loop over the candidates.
unfoldable pub sync_candidate : Env → String → Candidate → Sync → Option Sync
sync_candidate env ts c st =
    if not c.active
    then some st
    else elim (get_incident_by_dedup_key c.dedup_key st.tables.incidents) [
      | none ↦ open_incident env c ts st
      | some existing ↦
          if not (same_lifecycle existing.lifecycle_state Lifecycle.opened)
          then reopen_incident existing c ts st
          else if needs_update st.tables existing c
          then refresh c existing.id "Incident updated: " c.content.summary ts st
          else some st
    ]

unfoldable pub sync_candidates : Env → String → List Candidate → Sync → Option Sync
sync_candidates env ts [] st = some st
sync_candidates env ts (c ∷ cs) st = elim (sync_candidate env ts c st) [
  | none ↦ none
  | some st' ↦ sync_candidates env ts cs st'
]

-- `{c.dedup_key for c in candidates if c.active}`
unfoldable pub active_keys : List Candidate → List String
active_keys cs = map (λ c. c.dedup_key) (filter (λ c. c.active) cs)

-- `candidates_by_key[key]`: the last active candidate with the key.
unfoldable pub candidate_by_key : String → List Candidate → Option Candidate
candidate_by_key key [] = none
candidate_by_key key (c ∷ cs) = elim (candidate_by_key key cs) [
  | some d ↦ some d
  | none ↦ if c.active && str_eq c.dedup_key key then some c else none
]

-- `dedup_key and dedup_key in active_keys`
unfoldable pub is_supported : List Candidate → Row → Bool
unfolding active_keys
is_supported cs row = elim row.dedup_key [
  | none ↦ false
  | some key ↦ not (str_eq key "") && elem key (active_keys cs)
]

-- An update of the lifecycle alone, with the event that tells of it.
unfoldable pub settle : Row → Update → EventName → Severity → String → String → String → Sync → Sync
settle row u name severity title summary ts st =
    raised name
      (record {
        network_id = none;
        event_type = name;
        severity = severity;
        title = str_append title row.content.title;
        summary = summary;
        incident_id = row.id;
        occurred_at = ts;
      })
      (record st.tables { incidents = update_incident row.id u st.tables.incidents }) st

unfoldable pub watch_update : String → Update
watch_update ts = record {
  lifecycle_state = Lifecycle.watching;
  content = none;
  resolved_at = none;
  updated_at = ts;
}

unfoldable pub resolve_update : String → Update
resolve_update ts = record {
  lifecycle_state = Lifecycle.resolved;
  content = none;
  resolved_at = some (some ts);
  updated_at = ts;
}

-- `now - updated_at >= watch_delta + grace_delta`
unfoldable pub is_settled : Env → ℕ → ℕ → Bool
is_settled env now since =
    leb
      (since
        + (env.incident_watch_window_minutes * minute
            + env.incident_resolution_grace_minutes * minute))
      now

-- The part of the loop of `_resolve_stale` for a row that no active candidate supports.
unfoldable pub fade : Env → ℕ → Row → Sync → Sync
unfolding settle watch_update resolve_update is_settled
fade env now row st = elim (parse_ts env row.updated_at) [
  | none ↦ st
  | some since ↦ elim row.lifecycle_state [
    | Lifecycle.opened ↦
        settle row (watch_update (env.iso now)) EventName.incident_updated Severity.watch
          "Incident watching: " "Underlying signal cleared; incident is being watched."
          (env.iso now) st
    | Lifecycle.watching ↦
        if is_settled env now since
        then settle row (resolve_update (env.iso now)) EventName.incident_resolved Severity.healthy
            "Incident resolved: " "Underlying signals cleared and watch window expired."
            (env.iso now) st
        else st
    | Lifecycle.resolved ↦ st
  ]
]

-- One round of the loop of `_resolve_stale`; a missing key of `candidates_by_key` raises.
unfoldable pub resolve_row : Env → List Candidate → ℕ → Row → Sync → Option Sync
unfolding is_supported
resolve_row env cs now row st =
    if is_supported cs row
    then (if same_lifecycle row.lifecycle_state Lifecycle.watching
        then elim row.dedup_key [
          | none ↦ none
          | some key ↦ elim (candidate_by_key key cs) [
            | none ↦ none
            | some c ↦ reopen_incident row c (env.iso now) st
          ]
        ]
        else some st)
    else some (fade env now row st)

unfoldable pub resolve_rows : Env → List Candidate → ℕ → List Row → Sync → Option Sync
resolve_rows env cs now [] st = some st
resolve_rows env cs now (r ∷ rs) st = elim (resolve_row env cs now r st) [
  | none ↦ none
  | some st' ↦ resolve_rows env cs now rs st'
]

-- `_resolve_stale`
unfoldable pub resolve_stale : Env → List Candidate → ℕ → Sync → Option Sync
unfolding resolve_rows
resolve_stale env cs now st = resolve_rows env cs now (list_active_incidents st.tables.incidents) st

-- `if events: events.append("incidents_updated")`
abbrev close : Sync → Sync
close st =
    if is_empty st.events
    then st
    else record st { events = st.events ++ EventName.incidents_updated ∷ [] }

-- The body of the transaction of `sync`.
unfoldable pub sync_body : Env → List Candidate → ℕ → Tables → ℕ → Option Sync
sync_body env cs now t used =
    elim (sync_candidates env (env.iso now) cs (record { tables = t; events = []; used = used })) [
      | none ↦ none
      | some st ↦ Option.map close (resolve_stale env cs now st)
    ]

-- `sync`: the tables after the transaction, and the event names, or `none` where it raises.
unfoldable pub sync : Env → List Candidate → ℕ → Tables → ℕ → Tables × Option (List EventName)
unfolding sync_body
sync env cs now t used = elim (sync_body env cs now t used) [
  | none ↦ (t, none)
  | some st ↦ (st.tables, some st.events)
]
