-- ===== src/Incident/Priority.antt =====
-- `_apply_priority` of diagnostics/incidents/correlator.py.
pub mod Suppression
pub mod Fates
use zigbeelens.Common.{
  ℕ, String, Bool, true, false, not, ◌&&◌, ◌||◌, List, [], ◌∷◌, ◌++◌, map, if◌then◌else◌, str_eq,
  leb, any, elem, is_empty,
}
use zigbeelens.Common.Order.{sort_with}
use zigbeelens.Incident.Types.{IncidentType, AffectedDevice}
use zigbeelens.Incident.Identity.{Draft}

-- `INCIDENT_PRIORITY.index(…)`
unfoldable pub priority : IncidentType → ℕ
priority IncidentType.bridge_offline = 0
priority IncidentType.multi_network_instability = 1
priority IncidentType.network_wide_instability = 2
priority IncidentType.correlated_device_unavailability = 3
priority IncidentType.single_device_unavailable = 4
priority IncidentType.router_risk = 5
priority IncidentType.stale_reporting_cluster = 6
priority IncidentType.interview_failure = 7
priority IncidentType.low_battery_cluster = 8
priority IncidentType.unknown_pattern = 9

abbrev pub is_bridge_offline : IncidentType → Bool
is_bridge_offline IncidentType.bridge_offline = true
is_bridge_offline _ = false

-- Kept on a suppressed network.
abbrev pub outlives_suppression : IncidentType → Bool
outlives_suppression IncidentType.bridge_offline = true
outlives_suppression IncidentType.multi_network_instability = true
outlives_suppression _ = false

-- Kept where its devices are explained.
abbrev pub outlives_explanation : IncidentType → Bool
outlives_explanation IncidentType.router_risk = true
outlives_explanation IncidentType.stale_reporting_cluster = true
outlives_explanation IncidentType.low_battery_cluster = true
outlives_explanation IncidentType.interview_failure = true
outlives_explanation _ = false

-- Explains its devices.
abbrev pub explains : IncidentType → Bool
explains IncidentType.network_wide_instability = true
explains IncidentType.correlated_device_unavailability = true
explains IncidentType.single_device_unavailable = true
explains _ = false

-- A pair of a network and an address; equality of such pairs.
abbrev pub same_key : AffectedDevice → AffectedDevice → Bool
same_key a b = str_eq a.network_id b.network_id && str_eq a.ieee_address b.ieee_address

abbrev pub has_key : AffectedDevice → List AffectedDevice → Bool
has_key a = any (λ b. same_key b a)

abbrev pub all_in : List AffectedDevice → List AffectedDevice → Bool
all_in [] ys = true
all_in (x ∷ xs) ys = has_key x ys && all_in xs ys

-- `any(nid in suppressed_networks for nid in candidate.network_ids)`
abbrev pub shares_network : List String → List String → Bool
shares_network ids suppressed = any (λ id. elem id suppressed) ids

-- `suppressed_networks` after the candidate.
unfoldable pub suppress : List String → Draft → List String
suppress suppressed d =
    if is_bridge_offline d.incident_type then d.network_ids ++ suppressed else suppressed

-- Whether the loop passes the candidate over.
unfoldable pub is_passed_over : List String → List AffectedDevice → Draft → Bool
is_passed_over suppressed explained d =
    (shares_network d.network_ids suppressed && not (outlives_suppression d.incident_type))
    || (not (is_empty d.affected_devices)
        && all_in d.affected_devices explained
        && not (outlives_explanation d.incident_type))

-- `explained_devices` after a candidate that is selected.
unfoldable pub explain : List AffectedDevice → Draft → List AffectedDevice
explain explained d =
    if explains d.incident_type then d.affected_devices ++ explained else explained

-- The loop of `_apply_priority`.
unfoldable pub select : List String → List AffectedDevice → List Draft → List Draft
unfolding suppress is_passed_over explain
select suppressed explained [] = []
select suppressed explained (d ∷ ds) =
    let s = suppress suppressed d in
    let skip = select s explained ds in
    let keep = select s (explain explained d) ds in
    if is_passed_over s explained d then skip else d ∷ keep

-- The order of `key=lambda c: c.priority`.
unfoldable pub is_earlier : Draft → Draft → Bool
unfolding priority
is_earlier a b = leb (priority a.incident_type) (priority b.incident_type)

-- `_apply_priority`
unfoldable pub apply_priority : List Draft → List Draft
unfolding select is_earlier
apply_priority drafts = select [] [] (sort_with is_earlier drafts)
