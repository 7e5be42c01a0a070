-- ===== src/Maintenance/Result.antt =====
-- What the result of a cycle tells its readers (storage/maintenance.py).
pub mod Notices
use zigbeelens.Common.{
  ℕ, zero, suc, ◌+◌, String, Bool, true, false, ◌||◌, List, [], ◌∷◌, ◌++◌, any, ltb, str_eq,
  if◌then◌else◌,
}
use zigbeelens.Maintenance.Executor.{Telemetry, State}

-- `rows_deleted_by_category.get(name, 0)` of a table of telemetry
unfoldable pub deleted_from : String → List Telemetry → ℕ
deleted_from name [] = 0
deleted_from name (t ∷ ts) =
    let rest = deleted_from name ts in if str_eq t.table name then t.deleted else rest

-- `maintenance_evidence_changed`
unfoldable pub maintenance_evidence_changed : State → Bool
maintenance_evidence_changed s =
    any (λ t. ltb 0 t.deleted) s.telemetry
    || ltb 0 s.aged_deleted
    || ltb 0 s.over_cap_deleted
    || ltb 0 s.incidents_deleted
    || ltb 0 s.terminalized

abbrev pub event_if : Bool → String → List String
event_if b name = if b then name ∷ [] else []

-- `affected_invalidation_events`
unfoldable pub affected_invalidation_events : State → List String
unfolding deleted_from
affected_invalidation_events s =
    "storage_maintenance_completed" ∷ event_if (ltb 0 s.incidents_deleted) "incidents_updated"
    ++ event_if (ltb 0 s.reports_deleted) "reports_updated"
    ++ event_if (ltb 0 (deleted_from "events" s.telemetry)) "timeline_updated"
    ++ event_if (ltb 0 s.aged_deleted || ltb 0 s.over_cap_deleted || ltb 0 s.terminalized)
        "topology_updated"
