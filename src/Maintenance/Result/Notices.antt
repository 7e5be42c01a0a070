-- ===== src/Maintenance/Result/Notices.antt =====
-- Readers hear of what went.
use zigbeelens.Common.{
  ℕ, ◌<◌, ◌≡◌, ◌↔◌, refl, sym, ◌∙◌, String, Bool, true, false, ◌||◌, Option, some, List, ◌∷◌, ◌++◌,
  length, arith, ltb, elem,
}
use zigbeelens.Maintenance.Purge.{Fault}
use zigbeelens.Maintenance.Executor.{Plan, State, Database, start, execute_deletes}
use zigbeelens.Maintenance.Executor.Outcome.{Purged, AreKeyed, Outcome}
use zigbeelens.Maintenance.Executor.Outcome.Cycle.{execute_deletes-Outcome}
use zigbeelens.Maintenance.Result.{deleted_from, event_if, affected_invalidation_events}

-- The notices of five conditions.
notices : Bool → Bool → Bool → Bool → List String
notices incidents reports timeline topology =
    "storage_maintenance_completed" ∷ event_if incidents "incidents_updated"
    ++ event_if reports "reports_updated"
    ++ event_if timeline "timeline_updated"
    ++ event_if topology "topology_updated"

notices_told :
    (i r t o : Bool)
    → (elem "incidents_updated" (notices i r t o) ≡ i)
      × (elem "reports_updated" (notices i r t o) ≡ r)
unfolding notices
notices_told true true true true = (refl, refl)
notices_told true true true false = (refl, refl)
notices_told true true false true = (refl, refl)
notices_told true true false false = (refl, refl)
notices_told true false true true = (refl, refl)
notices_told true false true false = (refl, refl)
notices_told true false false true = (refl, refl)
notices_told true false false false = (refl, refl)
notices_told false true true true = (refl, refl)
notices_told false true true false = (refl, refl)
notices_told false true false true = (refl, refl)
notices_told false true false false = (refl, refl)
notices_told false false true true = (refl, refl)
notices_told false false true false = (refl, refl)
notices_told false false false true = (refl, refl)
notices_told false false false false = (refl, refl)

notices_tell :
    (plan : Plan) (s s' : State)
    → Outcome plan s s'
    → ((elem "incidents_updated" (affected_invalidation_events s') ≡ true)
        ↔ (length s'.incidents < length s.incidents))
      × ((elem "reports_updated" (affected_invalidation_events s') ≡ true)
          ↔ (length s'.reports < length s.reports))
unfolding affected_invalidation_events Purged notices
notices_tell plan s s' o =
    let told =
      notices_told (ltb 0 s'.incidents_deleted) (ltb 0 s'.reports_deleted)
        (ltb 0 (deleted_from "events" s'.telemetry))
        (ltb 0 s'.aged_deleted || ltb 0 s'.over_cap_deleted || ltb 0 s'.terminalized) in
    let incidents : (ltb 0 s'.incidents_deleted ≡ true)
        ↔ (length s'.incidents < length s.incidents) =
      ground (arith, o.incidents.0) in
    let reports : (ltb 0 s'.reports_deleted ≡ true) ↔ (length s'.reports < length s.reports) =
      ground (arith, o.reports.0) in
    (
      (λ h. incidents.0 (sym told.0 ∙ h), λ h. told.0 ∙ incidents.1 h),
      (λ h. reports.0 (sym told.1 ∙ h), λ h. told.1 ∙ reports.1 h),
    )

-- After a cycle over tables whose primary keys tell their rows apart, whichever transactions failed,
-- clients are told that incidents or reports changed exactly when rows of these tables are gone.
pub executed-notices :
    (plan : Plan) (faults : ℕ → Option Fault) (db : Database)
    → 0 < plan.batch_size
    → AreKeyed plan (start plan db)
    → (s : State) × (execute_deletes plan faults (start plan db) ≡ some s)
      × ((elem "incidents_updated" (affected_invalidation_events s) ≡ true)
          ↔ (length s.incidents < length db.incidents))
      × ((elem "reports_updated" (affected_invalidation_events s) ≡ true)
          ↔ (length s.reports < length db.reports))
executed-notices plan faults db positive keyed =
    let ended = execute_deletes-Outcome plan faults db positive keyed in
    let told = notices_tell plan (start plan db) ended.0 ended.2 in
    (ended.0, ended.1, told.0, told.1)
