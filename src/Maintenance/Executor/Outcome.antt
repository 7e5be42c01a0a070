-- ===== src/Maintenance/Executor/Outcome.antt =====
-- What a cycle of deletions is to do to a table.
pub mod Sweeping
pub mod Phases
pub mod Cycle
use zigbeelens.Common.{
  ℕ, ◌+◌, ◌≡◌, ◌≢◌, refl, String, Bool, true, false, not, ◌&&◌, Option, none, some, List, [], ◌∷◌,
  length, filter, arith, All, Each, sym, if◌then◌else◌,
}
use zigbeelens.Common.Filters.{filter-All}
use zigbeelens.Maintenance.Purge.{Table, Fault, Run}
use zigbeelens.Maintenance.Purge.Batches.{IsKeyed}
use zigbeelens.Maintenance.Purge.Loop.{IsPurged}
use zigbeelens.Maintenance.Tables.{
  Moment, Row, TopologySnapshot, IncidentRow, Report, is_older, is_resolved, telemetry_table,
  incident_table, report_table,
}
use zigbeelens.Maintenance.Executor.{Plan, Telemetry, Failure, State}

module _ {A : Type 0} where
  -- `deleted` rows are gone, all of them due, and all rows that were due if the cycle succeeded.
  unfoldable pub Purged : (A → Bool) → Type 0 → List A → List A → ℕ → Type 0
  Purged due Success before after deleted =
      (length after + deleted ≡ length before)
      × (filter (λ r. not (due r)) after ≡ filter (λ r. not (due r)) before)
      × (Success → after ≡ filter (λ r. not (due r)) before)

  pub Purged-failed :
      (due : A → Bool) (Success : Type 0) (rows : List A)
      → (Success → ⊥)
      → Purged due Success rows rows 0
  unfolding Purged
  Purged-failed due Success rows failed = (omega arith, refl, λ h. absurd (failed h))

  pub Purged-run :
      {K : Type 0} (t : Table A K) (due : A → Bool) (Success : Type 0) (rows : List A) (run : Run A)
      → IsPurged t due rows run
      → (Success → run.fault ≡ none)
      → Purged due Success rows run.rows run.deleted
  unfolding Purged IsPurged
  Purged-run t due Success rows run h ok = (h.0, h.1, λ s. h.2 (ok s))

  -- The same of lists and a count that are equal, under a stronger condition.
  pub Purged-moved :
      (due : A → Bool) (Success Success' : Type 0) (before before' after after' : List A) (d d' : ℕ)
      → (Success' → Success)
      → before' ≡ before
      → after' ≡ after
      → d' ≡ d
      → Purged due Success before after d
      → Purged due Success' before' after' d'
  unfolding Purged
  Purged-moved due Success Success' before before' after after' d d' weaker eb ea ed h =
      rw (eb, ea, ed) (h.0, h.1, λ s. h.2 (weaker s))

  always : (rows : List A) → All (λ r. ◌≡◌ {A = Bool} true true) rows
  always [] = tt
  always (r ∷ rows) = (refl, always rows)

  -- Nothing is due.
  pub Purged-nothing : (Success : Type 0) (rows : List A) → Purged (λ r. false) Success rows rows 0
  unfolding Purged
  Purged-nothing Success rows =
      (omega arith, refl, λ _. sym (filter-All (λ r. true) rows (always rows)))

-- What is due in a table of telemetry, in the incidents and in the reports.
unfoldable pub due_row : Plan → Bool → Row → Bool
due_row plan exists r = exists && is_older plan.telemetry_cutoff r.at

unfoldable pub due_incident : Option Moment → IncidentRow → Bool
due_incident none r = false
due_incident (some cutoff) r = is_resolved r.lifecycle_state && is_older cutoff r.resolved_at

unfoldable pub due_report : Option Moment → Report → Bool
due_report none r = false
due_report (some cutoff) r = is_older cutoff r.generated_at

-- A table of telemetry before and after.
unfoldable pub PurgedTable : Plan → Type 0 → Telemetry → Telemetry → Type 0
PurgedTable plan Success t t' =
    (t'.table ≡ t.table) × Purged (due_row plan t.exists) Success t.rows t'.rows t'.deleted

-- The primary keys tell the rows of each table apart.
pub record AreKeyed (plan : Plan) (s : State) : Type 0 where
  pub telemetry : All (λ t. IsKeyed (telemetry_table plan.telemetry_cutoff) t.rows) s.telemetry
  pub incidents : (cutoff : Moment) → IsKeyed (incident_table cutoff) s.incidents
  pub reports : (cutoff : Moment) → IsKeyed (report_table cutoff) s.reports

-- A cycle that began with `s` and ended with `s'`.
pub record Outcome (plan : Plan) (s s' : State) : Type 0 where
  pub telemetry : Each (PurgedTable plan (s'.failure ≡ none)) s.telemetry s'.telemetry
  pub incidents :
      Purged
        (due_incident plan.resolved_incident_cutoff)
        (s'.failure ≡ none)
        s.incidents
        s'.incidents
        s'.incidents_deleted
  pub reports :
      Purged
        (due_report plan.report_cutoff)
        (s'.failure ≡ none)
        s.reports
        s'.reports
        s'.reports_deleted
  pub snapshots : length s'.snapshots + s'.aged_deleted + s'.over_cap_deleted ≡ length s.snapshots
