-- ===== src/Maintenance/Executor/Outcome/Cycle.antt =====
-- A whole cycle of deletions.
use zigbeelens.Common.{
  ℕ, ◌<◌, ◌≡◌, refl, sym, ◌∙◌, subst, String, Bool, Option, none, some, List, [], ◌∷◌, map, length,
  arith, All, Each,
}
use zigbeelens.Maintenance.Purge.{Fault}
use zigbeelens.Maintenance.Tables.{Row, Moment, incident_table, report_table}
use zigbeelens.Maintenance.Purge.Batches.{IsKeyed}
use zigbeelens.Maintenance.Executor.{
  Plan, Failure, State, Database, fresh_table, start, guarded, telemetry_phase, terminalize_phase,
  aged_phase, over_cap_phase, incidents_phase, reports_phase, execute_deletes,
}
use zigbeelens.Maintenance.Executor.Outcome.{
  Purged-failed, Purged-moved, PurgedTable, due_incident, due_report, AreKeyed, Outcome,
}
use zigbeelens.Maintenance.Executor.Outcome.Sweeping.{purge_telemetry_ends}
use zigbeelens.Maintenance.Executor.Outcome.Phases.{
  snapshots_in, Quiet, Quiet-refl, Quiet-trans, guarded_ends, terminalize_ends, aged_ends,
  over_cap_ends, Beside-refl, IncidentsPurged, ReportsPurged, incidents_end, reports_end,
}

fresh_tables :
    (ts : List (String × Bool × List Row)) → All (λ t. t.deleted ≡ 0) (map fresh_table ts)
fresh_tables [] = tt
fresh_tables (t ∷ ts) = (refl, fresh_tables ts)

failed_not-none : (o : Option Failure) (f : Failure) → o ≡ some f → o ≡ none → ⊥
failed_not-none o f e h = ground (arith, e, h)

module _ (plan : Plan) (faults : ℕ → Option Fault) where
  -- The phases in turn.
  chain :
      (s s1 s2 s3 s4 s5 s6 : State)
      → telemetry_phase plan faults s ≡ some s1
      → guarded plan faults (terminalize_phase plan faults) s1 ≡ some s2
      → guarded plan faults (aged_phase plan faults) s2 ≡ some s3
      → guarded plan faults (over_cap_phase plan faults) s3 ≡ some s4
      → guarded plan faults (incidents_phase plan faults) s4 ≡ some s5
      → guarded plan faults (reports_phase plan faults) s5 ≡ some s6
      → execute_deletes plan faults s ≡ some s6
  unfolding execute_deletes
  chain s s1 s2 s3 s4 s5 s6 e1 e2 e3 e4 e5 e6 = rw (e1, e2, e3, e4, e5, e6, execute_deletes) refl

module _ (plan : Plan) (faults : ℕ → Option Fault) (positive : 0 < plan.batch_size) where
  incidents_guarded :
      (s : State)
      → s.incidents_deleted ≡ 0
      → ((cutoff : Moment) → IsKeyed (incident_table cutoff) s.incidents)
      → (s' : State) × (guarded plan faults (incidents_phase plan faults) s ≡ some s')
        × IncidentsPurged plan faults positive s s'
  unfolding IncidentsPurged
  incidents_guarded s fresh keyed =
      guarded_ends plan faults positive (IncidentsPurged plan faults positive s)
        (incidents_phase plan faults) s (incidents_end plan faults positive s fresh keyed)
        (λ f e. (
          Beside-refl plan faults positive s,
          (refl, refl),
          rw fresh (
              Purged-failed (due_incident plan.resolved_incident_cutoff) (s.failure ≡ none)
                s.incidents (failed_not-none s.failure f e)),
        ))

  reports_guarded :
      (s : State)
      → s.reports_deleted ≡ 0
      → ((cutoff : Moment) → IsKeyed (report_table cutoff) s.reports)
      → (s' : State) × (guarded plan faults (reports_phase plan faults) s ≡ some s')
        × ReportsPurged plan faults positive s s'
  unfolding ReportsPurged
  reports_guarded s fresh keyed =
      guarded_ends plan faults positive (ReportsPurged plan faults positive s)
        (reports_phase plan faults) s (reports_end plan faults positive s fresh keyed)
        (λ f e. (
          Beside-refl plan faults positive s,
          (refl, refl),
          rw fresh (
              Purged-failed (due_report plan.report_cutoff) (s.failure ≡ none) s.reports
                (failed_not-none s.failure f e)),
        ))

  -- What the phases did, put together; `s1` is `s` after the sweep.
  Outcome-of :
      (s s1 s4 s5 s6 : State)
      → ((Success : Type 0)
          → (Success → s1.failure ≡ none)
          → Each (PurgedTable plan Success) s.telemetry s1.telemetry)
      → s1.incidents ≡ s.incidents
      → s1.reports ≡ s.reports
      → snapshots_in s1 ≡ length s.snapshots
      → Quiet s1 s4
      → IncidentsPurged plan faults positive s4 s5
      → ReportsPurged plan faults positive s5 s6
      → Outcome plan s s6
  unfolding IncidentsPurged ReportsPurged
  Outcome-of s s1 s4 s5 s6 tables incidents reports snapshots quiet
        (beside5, (reports5, reports_deleted5), incidents5)
        (beside6, (incidents6, incidents_deleted6), reports6) =
      record {
        telemetry =
            subst (Each (PurgedTable plan (s6.failure ≡ none)) s.telemetry)
              (sym (beside6.telemetry ∙ beside5.telemetry ∙ quiet.telemetry))
              (tables (s6.failure ≡ none)
                (λ ok. quiet.failure (beside5.failure (beside6.failure ok))));
        incidents =
            Purged-moved (due_incident plan.resolved_incident_cutoff) (s5.failure ≡ none)
              (s6.failure ≡ none) s4.incidents s.incidents s5.incidents s6.incidents
              s5.incidents_deleted s6.incidents_deleted beside6.failure
              (sym (quiet.incidents ∙ incidents)) incidents6 incidents_deleted6 incidents5;
        reports =
            Purged-moved (due_report plan.report_cutoff) (s6.failure ≡ none) (s6.failure ≡ none)
              s5.reports s.reports s6.reports s6.reports s6.reports_deleted s6.reports_deleted
              (λ ok. ok) (sym (reports5 ∙ quiet.reports ∙ reports)) refl refl reports6;
        snapshots = beside6.snapshots ∙ beside5.snapshots ∙ quiet.snapshots ∙ snapshots;
      }

  Quiet-end :
      (s1 : State)
      → (s2 s3 s4 : State) × (guarded plan faults (terminalize_phase plan faults) s1 ≡ some s2)
        × (guarded plan faults (aged_phase plan faults) s2 ≡ some s3)
        × (guarded plan faults (over_cap_phase plan faults) s3 ≡ some s4)
        × Quiet s1 s4
  Quiet-end s1 =
      let (s2, e2, q2) =
        guarded_ends plan faults positive (Quiet s1) (terminalize_phase plan faults) s1
          (terminalize_ends plan faults positive s1) (λ f e. Quiet-refl s1) in
      let (s3, e3, q3) =
        guarded_ends plan faults positive (Quiet s2) (aged_phase plan faults) s2
          (aged_ends plan faults positive s2) (λ f e. Quiet-refl s2) in
      let (s4, e4, q4) =
        guarded_ends plan faults positive (Quiet s3) (over_cap_phase plan faults) s3
          (over_cap_ends plan faults positive s3) (λ f e. Quiet-refl s3) in
      (s2, s3, s4, e2, e3, e4, Quiet-trans s1 s3 s4 (Quiet-trans s1 s2 s3 q2 q3) q4)

  -- The cycle from its start, given the sweep.
  after_sweep :
      (s s1 s2 s3 s4 : State)
      → telemetry_phase plan faults s ≡ some s1
      → guarded plan faults (terminalize_phase plan faults) s1 ≡ some s2
      → guarded plan faults (aged_phase plan faults) s2 ≡ some s3
      → guarded plan faults (over_cap_phase plan faults) s3 ≡ some s4
      → ((Success : Type 0)
          → (Success → s1.failure ≡ none)
          → Each (PurgedTable plan Success) s.telemetry s1.telemetry)
      → s1.incidents ≡ s.incidents
      → s1.reports ≡ s.reports
      → snapshots_in s1 ≡ length s.snapshots
      → s1.incidents_deleted ≡ 0
      → s1.reports_deleted ≡ 0
      → Quiet s1 s4
      → AreKeyed plan s
      → (s6 : State) × (execute_deletes plan faults s ≡ some s6) × Outcome plan s s6
  unfolding IncidentsPurged
  after_sweep s s1 s2 s3 s4 e1 e2 e3 e4 tables incidents reports snapshots zero_i zero_r quiet
        keyed =
      let five = incidents_guarded s4 (quiet.incidents_deleted ∙ zero_i) (λ c.
        subst (IsKeyed (incident_table c)) (sym (quiet.incidents ∙ incidents))
          (keyed.incidents c)) in
      let six = reports_guarded five.0 (five.2.1.1 ∙ quiet.reports_deleted ∙ zero_r) (λ c.
        subst (IsKeyed (report_table c)) (sym (five.2.1.0 ∙ quiet.reports ∙ reports))
          (keyed.reports c)) in
      (
        six.0,
        chain plan faults s s1 s2 s3 s4 five.0 six.0 e1 e2 e3 e4 five.1 six.1,
        Outcome-of s s1 s4 five.0 six.0 tables incidents reports snapshots quiet five.2 six.2,
      )

-- A cycle over tables whose primary keys tell their rows apart ends, whichever transactions fail.
-- Then each table of telemetry, the incidents and the reports have lost as many rows as the result
-- records for them and none that was not due, and, if no transaction failed, all that were due; and
-- as many snapshots are gone as the result records.
pub execute_deletes-Outcome :
    (plan : Plan) (faults : ℕ → Option Fault) (db : Database)
    → 0 < plan.batch_size
    → AreKeyed plan (start plan db)
    → (s : State) × (execute_deletes plan faults (start plan db) ≡ some s)
      × Outcome plan (start plan db) s
unfolding telemetry_phase
execute_deletes-Outcome plan faults db positive keyed =
    let s = start plan db in
    let sweep =
      purge_telemetry_ends plan faults positive 0 s.telemetry (fresh_tables db.tables)
        keyed.telemetry in
    let s1 : State = record s {
      telemetry = sweep.0.telemetry;
      transactions = sweep.0.transactions;
      failure = sweep.0.failure;
    } in
    let quiet = Quiet-end plan faults positive s1 in
    after_sweep plan faults positive s s1 quiet.0 quiet.1 quiet.2
      (rw (sweep.1, telemetry_phase) refl) quiet.3 quiet.4 quiet.5 sweep.2 refl refl (omega arith)
      refl refl quiet.6 keyed
