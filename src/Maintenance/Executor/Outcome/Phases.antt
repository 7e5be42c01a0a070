-- ===== src/Maintenance/Executor/Outcome/Phases.antt =====
-- The phases after the sweep.
use zigbeelens.Common.{
  ℕ, suc, ◌+◌, ◌++◌, ◌<◌, ◌≡◌, refl, sym, ap, ◌∙◌, subst, String, Option, none, some, List, [], ◌∷◌,
  map, length, arith, Option-cases, inl, inr, eq_refl,
}
use zigbeelens.Maintenance.Purge.{Fault}
use zigbeelens.Maintenance.Purge.Batches.{IsKeyed}
use zigbeelens.Maintenance.Purge.Loop.{IsPointwise, purge-IsPurged, purge_counts}
use zigbeelens.Maintenance.Tables.{
  Moment, TopologySnapshot, aged_table, over_cap_table, incident_table, report_table,
}
use zigbeelens.Maintenance.Executor.{
  Plan, Failure, failed_in, State, guarded, exclude_faults, over_cap_faults, terminalize_one,
  terminalized_ids, terminalize_phase, aged_phase, over_cap_phase, incidents_phase, reports_phase,
}
use zigbeelens.Maintenance.Executor.Outcome.{
  Purged, Purged-run, Purged-nothing, due_incident, due_report,
}

-- The snapshots with those that went.
abbrev pub snapshots_in : State → ℕ
snapshots_in s = length s.snapshots + s.aged_deleted + s.over_cap_deleted

-- A phase that touches the snapshots alone.
pub record Quiet (s s' : State) : Type 0 where
  pub telemetry : s'.telemetry ≡ s.telemetry
  pub incidents : s'.incidents ≡ s.incidents
  pub incidents_deleted : s'.incidents_deleted ≡ s.incidents_deleted
  pub reports : s'.reports ≡ s.reports
  pub reports_deleted : s'.reports_deleted ≡ s.reports_deleted
  pub snapshots : snapshots_in s' ≡ snapshots_in s
  pub failure : s'.failure ≡ none → s.failure ≡ none

pub Quiet-refl : (s : State) → Quiet s s
Quiet-refl s = record {
  telemetry = refl;
  incidents = refl;
  incidents_deleted = refl;
  reports = refl;
  reports_deleted = refl;
  snapshots = refl;
  failure = λ h. h;
}

pub Quiet-trans : (s s1 s2 : State) → Quiet s s1 → Quiet s1 s2 → Quiet s s2
Quiet-trans s s1 s2 q r = record {
  telemetry = r.telemetry ∙ q.telemetry;
  incidents = r.incidents ∙ q.incidents;
  incidents_deleted = r.incidents_deleted ∙ q.incidents_deleted;
  reports = r.reports ∙ q.reports;
  reports_deleted = r.reports_deleted ∙ q.reports_deleted;
  snapshots = r.snapshots ∙ q.snapshots;
  failure = λ h. q.failure (r.failure h);
}

Quiet-snapshots :
    (s : State) (snapshots : List TopologySnapshot) (aged over_cap terminalized : ℕ)
    (exclude : List String) (transactions : ℕ) (failure : Option Failure)
    → length snapshots + aged + over_cap ≡ snapshots_in s
    → s.failure ≡ none
    → Quiet s (record s {
      snapshots = snapshots;
      aged_deleted = aged;
      over_cap_deleted = over_cap;
      terminalized = terminalized;
      exclude = exclude;
      transactions = transactions;
      failure = failure;
    })
Quiet-snapshots s snapshots aged over_cap terminalized exclude transactions failure counted ok =
    record {
      telemetry = refl;
      incidents = refl;
      incidents_deleted = refl;
      reports = refl;
      reports_deleted = refl;
      snapshots = counted;
      failure = λ _. ok;
    }

length-map : {A B : Type 0} (f : A → B) (xs : List A) → length (map f xs) ≡ length xs
length-map f [] = refl
length-map f (x ∷ xs) = omega (arith, length-map f xs)

incident-IsPointwise :
    (cutoff : Moment) → IsPointwise (incident_table cutoff) (due_incident (some cutoff))
unfolding IsPointwise incident_table due_incident
incident-IsPointwise cutoff rows r = refl

report-IsPointwise :
    (cutoff : Moment) → IsPointwise (report_table cutoff) (due_report (some cutoff))
unfolding IsPointwise report_table due_report
report-IsPointwise cutoff rows r = refl

run_committed :
    (category : String) (fault : Option Fault) → failed_in category fault ≡ none → fault ≡ none
run_committed category none h = refl
run_committed category (some f) h = absurd (cc h)

module _ (plan : Plan) (faults : ℕ → Option Fault) (positive : 0 < plan.batch_size) where
  -- A guarded phase ends if the phase does.
  pub guarded_ends :
      (R : State → Type 0) (phase : State → Option State) (s : State)
      → (s.failure ≡ none → (s' : State) × (phase s ≡ some s') × R s')
      → ((f : Failure) → s.failure ≡ some f → R s)
      → (s' : State) × (guarded plan faults phase s ≡ some s') × R s'
  unfolding guarded
  guarded_ends R phase s ends skipped = elim (Option-cases s.failure) [
    | inl e ↦
        let run : Option Failure → Option State =
          λ o. elim o [ none ↦ phase s | some g ↦ some s ] in
        let ended = ends e in (ended.0, ap run e ∙ ended.1, ended.2)
    | inr (f, e) ↦
        let skip : Option Failure → Option State =
          λ o. elim o [ none ↦ phase s | some g ↦ some s ] in
        (s, ap skip e, skipped f e)
  ]

  pub terminalize_ends :
      (s : State)
      → s.failure ≡ none
      → (s' : State) × (terminalize_phase plan faults s ≡ some s') × Quiet s s'
  unfolding terminalize_phase
  terminalize_ends s ok =
      let ids = terminalized_ids plan s in
      elim (Option-cases (exclude_faults plan faults s.exclude s.transactions)) [
        | inr (f, e) ↦ (
          record s {
            transactions = suc s.transactions;
            failure = failed_in "abandoned_pending_topology" (some f);
          },
          rw (e, terminalize_phase) refl,
          Quiet-snapshots s s.snapshots s.aged_deleted s.over_cap_deleted s.terminalized s.exclude
              (suc s.transactions) (failed_in "abandoned_pending_topology" (some f)) refl ok,
        )
        | inl e ↦ (
          record s {
            snapshots = map (terminalize_one plan faults ids) s.snapshots;
            terminalized = s.terminalized + length ids;
            exclude = ids ++ s.exclude;
            transactions = suc s.transactions;
          },
          rw (e, terminalize_phase) refl,
          Quiet-snapshots s (map (terminalize_one plan faults ids) s.snapshots) s.aged_deleted
              s.over_cap_deleted (s.terminalized + length ids) (ids ++ s.exclude)
              (suc s.transactions) s.failure
              (omega (arith, length-map (terminalize_one plan faults ids) s.snapshots)) ok,
        )
      ]

  pub aged_ends :
      (s : State)
      → s.failure ≡ none
      → (s' : State) × (aged_phase plan faults s ≡ some s') × Quiet s s'
  unfolding aged_phase
  aged_ends s ok =
      let (run, ended, counted) =
        purge_counts (aged_table plan.telemetry_cutoff s.exclude) plan.batch_size positive
          (exclude_faults plan faults s.exclude) s.transactions s.snapshots in
      (
        record s {
          snapshots = run.rows;
          aged_deleted = s.aged_deleted + run.deleted;
          transactions = run.transactions;
          failure = failed_in "topology_snapshots" run.fault;
        },
        rw (ended, aged_phase) refl,
        Quiet-snapshots s run.rows (s.aged_deleted + run.deleted) s.over_cap_deleted s.terminalized
            s.exclude run.transactions (failed_in "topology_snapshots" run.fault)
            (omega (arith, counted)) ok,
      )

  pub over_cap_ends :
      (s : State)
      → s.failure ≡ none
      → (s' : State) × (over_cap_phase plan faults s ≡ some s') × Quiet s s'
  unfolding over_cap_phase
  over_cap_ends s ok =
      let (run, ended, counted) =
        purge_counts
          (over_cap_table plan.max_snapshots plan.telemetry_cutoff plan.reference_now s.exclude)
          plan.batch_size positive (over_cap_faults plan faults s.exclude) s.transactions
          s.snapshots in
      (
        record s {
          snapshots = run.rows;
          over_cap_deleted = s.over_cap_deleted + run.deleted;
          transactions = run.transactions;
          failure = failed_in "topology_count_cap" run.fault;
        },
        rw (ended, over_cap_phase) refl,
        Quiet-snapshots s run.rows s.aged_deleted (s.over_cap_deleted + run.deleted) s.terminalized
            s.exclude run.transactions (failed_in "topology_count_cap" run.fault)
            (omega (arith, counted)) ok,
      )

  -- What a later phase leaves alone.
  pub record Beside (s s' : State) : Type 0 where
    pub telemetry : s'.telemetry ≡ s.telemetry
    pub snapshots : snapshots_in s' ≡ snapshots_in s
    pub failure : s'.failure ≡ none → s.failure ≡ none

  pub Beside-refl : (s : State) → Beside s s
  Beside-refl s = record { telemetry = refl; snapshots = refl; failure = λ h. h }

  unfoldable pub IncidentsPurged : State → State → Type 0
  IncidentsPurged s s' =
      Beside s s'
      × ((s'.reports ≡ s.reports) × (s'.reports_deleted ≡ s.reports_deleted))
      × Purged (due_incident plan.resolved_incident_cutoff) (s'.failure ≡ none) s.incidents
          s'.incidents s'.incidents_deleted

  unfoldable pub ReportsPurged : State → State → Type 0
  ReportsPurged s s' =
      Beside s s'
      × ((s'.incidents ≡ s.incidents) × (s'.incidents_deleted ≡ s.incidents_deleted))
      × Purged (due_report plan.report_cutoff) (s'.failure ≡ none) s.reports s'.reports
          s'.reports_deleted

  pub incidents_end :
      (s : State)
      → s.incidents_deleted ≡ 0
      → ((cutoff : Moment) → IsKeyed (incident_table cutoff) s.incidents)
      → s.failure ≡ none
      → (s' : State) × (incidents_phase plan faults s ≡ some s') × IncidentsPurged s s'
  unfolding incidents_phase IncidentsPurged due_incident
  incidents_end s fresh keyed ok = elim (Option-cases plan.resolved_incident_cutoff) [
    | inl e ↦ (
      s,
      rw (e, incidents_phase) refl,
      (
        Beside-refl s,
        (refl, refl),
        subst
            (λ c.
              Purged (due_incident c) (s.failure ≡ none) s.incidents s.incidents
                s.incidents_deleted)
            (sym e) (rw fresh (Purged-nothing (s.failure ≡ none) s.incidents)),
      ),
    )
    | inr (cutoff, e) ↦
        let (run, ended, purged) =
          purge-IsPurged (incident_table cutoff) eq_refl (due_incident (some cutoff))
            (incident-IsPointwise cutoff) plan.batch_size positive faults s.transactions s.incidents
            (keyed cutoff) in
        let s' : State = record s {
          incidents = run.rows;
          incidents_deleted = s.incidents_deleted + run.deleted;
          transactions = run.transactions;
          failure = failed_in "incidents_resolved" run.fault;
        } in
        let count : s'.incidents_deleted ≡ run.deleted = omega (arith, fresh) in
        (
          s',
          rw (e, ended, incidents_phase) refl,
          (
            record { telemetry = refl; snapshots = refl; failure = λ _. ok },
            (refl, refl),
            subst
                (λ c.
                  Purged (due_incident c) (s'.failure ≡ none) s.incidents s'.incidents
                    s'.incidents_deleted)
                (sym e)
                (rw count (
                  Purged-run (incident_table cutoff) (due_incident (some cutoff))
                    (s'.failure ≡ none) s.incidents run purged
                    (run_committed "incidents_resolved" run.fault))),
          ),
        )
  ]

  pub reports_end :
      (s : State)
      → s.reports_deleted ≡ 0
      → ((cutoff : Moment) → IsKeyed (report_table cutoff) s.reports)
      → s.failure ≡ none
      → (s' : State) × (reports_phase plan faults s ≡ some s') × ReportsPurged s s'
  unfolding reports_phase ReportsPurged due_report
  reports_end s fresh keyed ok = elim (Option-cases plan.report_cutoff) [
    | inl e ↦ (
      s,
      rw (e, reports_phase) refl,
      (
        Beside-refl s,
        (refl, refl),
        subst (λ c. Purged (due_report c) (s.failure ≡ none) s.reports s.reports s.reports_deleted)
            (sym e) (rw fresh (Purged-nothing (s.failure ≡ none) s.reports)),
      ),
    )
    | inr (cutoff, e) ↦
        let (run, ended, purged) =
          purge-IsPurged (report_table cutoff) eq_refl (due_report (some cutoff))
            (report-IsPointwise cutoff) plan.batch_size positive faults s.transactions s.reports
            (keyed cutoff) in
        let s' : State = record s {
          reports = run.rows;
          reports_deleted = s.reports_deleted + run.deleted;
          transactions = run.transactions;
          failure = failed_in "reports" run.fault;
        } in
        let count : s'.reports_deleted ≡ run.deleted = omega (arith, fresh) in
        (
          s',
          rw (e, ended, reports_phase) refl,
          (
            record { telemetry = refl; snapshots = refl; failure = λ _. ok },
            (refl, refl),
            subst
                (λ c.
                  Purged (due_report c) (s'.failure ≡ none) s.reports s'.reports s'.reports_deleted)
                (sym e)
                (rw count (
                  Purged-run (report_table cutoff) (due_report (some cutoff)) (s'.failure ≡ none)
                    s.reports run purged (run_committed "reports" run.fault))),
          ),
        )
  ]
