-- ===== src/Maintenance/Executor.antt =====
-- `_execute_deletes` of storage/maintenance.py. `faults` tells which transactions fail, by their number.
pub mod Outcome
use zigbeelens.Common.{
  add, ℕ, suc, ◌+◌, String, Bool, true, false, not, ◌&&◌, Option, none, some, List, [], ◌∷◌, ◌++◌,
  map, length, take, filter, ltb, str_eq, elem, if◌then◌else◌,
}
use zigbeelens.Common.Order.{sort_with}
use zigbeelens.Maintenance.Purge.{Table, Fault, Run, purge}
use zigbeelens.Maintenance.Tables.{
  Moment, Row, Status, TopologySnapshot, IncidentRow, Report, telemetry_table, snapshot_before,
  aged_table, over_cap_table, incident_table, report_table, is_abandoned,
}

-- What the executor reads of `StorageMaintenancePlan`.
pub record Plan : Type 0 where
  pub telemetry_cutoff : Moment
  pub resolved_incident_cutoff : Option Moment
  pub report_cutoff : Option Moment
  pub reference_now : Moment
  pub batch_size : ℕ
  pub max_snapshots : ℕ
  pub exclude : List String

-- A table of TELEMETRY_CATEGORIES with the count that the result has for it.
pub record Telemetry : Type 0 where
  pub table : String
  pub exists : Bool
  pub rows : List Row
  pub deleted : ℕ

-- `failure_category` and the exception.
pub record Failure : Type 0 where
  pub category : String
  pub fault : Fault

-- The database and the counts of the result; a count of 0 is a missing key.
pub record State : Type 0 where
  pub telemetry : List Telemetry
  pub snapshots : List TopologySnapshot
  pub aged_deleted : ℕ
  pub over_cap_deleted : ℕ
  pub terminalized : ℕ
  pub incidents : List IncidentRow
  pub incidents_deleted : ℕ
  pub reports : List Report
  pub reports_deleted : ℕ
  pub exclude : List String
  pub transactions : ℕ
  pub failure : Option Failure

-- The tables before a cycle.
pub record Database : Type 0 where
  pub tables : List (String × Bool × List Row)
  pub snapshots : List TopologySnapshot
  pub incidents : List IncidentRow
  pub reports : List Report

abbrev pub fresh_table : String × Bool × List Row → Telemetry
fresh_table t = record { table = t.0; exists = t.1; rows = t.2; deleted = 0 }

-- A fresh result.
abbrev pub start : Plan → Database → State
start plan db = record {
  telemetry = map fresh_table db.tables;
  snapshots = db.snapshots;
  aged_deleted = 0;
  over_cap_deleted = 0;
  terminalized = 0;
  incidents = db.incidents;
  incidents_deleted = 0;
  reports = db.reports;
  reports_deleted = 0;
  exclude = plan.exclude;
  transactions = 0;
  failure = none;
}

abbrev pub failed_in : String → Option Fault → Option Failure
failed_in category none = none
failed_in category (some f) = some (record { category = category; fault = f })

infixl 55 ◌>>=◌
-- A loop that has not ended is followed by nothing.
abbrev pub ◌>>=◌ : {A B : Type 0} → Option A → (A → Option B) → Option B
none >>= f = none
some a >>= f = f a

-- The tables of telemetry, the transactions so far and the exception.
pub record Sweep : Type 0 where
  pub telemetry : List Telemetry
  pub transactions : ℕ
  pub failure : Option Failure

-- `select_abandoned_pending_topology_ids`
-- `frozenset(exclude_ids)`
unfoldable pub exclude_set : List String → List String
exclude_set [] = []
exclude_set (x ∷ xs) = add x (exclude_set xs)

unfoldable pub terminalized_ids : Plan → State → List String
unfolding is_abandoned
terminalized_ids plan s =
    let abandoned = filter (is_abandoned plan.reference_now s.exclude) s.snapshots in
    map (λ x. x.snapshot_id) (take plan.batch_size (sort_with snapshot_before abandoned))

module _ (plan : Plan) (faults : ℕ → Option Fault) where
  -- The loop of one table, which is passed over if it does not exist.
  unfoldable pub purge_table : ℕ → Telemetry → Option (Run Row)
  unfolding purge telemetry_table
  purge_table n t =
      if t.exists
      then purge (telemetry_table plan.telemetry_cutoff) plan.batch_size faults n t.rows
      else some (record { rows = t.rows; deleted = 0; transactions = n; fault = none })

  -- `for table, column, pk in TELEMETRY_CATEGORIES`; an exception leaves the other tables alone.
  unfoldable pub purge_telemetry : ℕ → List Telemetry → Option Sweep
  unfolding purge_table
  purge_telemetry n [] = some (record { telemetry = []; transactions = n; failure = none })
  purge_telemetry n (t ∷ ts) = do
    run ← purge_table n t
    rest ← purge_telemetry run.transactions ts
    let t' = record t { rows = run.rows; deleted = t.deleted + run.deleted }
    elim run.fault [
      | none ↦ some (record rest { telemetry = t' ∷ rest.telemetry })
      | some f ↦ some (record {
        telemetry = t' ∷ ts;
        transactions = run.transactions;
        failure = failed_in t.table (some f);
      })
    ]

  unfoldable pub telemetry_phase : State → Option State
  unfolding purge_telemetry
  telemetry_phase s = do
    sweep ← purge_telemetry s.transactions s.telemetry
    some (record s {
      telemetry = sweep.telemetry;
      transactions = sweep.transactions;
      failure = sweep.failure;
    })

  -- A phase runs unless an exception has been raised.
  unfoldable pub guarded : (State → Option State) → State → Option State
  guarded phase s = elim s.failure [ none ↦ phase s | some f ↦ some s ]

  -- `_exclude_clause` refuses a set of more ids than MAINTENANCE_MAX_TOPOLOGY_EXCLUDE_IDS.
  unfoldable pub exclude_faults : List String → ℕ → Option Fault
  unfolding exclude_set
  exclude_faults exclude n =
      if ltb 501 (length (exclude_set exclude)) then some Fault.other_error else faults n

  -- Without a cap the selection ends before it.
  unfoldable pub over_cap_faults : List String → ℕ → Option Fault
  unfolding exclude_faults
  over_cap_faults exclude n =
      let capped = exclude_faults exclude n in if ltb plan.max_snapshots 1 then faults n else capped

  -- `UPDATE … SET status = 'error' WHERE snapshot_id IN ids AND status = 'pending'`
  unfoldable pub terminalize_one : List String → TopologySnapshot → TopologySnapshot
  terminalize_one ids s = elim s.status [
    | Status.pending ↦ if elem s.snapshot_id ids then record s { status = Status.error } else s
    | Status.complete ↦ s
    | Status.error ↦ s
  ]

  -- `terminalize_abandoned_topology_captures`, whose ids join the excluded ones.
  unfoldable pub terminalize_phase : State → Option State
  unfolding exclude_faults terminalize_one terminalized_ids
  terminalize_phase s =
      let ids = terminalized_ids plan s in
      elim (exclude_faults s.exclude s.transactions) [
        | some f ↦ some (record s {
          transactions = suc s.transactions;
          failure = failed_in "abandoned_pending_topology" (some f);
        })
        | none ↦ some (record s {
          snapshots = map (terminalize_one ids) s.snapshots;
          terminalized = s.terminalized + length ids;
          exclude = ids ++ s.exclude;
          transactions = suc s.transactions;
        })
      ]

  unfoldable pub aged_phase : State → Option State
  unfolding exclude_faults purge aged_table
  aged_phase s = do
    run ←
        purge (aged_table plan.telemetry_cutoff s.exclude) plan.batch_size
          (exclude_faults s.exclude) s.transactions s.snapshots
    some (record s {
      snapshots = run.rows;
      aged_deleted = s.aged_deleted + run.deleted;
      transactions = run.transactions;
      failure = failed_in "topology_snapshots" run.fault;
    })

  unfoldable pub over_cap_phase : State → Option State
  unfolding over_cap_faults purge over_cap_table
  over_cap_phase s = do
    run ←
        purge (over_cap_table plan.max_snapshots plan.telemetry_cutoff plan.reference_now s.exclude)
          plan.batch_size (over_cap_faults s.exclude) s.transactions s.snapshots
    some (record s {
      snapshots = run.rows;
      over_cap_deleted = s.over_cap_deleted + run.deleted;
      transactions = run.transactions;
      failure = failed_in "topology_count_cap" run.fault;
    })

  unfoldable pub incidents_phase : State → Option State
  unfolding purge incident_table
  incidents_phase s = elim plan.resolved_incident_cutoff [
    | none ↦ some s
    | some cutoff ↦ do
      run ← purge (incident_table cutoff) plan.batch_size faults s.transactions s.incidents
      some (record s {
        incidents = run.rows;
        incidents_deleted = s.incidents_deleted + run.deleted;
        transactions = run.transactions;
        failure = failed_in "incidents_resolved" run.fault;
      })
  ]

  unfoldable pub reports_phase : State → Option State
  unfolding purge report_table
  reports_phase s = elim plan.report_cutoff [
    | none ↦ some s
    | some cutoff ↦ do
      run ← purge (report_table cutoff) plan.batch_size faults s.transactions s.reports
      some (record s {
        reports = run.rows;
        reports_deleted = s.reports_deleted + run.deleted;
        transactions = run.transactions;
        failure = failed_in "reports" run.fault;
      })
  ]

  -- `_execute_deletes`
  unfoldable pub execute_deletes : State → Option State
  unfolding telemetry_phase guarded terminalize_phase aged_phase over_cap_phase incidents_phase
      reports_phase
  execute_deletes s = do
    s1 ← telemetry_phase s
    s2 ← guarded terminalize_phase s1
    s3 ← guarded aged_phase s2
    s4 ← guarded over_cap_phase s3
    s5 ← guarded incidents_phase s4
    guarded reports_phase s5
