-- ===== src/Maintenance/Examples.antt =====
-- The theorems at a concrete database.
use zigbeelens.Common.{
  eq_refl, All, ℕ, ◌*◌, ◌<◌, ◌≤◌, ◌≡◌, ◌↔◌, refl, sym, ◌∙◌, Bool, true, false, Option, none, some,
  [], ◌∷◌, arith, inl, inr, length, elem, ◌==◌, if◌then◌else◌,
}
use zigbeelens.Common.Order.{sort_with}
use zigbeelens.Incident.Types.{Lifecycle}
use zigbeelens.Maintenance.Purge.{
  Fault, Run, purge, purge_loop, purge_batch, delete_by_ids, select_rows, is_selected, add_deleted,
}
use zigbeelens.Maintenance.Purge.Batches.{IsKeyed}
use zigbeelens.Maintenance.Purge.Loop.{IsPointwise, IsPurged, purge_loop_ends}
use zigbeelens.Maintenance.Tables.{
  Moment, Stamp, Row, RowId, Status, TopologySnapshot, IncidentRow, telemetry_table, incident_table,
  report_table, is_older, goes_before, over_cap_table, snapshot_rank, competes, outranks,
  is_kept_by, is_past,
}
use zigbeelens.Maintenance.Tables.Cap.{purge_caps}
use zigbeelens.Maintenance.Executor.{Plan, State, Database, start, execute_deletes}
use zigbeelens.Maintenance.Executor.Outcome.{AreKeyed, Outcome}
use zigbeelens.Maintenance.Policy.{batches_required}
use zigbeelens.Maintenance.Policy.Batches.{batches_required_least}
use zigbeelens.Maintenance.Result.{affected_invalidation_events}
use zigbeelens.Maintenance.Result.Notices.{executed-notices}
use zigbeelens.Maintenance.Executor.Outcome.Cycle.{execute_deletes-Outcome}

abbrev at_day : ℕ → Stamp
at_day d = record { julian = some (d * 86400000); instant = some (d * 86400000000) }

abbrev cutoff : Moment
cutoff = record { julian = 864000000; instant = 864000000000 }

abbrev plan : Plan
plan = record {
  telemetry_cutoff = cutoff;
  resolved_incident_cutoff = some cutoff;
  report_cutoff = none;
  reference_now = record { julian = 1728000000; instant = 1728000000000 };
  batch_size = 1;
  max_snapshots = 1;
  exclude = [];
}

abbrev old_row : Row
old_row = record { id = RowId.number 1; at = at_day 3 }

abbrev recent_row : Row
recent_row = record { id = RowId.number 2; at = at_day 12 }

abbrev incident : IncidentRow
incident = record { id = "i1"; lifecycle_state = Lifecycle.resolved; resolved_at = at_day 4 }

abbrev snapshot : TopologySnapshot
snapshot = record {
  snapshot_id = "s1";
  network_id = "home";
  status = Status.complete;
  captured_at = at_day 11;
}

abbrev database : Database
database = record {
  tables = ("metric_samples", true, old_row ∷ recent_row ∷ []) ∷ ("events", false, []) ∷ [];
  snapshots = snapshot ∷ [];
  incidents = incident ∷ [];
  reports = [];
}

-- The second transaction of a table fails.
abbrev faults : ℕ → Option Fault
faults n = if n == 1 then some Fault.database_busy else none

one_by_one :
    purge (telemetry_table cutoff) 1 (λ n. none) 0 (old_row ∷ recent_row ∷ [])
    ≡ some (record { rows = recent_row ∷ []; deleted = 1; transactions = 2; fault = none })
unfolding purge purge_loop purge_batch delete_by_ids select_rows is_selected add_deleted
    telemetry_table is_older goes_before sort_with
one_by_one = refl

two_rows : IsKeyed (telemetry_table cutoff) (old_row ∷ recent_row ∷ [])
unfolding IsKeyed telemetry_table
two_rows r s (inl a) (inl b) e = sym a ∙ b
two_rows r s (inl a) (inr (inl b)) e = absurd (ground (arith, a, b, e))
two_rows r s (inr (inl a)) (inl b) e = absurd (ground (arith, a, b, e))
two_rows r s (inr (inl a)) (inr (inl b)) e = sym a ∙ b
two_rows r s (inl a) (inr (inr b)) e = absurd b
two_rows r s (inr (inl a)) (inr (inr b)) e = absurd b
two_rows r s (inr (inr a)) h e = absurd a

no_rows : (c : Moment) → IsKeyed (report_table c) []
unfolding IsKeyed
no_rows c r s h k e = absurd h

no_telemetry : IsKeyed (telemetry_table cutoff) []
unfolding IsKeyed
no_telemetry r s h k e = absurd h

one_incident : (c : Moment) → IsKeyed (incident_table c) (incident ∷ [])
unfolding IsKeyed
one_incident c r s (inl a) (inl b) e = sym a ∙ b
one_incident c r s (inl a) (inr b) e = absurd b
one_incident c r s (inr a) h e = absurd a

database-AreKeyed : AreKeyed plan (start plan database)
database-AreKeyed = record {
  telemetry = (two_rows, (no_telemetry, tt));
  incidents = one_incident;
  reports = no_rows;
}

execute_deletes-Outcome_example :
    (s : State) × (execute_deletes plan faults (start plan database) ≡ some s)
    × Outcome plan (start plan database) s
execute_deletes-Outcome_example =
    execute_deletes-Outcome plan faults database (omega arith) database-AreKeyed

executed-notices_example :
    (s : State) × (execute_deletes plan faults (start plan database) ≡ some s)
    × ((elem "incidents_updated" (affected_invalidation_events s) ≡ true)
        ↔ (length s.incidents < length database.incidents))
    × ((elem "reports_updated" (affected_invalidation_events s) ≡ true)
        ↔ (length s.reports < length database.reports))
executed-notices_example = executed-notices plan faults database (omega arith) database-AreKeyed

batches_required_least_example : (batches_required 1001 500 ≤ 3) ↔ (1001 ≤ 3 * 500)
batches_required_least_example = batches_required_least 1001 500 3 (omega arith)

same_refl : (k : RowId) → (telemetry_table cutoff).same k k ≡ true
unfolding telemetry_table
same_refl (RowId.number n) = ground arith
same_refl (RowId.text t) = eq_refl t

abbrev is_old : Row → Bool
is_old r = is_older cutoff r.at

pointwise : IsPointwise (telemetry_table cutoff) is_old
unfolding IsPointwise telemetry_table
pointwise rows r = refl

purge_loop_ends_example :
    (run : Run Row) × (purge_loop (telemetry_table cutoff) 1 faults 3 0 (old_row ∷ recent_row ∷ [])
      ≡ some run)
    × IsPurged (telemetry_table cutoff) is_old (old_row ∷ recent_row ∷ []) run
purge_loop_ends_example =
    purge_loop_ends (telemetry_table cutoff) same_refl is_old pointwise 1 (omega arith) faults 3 0
      (old_row ∷ recent_row ∷ []) (omega arith) two_rows

abbrev older_snapshot : TopologySnapshot
older_snapshot = record {
  snapshot_id = "s0";
  network_id = "home";
  status = Status.complete;
  captured_at = at_day 10;
}

abbrev reference : Moment
reference = record { julian = 1728000000; instant = 1728000000000 }

-- The older one of two goes.
one_left :
    purge (over_cap_table 1 cutoff reference []) 1 (λ n. none) 0 (snapshot ∷ older_snapshot ∷ [])
    ≡ some (record { rows = snapshot ∷ []; deleted = 1; transactions = 2; fault = none })
unfolding purge purge_loop purge_batch delete_by_ids select_rows is_selected add_deleted
    over_cap_table snapshot_rank competes outranks is_kept_by is_past goes_before sort_with
one_left = refl

purge_caps_example :
    (run : Run TopologySnapshot) × (purge
        (over_cap_table 1 cutoff reference [])
        1
        faults
        0
        (snapshot ∷ older_snapshot ∷ [])
      ≡ some run)
    × (run.fault ≡ none
        → All
            (λ s.
              competes cutoff reference [] s ≡ true
              → snapshot_rank cutoff reference [] run.rows s < 1)
            run.rows)
purge_caps_example =
    purge_caps 1 cutoff reference [] 1 faults 0 (snapshot ∷ older_snapshot ∷ []) (omega arith)
      (omega arith)
