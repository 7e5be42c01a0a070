-- ===== src/Maintenance/Executor/Outcome/Sweeping.antt =====
-- The sweep over the tables of telemetry.
use zigbeelens.Common.{
  eq_refl, ℕ, ◌+◌, ◌<◌, ◌≡◌, refl, sym, subst, true, Option, none, some, List, [], ◌∷◌, arith, All,
  Each, Bool-cases, Option-cases, inl, inr,
}
use zigbeelens.Maintenance.Purge.{Fault, Run}
use zigbeelens.Maintenance.Purge.Batches.{IsKeyed}
use zigbeelens.Maintenance.Purge.Loop.{IsPointwise, purge-IsPurged}
use zigbeelens.Maintenance.Tables.{Row, RowId, same_id, telemetry_table}
use zigbeelens.Maintenance.Executor.{
  Plan, Telemetry, failed_in, Sweep, purge_table, purge_telemetry,
}
use zigbeelens.Maintenance.Executor.Outcome.{
  Purged, Purged-failed, Purged-run, Purged-nothing, due_row, PurgedTable,
}

id_refl : (k : RowId) → same_id k k ≡ true
id_refl (RowId.number n) = ground arith
id_refl (RowId.text t) = eq_refl t

module _ (plan : Plan) (faults : ℕ → Option Fault) (positive : 0 < plan.batch_size) where
  pointwise : IsPointwise (telemetry_table plan.telemetry_cutoff) (due_row plan true)
  unfolding IsPointwise telemetry_table due_row
  pointwise rows r = refl

  -- The loop of one table, with what is due there if the loop succeeds.
  purge_table_ends :
      (n : ℕ) (t : Telemetry)
      → IsKeyed (telemetry_table plan.telemetry_cutoff) t.rows
      → (run : Run Row) × (purge_table plan faults n t ≡ some run)
        × ((Success : Type 0)
            → (Success → run.fault ≡ none)
            → Purged (due_row plan t.exists) Success t.rows run.rows run.deleted)
  unfolding purge_table due_row
  purge_table_ends n t keyed = elim (Bool-cases t.exists) [
    | inl e ↦
        let ended =
          purge-IsPurged (telemetry_table plan.telemetry_cutoff) id_refl (due_row plan true)
            pointwise plan.batch_size positive faults n t.rows keyed in
        (
          ended.0,
          rw (e, purge_table) ended.1,
          λ Success ok.
              subst (λ b. Purged (due_row plan b) Success t.rows ended.0.rows ended.0.deleted)
                (sym e)
                (Purged-run (telemetry_table plan.telemetry_cutoff) (due_row plan true) Success
                  t.rows ended.0 ended.2 ok),
        )
    | inr e ↦ (
      record { rows = t.rows; deleted = 0; transactions = n; fault = none },
      rw (e, purge_table) refl,
      λ Success ok.
          subst (λ b. Purged (due_row plan b) Success t.rows t.rows 0) (sym e)
            (Purged-nothing Success t.rows),
    )
  ]

  -- Tables that the sweep has not reached.
  untouched :
      (Success : Type 0)
      → (Success → ⊥)
      → (ts : List Telemetry) → All (λ t. t.deleted ≡ 0) ts
      → Each (PurgedTable plan Success) ts ts
  unfolding PurgedTable
  untouched Success failed [] fresh = tt
  untouched Success failed (t ∷ ts) fresh = (
    (refl, rw fresh.0 (Purged-failed (due_row plan t.exists) Success t.rows failed)),
    untouched Success failed ts fresh.1,
  )

  pub purge_telemetry_ends :
      (n : ℕ) (ts : List Telemetry)
      → All (λ t. t.deleted ≡ 0) ts
      → All (λ t. IsKeyed (telemetry_table plan.telemetry_cutoff) t.rows) ts
      → (sweep : Sweep) × (purge_telemetry plan faults n ts ≡ some sweep)
        × ((Success : Type 0)
            → (Success → sweep.failure ≡ none)
            → Each (PurgedTable plan Success) ts sweep.telemetry)
  unfolding purge_telemetry PurgedTable
  purge_telemetry_ends n [] fresh keyed =
      (record { telemetry = []; transactions = n; failure = none }, refl, λ Success ok. tt)
  purge_telemetry_ends n (t ∷ ts) fresh keyed =
      let (run, ended, purged) = purge_table_ends n t keyed.0 in
      let (rest, rest_ended, rest_purged) =
        purge_telemetry_ends run.transactions ts fresh.1 keyed.1 in
      let t' : Telemetry = record t { rows = run.rows; deleted = t.deleted + run.deleted } in
      let count : t'.deleted ≡ run.deleted = omega (arith, fresh.0) in
      elim (Option-cases run.fault) [
        | inl committed ↦ (
          record rest { telemetry = t' ∷ rest.telemetry },
          rw (ended, rest_ended, committed, purge_telemetry) refl,
          λ Success ok.
              ((refl, rw count (purged Success (λ _. committed))), rest_purged Success ok),
        )
        | inr (f, failed) ↦ (
          record {
            telemetry = t' ∷ ts;
            transactions = run.transactions;
            failure = failed_in t.table (some f);
          },
          rw (ended, rest_ended, failed, purge_telemetry) refl,
          λ Success ok.
              let never : Success → ⊥ = λ s. ground (arith, ok s) in
              (
                (refl, rw count (purged Success (λ s. absurd (never s)))),
                untouched Success never ts fresh.1,
              ),
        )
      ]
