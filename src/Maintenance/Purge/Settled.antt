-- ===== src/Maintenance/Purge/Settled.antt =====
-- What the loop leaves where a row may be due because of the other rows.
use zigbeelens.Common.{
  ℕ, zero, suc, ◌+◌, ◌<◌, ◌≡◌, refl, Bool, true, false, not, Option, none, some, List, length,
  filter, arith, All, All-map, Bool-cases, Option-cases, inl, inr, ltb,
}
use zigbeelens.Maintenance.Purge.{
  Table, Fault, Run, select_rows, is_selected, delete_by_ids, purge_batch, purge_loop, add_deleted,
}
use zigbeelens.Maintenance.Purge.Batches.{purge_batch_count, short_batch_clears}

module _ {A K : Type 0} (t : Table A K) (same_refl : (k : K) → t.same k k ≡ true) (limit : ℕ)
    (positive : 0 < limit)
    (fewer : (rows : List A) (p : A → Bool) (r : A)
      → t.eligible rows r ≡ false
      → t.eligible (filter p rows) r ≡ false) where
  -- A row that is not due does not become so when others go.
  batch_settles :
      (rows : List A)
      → (purge_batch t limit rows).count < limit
      → All
          (λ r. t.eligible (purge_batch t limit rows).rows r ≡ false)
          (purge_batch t limit rows).rows
  unfolding purge_batch delete_by_ids
  batch_settles rows short =
      let kept : A → Bool = λ r. not (is_selected t (select_rows t limit rows) r) in
      All-map (λ r h. fewer rows kept r h) (purge_batch t limit rows).rows
        (short_batch_clears t same_refl limit rows short)

  pub purge_loop_settles :
      (faults : ℕ → Option Fault) (fuel n : ℕ) (rows : List A)
      → length rows < fuel
      → (run : Run A) × (purge_loop t limit faults fuel n rows ≡ some run)
        × (run.fault ≡ none → All (λ r. t.eligible run.rows r ≡ false) run.rows)
  unfolding purge_loop add_deleted
  purge_loop_settles faults zero n rows enough = absurd (omega (arith, enough))
  purge_loop_settles faults (suc fuel) n rows enough =
      let batch = purge_batch t limit rows in
      let counted = purge_batch_count t limit rows in
      elim (Option-cases (faults n)) [
        | inr (f, failed) ↦ (
          record { rows = rows; deleted = 0; transactions = suc n; fault = some f },
          rw (failed, purge_loop) refl,
          λ h. absurd (cc h),
        )
        | inl committed ↦ elim (Bool-cases (ltb batch.count limit)) [
          | inl short ↦ (
            record { rows = batch.rows; deleted = batch.count; transactions = suc n; fault = none },
            rw (committed, short, purge_loop) refl,
            λ _. batch_settles rows (ground (arith, short)),
          )
          | inr full ↦
              let rest =
                purge_loop_settles faults fuel (suc n) batch.rows
                  (ground (arith, full, counted, enough, positive)) in
              (
                record {
                  rows = rest.0.rows;
                  deleted = batch.count + rest.0.deleted;
                  transactions = rest.0.transactions;
                  fault = rest.0.fault;
                },
                rw (committed, full, purge_loop) (rw rest.1 refl),
                rest.2,
              )
        ]
      ]
