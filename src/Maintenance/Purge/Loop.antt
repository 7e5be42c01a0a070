-- ===== src/Maintenance/Purge/Loop.antt =====
-- The loop over batches ends, and purges what is due.
use zigbeelens.Common.{
  ℕ, zero, suc, ◌+◌, ◌<◌, ◌≡◌, refl, sym, ◌∙◌, Bool, true, not, Option, none, some, List, length,
  filter, arith, All-map, Bool-cases, Option-cases, inl, inr, ltb,
}
use zigbeelens.Common.Filters.{filter-All, filter-filter}
use zigbeelens.Maintenance.Purge.{
  Table, Fault, Run, select_rows, is_selected, delete_by_ids, purge_batch, purge_loop, add_deleted,
  purge,
}
use zigbeelens.Maintenance.Purge.Batches.{
  IsKeyed, filter-IsKeyed, purge_batch_count, short_batch_clears, purge_batch_keeps,
}

-- Every run ends and counts what it removes, whatever is due.
module _ {A K : Type 0} (t : Table A K) (limit : ℕ) (positive : 0 < limit) where
  pub purge_loop_counts :
      (faults : ℕ → Option Fault) (fuel n : ℕ) (rows : List A)
      → length rows < fuel
      → (run : Run A) × (purge_loop t limit faults fuel n rows ≡ some run)
        × (length run.rows + run.deleted ≡ length rows)
  unfolding purge_loop add_deleted
  purge_loop_counts faults zero n rows enough = absurd (omega (arith, enough))
  purge_loop_counts faults (suc fuel) n rows enough =
      let batch = purge_batch t limit rows in
      let counted = purge_batch_count t limit rows in
      elim (Option-cases (faults n)) [
        | inr (f, failed) ↦ (
          record { rows = rows; deleted = 0; transactions = suc n; fault = some f },
          rw (failed, purge_loop) refl,
          omega arith,
        )
        | inl committed ↦ elim (Bool-cases (ltb batch.count limit)) [
          | inl short ↦ (
            record { rows = batch.rows; deleted = batch.count; transactions = suc n; fault = none },
            rw (committed, short, purge_loop) refl,
            counted,
          )
          | inr full ↦
              let rest =
                purge_loop_counts faults fuel (suc n) batch.rows
                  (ground (arith, full, counted, enough, positive)) in
              (
                record {
                  rows = rest.0.rows;
                  deleted = batch.count + rest.0.deleted;
                  transactions = rest.0.transactions;
                  fault = rest.0.fault;
                },
                rw (committed, full, purge_loop) (rw rest.1 refl),
                omega (arith, counted, rest.2),
              )
        ]
      ]

  pub purge_counts :
      (faults : ℕ → Option Fault) (n : ℕ) (rows : List A)
      → (run : Run A) × (purge t limit faults n rows ≡ some run)
        × (length run.rows + run.deleted ≡ length rows)
  unfolding purge
  purge_counts faults n rows = purge_loop_counts faults (suc (length rows)) n rows (omega arith)

module _ {A K : Type 0} (t : Table A K) where
  -- Whether a row is due does not depend on the other rows.
  unfoldable pub IsPointwise : (A → Bool) → Type 0
  IsPointwise due = (rows : List A) (r : A) → t.eligible rows r ≡ due r

  -- What a run may leave of the rows: it counts what it removes, removes only rows that are due, and
  -- all of them unless a transaction failed.
  unfoldable pub IsPurged : (A → Bool) → List A → Run A → Type 0
  IsPurged due rows run =
      (length run.rows + run.deleted ≡ length rows)
      × (filter (λ r. not (due r)) run.rows ≡ filter (λ r. not (due r)) rows)
      × (run.fault ≡ none → run.rows ≡ filter (λ r. not (due r)) rows)
      × IsKeyed t run.rows

  module _ (same_refl : (k : K) → t.same k k ≡ true) (due : A → Bool) (pointwise : IsPointwise due)
      (limit : ℕ) (positive : 0 < limit) where
    batch_keeps :
        (rows : List A)
        → IsKeyed t rows
        → filter (λ r. not (due r)) (purge_batch t limit rows).rows ≡ filter (λ r. not (due r)) rows
    unfolding purge_batch delete_by_ids IsPointwise
    batch_keeps rows keyed =
        filter-filter (λ r. not (due r)) (λ r. not (is_selected t (select_rows t limit rows) r))
          rows
          (All-map
            (λ r h kept. elim (Bool-cases (is_selected t (select_rows t limit rows) r)) [
              | inl e ↦ absurd (ground (arith, kept, h e, pointwise rows r))
              | inr e ↦ ground (arith, e)
            ])
            rows (purge_batch_keeps t limit rows keyed))

    batch_clears :
        (rows : List A)
        → (purge_batch t limit rows).count < limit
        → filter (λ r. not (due r)) (purge_batch t limit rows).rows
          ≡ (purge_batch t limit rows).rows
    unfolding IsPointwise
    batch_clears rows short =
        filter-All (λ r. not (due r)) (purge_batch t limit rows).rows
          (All-map (λ r h. ground (arith, h, pointwise rows r)) (purge_batch t limit rows).rows
            (short_batch_clears t same_refl limit rows short))

    batch-IsKeyed : (rows : List A) → IsKeyed t rows → IsKeyed t (purge_batch t limit rows).rows
    unfolding purge_batch delete_by_ids
    batch-IsKeyed rows keyed =
        filter-IsKeyed t (λ r. not (is_selected t (select_rows t limit rows) r)) rows keyed

    -- The loop over batches ends with fuel for one more batch than there are rows, whichever
    -- transactions fail. It counts the rows that it removes, removes none that is not due, and removes
    -- all that are due if no transaction fails. The size of a batch is not 0, the primary key tells the
    -- rows apart, and whether a row is due does not depend on the others.
    pub purge_loop_ends :
        (faults : ℕ → Option Fault) (fuel n : ℕ) (rows : List A)
        → length rows < fuel
        → IsKeyed t rows
        → (run : Run A) × (purge_loop t limit faults fuel n rows ≡ some run) × IsPurged due rows run
    unfolding purge_loop IsPurged add_deleted
    purge_loop_ends faults zero n rows enough keyed = absurd (omega (arith, enough))
    purge_loop_ends faults (suc fuel) n rows enough keyed =
        let kept = batch_keeps rows keyed in
        let counted = purge_batch_count t limit rows in
        let keyed' = batch-IsKeyed rows keyed in
        elim (Option-cases (faults n)) [
          | inr (f, failed) ↦ (
            record { rows = rows; deleted = 0; transactions = suc n; fault = some f },
            rw (failed, purge_loop) refl,
            (omega arith, refl, λ h. absurd (cc h), keyed),
          )
          | inl committed ↦ elim (Bool-cases (ltb (purge_batch t limit rows).count limit)) [
            | inl short ↦ (
              record {
                rows = (purge_batch t limit rows).rows;
                deleted = (purge_batch t limit rows).count;
                transactions = suc n;
                fault = none;
              },
              rw (committed, short, purge_loop) refl,
              (counted, kept, λ _. sym (batch_clears rows (ground (arith, short))) ∙ kept, keyed'),
            )
            | inr full ↦
                let rest =
                  purge_loop_ends faults fuel (suc n) (purge_batch t limit rows).rows
                    (ground (arith, full, counted, enough, positive)) keyed' in
                (
                  record {
                    rows = rest.0.rows;
                    deleted = (purge_batch t limit rows).count + rest.0.deleted;
                    transactions = rest.0.transactions;
                    fault = rest.0.fault;
                  },
                  rw (committed, full, purge_loop) (rw rest.1 refl),
                  (
                    omega (arith, counted, rest.2.0),
                    rest.2.1 ∙ kept,
                    λ ok. rest.2.2 ok ∙ kept,
                    rest.2.3,
                  ),
                )
          ]
        ]

    pub purge-IsPurged :
        (faults : ℕ → Option Fault) (n : ℕ) (rows : List A)
        → IsKeyed t rows
        → (run : Run A) × (purge t limit faults n rows ≡ some run) × IsPurged due rows run
    unfolding purge
    purge-IsPurged faults n rows keyed =
        purge_loop_ends faults (suc (length rows)) n rows (omega arith) keyed
