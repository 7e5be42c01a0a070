-- ===== src/Maintenance/Purge.antt =====
-- A batch of deletions and the loop around it (storage/access/maintenance.py and the loops of
-- `_execute_deletes` in storage/maintenance.py), for the rows of any table.
pub mod Batches
pub mod Loop
pub mod Settled
use zigbeelens.Common.{
  ℕ, zero, suc, ◌+◌, ◌-◌, Bool, true, false, not, ◌||◌, Option, none, some, List, [], ◌∷◌, map,
  length, take, filter, any, ltb, if◌then◌else◌,
}
use zigbeelens.Common.Order.{sort_with}

-- What a DELETE needs of a table: the primary key, the order of the batch, the rows that are due.
pub record Table (A K : Type 0) : Type 0 where
  pub key : A → K
  pub same : K → K → Bool
  pub before : A → A → Bool
  pub eligible : List A → A → Bool

-- Why a transaction was rolled back.
pub data Fault : Type 0 where
  database_busy : Fault
  other_error : Fault

pub record Batch (A : Type 0) : Type 0 where
  pub rows : List A
  pub count : ℕ

-- What a loop over batches leaves: the rows, the sum of the counts, the number of transactions so
-- far, and the exception that ended it.
pub record Run (A : Type 0) : Type 0 where
  pub rows : List A
  pub deleted : ℕ
  pub transactions : ℕ
  pub fault : Option Fault

module _ {A K : Type 0} (t : Table A K) where
  -- The SELECT: the due rows in order, at most `limit`.
  unfoldable pub select_rows : ℕ → List A → List A
  select_rows limit rows = take limit (sort_with t.before (filter (t.eligible rows) rows))

  unfoldable pub is_selected : List A → A → Bool
  is_selected selected r = any (λ s. t.same (t.key s) (t.key r)) selected

  -- `_delete_by_ids`: DELETE … WHERE id IN the ids, and the row count.
  unfoldable pub delete_by_ids : List A → List A → Batch A
  unfolding is_selected
  delete_by_ids selected rows =
      let remaining = filter (λ r. not (is_selected selected r)) rows in
      record { rows = remaining; count = length rows - length remaining }

  -- One batch.
  unfoldable pub purge_batch : ℕ → List A → Batch A
  unfolding select_rows delete_by_ids
  purge_batch limit rows = delete_by_ids (select_rows limit rows) rows

  unfoldable pub add_deleted : ℕ → Option (Run A) → Option (Run A)
  add_deleted n none = none
  add_deleted n (some r) = some record {
    rows = r.rows;
    deleted = n + r.deleted;
    transactions = r.transactions;
    fault = r.fault;
  }

  -- `while True`, a transaction per batch; `faults` tells which transactions fail. `none` is a loop
  -- that has not ended within the fuel.
  unfoldable pub purge_loop :
      ℕ → (ℕ → Option Fault) → (fuel : ℕ) → (transactions : ℕ) → List A → Option (Run A)
  unfolding purge_batch add_deleted
  purge_loop limit faults zero n rows = none
  purge_loop limit faults (suc fuel) n rows =
      let batch = purge_batch limit rows in
      let rest = purge_loop limit faults fuel (suc n) batch.rows in
      elim (faults n) [
        | some f ↦ some (record { rows = rows; deleted = 0; transactions = suc n; fault = some f })
        | none ↦
            if ltb batch.count limit
            then some (record {
              rows = batch.rows;
              deleted = batch.count;
              transactions = suc n;
              fault = none;
            })
            else add_deleted batch.count rest
      ]

  -- The loop, with fuel for one more batch than there are rows.
  unfoldable pub purge : ℕ → (ℕ → Option Fault) → ℕ → List A → Option (Run A)
  unfolding purge_loop
  purge limit faults n rows = purge_loop limit faults (suc (length rows)) n rows
