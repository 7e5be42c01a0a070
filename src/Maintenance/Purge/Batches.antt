-- ===== src/Maintenance/Purge/Batches.antt =====
-- One batch: what is counted, what is removed, and what a short batch leaves.
use zigbeelens.Common.{
  ℕ, ◌+◌, ◌≤◌, ◌<◌, ◌≡◌, ap, ◌∙◌, subst, Bool, true, false, not, List, length, filter, any, arith,
  All, All-map, Some, Bool-cases, inl, inr, length-filter,
}
use zigbeelens.Common.Order.{sort_with, All-sort_with, count_sort, any_sort}
use zigbeelens.Common.Filters.{
  All-filter, All-take, All-self, Some-filter, take_all, count_take, count_filter, count_not,
  filter-All, any-filter, Some-any, any-Some, Some-All,
}
use zigbeelens.Maintenance.Purge.{Table, select_rows, is_selected, delete_by_ids, purge_batch}

module _ {A K : Type 0} (t : Table A K) where
  -- The primary key tells the rows apart.
  unfoldable pub IsKeyed : List A → Type 0
  IsKeyed rows =
      (r s : A)
      → Some (λ x. x ≡ r) rows
      → Some (λ x. x ≡ s) rows
      → t.same (t.key r) (t.key s) ≡ true
      → r ≡ s

  pub filter-IsKeyed : (p : A → Bool) (rows : List A) → IsKeyed rows → IsKeyed (filter p rows)
  unfolding IsKeyed
  filter-IsKeyed p rows keyed r s hr hs =
      keyed r s (Some-filter (λ x. x ≡ r) p rows hr) (Some-filter (λ x. x ≡ s) p rows hs)

  -- The count is that of the rows that went.
  pub purge_batch_count :
      (limit : ℕ) (rows : List A)
      → length (purge_batch t limit rows).rows + (purge_batch t limit rows).count ≡ length rows
  unfolding purge_batch delete_by_ids
  purge_batch_count limit rows =
      omega (arith, length-filter (λ r. not (is_selected t (select_rows t limit rows) r)) rows)

  module _ (same_refl : (k : K) → t.same k k ≡ true) where
    counts_itself : (selected : List A) → All (λ s. is_selected t selected s ≡ true) selected
    unfolding is_selected
    counts_itself selected =
        All-map
          (λ s h.
            Some-any (λ x. x ≡ s) (λ x. t.same (t.key x) (t.key s))
              (λ x e. subst (λ y. t.same (t.key x) (t.key y) ≡ true) e (same_refl (t.key x)))
              selected h)
          selected (All-self selected)

    -- The rows that were selected are counted at least.
    selected_count :
        (limit : ℕ) (rows : List A)
        → length (select_rows t limit rows) ≤ (purge_batch t limit rows).count
    unfolding purge_batch delete_by_ids select_rows
    selected_count limit rows =
        let due = filter (t.eligible rows) rows in
        let selected = select_rows t limit rows in
        let p : A → Bool = is_selected t selected in
        let all : filter p selected ≡ selected = filter-All p selected (counts_itself selected) in
        omega (
          arith,
          ap length all,
          count_take p limit (sort_with t.before due),
          count_sort t.before p due,
          count_filter p (t.eligible rows) rows,
          count_not p rows,
        )

    -- After a batch that is not full, no row is left that was due.
    pub short_batch_clears :
        (limit : ℕ) (rows : List A)
        → (purge_batch t limit rows).count < limit
        → All (λ r. t.eligible rows r ≡ false) (purge_batch t limit rows).rows
    unfolding purge_batch delete_by_ids select_rows is_selected
    short_batch_clears limit rows short =
        let due = filter (t.eligible rows) rows in
        let p : A → Bool = is_selected t (select_rows t limit rows) in
        let all : select_rows t limit rows ≡ sort_with t.before due =
          take_all limit (sort_with t.before due)
            (omega (arith, short, selected_count limit rows)) in
        let found =
          any-filter (λ s r. t.same (t.key s) (t.key r)) (t.eligible rows) rows
            (λ r. same_refl (t.key r)) in
        let selected : All (λ r. t.eligible rows r ≡ true → p r ≡ true) rows =
          All-map
            (λ r h due_r.
              ap (λ l. any (λ s. t.same (t.key s) (t.key r)) l) all
              ∙ any_sort t.before (λ s. t.same (t.key s) (t.key r)) due
              ∙ h due_r)
            rows found in
        All-map
          (λ r h. elim (Bool-cases (t.eligible rows r)) [
            | inl e ↦ absurd (ground (arith, h.1, h.0 e))
            | inr e ↦ e
          ])
          (filter (λ r. not (p r)) rows)
          (All-filter (λ r. t.eligible rows r ≡ true → p r ≡ true) (λ r. not (p r)) rows selected)

  -- Only rows that are due are removed.
  pub purge_batch_keeps :
      (limit : ℕ) (rows : List A)
      → IsKeyed rows
      → All (λ r. is_selected t (select_rows t limit rows) r ≡ true → t.eligible rows r ≡ true) rows
  unfolding select_rows is_selected IsKeyed
  purge_batch_keeps limit rows keyed =
      let due = filter (t.eligible rows) rows in
      let InRows : A → Type 0 = λ s. Some (λ x. x ≡ s) rows in
      let selected =
        All-take (λ s. InRows s × (t.eligible rows s ≡ true)) limit (sort_with t.before due)
          (All-sort_with t.before (λ s. InRows s × (t.eligible rows s ≡ true)) due
            (All-filter InRows (t.eligible rows) rows (All-self rows))) in
      All-map
        (λ r in_rows h.
          let (s, same, (s_in_rows, due_s)) =
            Some-All (λ s. t.same (t.key s) (t.key r) ≡ true)
              (λ s. InRows s × (t.eligible rows s ≡ true)) (select_rows t limit rows)
              (any-Some (λ s. t.same (t.key s) (t.key r)) (select_rows t limit rows) h) selected in
          subst (λ x. t.eligible rows x ≡ true) (keyed s r s_in_rows in_rows same) due_s)
        rows (All-self rows)
