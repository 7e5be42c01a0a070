-- ===== src/Maintenance/Tables/Cap.antt =====
-- The cap on the snapshots of a network.
use zigbeelens.Common.{
  ℕ, suc, ◌≤◌, ◌<◌, ◌≡◌, String, Bool, true, false, ◌&&◌, Option, none, some, List, length, filter,
  arith, All, All-map, eq_refl, str_eq,
}
use zigbeelens.Common.Filters.{count_filter}
use zigbeelens.Maintenance.Purge.{Fault, Run, purge}
use zigbeelens.Maintenance.Purge.Settled.{purge_loop_settles}
use zigbeelens.Maintenance.Tables.{
  Moment, TopologySnapshot, competes, outranks, snapshot_rank, over_cap_table,
}

module _ (max_snapshots : ℕ) (cutoff now : Moment) (exclude : List String) where
  -- Where snapshots go, no rank rises.
  rank_falls :
      (rows : List TopologySnapshot) (p : TopologySnapshot → Bool) (s : TopologySnapshot)
      → snapshot_rank cutoff now exclude (filter p rows) s ≤ snapshot_rank cutoff now exclude rows s
  unfolding snapshot_rank
  rank_falls rows p s =
      count_filter
        (λ u. competes cutoff now exclude u && str_eq u.network_id s.network_id && outranks u s) p
        rows

  fewer :
      (rows : List TopologySnapshot) (p : TopologySnapshot → Bool) (s : TopologySnapshot)
      → (over_cap_table max_snapshots cutoff now exclude).eligible rows s ≡ false
      → (over_cap_table max_snapshots cutoff now exclude).eligible (filter p rows) s ≡ false
  unfolding over_cap_table
  fewer rows p s h = ground (arith, h, rank_falls rows p s)

  -- The loop over the cap ends, whichever transactions fail. If none did, then before each snapshot
  -- that competes for the cap stand fewer than the greatest number of its network, of those that are
  -- left. This number and the size of a batch are not 0.
  pub purge_caps :
      (limit : ℕ) (faults : ℕ → Option Fault) (n : ℕ) (rows : List TopologySnapshot)
      → 0 < limit
      → 0 < max_snapshots
      → (run : Run TopologySnapshot) × (purge
            (over_cap_table max_snapshots cutoff now exclude)
            limit
            faults
            n
            rows
          ≡ some run)
        × (run.fault ≡ none
            → All
                (λ s.
                  competes cutoff now exclude s ≡ true
                  → snapshot_rank cutoff now exclude run.rows s < max_snapshots)
                run.rows)
  unfolding purge over_cap_table
  purge_caps limit faults n rows positive some_allowed =
      let ended =
        purge_loop_settles (over_cap_table max_snapshots cutoff now exclude) eq_refl limit positive
          fewer faults (suc (length rows)) n rows (omega arith) in
      (
        ended.0,
        ended.1,
        λ ok. All-map (λ s h c. ground (arith, h, c, some_allowed)) ended.0.rows (ended.2 ok),
      )
