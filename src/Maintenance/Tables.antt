-- ===== src/Maintenance/Tables.antt =====
-- The tables that maintenance purges, and which of their rows are due (storage/access/maintenance.py).
-- A time in a row is a text: `julian` is its `julianday` in milliseconds, `instant` its
-- `retention_instant` in microseconds, and each is missing where SQLite has NULL. Of the children of a
-- row (nodes and links of a snapshot, the incident of an event) the tables here know nothing.
pub mod Cap
use zigbeelens.Common.{
  ℕ, ◌+◌, String, Bool, true, false, not, ◌&&◌, Option, none, some, List, length, filter, ltb, leb,
  ◌==◌, str_eq, str_leb, elem, if◌then◌else◌,
}
use zigbeelens.Incident.Types.{Lifecycle}
use zigbeelens.Maintenance.Purge.{Table}

pub record Stamp : Type 0 where
  pub julian : Option ℕ
  pub instant : Option ℕ

-- A time that the executor passes to a statement.
pub record Moment : Type 0 where
  pub julian : ℕ
  pub instant : ℕ

-- An INTEGER or a TEXT in the column of a primary key.
pub data RowId : Type 0 where
  number : ℕ → RowId
  text : String → RowId

abbrev pub same_id : RowId → RowId → Bool
same_id (number m) (number n) = m == n
same_id (number m) (text t) = false
same_id (text s) (number n) = false
same_id (text s) (text t) = str_eq s t

-- SQLite puts the numbers before the texts.
abbrev pub id_before : RowId → RowId → Bool
id_before (number m) (number n) = leb m n
id_before (number m) (text t) = true
id_before (text s) (number n) = false
id_before (text s) (text t) = str_leb s t

pub record Row : Type 0 where
  pub id : RowId
  pub at : Stamp

pub data Status : Type 0 where
  pending complete error : Status

pub record TopologySnapshot : Type 0 where
  pub snapshot_id : String
  pub network_id : String
  pub status : Status
  pub captured_at : Stamp

pub record IncidentRow : Type 0 where
  pub id : String
  pub lifecycle_state : Lifecycle
  pub resolved_at : Stamp

pub record Report : Type 0 where
  pub id : String
  pub generated_at : Stamp

-- Comparisons with NULL are not true.
abbrev pub holds : (ℕ → Bool) → Option ℕ → Bool
holds p none = false
holds p (some n) = p n

-- `JD_LT`
unfoldable pub is_older : Moment → Stamp → Bool
is_older cutoff s =
    holds (λ j. leb j cutoff.julian) s.julian && holds (λ i. ltb i cutoff.instant) s.instant

-- `JD_GE`, with its slack of a millisecond
unfoldable pub is_kept_by : Moment → Stamp → Bool
is_kept_by cutoff s =
    holds (λ j. leb cutoff.julian (j + 1)) s.julian && holds (λ i. leb cutoff.instant i) s.instant

-- `JD_LE`
unfoldable pub is_past : Moment → Stamp → Bool
is_past now s =
    holds (λ j. leb j (now.julian + 1)) s.julian && holds (λ i. leb i now.instant) s.instant

-- The value that ORDER BY compares; no selected row lacks it.
abbrev pub julian_of : Stamp → ℕ
julian_of s = elim s.julian [ none ↦ 0 | some j ↦ j ]

-- ORDER BY julianday(column) ASC, id ASC
unfoldable pub goes_before : Stamp → Stamp → Bool → Bool
goes_before s u by_id =
    if ltb (julian_of s) (julian_of u)
    then true
    else if ltb (julian_of u) (julian_of s)
    then false
    else by_id

-- `select_telemetry_ids`
unfoldable pub telemetry_table : Moment → Table Row RowId
telemetry_table cutoff = record {
  key = λ r. r.id;
  same = same_id;
  before = λ r s. goes_before r.at s.at (id_before r.id s.id);
  eligible = λ rows r. is_older cutoff r.at;
}

abbrev pub is_terminal : Status → Bool
is_terminal Status.pending = false
is_terminal Status.complete = true
is_terminal Status.error = true

-- The WHERE of `select_terminal_topology_ids`
unfoldable pub is_aged : Moment → List String → TopologySnapshot → Bool
is_aged cutoff exclude s =
    is_terminal s.status && is_older cutoff s.captured_at && not (elem s.snapshot_id exclude)

abbrev pub snapshot_before : TopologySnapshot → TopologySnapshot → Bool
snapshot_before s u = goes_before s.captured_at u.captured_at (str_leb s.snapshot_id u.snapshot_id)

unfoldable pub aged_table : Moment → List String → Table TopologySnapshot String
aged_table cutoff exclude = record {
  key = λ s. s.snapshot_id;
  same = str_eq;
  before = snapshot_before;
  eligible = λ rows. is_aged cutoff exclude;
}

-- The inner WHERE of `select_topology_count_cap_ids`
unfoldable pub competes : Moment → Moment → List String → TopologySnapshot → Bool
competes cutoff now exclude s =
    is_terminal s.status
    && is_kept_by cutoff s.captured_at
    && is_past now s.captured_at
    && not (elem s.snapshot_id exclude)

-- ORDER BY julianday(captured_at) DESC, snapshot_id DESC: `u` stands before `s`.
unfoldable pub outranks : TopologySnapshot → TopologySnapshot → Bool
outranks u s = not (snapshot_before u s)

-- `ROW_NUMBER` less one: the competitors of the same network that stand before.
unfoldable pub snapshot_rank :
    Moment → Moment → List String → List TopologySnapshot → TopologySnapshot → ℕ
unfolding competes outranks
snapshot_rank cutoff now exclude rows s = length (
    filter (λ u. competes cutoff now exclude u && str_eq u.network_id s.network_id && outranks u s)
      rows)

unfoldable pub over_cap_table : ℕ → Moment → Moment → List String → Table TopologySnapshot String
unfolding competes snapshot_rank
over_cap_table max_snapshots cutoff now exclude = record {
  key = λ s. s.snapshot_id;
  same = str_eq;
  before = snapshot_before;
  eligible = λ rows s.
      leb 1 max_snapshots
      && competes cutoff now exclude s
      && leb max_snapshots (snapshot_rank cutoff now exclude rows s);
}

abbrev pub is_resolved : Lifecycle → Bool
is_resolved Lifecycle.opened = false
is_resolved Lifecycle.watching = false
is_resolved Lifecycle.resolved = true

-- `select_resolved_incident_ids`
unfoldable pub incident_table : Moment → Table IncidentRow String
incident_table cutoff = record {
  key = λ r. r.id;
  same = str_eq;
  before = λ r s. goes_before r.resolved_at s.resolved_at (str_leb r.id s.id);
  eligible = λ rows r. is_resolved r.lifecycle_state && is_older cutoff r.resolved_at;
}

-- `select_report_ids`
unfoldable pub report_table : Moment → Table Report String
report_table cutoff = record {
  key = λ r. r.id;
  same = str_eq;
  before = λ r s. goes_before r.generated_at s.generated_at (str_leb r.id s.id);
  eligible = λ rows r. is_older cutoff r.generated_at;
}

-- The WHERE of `select_abandoned_pending_topology_ids`; the timeout is fifteen minutes.
unfoldable pub is_abandoned : Moment → List String → TopologySnapshot → Bool
is_abandoned now exclude s =
    elim s.status [ Status.pending ↦ true | Status.complete ↦ false | Status.error ↦ false ]
    && holds (λ j. true) s.captured_at.julian
    && holds (λ i. leb (i + 900000000) now.instant) s.captured_at.instant
    && not (elem s.snapshot_id exclude)
