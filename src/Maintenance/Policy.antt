-- ===== src/Maintenance/Policy.antt =====
-- storage/retention_policy.py. An instant is a number of microseconds since the least `datetime`.
pub mod Batches
use zigbeelens.Common.{ℕ, ◌+◌, ◌-◌, ◌*◌, ◌/◌, Option, none, some, ltb, ◌||◌, ◌==◌, if◌then◌else◌}

pub record StorageRetentionPolicy : Type 0 where
  pub telemetry_retention_days : ℕ
  pub resolved_incident_retention_days : Option ℕ
  pub report_retention_days : Option ℕ
  pub topology_max_snapshots_per_network : ℕ

pub record StorageRetentionCutoffs : Type 0 where
  pub telemetry : ℕ
  pub resolved_incident : Option ℕ
  pub report : Option ℕ

abbrev pub maintenance_batch_size : ℕ
maintenance_batch_size = 500

abbrev pub microseconds_per_day : ℕ
microseconds_per_day = 86400000000

infixl 55 ◌>>=◌
-- An exception ends the function.
abbrev ◌>>=◌ : {A B : Type 0} → Option A → (A → Option B) → Option B
none >>= f = none
some a >>= f = f a

-- `now - timedelta(days=days)`, which raises OverflowError before the least `datetime`.
unfoldable pub days_before : ℕ → ℕ → Option ℕ
days_before now days =
    if ltb now (days * microseconds_per_day) then none else some (now - days * microseconds_per_day)

-- A cutoff that the policy may leave out: the outer `none` is the exception.
unfoldable pub optional_cutoff : ℕ → Option ℕ → Option (Option ℕ)
unfolding days_before
optional_cutoff now none = some none
optional_cutoff now (some days) = elim (days_before now days) [
  | none ↦ none
  | some i ↦ some (some i)
]

-- `compute_cutoffs`
unfoldable pub compute_cutoffs : StorageRetentionPolicy → ℕ → Option StorageRetentionCutoffs
unfolding days_before optional_cutoff
compute_cutoffs policy now = do
  telemetry ← days_before now policy.telemetry_retention_days
  resolved ← optional_cutoff now policy.resolved_incident_retention_days
  report ← optional_cutoff now policy.report_retention_days
  some (record { telemetry = telemetry; resolved_incident = resolved; report = report })

-- `batches_required`
unfoldable pub batches_required : ℕ → ℕ → ℕ
batches_required eligible batch_size =
    if (eligible == 0) || (batch_size == 0) then 0 else (eligible + batch_size - 1) / batch_size
