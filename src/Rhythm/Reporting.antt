-- ===== src/Rhythm/Reporting.antt =====
-- decisions/reporting_rhythm.py. Instants are microseconds; `parse` stands for
-- `datetime.fromisoformat` with a missing time zone read as UTC, and `none` for a `ValueError`. The
-- `params` are never filled here and are left out.
use zigbeelens.Common.{
  ℕ, ◌+◌, ◌-◌, ◌*◌, ◌/◌, ◌≤◌, ◌<◌, String, ◌≡◌, refl, sym, subst, Bool, true, false, not, ◌&&◌,
  Option, none, some, List, [], ◌∷◌, arith, ltb, ◌==◌, if◌then◌else◌, length, get_or, filter, any,
  All, str_eq, Bool-cases, inl, inr,
}
use Prim.Native.Nat.{min}
use zigbeelens.Rhythm.Sorted.{
  sorted, IsSorted, sorted-IsSorted, length-sorted, sorted-All, All-le_last, get_or_mono,
}
use zigbeelens.Rhythm.Quantile.{percentile, median, percentile_bounds, median_bounds}

pub data ReportingRhythmState : Type 0 where
  not_applicable insufficient_history rhythm_available : ReportingRhythmState

pub record ReportingRhythm : Type 0 where
  pub subject_id : String
  pub state : ReportingRhythmState
  pub observation_count : ℕ
  pub interval_sample_count : ℕ
  pub interval_minutes_p25 : Option ℕ
  pub interval_minutes_median : Option ℕ
  pub interval_minutes_p75 : Option ℕ
  pub interval_minutes_max : Option ℕ
  pub latest_observed_at : Option ℕ

abbrev pub min_interval_samples : ℕ
min_interval_samples = 8

abbrev pub minute : ℕ
minute = 60_000_000

-- `_parse_ts`
unfoldable pub parse_ts : (String → Option ℕ) → Option String → Option ℕ
parse_ts parse none = none
parse_ts parse (some value) = if str_eq value "" then none else parse value

-- The loop of `_observation_times` over the `last_payload_at` of the snapshots.
unfoldable pub collect_times : (String → Option ℕ) → List ℕ → List (Option String) → List ℕ
unfolding parse_ts
collect_times parse seen [] = []
collect_times parse seen (value ∷ rest) = elim (parse_ts parse value) [
  | none ↦ collect_times parse seen rest
  | some t ↦ elim (any (λ u. u == t) seen) [
    | true ↦ collect_times parse seen rest
    | false ↦ t ∷ collect_times parse (t ∷ seen) rest
  ]
]

-- `_observation_times`
unfoldable pub observation_times : (String → Option ℕ) → List (Option String) → List ℕ
unfolding collect_times sorted
observation_times parse values = sorted (collect_times parse [] values)

-- `_interval_minutes`; the difference stops at 0, as `max(0, …)` does.
unfoldable pub interval_minutes : ℕ → ℕ → ℕ
interval_minutes start end = (end - start) / minute

-- `raw_intervals`
unfoldable pub raw_intervals : List ℕ → List ℕ
unfolding interval_minutes
raw_intervals [] = []
raw_intervals (t ∷ []) = []
raw_intervals (t ∷ u ∷ rest) = interval_minutes t u ∷ raw_intervals (u ∷ rest)

-- `intervals`
unfoldable pub intervals : List ℕ → List ℕ
unfolding raw_intervals
intervals times = filter (λ i. ltb 0 i) (raw_intervals times)

-- `observation_times[-1] if observation_times else None`
unfoldable pub latest_of : List ℕ → Option ℕ
latest_of [] = none
latest_of (t ∷ []) = some t
latest_of (t ∷ u ∷ rest) = latest_of (u ∷ rest)

unfoldable pub build_reporting_rhythm : String → List ℕ → Bool → ReportingRhythm
build_reporting_rhythm device_ieee times applicable =
    let samples = intervals times in
    let ordered = sorted samples in
    if not applicable
    then record {
      subject_id = device_ieee;
      state = ReportingRhythmState.not_applicable;
      observation_count = 0;
      interval_sample_count = 0;
      interval_minutes_p25 = none;
      interval_minutes_median = none;
      interval_minutes_p75 = none;
      interval_minutes_max = none;
      latest_observed_at = none;
    }
    else if ltb (length samples) min_interval_samples
    then record {
      subject_id = device_ieee;
      state = ReportingRhythmState.insufficient_history;
      observation_count = length times;
      interval_sample_count = length samples;
      interval_minutes_p25 = none;
      interval_minutes_median = none;
      interval_minutes_p75 = none;
      interval_minutes_max = none;
      latest_observed_at = latest_of times;
    }
    else record {
      subject_id = device_ieee;
      state = ReportingRhythmState.rhythm_available;
      observation_count = length times;
      interval_sample_count = length samples;
      interval_minutes_p25 = some (percentile ordered 1);
      interval_minutes_median = some (median ordered);
      interval_minutes_p75 = some (percentile ordered 3);
      interval_minutes_max = some (get_or ordered (length ordered - 1) 0);
      latest_observed_at = latest_of times;
    }

-- `is_sleepy_device_candidate`
unfoldable pub is_sleepy_device_candidate : String → String → Bool
is_sleepy_device_candidate device_type power_source =
    str_eq device_type "EndDevice" && str_eq power_source "Battery"

module _ (xs : List ℕ) (s : IsSorted xs) (n : min_interval_samples ≤ length xs) where
  p25-le-median : percentile xs 1 ≤ median xs
  p25-le-median =
      let above = percentile_bounds xs 1 s (omega arith) (omega arith) in
      let below = median_bounds xs s (omega arith) in
      let middle =
        get_or_mono xs (min ((length xs - 1) * 1 / 4 + 1) (length xs - 1)) ((length xs - 1) / 2) s
          (ground arith) (omega arith) in
      omega (arith, above, below, middle)

  median-le-p75 : median xs ≤ percentile xs 3
  median-le-p75 =
      let below = percentile_bounds xs 3 s (omega arith) (omega arith) in
      let above = median_bounds xs s (omega arith) in
      let middle =
        get_or_mono xs (length xs / 2) ((length xs - 1) * 3 / 4) s (omega arith) (omega arith) in
      omega (arith, above, below, middle)

  p75-le-max : percentile xs 3 ≤ get_or xs (length xs - 1) 0
  p75-le-max =
      let above = percentile_bounds xs 3 s (omega arith) (omega arith) in
      let top =
        get_or_mono xs (min ((length xs - 1) * 3 / 4 + 1) (length xs - 1)) (length xs - 1) s
          (ground arith) (omega arith) in
      omega (arith, above, top)

latest_of-some : (t : ℕ) (times : List ℕ) → (u : ℕ) × (latest_of (t ∷ times) ≡ some u)
unfolding latest_of
latest_of-some t [] = (t, refl)
latest_of-some t (u ∷ times) = latest_of-some u times

-- Where there is an interval, there is a latest observation.
intervals-latest :
    (times : List ℕ) → 0 < length (intervals times) → (u : ℕ) × (latest_of times ≡ some u)
unfolding intervals raw_intervals
intervals-latest [] h = absurd (omega arith)
intervals-latest (t ∷ times) h = latest_of-some t times

-- A rhythm in order: the quartiles rise to the longest interval, which bounds every interval.
pub record Ordered (times : List ℕ) (r : ReportingRhythm) : Type 0 where
  pub p25 : ℕ
  pub mid : ℕ
  pub p75 : ℕ
  pub longest : ℕ
  pub latest : ℕ
  pub has_latest : r.latest_observed_at ≡ some latest
  pub is_latest : latest_of times ≡ some latest
  pub has_p25 : r.interval_minutes_p25 ≡ some p25
  pub has_median : r.interval_minutes_median ≡ some mid
  pub has_p75 : r.interval_minutes_p75 ≡ some p75
  pub has_max : r.interval_minutes_max ≡ some longest
  pub rises : (p25 ≤ mid) × (mid ≤ p75) × (p75 ≤ longest)
  pub bounds : All (λ i. i ≤ longest) (intervals times)

-- A rhythm that is available has a latest observation and its four interval lengths: the lower quartile is at most the
-- median, the median at most the upper quartile, this at most the maximum, and every positive
-- interval between two observations at most the maximum.
pub rhythm-Ordered :
    (device_ieee : String) (times : List ℕ) (applicable : Bool)
    → (build_reporting_rhythm device_ieee times applicable).state
      ≡ ReportingRhythmState.rhythm_available
    → Ordered times (build_reporting_rhythm device_ieee times applicable)
unfolding build_reporting_rhythm
rhythm-Ordered device_ieee times false h = absurd (cc h)
rhythm-Ordered device_ieee times true h =
    let xs = sorted (intervals times) in
    let s = sorted-IsSorted (intervals times) in
    elim (Bool-cases (ltb (length (intervals times)) min_interval_samples)) [
      | inl few ↦
          let h' : ReportingRhythmState.insufficient_history
              ≡ ReportingRhythmState.rhythm_available =
            rw few at h in
          absurd (cc h')
      | inr many ↦
          let n : min_interval_samples ≤ length xs =
            subst (λ k. min_interval_samples ≤ k) (sym (length-sorted (intervals times)))
              (ground arith) in
          let newest = intervals-latest times (ground arith) in
          rw many (record {
            latest = newest.0;
            has_latest = newest.1;
            is_latest = newest.1;
            p25 = percentile xs 1;
            mid = median xs;
            p75 = percentile xs 3;
            longest = get_or xs (length xs - 1) 0;
            has_p25 = refl;
            has_median = refl;
            has_p75 = refl;
            has_max = refl;
            rises = (p25-le-median xs s n, median-le-p75 xs s n, p75-le-max xs s n);
            bounds =
                sorted-All (λ i. i ≤ get_or xs (length xs - 1) 0) (intervals times)
                  (All-le_last xs (length xs - 1) (omega (arith, n)) s);
          })
    ]
