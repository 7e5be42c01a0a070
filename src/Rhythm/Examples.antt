-- ===== src/Rhythm/Examples.antt =====
-- Runs of the theorems on rhythm, silence and trend.
use zigbeelens.Common.{
  ◌+◌, ◌≤◌, ℕ, ◌*◌, ◌<◌, ◌≡◌, ◌↔◌, refl, true, none, some, List, [], ◌∷◌, All, str_eq,
  if◌then◌else◌,
}
use zigbeelens.Rhythm.Reporting.{
  build_reporting_rhythm, observation_times, intervals, latest_of, Ordered, rhythm-Ordered,
}
use zigbeelens.Rhythm.Sorted.{sorted}
use zigbeelens.Rhythm.Quantile.{percentile, median, between}
use zigbeelens.Rhythm.Trend.{
  LqiTrendState, build_lqi_trend, lqi_samples, recent_of, earlier_of, middle, trend_shift,
}
use zigbeelens.Rhythm.Silence.{
  SilenceState, ReportingSilence, build_reporting_silence, silence_unknown, beyond_every_interval,
}

abbrev hour : ℕ
hour = 3_600_000_000

-- An observation each hour, the last gap of two hours.
abbrev hours : List ℕ
hours = 0 ∷ hour ∷ 2 * hour ∷ 3 * hour ∷ 4 * hour ∷ 5 * hour ∷ 6 * hour ∷ 7 * hour ∷ 9 * hour ∷ []

abbrev silence : ReportingSilence
silence = record {
  subject_id = "0x01";
  silence_minutes = some 240;
  silence_state = SilenceState.beyond_expected;
  extended_silence_threshold_minutes = some 180;
  interval_minutes_p25 = some 60;
  interval_minutes_median = some 60;
  interval_minutes_p75 = some 60;
  interval_minutes_max = some 120;
  latest_observed_at = some (9 * hour);
}

silent :
    build_reporting_silence (build_reporting_rhythm "0x01" hours true) (13 * hour) ≡ some silence
unfolding build_reporting_silence build_reporting_rhythm intervals sorted percentile median between
    latest_of
silent = refl

-- Two snapshots with one instant count once, and the times are put in order.
times_in_order :
    observation_times
      (λ s. some (if str_eq s "late" then 2 else 1))
      (some "late" ∷ none ∷ some "early" ∷ some "late" ∷ [])
    ≡ 1 ∷ 2 ∷ []
unfolding observation_times
times_in_order = refl

rhythm-Ordered_example : Ordered hours (build_reporting_rhythm "0x01" hours true)
unfolding build_reporting_rhythm intervals
rhythm-Ordered_example = rhythm-Ordered "0x01" hours true refl

silence_unknown_example : (silence.silence_state ≡ SilenceState.unknown) ↔ (13 * hour < 9 * hour)
unfolding latest_of
silence_unknown_example =
    silence_unknown "0x01" hours true (13 * hour) silence silent (9 * hour) refl

beyond_every_interval_example :
    (n : ℕ) × (silence.silence_minutes ≡ some n) × (30 < n) × All (λ i. i < n) (intervals hours)
beyond_every_interval_example =
    beyond_every_interval "0x01" hours true (13 * hour) silence silent refl

abbrev falling : List ℕ
falling = 100 ∷ 98 ∷ 102 ∷ 80 ∷ 85 ∷ 82 ∷ []

trend_shift_example :
    (((build_lqi_trend "0x01" (200 ∷ falling)).state ≡ LqiTrendState.declining)
      ↔ (middle 80 85 82 + 15 ≤ middle 100 98 102))
    × (((build_lqi_trend "0x01" (200 ∷ falling)).state ≡ LqiTrendState.improving)
        ↔ (middle 100 98 102 + 15 ≤ middle 80 85 82))
trend_shift_example = trend_shift "0x01" (200 ∷ []) 100 98 102 80 85 82

-- Snapshots with one instant count once.
samples_once :
    lqi_samples
      (λ n. "n")
      []
      (record { linkquality = some 90; captured_at = some "noon" }
        ∷ record { linkquality = some 91; captured_at = some "noon" }
        ∷ record { linkquality = none; captured_at = none }
        ∷ [])
    ≡ 90 ∷ []
unfolding lqi_samples
samples_once = refl

falling_declines : (build_lqi_trend "0x01" falling).state ≡ LqiTrendState.declining
unfolding build_lqi_trend recent_of earlier_of sorted median
falling_declines = refl
