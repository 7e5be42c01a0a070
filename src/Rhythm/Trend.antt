-- ===== src/Rhythm/Trend.antt =====
-- decisions/lqi_trend.py. `str` stands for the decimal text of a number; the `params`, which repeat
-- other fields, are left out.
use zigbeelens.Common.{
  ℕ, zero, suc, ◌+◌, ◌-◌, ◌≤◌, String, ◌≡◌, ◌↔◌, refl, ap, ◌∙◌, Option, none, some, List, [], ◌∷◌,
  ◌++◌, arith, ltb, if◌then◌else◌, str_eq, elem, length, take, drop, length-append,
}
use zigbeelens.Common.Integers.{ℤ, leb_ℤ, difference}
use Prim.Native.Nat.{max, min}
use zigbeelens.Rhythm.Sorted.{insert, sorted}
use zigbeelens.Rhythm.Quantile.{median}
use zigbeelens.Rhythm.Reporting.{latest_of}

pub data LqiTrendState : Type 0 where
  insufficient_history stable declining improving : LqiTrendState

pub record LqiTrend : Type 0 where
  pub subject_id : String
  pub state : LqiTrendState
  pub sample_count : ℕ
  pub recent_median : Option ℕ
  pub earlier_median : Option ℕ
  pub delta : Option ℤ
  pub latest_value : Option ℕ

pub record Snapshot : Type 0 where
  pub linkquality : Option ℕ
  pub captured_at : Option String

abbrev pub window_size : ℕ
window_size = 3

abbrev pub min_lqi_samples : ℕ
min_lqi_samples = 6

abbrev pub trend_delta_threshold : ℕ
trend_delta_threshold = 15

-- `str(captured_at or value)`
unfoldable pub sample_key : (ℕ → String) → Option String → ℕ → String
sample_key str none value = str value
sample_key str (some captured_at) value = if str_eq captured_at "" then str value else captured_at

-- The loop of `_lqi_samples` over the snapshots, the oldest first.
unfoldable pub lqi_samples : (ℕ → String) → List String → List Snapshot → List ℕ
unfolding sample_key
lqi_samples str seen [] = []
lqi_samples str seen (row ∷ rows) = elim row.linkquality [
  | none ↦ lqi_samples str seen rows
  | some value ↦
      let key = sample_key str row.captured_at value in
      let skip = lqi_samples str seen rows in
      let keep = lqi_samples str (key ∷ seen) rows in if elem key seen then skip else value ∷ keep
]

-- `int(median(lqi_samples[-WINDOW_SIZE:]))`
unfoldable pub recent_of : List ℕ → ℕ
recent_of xs = median (sorted (drop (length xs - 3) xs))

-- `int(median(lqi_samples[-WINDOW_SIZE * 2 : -WINDOW_SIZE]))`
unfoldable pub earlier_of : List ℕ → ℕ
earlier_of xs = median (sorted (take 3 (drop (length xs - 6) xs)))

unfoldable pub trend_state : ℤ → LqiTrendState
trend_state delta =
    if leb_ℤ delta (ℤ.negsuc (trend_delta_threshold - 1))
    then LqiTrendState.declining
    else if leb_ℤ (ℤ.pos trend_delta_threshold) delta
    then LqiTrendState.improving
    else LqiTrendState.stable

unfoldable pub build_lqi_trend : String → List ℕ → LqiTrend
unfolding trend_state
build_lqi_trend device_ieee samples =
    if ltb (length samples) min_lqi_samples
    then record {
      subject_id = device_ieee;
      state = LqiTrendState.insufficient_history;
      sample_count = length samples;
      recent_median = none;
      earlier_median = none;
      delta = none;
      latest_value = latest_of samples;
    }
    else let delta = difference (recent_of samples) (earlier_of samples) in
      record {
        subject_id = device_ieee;
        state = trend_state delta;
        sample_count = length samples;
        recent_median = some (recent_of samples);
        earlier_median = some (earlier_of samples);
        delta = some delta;
        latest_value = latest_of samples;
      }

drop-append : (n : ℕ) (ys xs : List ℕ) → length ys ≤ n → drop n (ys ++ xs) ≡ drop (n - length ys) xs
drop-append n [] xs h = let e : n - 0 ≡ n = omega arith in rw e refl
drop-append zero (y ∷ ys) xs h = absurd (omega (arith, h))
drop-append (suc n) (y ∷ ys) xs h =
    let e : suc n - suc (length ys) ≡ n - length ys = omega arith in
    rw e (drop-append n ys xs (omega (arith, h)))

-- What lies near the end of a list lies there behind other items too.
drop-tail :
    (k : ℕ) (ys xs : List ℕ)
    → k ≤ length xs
    → drop (length (ys ++ xs) - k) (ys ++ xs) ≡ drop (length xs - k) xs
drop-tail k ys xs h =
    let l = length-append ys xs in
    let e : length (ys ++ xs) - k - length ys ≡ length xs - k = omega (arith, l, h) in
    drop-append (length (ys ++ xs) - k) ys xs (omega (arith, l, h)) ∙ ap (λ n. drop n xs) e

recent-append : (ys xs : List ℕ) → 6 ≤ length xs → recent_of (ys ++ xs) ≡ recent_of xs
unfolding recent_of
recent-append ys xs h = ap (λ zs. median (sorted zs)) (drop-tail 3 ys xs (omega (arith, h)))

earlier-append : (ys xs : List ℕ) → 6 ≤ length xs → earlier_of (ys ++ xs) ≡ earlier_of xs
unfolding earlier_of
earlier-append ys xs h = ap (λ zs. median (sorted (take 3 zs))) (drop-tail 6 ys xs h)

-- The middle value of three numbers, in any order.
abbrev pub middle : ℕ → ℕ → ℕ → ℕ
middle x y z = max (min x y) (min (max x y) z)

median-middle : (x y z : ℕ) → median (sorted (x ∷ y ∷ z ∷ [])) ≡ middle x y z
unfolding median sorted insert
median-middle x y z = ground arith

-- Whatever samples come before the last six, the trend is declining exactly when the middle value of
-- the last three lies at least 15 below that of the three before them, and improving exactly when it
-- lies at least 15 above.
pub trend_shift :
    (device_ieee : String) (older : List ℕ) (a b c x y z : ℕ)
    → (((build_lqi_trend device_ieee (older ++ a ∷ b ∷ c ∷ x ∷ y ∷ z ∷ [])).state
          ≡ LqiTrendState.declining)
        ↔ (middle x y z + 15 ≤ middle a b c))
      × (((build_lqi_trend device_ieee (older ++ a ∷ b ∷ c ∷ x ∷ y ∷ z ∷ [])).state
            ≡ LqiTrendState.improving)
          ↔ (middle a b c + 15 ≤ middle x y z))
unfolding build_lqi_trend trend_state recent_of earlier_of
trend_shift device_ieee older a b c x y z =
    let l = length-append older (a ∷ b ∷ c ∷ x ∷ y ∷ z ∷ []) in
    let r = recent-append older (a ∷ b ∷ c ∷ x ∷ y ∷ z ∷ []) (omega arith) ∙ median-middle x y z in
    let e = earlier-append older (a ∷ b ∷ c ∷ x ∷ y ∷ z ∷ []) (omega arith) ∙ median-middle a b c in
    rw (r, e) (ground (arith, l))
