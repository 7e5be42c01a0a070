-- ===== src/Rhythm/Quantile.antt =====
-- `_percentile` at the fractions 0.25 and 0.75, and `int(median(…))`, of sorted numbers. The
-- fractions are quarters: `quarters` is 1 or 3, and products of a number below 2 ^ 50 with a
-- quarter are exact as Python floats.
use zigbeelens.Common.{
  ℕ, zero, suc, ◌+◌, ◌-◌, ◌*◌, ◌/◌, ◌%◌, ◌≤◌, ◌<◌, List, arith, ltb, ◌==◌, if◌then◌else◌, length,
  get_or,
}
use Prim.Native.Nat.{min}
use zigbeelens.Rhythm.Sorted.{IsSorted, get_or_mono}

-- `round(m / 4)`: to the nearest integer, and from a half to the even one.
unfoldable pub round_quarters : ℕ → ℕ
round_quarters m =
    if ltb (m % 4) 2 then m / 4 else if m % 4 == 2 then m / 4 + (m / 4) % 2 else m / 4 + 1

-- A position between two numbers, in quarters of the way.
unfoldable pub between : ℕ → ℕ → ℕ → ℕ
unfolding round_quarters
between a b weight = round_quarters (4 * a + (b - a) * weight)

-- `_percentile`; an empty list raises, and no caller gives one.
unfoldable pub percentile : List ℕ → ℕ → ℕ
percentile xs quarters =
    let last = length xs - 1 in
    let lower = last * quarters / 4 in
    let upper = min (lower + 1) last in
    if length xs == 1
    then get_or xs 0 0
    else if lower == upper
    then get_or xs lower 0
    else between (get_or xs lower 0) (get_or xs upper 0) (last * quarters % 4)

-- `int(statistics.median(xs))`
unfoldable pub median : List ℕ → ℕ
median xs =
    let half = length xs / 2 in
    if length xs % 2 == 1 then get_or xs half 0 else (get_or xs (half - 1) 0 + get_or xs half 0) / 2

round_quarters_bounds :
    (a d x : ℕ)
    → x ≤ 3 * d
    → (a ≤ round_quarters (4 * a + x)) × (round_quarters (4 * a + x) ≤ a + d)
unfolding round_quarters
round_quarters_bounds a d x h = ground arith

weigh : (d weight : ℕ) → weight < 4 → d * weight ≤ 3 * d
weigh d zero w = omega arith
weigh d (suc zero) w = omega arith
weigh d (suc (suc zero)) w = omega arith
weigh d (suc (suc (suc zero))) w = omega arith
weigh d (suc (suc (suc (suc n)))) w = absurd (omega arith)

-- Rounding stays between the two numbers.
pub between_bounds :
    (a b weight : ℕ) → a ≤ b → weight < 4 → (a ≤ between a b weight) × (between a b weight ≤ b)
unfolding between
between_bounds a b weight h w =
    let r = round_quarters_bounds a (b - a) ((b - a) * weight) (weigh (b - a) weight w) in
    (r.0, omega (arith, r.1))

-- The numbers beside a percentile.
pub percentile_bounds :
    (xs : List ℕ) (quarters : ℕ)
    → IsSorted xs
    → quarters < 4
    → 2 ≤ length xs
    → (get_or xs ((length xs - 1) * quarters / 4) 0 ≤ percentile xs quarters)
      × (percentile xs quarters
          ≤ get_or xs (min ((length xs - 1) * quarters / 4 + 1) (length xs - 1)) 0)
unfolding percentile
percentile_bounds xs quarters s q n =
    let last = length xs - 1 in
    let lower = last * quarters / 4 in
    let upper = min (lower + 1) last in
    let inside = weigh last quarters q in
    ground (
      arith,
      inside,
      get_or_mono xs lower upper s,
      between_bounds (get_or xs lower 0) (get_or xs upper 0) (last * quarters % 4),
    )

pub median_bounds :
    (xs : List ℕ)
    → IsSorted xs
    → 2 ≤ length xs
    → (get_or xs ((length xs - 1) / 2) 0 ≤ median xs) × (median xs ≤ get_or xs (length xs / 2) 0)
unfolding median
median_bounds xs s n = ground (arith, get_or_mono xs ((length xs - 1) / 2) (length xs / 2) s)
