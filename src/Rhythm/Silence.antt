-- ===== src/Rhythm/Silence.antt =====
-- decisions/reporting_silence.py.
use zigbeelens.Common.{
  ℕ, ◌+◌, ◌-◌, ◌*◌, ◌/◌, ◌≤◌, ◌<◌, String, ◌≡◌, ◌↔◌, refl, subst, Bool, Option, none, some, List,
  ◌∷◌, [], arith, ltb, if◌then◌else◌, All, Bool-cases, inl, inr,
}
use Prim.Native.Nat.{max}
use zigbeelens.Rhythm.Reporting.{
  ReportingRhythm, ReportingRhythmState, build_reporting_rhythm, intervals, minute, latest_of,
  Ordered, rhythm-Ordered,
}

pub data SilenceState : Type 0 where
  within_expected beyond_expected unknown : SilenceState

pub record ReportingSilence : Type 0 where
  pub subject_id : String
  pub silence_minutes : Option ℕ
  pub silence_state : SilenceState
  pub extended_silence_threshold_minutes : Option ℕ
  pub interval_minutes_p25 : Option ℕ
  pub interval_minutes_median : Option ℕ
  pub interval_minutes_p75 : Option ℕ
  pub interval_minutes_max : Option ℕ
  pub latest_observed_at : Option ℕ

-- `_extended_silence_threshold_minutes` of complete fields; 2.5 is five halves.
unfoldable pub extended_silence_threshold_minutes : ℕ → ℕ → ℕ → ℕ
extended_silence_threshold_minutes mid p75 longest = max (p75 * 5 / 2) (max (longest + mid) 30)

-- `_silence_minutes_since` an instant that is not after `now`.
unfoldable pub silence_minutes_since : ℕ → ℕ → ℕ
silence_minutes_since latest now = (now - latest) / minute

-- `_classify_silence`
unfoldable pub classify_silence : ℕ → ℕ → SilenceState
classify_silence silence threshold =
    if ltb threshold silence then SilenceState.beyond_expected else SilenceState.within_expected

-- The three values that `_cadence_fields_complete` asks for, with the latest observation.
pub record Cadence : Type 0 where
  pub latest : ℕ
  pub mid : ℕ
  pub p75 : ℕ
  pub longest : ℕ

-- `_cadence_fields_complete`
unfoldable pub cadence_fields_complete : ReportingRhythm → Option Cadence
cadence_fields_complete r = elim r.latest_observed_at [
  | none ↦ none
  | some latest ↦ elim r.interval_minutes_p75 [
    | none ↦ none
    | some p75 ↦ elim r.interval_minutes_median [
      | none ↦ none
      | some mid ↦ elim r.interval_minutes_max [
        | none ↦ none
        | some longest ↦ some (record { latest = latest; mid = mid; p75 = p75; longest = longest })
      ]
    ]
  ]
]

-- `ReportingSilence(**base_fields, …)`
unfoldable pub with_base_fields :
    ReportingRhythm → Option ℕ → SilenceState → Option ℕ → ReportingSilence
with_base_fields r minutes state threshold = record {
  subject_id = r.subject_id;
  silence_minutes = minutes;
  silence_state = state;
  extended_silence_threshold_minutes = threshold;
  interval_minutes_p25 = r.interval_minutes_p25;
  interval_minutes_median = r.interval_minutes_median;
  interval_minutes_p75 = r.interval_minutes_p75;
  interval_minutes_max = r.interval_minutes_max;
  latest_observed_at = r.latest_observed_at;
}

-- `build_reporting_silence` of a rhythm with complete fields.
unfoldable pub assess : ReportingRhythm → Cadence → ℕ → ReportingSilence
unfolding with_base_fields extended_silence_threshold_minutes silence_minutes_since classify_silence
assess r c now =
    let threshold = extended_silence_threshold_minutes c.mid c.p75 c.longest in
    let silence = silence_minutes_since c.latest now in
    if ltb now c.latest
    then with_base_fields r none SilenceState.unknown (some threshold)
    else with_base_fields r (some silence) (classify_silence silence threshold) (some threshold)

unfoldable pub build_reporting_silence : ReportingRhythm → ℕ → Option ReportingSilence
unfolding assess with_base_fields cadence_fields_complete
build_reporting_silence r now = elim r.state [
  | ReportingRhythmState.not_applicable ↦ none
  | ReportingRhythmState.insufficient_history ↦ none
  | ReportingRhythmState.rhythm_available ↦ elim (cadence_fields_complete r) [
    | none ↦ some (with_base_fields r none SilenceState.unknown none)
    | some c ↦ some (assess r c now)
  ]
]

State-cases :
    (x : ReportingRhythmState) (k : ReportingRhythmState → Option ReportingSilence)
    (s : ReportingSilence)
    → k ReportingRhythmState.not_applicable ≡ none
    → k ReportingRhythmState.insufficient_history ≡ none
    → k x ≡ some s
    → x ≡ ReportingRhythmState.rhythm_available
State-cases ReportingRhythmState.not_applicable k s a b h = absurd (cc (a, h))
State-cases ReportingRhythmState.insufficient_history k s a b h = absurd (cc (b, h))
State-cases ReportingRhythmState.rhythm_available k s a b h = refl

silence-available :
    (r : ReportingRhythm) (now : ℕ) (s : ReportingSilence)
    → build_reporting_silence r now ≡ some s
    → r.state ≡ ReportingRhythmState.rhythm_available
unfolding build_reporting_silence
silence-available r now s h =
    State-cases r.state
      (λ x. elim x [
        | ReportingRhythmState.not_applicable ↦ none
        | ReportingRhythmState.insufficient_history ↦ none
        | ReportingRhythmState.rhythm_available ↦ elim (cadence_fields_complete r) [
          | none ↦ some (with_base_fields r none SilenceState.unknown none)
          | some c ↦ some (assess r c now)
        ]
      ])
      s refl refl h

-- How a rhythm with four intervals and the latest observation is assessed.
silence-assess :
    (r : ReportingRhythm) (c : Cadence) (now : ℕ) (s : ReportingSilence)
    → r.latest_observed_at ≡ some c.latest
    → r.interval_minutes_p75 ≡ some c.p75
    → r.interval_minutes_median ≡ some c.mid
    → r.interval_minutes_max ≡ some c.longest
    → build_reporting_silence r now ≡ some s
    → s ≡ assess r c now
unfolding build_reporting_silence cadence_fields_complete
silence-assess r c now s a b d e h =
    let v = silence-available r now s h in let h' = rw (v, a, b, d, e) at h in cc h'

-- What `assess` finds, as facts on its result.
record Found (c : Cadence) (now : ℕ) (s : ReportingSilence) : Type 0 where
  early : (s.silence_state ≡ SilenceState.unknown) ↔ (now < c.latest)
  late : (s.silence_state ≡ SilenceState.beyond_expected) ↔ (
      extended_silence_threshold_minutes c.mid c.p75 c.longest < silence_minutes_since c.latest now)
  minutes : c.latest ≤ now → s.silence_minutes ≡ some (silence_minutes_since c.latest now)

early_zero : (latest now : ℕ) → now < latest → silence_minutes_since latest now ≡ 0
unfolding silence_minutes_since
early_zero latest now h = let e : now - latest ≡ 0 = omega (arith, h) in rw e refl

assess-Found : (r : ReportingRhythm) (c : Cadence) (now : ℕ) → Found c now (assess r c now)
unfolding assess classify_silence with_base_fields
assess-Found r c now =
    let e0 = early_zero c.latest now in
    elim (Bool-cases (ltb now c.latest)) [
      | inl e ↦ rw e (record {
        early = ground arith;
        late = (λ h. absurd (cc h), λ h. absurd (omega (arith, e0 (ground arith), h)));
        minutes = λ h. absurd (ground arith);
      })
      | inr e ↦ rw e (record { early = ground arith; late = ground arith; minutes = λ h. refl })
    ]

All-below : (a b : ℕ) (xs : List ℕ) → a < b → All (λ i. i ≤ a) xs → All (λ i. i < b) xs
All-below a b [] h hs = tt
All-below a b (x ∷ xs) h hs = (omega arith, All-below a b xs h hs.1)

module _ (device_ieee : String) (times : List ℕ) (applicable : Bool) (now : ℕ)
    (s : ReportingSilence)
    (h : build_reporting_silence (build_reporting_rhythm device_ieee times applicable) now
      ≡ some s) where
  order : Ordered times (build_reporting_rhythm device_ieee times applicable)
  order =
      rhythm-Ordered device_ieee times applicable
        (silence-available (build_reporting_rhythm device_ieee times applicable) now s h)

  abbrev cadence : Cadence
  cadence = record {
    latest = order.latest;
    mid = order.mid;
    p75 = order.p75;
    longest = order.longest;
  }

  found : Found cadence now s
  found =
      let r = build_reporting_rhythm device_ieee times applicable in
      let e =
        silence-assess r cadence now s order.has_latest order.has_p75 order.has_median order.has_max
          h in
      rw e (assess-Found r cadence now)

  -- The silence of a rhythm that build_reporting_rhythm built is unknown exactly when the latest
  -- observation is in the future.
  pub silence_unknown :
      (t : ℕ) → latest_of times ≡ some t → (s.silence_state ≡ SilenceState.unknown) ↔ (now < t)
  silence_unknown t e =
      let same : order.latest ≡ t = cc (order.is_latest, e) in
      subst (λ x. (s.silence_state ≡ SilenceState.unknown) ↔ (now < x)) same found.early

  -- A silence beyond the expectation is longer than half an hour and than every positive interval
  -- between two observations.
  pub beyond_every_interval :
      s.silence_state ≡ SilenceState.beyond_expected
      → (n : ℕ) × (s.silence_minutes ≡ some n) × (30 < n) × All (λ i. i < n) (intervals times)
  unfolding extended_silence_threshold_minutes
  beyond_every_interval b =
      let n = silence_minutes_since order.latest now in
      let big = found.late.0 b in
      let on_time : order.latest ≤ now = elim (Bool-cases (ltb now order.latest)) [
        | inl e ↦ let u = found.early.1 (ground arith) in absurd (cc (b, u))
        | inr e ↦ ground arith
      ] in
      (
        n,
        found.minutes on_time,
        omega (arith, big),
        All-below order.longest n (intervals times) (omega (arith, big)) order.bounds,
      )
