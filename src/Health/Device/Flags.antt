-- ===== src/Health/Device/Flags.antt =====
-- Which flags a device gets: each flag exactly when its condition holds.
use zigbeelens.Common.{
  ℕ, ◌+◌, ◌*◌, String, ◌≡◌, ◌∙◌, Bool, false, not, ◌&&◌, ◌||◌, Option, none, some, [], ◌∷◌, arith,
  ltb, leb, str_eq,
}
use zigbeelens.Common.Sorting.{has, has-append}
use zigbeelens.Health.Types.{HealthFlag, same_flag, DeviceHealthContext, DiagnosticsConfig}
use zigbeelens.Health.Device.Checks.{
  Notes, Findings, nothing, hour, last_heard, stale_threshold_hours, has_signal, check_unavailable,
  check_unstable, check_interview, check_stale, check_weak_link, check_low_battery,
  check_router_risk, check_healthy, run_checks,
}

unfoldable pub is_unavailable : DeviceHealthContext → Bool
is_unavailable ctx = str_eq ctx.availability "offline"

unfoldable pub is_unstable : DeviceHealthContext → DiagnosticsConfig → Bool
is_unstable ctx config = leb config.flapping_threshold ctx.availability_change_count

unfoldable pub is_interview : DeviceHealthContext → Bool
is_interview ctx = str_eq ctx.interview_state "failed" || str_eq ctx.interview_state "in_progress"

unfoldable pub is_stale : (String → Option ℕ) → DeviceHealthContext → DiagnosticsConfig → ℕ → Bool
is_stale parse ctx config now = elim (last_heard parse ctx) [
  | none ↦ false
  | some ts ↦ ltb (ts + stale_threshold_hours ctx config * hour) now
]

unfoldable pub is_at_most : Option ℕ → ℕ → Bool
is_at_most none threshold = false
is_at_most (some v) threshold = leb v threshold

unfoldable pub is_router : DeviceHealthContext → Bool
is_router ctx = str_eq ctx.device_type "Router"

-- A check answers `b`, and adds the flag `g` if so.
pub record Adds (g : HealthFlag) (b : Bool) (n : Notes) (r : Notes × Bool) : Type 0 where
  pub answer : r.1 ≡ b
  pub adds :
      (f : HealthFlag)
      → has same_flag f r.0.flags ≡ (has same_flag f n.flags || (b && same_flag g f))

module _ (ctx : DeviceHealthContext) (config : DiagnosticsConfig) (n : Notes) where
  Adds-unavailable : Adds HealthFlag.unavailable (is_unavailable ctx) n (check_unavailable ctx n)
  unfolding check_unavailable is_unavailable
  Adds-unavailable = record {
    answer = ground arith;
    adds = λ f. ground (arith, has-append same_flag f n.flags (HealthFlag.unavailable ∷ []));
  }

  Adds-unstable :
      Adds HealthFlag.recently_unstable (is_unstable ctx config) n (check_unstable ctx config n)
  unfolding check_unstable is_unstable
  Adds-unstable = record {
    answer = ground arith;
    adds = λ f. ground (arith, has-append same_flag f n.flags (HealthFlag.recently_unstable ∷ []));
  }

  Adds-interview : Adds HealthFlag.interview_issue (is_interview ctx) n (check_interview ctx n)
  unfolding check_interview is_interview
  Adds-interview = record {
    answer = ground arith;
    adds = λ f. ground (arith, has-append same_flag f n.flags (HealthFlag.interview_issue ∷ []));
  }

  Adds-stale :
      (parse : String → Option ℕ) (now : ℕ)
      → Adds HealthFlag.stale_reporting
          (is_stale parse ctx config now)
          n
          (check_stale parse ctx config now n)
  unfolding check_stale is_stale
  Adds-stale parse now = record {
    answer = ground arith;
    adds = λ f. ground (arith, has-append same_flag f n.flags (HealthFlag.stale_reporting ∷ []));
  }

  Adds-weak_link :
      Adds HealthFlag.weak_link
        (is_at_most ctx.linkquality config.weak_link_threshold)
        n
        (check_weak_link ctx config n)
  unfolding check_weak_link is_at_most
  Adds-weak_link = record {
    answer = ground arith;
    adds = λ f. ground (arith, has-append same_flag f n.flags (HealthFlag.weak_link ∷ []));
  }

  Adds-low_battery :
      Adds HealthFlag.low_battery
        (is_at_most ctx.battery config.low_battery_percent)
        n
        (check_low_battery ctx config n)
  unfolding check_low_battery is_at_most
  Adds-low_battery = record {
    answer = ground arith;
    adds = λ f. ground (arith, has-append same_flag f n.flags (HealthFlag.low_battery ∷ []));
  }

  Adds-router_risk :
      (unavailable unstable weak stale low_bat : Bool)
      → Adds HealthFlag.router_risk
          (is_router ctx && (unavailable || unstable || weak || stale || low_bat))
          n
          (check_router_risk ctx unavailable unstable weak stale low_bat n)
  unfolding check_router_risk is_router
  Adds-router_risk unavailable unstable weak stale low_bat = record {
    answer = ground arith;
    adds = λ f. ground (arith, has-append same_flag f n.flags (HealthFlag.router_risk ∷ []));
  }

  Adds-healthy :
      (unavailable unstable interview stale weak low_bat : Bool)
      → Adds HealthFlag.healthy
          (not (unavailable || unstable || interview || stale || weak || low_bat) && has_signal ctx)
          n
          (check_healthy ctx unavailable unstable interview stale weak low_bat n)
  unfolding check_healthy
  Adds-healthy unavailable unstable interview stale weak low_bat = record {
    answer = ground arith;
    adds = λ f. ground (arith, has-append same_flag f n.flags (HealthFlag.healthy ∷ []));
  }

-- What the checks answer, read from the context and the configuration alone.
unfoldable pub found : (String → Option ℕ) → DeviceHealthContext → DiagnosticsConfig → ℕ → Findings
found parse ctx config now =
    let unavailable = is_unavailable ctx in
    let unstable = is_unstable ctx config in
    let interview = is_interview ctx in
    let stale = is_stale parse ctx config now in
    let weak = is_at_most ctx.linkquality config.weak_link_threshold in
    let low_bat = is_at_most ctx.battery config.low_battery_percent in
    record {
      unavailable = unavailable;
      unstable = unstable;
      interview = interview;
      stale = stale;
      weak = weak;
      low_bat = low_bat;
      router = is_router ctx && (unavailable || unstable || weak || stale || low_bat);
      healthy =
          not (unavailable || unstable || interview || stale || weak || low_bat) && has_signal ctx;
    }

-- The flag that stands for a check that applies.
unfoldable pub raised : Findings → HealthFlag → Bool
raised r HealthFlag.unavailable = r.unavailable
raised r HealthFlag.recently_unstable = r.unstable
raised r HealthFlag.interview_issue = r.interview
raised r HealthFlag.stale_reporting = r.stale
raised r HealthFlag.weak_link = r.weak
raised r HealthFlag.low_battery = r.low_bat
raised r HealthFlag.router_risk = r.router
raised r HealthFlag.healthy = r.healthy
raised r HealthFlag.unknown = false

-- The same as the checks put it together, one flag after the other.
abbrev collected : Findings → HealthFlag → Bool
collected r f =
    false
    || r.unavailable && same_flag HealthFlag.unavailable f
    || r.unstable && same_flag HealthFlag.recently_unstable f
    || r.interview && same_flag HealthFlag.interview_issue f
    || r.stale && same_flag HealthFlag.stale_reporting f
    || r.weak && same_flag HealthFlag.weak_link f
    || r.low_bat && same_flag HealthFlag.low_battery f
    || r.router && same_flag HealthFlag.router_risk f
    || r.healthy && same_flag HealthFlag.healthy f

collected-eq-raised : (r : Findings) (f : HealthFlag) → collected r f ≡ raised r f
unfolding raised same_flag
collected-eq-raised r HealthFlag.unavailable = ground arith
collected-eq-raised r HealthFlag.recently_unstable = ground arith
collected-eq-raised r HealthFlag.interview_issue = ground arith
collected-eq-raised r HealthFlag.stale_reporting = ground arith
collected-eq-raised r HealthFlag.weak_link = ground arith
collected-eq-raised r HealthFlag.low_battery = ground arith
collected-eq-raised r HealthFlag.router_risk = ground arith
collected-eq-raised r HealthFlag.healthy = ground arith
collected-eq-raised r HealthFlag.unknown = ground arith

-- The notes hold the flags of the findings.
pub record Match (n : Notes) (r : Findings) : Type 0 where
  pub flag : (f : HealthFlag) → has same_flag f n.flags ≡ raised r f

module _ (parse : String → Option ℕ) (ctx : DeviceHealthContext) (config : DiagnosticsConfig)
    (now : ℕ) where
  abbrev r1 : Notes × Bool
  r1 = check_unavailable ctx nothing

  abbrev r2 : Notes × Bool
  r2 = check_unstable ctx config r1.0

  abbrev r3 : Notes × Bool
  r3 = check_interview ctx r2.0

  abbrev r4 : Notes × Bool
  r4 = check_stale parse ctx config now r3.0

  abbrev r5 : Notes × Bool
  r5 = check_weak_link ctx config r4.0

  abbrev r6 : Notes × Bool
  r6 = check_low_battery ctx config r5.0

  abbrev r7 : Notes × Bool
  r7 = check_router_risk ctx r1.1 r2.1 r5.1 r4.1 r6.1 r6.0

  abbrev r8 : Notes × Bool
  r8 = check_healthy ctx r1.1 r2.1 r3.1 r4.1 r5.1 r6.1 r7.0

  a1 : Adds HealthFlag.unavailable (is_unavailable ctx) nothing r1
  a1 = Adds-unavailable ctx config nothing

  a2 : Adds HealthFlag.recently_unstable (is_unstable ctx config) r1.0 r2
  a2 = Adds-unstable ctx config r1.0

  a3 : Adds HealthFlag.interview_issue (is_interview ctx) r2.0 r3
  a3 = Adds-interview ctx config r2.0

  a4 : Adds HealthFlag.stale_reporting (is_stale parse ctx config now) r3.0 r4
  a4 = Adds-stale ctx config r3.0 parse now

  a5 : Adds HealthFlag.weak_link (is_at_most ctx.linkquality config.weak_link_threshold) r4.0 r5
  a5 = Adds-weak_link ctx config r4.0

  a6 : Adds HealthFlag.low_battery (is_at_most ctx.battery config.low_battery_percent) r5.0 r6
  a6 = Adds-low_battery ctx config r5.0

  a7 : Adds HealthFlag.router_risk (is_router ctx && (r1.1 || r2.1 || r5.1 || r4.1 || r6.1)) r6.0 r7
  a7 = Adds-router_risk ctx config r6.0 r1.1 r2.1 r5.1 r4.1 r6.1

  a8 :
      Adds HealthFlag.healthy
        (not (r1.1 || r2.1 || r3.1 || r4.1 || r5.1 || r6.1) && has_signal ctx)
        r7.0
        r8
  a8 = Adds-healthy ctx config r7.0 r1.1 r2.1 r3.1 r4.1 r5.1 r6.1

  pub run_checks-found : (run_checks parse ctx config now).1 ≡ found parse ctx config now
  unfolding run_checks found
  run_checks-found =
      cc (a1.answer, a2.answer, a3.answer, a4.answer, a5.answer, a6.answer, a7.answer, a8.answer)

  run_checks-collected :
      (f : HealthFlag)
      → has same_flag f (run_checks parse ctx config now).0.flags
        ≡ collected (found parse ctx config now) f
  unfolding run_checks found
  run_checks-collected f = cc (
    a1.answer,
    a2.answer,
    a3.answer,
    a4.answer,
    a5.answer,
    a6.answer,
    a1.adds f,
    a2.adds f,
    a3.adds f,
    a4.adds f,
    a5.adds f,
    a6.adds f,
    a7.adds f,
    a8.adds f,
  )

  pub run_checks-flags : Match (run_checks parse ctx config now).0 (found parse ctx config now)
  run_checks-flags = record { flag = λ f. run_checks-collected f ∙ collected-eq-raised _ f }
