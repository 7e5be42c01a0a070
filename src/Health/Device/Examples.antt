-- ===== src/Health/Device/Examples.antt =====
-- A flapping router with a weak link, through `classify_device`, and the theorems at it.
use zigbeelens.Common.{ℕ, String, ◌≡◌, ◌↔◌, refl, true, false, Option, none, some, [], ◌∷◌}
use zigbeelens.Health.Types.{HealthFlag, DeviceHealthContext, DiagnosticsConfig, HealthResult}
use zigbeelens.Health.Device.{has_flag, classify_device, sorted_flags}
use zigbeelens.Health.Device.Checks.{
  last_heard, stale_threshold_hours, check_unavailable, check_unstable, check_interview,
  check_stale, check_weak_link, check_low_battery, check_router_risk, check_healthy,
}
use zigbeelens.Health.Device.Flags.{is_router, is_unavailable, is_unstable, found}
use zigbeelens.Health.Device.Primary.{
  severity_of, primary_of, flag_holds, classify-flags, classify-primary, router_risk_primary,
}

abbrev flapping_router : DeviceHealthContext
flapping_router = record {
  device_type = "Router";
  power_source = "Mains";
  interview_state = "successful";
  availability = "online";
  last_seen = none;
  last_payload_at = some "2026-01-01T00:00:00Z";
  linkquality = some 12;
  battery = none;
  availability_change_count = 4;
  topology_linked_devices = some 3;
}

abbrev defaults : DiagnosticsConfig
defaults = record {
  stale_after_hours = 24;
  low_battery_percent = 20;
  weak_link_threshold = 40;
  flapping_threshold = 3;
  recently_unstable_window_hours = 24;
  bridge_stale_after_minutes = 10;
  mains_stale_after_hours = 12;
  battery_stale_after_hours = 48;
}

-- Every text stands for the instant 0.
abbrev parse : String → Option ℕ
parse text = some 0

abbrev flapping_result : HealthResult
flapping_result = classify_device parse flapping_router defaults 60

flapping_flags :
    flapping_result.flags
    ≡ HealthFlag.router_risk ∷ HealthFlag.recently_unstable ∷ HealthFlag.weak_link ∷ []
unfolding classify_device sorted_flags check_unavailable check_unstable check_interview check_stale
    check_weak_link check_low_battery check_router_risk check_healthy last_heard
    stale_threshold_hours
flapping_flags = refl

classify-flags_example :
    has_flag HealthFlag.weak_link flapping_result.flags
    ≡ flag_holds parse flapping_router defaults 60 HealthFlag.weak_link
classify-flags_example = classify-flags parse flapping_router defaults 60 HealthFlag.weak_link

classify-primary_example :
    (flapping_result.primary ≡ primary_of flapping_router (found parse flapping_router defaults 60))
    × (has_flag flapping_result.primary flapping_result.flags ≡ true)
    × (flapping_result.severity ≡ severity_of flapping_result.primary)
classify-primary_example = classify-primary parse flapping_router defaults 60

router_risk_primary_example : (flapping_result.primary ≡ HealthFlag.router_risk) ↔ (
    (is_router flapping_router ≡ true)
    × (is_unavailable flapping_router ≡ false)
    × (is_unstable flapping_router defaults ≡ true))
router_risk_primary_example = router_risk_primary parse flapping_router defaults 60
