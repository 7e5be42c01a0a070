-- ===== src/Health/Network/Examples.antt =====
-- The verdict on a network with one device that is well.
use zigbeelens.Common.{
  ℕ, String, ◌≡◌, ◌↔◌, true, ◌&&◌, ◌||◌, not, Option, none, List, [], ◌∷◌, str_eq, any, is_empty,
  refl,
}
use zigbeelens.Health.Types.{
  HealthFlag, HealthSeverity, HealthConfidence, HealthResult, DiagnosticsConfig, same_flag,
}
use zigbeelens.Health.Bridge.{classify_bridge}
use zigbeelens.Health.Network.{
  NetworkHealthState, classify_network, flagged, is_concerning, network-verdict,
}

abbrev parse : String → Option ℕ
parse s = none

abbrev devices : List HealthResult
devices =
    record {
      primary = HealthFlag.healthy;
      flags = HealthFlag.healthy ∷ [];
      severity = HealthSeverity.ok;
      confidence = HealthConfidence.high;
      evidence = [];
      counter_evidence = [];
      limitations = [];
    }
    ∷ []

abbrev config : DiagnosticsConfig
config = record {
  stale_after_hours = 24;
  low_battery_percent = 20;
  weak_link_threshold = 40;
  flapping_threshold = 3;
  recently_unstable_window_hours = 24;
  bridge_stale_after_minutes = 10;
  mains_stale_after_hours = 12;
  battery_stale_after_hours = 48;
}

well :
    (classify_network parse "online" none none devices [] config 0).0.state ≡ NetworkHealthState.ok
unfolding classify_network classify_bridge same_flag
well = refl

network-verdict_example :
    (((classify_network parse "online" none none devices [] config 0).0.state
        ≡ NetworkHealthState.incident)
      ↔ ((str_eq "online" "offline"
            || any (flagged HealthFlag.unavailable) devices
            || any (flagged HealthFlag.unavailable) [])
          ≡ true))
    × (((classify_network parse "online" none none devices [] config 0).0.state
          ≡ NetworkHealthState.ok)
        ↔ ((str_eq "online" "online"
              && not (is_empty devices)
              && not (any (flagged HealthFlag.unavailable) devices)
              && not (any (flagged HealthFlag.unavailable) [])
              && not (any is_concerning devices))
            ≡ true))
network-verdict_example = network-verdict parse "online" none none config 0 devices []
