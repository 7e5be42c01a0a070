-- ===== src/Health/Bridge.antt =====
-- diagnostics/bridge_health.py. Instants are microseconds; `parse` stands for
-- `datetime.fromisoformat` after the replacement of "Z", and `none` for a `ValueError`. The texts of
-- a result are left out.
use zigbeelens.Common.{
  ℕ, ◌+◌, ◌*◌, String, Bool, false, ◌&&◌, not, Option, none, some, ltb, if◌then◌else◌, str_eq,
  is_some,
}
use zigbeelens.Health.Types.{HealthSeverity, HealthConfidence, DiagnosticsConfig}

pub data BridgeHealthState : Type 0 where
  online offline stale unknown : BridgeHealthState

pub record BridgeHealthResult : Type 0 where
  pub state : BridgeHealthState
  pub severity : HealthSeverity
  pub confidence : HealthConfidence

-- `_is_stale`
unfoldable pub is_stale : (String → Option ℕ) → Option String → ℕ → ℕ → Bool
is_stale parse none minutes now = false
is_stale parse (some last_updated_at) minutes now =
    if str_eq last_updated_at "" then false else elim (parse last_updated_at) [
      | none ↦ false
      | some ts ↦ ltb (ts + minutes * 60_000_000) now
    ]

-- `classify_bridge`
unfoldable pub classify_bridge :
    (String → Option ℕ)
    → String
    → Option String
    → DiagnosticsConfig
    → Option String
    → ℕ
    → BridgeHealthResult
unfolding is_stale
classify_bridge parse bridge_state last_updated_at config last_mqtt_activity_at now =
    let minutes = config.bridge_stale_after_minutes in
    let stale = is_stale parse last_updated_at minutes now in
    let activity_recent =
      is_some last_mqtt_activity_at && not (is_stale parse last_mqtt_activity_at minutes now) in
    if str_eq bridge_state "offline"
    then record {
      state = BridgeHealthState.offline;
      severity = HealthSeverity.incident;
      confidence = HealthConfidence.high;
    }
    else if str_eq bridge_state "online"
    then (if stale && not activity_recent
        then record {
          state = BridgeHealthState.stale;
          severity = HealthSeverity.watch;
          confidence = HealthConfidence.medium;
        }
        else record {
          state = BridgeHealthState.online;
          severity = HealthSeverity.ok;
          confidence = HealthConfidence.high;
        })
    else record {
      state = BridgeHealthState.unknown;
      severity = HealthSeverity.unknown;
      confidence = HealthConfidence.low;
    }
