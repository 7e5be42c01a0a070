-- ===== src/Health/Network.antt =====
-- diagnostics/network_health.py. The texts of a result are left out.
mod Examples
use zigbeelens.Common.{
  ℕ, suc, ◌+◌, String, ◌≡◌, ◌↔◌, refl, Bool, true, false, ◌&&◌, ◌||◌, not, Option, List, [], ◌∷◌,
  map, arith, ltb, if◌then◌else◌, str_eq, eq_iff, any, is_empty, Bool-cases, inl, inr,
}
use zigbeelens.Health.Types.{
  HealthFlag, HealthSeverity, HealthConfidence, HealthResult, DiagnosticsConfig, same_flag,
}
use zigbeelens.Health.Device.{has_flag}
use zigbeelens.Health.Bridge.{BridgeHealthState, BridgeHealthResult, classify_bridge}

pub data NetworkHealthState : Type 0 where
  ok watch incident unknown : NetworkHealthState

pub record NetworkHealthResult : Type 0 where
  pub state : NetworkHealthState
  pub severity : HealthSeverity
  pub confidence : HealthConfidence
  pub unavailable_count : ℕ
  pub recently_unstable_count : ℕ
  pub router_risk_count : ℕ
  pub stale_count : ℕ
  pub weak_link_count : ℕ
  pub low_battery_count : ℕ
  pub unknown_count : ℕ

-- `sum(1 for h in health if p(h))`
unfoldable pub count_if : (HealthResult → Bool) → List HealthResult → ℕ
count_if p [] = 0
count_if p (h ∷ hs) = if p h then suc (count_if p hs) else count_if p hs

abbrev pub flagged : HealthFlag → HealthResult → Bool
flagged f h = has_flag f h.flags

abbrev is_offline : BridgeHealthState → Bool
is_offline BridgeHealthState.offline = true
is_offline _ = false

abbrev is_unknown : BridgeHealthState → Bool
is_unknown BridgeHealthState.unknown = true
is_unknown _ = false

-- The branches on the bridge and the counts, by the state and the severity.
unfoldable pub network_state :
    BridgeHealthState → List HealthResult → List HealthResult → NetworkHealthState × HealthSeverity
unfolding count_if
network_state bridge devices routers =
    if is_offline bridge
    then (NetworkHealthState.incident, HealthSeverity.incident)
    else if ltb 0 (count_if (flagged HealthFlag.unavailable) devices)
        || ltb 0 (count_if (flagged HealthFlag.unavailable) routers)
    then (NetworkHealthState.incident, HealthSeverity.incident)
    else if ltb 0 (count_if (flagged HealthFlag.recently_unstable) devices)
        || ltb 0 (count_if (flagged HealthFlag.router_risk) devices)
        || ltb 0 (count_if (flagged HealthFlag.weak_link) devices)
        || ltb 0 (count_if (flagged HealthFlag.stale_reporting) devices)
        || ltb 0 (count_if (flagged HealthFlag.low_battery) devices)
    then (NetworkHealthState.watch, HealthSeverity.watch)
    else if is_empty devices
    then (NetworkHealthState.unknown, HealthSeverity.unknown)
    else if is_unknown bridge
    then (NetworkHealthState.unknown, HealthSeverity.unknown)
    else (NetworkHealthState.ok, HealthSeverity.ok)

-- `classify_network`; of `router_devices` only the health is read.
unfoldable pub classify_network :
    (String → Option ℕ)
    → String
    → Option String
    → Option String
    → List HealthResult
    → List HealthResult
    → DiagnosticsConfig
    → ℕ
    → NetworkHealthResult × BridgeHealthResult
unfolding network_state
classify_network parse bridge_state network_updated_at last_mqtt_activity_at devices routers config
      now =
    let bridge =
      classify_bridge parse bridge_state network_updated_at config last_mqtt_activity_at now in
    let verdict = network_state bridge.state devices routers in
    (
      record {
        state = verdict.0;
        severity = verdict.1;
        confidence = if is_empty devices then HealthConfidence.low else HealthConfidence.medium;
        unavailable_count = count_if (flagged HealthFlag.unavailable) devices;
        recently_unstable_count = count_if (flagged HealthFlag.recently_unstable) devices;
        router_risk_count = count_if (flagged HealthFlag.router_risk) devices;
        stale_count = count_if (flagged HealthFlag.stale_reporting) devices;
        weak_link_count = count_if (flagged HealthFlag.weak_link) devices;
        low_battery_count = count_if (flagged HealthFlag.low_battery) devices;
        unknown_count = count_if (λ h. same_flag h.primary HealthFlag.unknown) devices;
      },
      bridge,
    )

count_any : (p : HealthResult → Bool) (hs : List HealthResult) → ltb 0 (count_if p hs) ≡ any p hs
unfolding count_if
count_any p [] = refl
count_any p (h ∷ hs) = ground (arith, count_any p hs)

-- A device that calls for a look without being unavailable.
abbrev pub is_concerning : HealthResult → Bool
is_concerning h =
    flagged HealthFlag.recently_unstable h
    || flagged HealthFlag.router_risk h
    || flagged HealthFlag.weak_link h
    || flagged HealthFlag.stale_reporting h
    || flagged HealthFlag.low_battery h

any_concerning :
    (hs : List HealthResult)
    → any is_concerning hs ≡ (
        any (flagged HealthFlag.recently_unstable) hs
        || any (flagged HealthFlag.router_risk) hs
        || any (flagged HealthFlag.weak_link) hs
        || any (flagged HealthFlag.stale_reporting) hs
        || any (flagged HealthFlag.low_battery) hs)
any_concerning [] = refl
any_concerning (h ∷ hs) = ground (arith, any_concerning hs)

module _ (parse : String → Option ℕ) (bridge_state : String)
    (updated_at activity_at : Option String) (config : DiagnosticsConfig) (now : ℕ) where
  offline-bridge :
      is_offline (classify_bridge parse bridge_state updated_at config activity_at now).state
      ≡ str_eq bridge_state "offline"
  unfolding classify_bridge
  offline-bridge = ground arith

  unknown-bridge :
      is_unknown (classify_bridge parse bridge_state updated_at config activity_at now).state
      ≡ not (str_eq bridge_state "offline" || str_eq bridge_state "online")
  unfolding classify_bridge
  unknown-bridge = ground arith

  not_both : str_eq bridge_state "offline" ≡ true → str_eq bridge_state "online" ≡ false
  not_both h = let e = (eq_iff bridge_state "offline").0 h in rw e refl

  -- A network has an incident exactly when its bridge is offline or a device or router of it is
  -- unavailable; it is well exactly when its bridge is online, it has devices, no device or router
  -- is unavailable, and no device is unstable, at risk, weakly linked, silent or low on battery.
  pub network-verdict :
      (devices routers : List HealthResult)
      → (((classify_network parse bridge_state updated_at activity_at devices routers config
              now).0.state
            ≡ NetworkHealthState.incident)
          ↔ ((str_eq bridge_state "offline"
                || any (flagged HealthFlag.unavailable) devices
                || any (flagged HealthFlag.unavailable) routers)
              ≡ true))
        × (((classify_network parse bridge_state updated_at activity_at devices routers config
                now).0.state
              ≡ NetworkHealthState.ok)
            ↔ ((str_eq bridge_state "online"
                  && not (is_empty devices)
                  && not (any (flagged HealthFlag.unavailable) devices)
                  && not (any (flagged HealthFlag.unavailable) routers)
                  && not (any is_concerning devices))
                ≡ true))
  unfolding classify_network network_state
  network-verdict devices routers =
      let u = count_any (flagged HealthFlag.unavailable) devices in
      let v = count_any (flagged HealthFlag.unavailable) routers in
      let a = count_any (flagged HealthFlag.recently_unstable) devices in
      let b = count_any (flagged HealthFlag.router_risk) devices in
      let c = count_any (flagged HealthFlag.weak_link) devices in
      let d = count_any (flagged HealthFlag.stale_reporting) devices in
      let e = count_any (flagged HealthFlag.low_battery) devices in
      let both = not_both in
      rw (offline-bridge, unknown-bridge, any_concerning devices, u, v, a, b, c, d, e)
        (ground (arith, both))
