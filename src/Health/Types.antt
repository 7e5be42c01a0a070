-- ===== src/Health/Types.antt =====
-- diagnostics/models.py: the values of the classifiers. A text that a rule writes is a constructor
-- that carries the numbers and texts which the rule formats into it.
use zigbeelens.Common.{ℕ, String, Bool, true, false, Option, List}

pub data HealthFlag : Type 0 where
  healthy unavailable recently_unstable weak_link low_battery : HealthFlag
  stale_reporting interview_issue router_risk unknown : HealthFlag

pub data HealthSeverity : Type 0 where
  ok info watch incident unknown : HealthSeverity

pub data HealthConfidence : Type 0 where
  low medium high : HealthConfidence

-- Equality of flags.
unfoldable pub same_flag : HealthFlag → HealthFlag → Bool
same_flag HealthFlag.healthy HealthFlag.healthy = true
same_flag HealthFlag.unavailable HealthFlag.unavailable = true
same_flag HealthFlag.recently_unstable HealthFlag.recently_unstable = true
same_flag HealthFlag.weak_link HealthFlag.weak_link = true
same_flag HealthFlag.low_battery HealthFlag.low_battery = true
same_flag HealthFlag.stale_reporting HealthFlag.stale_reporting = true
same_flag HealthFlag.interview_issue HealthFlag.interview_issue = true
same_flag HealthFlag.router_risk HealthFlag.router_risk = true
same_flag HealthFlag.unknown HealthFlag.unknown = true
same_flag _ _ = false

-- The health signals that the evidence about a router names.
pub data Issue : Type 0 where
  unavailable recently_unstable weak_link stale_reporting low_battery : Issue

pub data Evidence : Type 0 where
  -- "Device exists in Zigbee2MQTT inventory"
  in_inventory : Evidence
  -- "No device payload has been observed by ZigbeeLens yet"
  no_payload_yet : Evidence
  -- "Latest Zigbee2MQTT availability state is offline"
  availability_offline : Evidence
  -- "Availability changed {} times in the last {} hours"
  availability_changed : ℕ → ℕ → Evidence
  -- "Zigbee2MQTT inventory shows interview_state={}"
  inventory_interview : String → Evidence
  -- "No payload observed for {} hours"
  no_payload_for : ℕ → Evidence
  -- "Configured stale threshold is {} hours"
  stale_threshold : ℕ → Evidence
  -- "Latest linkquality is {}, below configured threshold {}"
  linkquality_below : ℕ → ℕ → Evidence
  -- "Battery is {}%, below configured threshold {}%"
  battery_below : ℕ → ℕ → Evidence
  -- "Device is a Zigbee router"
  zigbee_router : Evidence
  -- "Router has current health signals: {}"
  router_signals : List Issue → Evidence
  -- "Latest topology snapshot shows {} linked devices"
  topology_links : ℕ → Evidence
  -- "Recent payload observed"
  recent_payload : Evidence
  -- "Availability is online"
  availability_online : Evidence
  -- "Battery is above configured threshold"
  battery_above : Evidence
  -- "Linkquality is above configured threshold"
  linkquality_above : Evidence
  -- "No recent availability changes"
  no_recent_changes : Evidence

-- "Recent payload was observed, which may indicate intermittent reporting"
pub data Counter : Type 0 where
  intermittent_reporting : Counter

pub data Limitation : Type 0 where
  -- "Availability may not be enabled in Zigbee2MQTT"
  availability_maybe_disabled : Limitation
  -- "ZigbeeLens has not observed enough history yet"
  not_enough_history : Limitation
  -- "Availability is only available when enabled in Zigbee2MQTT"
  availability_when_enabled : Limitation
  -- "This indicates instability but does not prove whether the cause is …"
  instability_cause : Limitation
  -- "Interview status comes from inventory and may need refreshed …"
  interview_from_inventory : Limitation
  -- "Some sleepy battery devices report infrequently by design"
  sleepy_by_design : Limitation
  -- "Single linkquality readings are imperfect and can vary over time"
  single_reading : Limitation
  -- "Some devices report battery unreliably or infrequently"
  battery_unreliable : Limitation
  -- "ZigbeeLens cannot prove current routing from one snapshot; …"
  routing_from_snapshot : Limitation
  -- "ZigbeeLens cannot prove dependent end devices route through …"
  routing_without_topology : Limitation
  -- "Availability is not known"
  availability_not_known : Limitation

pub record DeviceHealthContext : Type 0 where
  pub device_type : String
  pub power_source : String
  pub interview_state : String
  pub availability : String
  pub last_seen : Option String
  pub last_payload_at : Option String
  pub linkquality : Option ℕ
  pub battery : Option ℕ
  pub availability_change_count : ℕ
  pub topology_linked_devices : Option ℕ

-- The fields of `DiagnosticsConfig` (config/models.py) that the classifiers read.
pub record DiagnosticsConfig : Type 0 where
  pub stale_after_hours : ℕ
  pub low_battery_percent : ℕ
  pub weak_link_threshold : ℕ
  pub flapping_threshold : ℕ
  pub recently_unstable_window_hours : ℕ
  pub bridge_stale_after_minutes : ℕ
  pub mains_stale_after_hours : ℕ
  pub battery_stale_after_hours : ℕ

pub record HealthResult : Type 0 where
  pub primary : HealthFlag
  pub flags : List HealthFlag
  pub severity : HealthSeverity
  pub confidence : HealthConfidence
  pub evidence : List Evidence
  pub counter_evidence : List Counter
  pub limitations : List Limitation
