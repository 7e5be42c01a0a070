-- ===== src/Mqtt/Normalizer.antt =====
-- mqtt/normalizer.py: from a message to events. Titles and summaries are left out.
pub mod Events
use zigbeelens.Common.{
  String, Bool, true, false, not, ◌&&◌, ◌||◌, Option, none, some, List, [], ◌∷◌, filter, str_eq,
  elem, if◌then◌else◌,
}
use zigbeelens.Mqtt.Payload.{
  Json, null, boolean, number, text, array, dict, Elements, no_elements, element, Entries,
  no_entries, entry, Codec, redact_payload_text, safe_parse_json, entry_of, extract_online_state,
}
use zigbeelens.Mqtt.Topics.{NetworkConfig, TopicKind, TopicClassification, classify_topic}

pub record RawMqttMessage : Type 0 where
  pub topic : String
  pub payload : String

pub record NormalizedMqttEvent : Type 0 where
  pub event_type : String
  pub network_id : String
  pub severity : String
  pub ieee_address : Option Json
  pub friendly_name : Option Json
  pub bridge_state : Option String
  pub availability : Option String
  pub devices : Elements
  pub device_fields : Entries
  pub bridge_info : Entries
  pub log_level : Option String
  pub log_message : Option String
  pub raw_payload_redacted : String
  pub parse_error : Option String
  pub emit_dashboard : Bool

-- An event with the defaults of the class.
abbrev pub plain_event : String → TopicClassification → String → NormalizedMqttEvent
plain_event event_type c redacted = record {
  event_type = event_type;
  network_id = c.network_id;
  severity = "watch";
  ieee_address = none;
  friendly_name = none;
  bridge_state = none;
  availability = none;
  devices = no_elements;
  device_fields = no_entries;
  bridge_info = no_entries;
  log_level = none;
  log_message = none;
  raw_payload_redacted = redacted;
  parse_error = none;
  emit_dashboard = false;
}

abbrev pub name_of : TopicClassification → Option Json
name_of c = elim c.friendly_name [ none ↦ none | some name ↦ some (text name) ]

-- `parsed if isinstance(parsed, dict) else {}`
abbrev pub dict_or_empty : Json → Entries
dict_or_empty (dict fs) = fs
dict_or_empty null = no_entries
dict_or_empty (boolean b) = no_entries
dict_or_empty (number n) = no_entries
dict_or_empty (text s) = no_entries
dict_or_empty (array xs) = no_entries

-- `parsed if isinstance(parsed, list) else []`
abbrev pub list_or_empty : Json → Elements
list_or_empty (array xs) = xs
list_or_empty null = no_elements
list_or_empty (boolean b) = no_elements
list_or_empty (number n) = no_elements
list_or_empty (text s) = no_elements
list_or_empty (dict fs) = no_elements

-- `parsed if isinstance(parsed, dict) else {key: other}`
abbrev pub dict_or : Json → String → Json → Entries
dict_or (dict fs) key other = fs
dict_or null key other = entry key other no_entries
dict_or (boolean b) key other = entry key other no_entries
dict_or (number n) key other = entry key other no_entries
dict_or (text s) key other = entry key other no_entries
dict_or (array xs) key other = entry key other no_entries

abbrev pub is_filled_dict : Entries → Bool
is_filled_dict no_entries = false
is_filled_dict (entry k v fs) = true

-- The kinds whose messages need not be JSON.
abbrev pub takes_text : TopicKind → Bool
takes_text TopicKind.bridge_state = true
takes_text TopicKind.device_availability = true
takes_text _ = false

-- The kinds whose messages are dropped before they are parsed.
abbrev pub is_dropped : TopicKind → Bool
is_dropped TopicKind.ignored = true
is_dropped TopicKind.request_topic = true
is_dropped _ = false

module _ (c : Codec) where
  -- The truth of a value in Python.
  unfoldable pub is_true : Json → Bool
  is_true null = false
  is_true (boolean b) = b
  is_true (number n) = not (c.is_zero n)
  is_true (text s) = not (str_eq s "")
  is_true (array no_elements) = false
  is_true (array (element x xs)) = true
  is_true (dict fs) = is_filled_dict fs

  -- `str(data.get(key, default))`
  unfoldable pub shown : String → String → Entries → String
  unfolding entry_of
  shown key default fs = elim (entry_of key fs) [ none ↦ default | some v ↦ c.show v ]

  -- `str(nested.get("status") or "").lower()`
  unfoldable pub status_of : Entries → String
  unfolding entry_of is_true
  status_of nested = elim (entry_of "status" nested) [
    | none ↦ c.lower ""
    | some v ↦ c.lower (if is_true v then c.show v else "")
  ]

  -- `_normalize_bridge_state`
  unfoldable pub normalize_bridge_state : TopicClassification → Json → String → NormalizedMqttEvent
  unfolding extract_online_state
  normalize_bridge_state t parsed redacted = elim (extract_online_state c parsed) [
    | none ↦ plain_event "parse_error" t redacted
    | some state ↦ record (plain_event "bridge_state_seen" t redacted) {
      severity = if str_eq state "online" then "healthy" else "incident";
      bridge_state = some state;
      emit_dashboard = true;
    }
  ]

  unfoldable pub normalize_bridge_info : TopicClassification → Json → String → NormalizedMqttEvent
  normalize_bridge_info t parsed redacted = record (plain_event "bridge_info_seen" t redacted) {
    bridge_info = dict_or_empty parsed;
    emit_dashboard = true;
  }

  unfoldable pub normalize_bridge_devices :
      TopicClassification → Json → String → NormalizedMqttEvent
  normalize_bridge_devices t parsed redacted =
      record (plain_event "device_inventory_seen" t redacted) {
        devices = list_or_empty parsed;
        emit_dashboard = true;
      }

  -- `mapping.get(event_type, "unknown_bridge_event")`, and the cases of interviews.
  unfoldable pub bridge_event_type : String → String → String
  bridge_event_type event_type status =
      let interview = c.contains event_type "interview" in
      if interview && c.contains event_type "failed"
      then "device_interview_failed"
      else if interview && c.contains event_type "successful"
      then "device_interview_success"
      else if str_eq event_type "device_interview" || str_eq event_type "pairing" || interview
      then (if str_eq status "failed"
          then "device_interview_failed"
          else if str_eq status "successful"
          then "device_interview_success"
          else "device_interview_started")
      else if str_eq event_type "device_joined"
      then "device_joined"
      else if str_eq event_type "device_announce"
      then "device_announced"
      else if str_eq event_type "device_leave"
      then "device_left"
      else "unknown_bridge_event"

  -- `_normalize_bridge_event`
  unfoldable pub normalize_bridge_event : TopicClassification → Json → String → NormalizedMqttEvent
  unfolding shown status_of bridge_event_type entry_of
  normalize_bridge_event t parsed redacted =
      let info = dict_or_empty parsed in
      let event_type = shown "type" "unknown_bridge_event" info in
      let nested : Entries = elim (entry_of "data" info) [
        | none ↦ no_entries
        | some v ↦ dict_or_empty v
      ] in
      let filled = is_filled_dict nested in
      record (plain_event (bridge_event_type event_type (status_of nested)) t redacted) {
        ieee_address =
            if filled then entry_of "ieee_address" nested else entry_of "ieee_address" info;
        friendly_name = if filled then entry_of "friendly_name" nested else none;
        emit_dashboard = true;
      }

  -- `_normalize_bridge_logging`
  unfoldable pub normalize_bridge_logging :
      TopicClassification → Json → String → NormalizedMqttEvent
  unfolding shown
  normalize_bridge_logging t parsed redacted =
      let info = dict_or parsed "message" (text (c.show parsed)) in
      let level = c.lower (shown "level" "info" info) in
      let event_type =
        if str_eq level "error"
        then "bridge_log_error"
        else if str_eq level "warning"
        then "bridge_log_warning"
        else "bridge_log_info" in
      record (plain_event event_type t redacted) {
        severity =
            if str_eq level "error"
            then "incident"
            else if str_eq level "warning"
            then "watch"
            else "healthy";
        log_level = some level;
        log_message = some (shown "message" "" info);
      }

  unfoldable pub normalize_bridge_health : TopicClassification → Json → String → NormalizedMqttEvent
  normalize_bridge_health t parsed redacted = record (plain_event "bridge_health_seen" t redacted) {
    bridge_info = dict_or parsed "raw" parsed;
  }

  -- `_normalize_device_availability`
  unfoldable pub normalize_device_availability :
      TopicClassification → Json → String → NormalizedMqttEvent
  unfolding extract_online_state
  normalize_device_availability t parsed redacted = elim (extract_online_state c parsed) [
    | none ↦ record (plain_event "parse_error" t redacted) { friendly_name = name_of t }
    | some state ↦ record (plain_event "device_availability_seen" t redacted) {
      friendly_name = name_of t;
      availability = some state;
      emit_dashboard = true;
    }
  ]

  -- The keys of a device's payload that are kept, in their order.
  unfoldable pub fields_of : List String → Entries → Entries
  unfolding entry_of
  fields_of [] fs = no_entries
  fields_of (k ∷ ks) fs =
      let rest = fields_of ks fs in elim (entry_of k fs) [ none ↦ rest | some v ↦ entry k v rest ]

  unfoldable pub normalize_device_payload :
      TopicClassification → Json → String → NormalizedMqttEvent
  unfolding fields_of
  normalize_device_payload t parsed redacted =
      record (plain_event "device_payload_seen" t redacted) {
        friendly_name = name_of t;
        device_fields =
            fields_of ("linkquality" ∷ "battery" ∷ "last_seen" ∷ "state" ∷ "voltage" ∷ [])
              (dict_or_empty parsed);
        emit_dashboard = true;
      }

  -- `handlers.get(classification.kind)` and its call, with the filter of log levels.
  unfoldable pub handle :
      Bool → TopicClassification → Json → String → TopicKind → List NormalizedMqttEvent
  unfolding normalize_bridge_state normalize_bridge_info normalize_bridge_devices
      normalize_bridge_event normalize_bridge_logging normalize_bridge_health
      normalize_device_availability normalize_device_payload
  handle logs t parsed redacted TopicKind.bridge_state =
      normalize_bridge_state t parsed redacted ∷ []
  handle logs t parsed redacted TopicKind.bridge_info = normalize_bridge_info t parsed redacted ∷ []
  handle logs t parsed redacted TopicKind.bridge_devices =
      normalize_bridge_devices t parsed redacted ∷ []
  handle logs t parsed redacted TopicKind.bridge_event =
      normalize_bridge_event t parsed redacted ∷ []
  handle logs t parsed redacted TopicKind.bridge_logging =
      let event = normalize_bridge_logging t parsed redacted in
      let is_loud : Bool = elim event.log_level [
        | none ↦ false
        | some level ↦ str_eq level "warning" || str_eq level "error"
      ] in
      if logs || is_loud then event ∷ [] else []
  handle logs t parsed redacted TopicKind.bridge_health =
      normalize_bridge_health t parsed redacted ∷ []
  handle logs t parsed redacted TopicKind.device_availability =
      normalize_device_availability t parsed redacted ∷ []
  handle logs t parsed redacted TopicKind.device_payload =
      normalize_device_payload t parsed redacted ∷ []
  handle logs t parsed redacted TopicKind.unknown_bridge_topic =
      plain_event "unknown_bridge_topic" t redacted ∷ []
  handle logs t parsed redacted TopicKind.ignored = []
  handle logs t parsed redacted TopicKind.request_topic = []

  -- A message on a topic that has been classified.
  unfoldable pub normalize_classified :
      (String → Bool) → Bool → TopicClassification → String → List NormalizedMqttEvent
  unfolding handle redact_payload_text safe_parse_json
  normalize_classified is_secret logs t payload =
      let redacted = redact_payload_text is_secret c payload in
      let parsed = safe_parse_json c payload in
      let handled = handle logs t parsed.0 redacted t.kind in
      elim parsed.1 [
        | none ↦ handled
        | some error ↦
            if takes_text t.kind || is_dropped t.kind
            then handled
            else record (plain_event "parse_error" t redacted) { parse_error = some error } ∷ []
      ]

  -- `normalize_message`
  unfoldable pub normalize_message :
      (String → Bool) → List NetworkConfig → Bool → RawMqttMessage → List NormalizedMqttEvent
  unfolding normalize_classified classify_topic
  normalize_message is_secret networks logs message = elim (classify_topic message.topic networks) [
    | none ↦ []
    | some t ↦ normalize_classified is_secret logs t message.payload
  ]
