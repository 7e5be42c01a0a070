-- ===== src/Mqtt/Examples.antt =====
-- The theorems at concrete topics and payloads.
use zigbeelens.Common.{
  true, map, String, ◌≡◌, ◌≢◌, ◌↔◌, refl, Bool, false, none, some, List, [], ◌∷◌, str_eq, ◌||◌, any,
  ◌≤◌, length, All,
}
use zigbeelens.Mqtt.Payload.{Json, text, dict, no_entries, entry, redacted, redact_payload_value}
use zigbeelens.Mqtt.Payload.{
  Codec, redact_payload_text, safe_parse_json, extract_online_state, online_or_offline,
}
use zigbeelens.Mqtt.Normalizer.{
  RawMqttMessage, normalize_device_availability, handle, normalize_classified, normalize_message,
}
use zigbeelens.Mqtt.Normalizer.Events.{IsRedacted, normalize_message-AreStamped}
use zigbeelens.Mqtt.Redaction.{IsClean, redact-redact}
use zigbeelens.Mqtt.Topics.{
  classify_device_topic, NetworkConfig, TopicKind, classified, ◌+/+◌, match_network, is_match,
  longest_base, after_prefix, split, extend_first, classify_topic, classify_below, classify_parts,
  classify_bridge_topic, bridge_kind, bridge_known,
}
use zigbeelens.Mqtt.Topics.Splitting.{NoSlash}
use zigbeelens.Mqtt.Topics.Matching.{IsBest, match_network-IsBest}
use zigbeelens.Mqtt.Topics.Roundtrip.{classify_topic-availability}

is_secret : String → Bool
is_secret key = str_eq key "password" || str_eq key "network_key"

abbrev payload : Json
payload = dict (entry "wifi" (dict (entry "password" (text "hunter2") no_entries)) no_entries)

payload_redacted :
    redact_payload_value is_secret payload
    ≡ dict (entry "wifi" (dict (entry "password" (text redacted) no_entries)) no_entries)
unfolding redact_payload_value is_secret
payload_redacted = refl

redact-redact_example :
    IsClean is_secret (redact_payload_value is_secret payload)
    × ((redact_payload_value is_secret payload ≡ payload) ↔ IsClean is_secret payload)
    × (redact_payload_value is_secret (redact_payload_value is_secret payload)
        ≡ redact_payload_value is_secret payload)
redact-redact_example = redact-redact is_secret payload

abbrev home : NetworkConfig
home = record { id = "home"; base_topic = "zigbee2mqtt" }

abbrev garden : NetworkConfig
garden = record { id = "garden"; base_topic = "zigbee2mqtt/garden" }

abbrev networks : List NetworkConfig
networks = home ∷ garden ∷ []

abbrev topic : String
topic = "zigbee2mqtt/garden/lamp/availability"

matched : match_network topic networks ≡ some garden
unfolding match_network is_match longest_base after_prefix
matched = refl

match_network-IsBest_example :
    ((n : NetworkConfig) → match_network topic networks ≡ some n → IsBest topic networks n)
    × (match_network topic networks ≡ none → any (is_match topic) networks ≡ false)
match_network-IsBest_example = match_network-IsBest topic networks

state_topic :
    classify_topic "zigbee2mqtt/bridge/state" networks
    ≡ some (classified home TopicKind.bridge_state none (some "state"))
unfolding classify_topic match_network is_match longest_base after_prefix split extend_first
    classify_below classify_parts classify_bridge_topic bridge_kind bridge_known
state_topic = refl

classify_topic-availability_example :
    (classify_topic topic networks
      ≡ some (classified garden TopicKind.device_availability (some "lamp") none))
    ↔ ((topic ≡ garden.base_topic +/+ "lamp" +/+ "availability")
        × NoSlash "lamp"
        × (◌≢◌ {A = String} "lamp" "bridge"))
classify_topic-availability_example =
    classify_topic-availability topic "lamp" networks garden matched

-- A codec that knows no JSON.
abbrev codec : Codec
codec = record {
  loads = λ s. none;
  dumps = λ j. "";
  strip = λ s. s;
  lower = λ s. s;
  show = λ j. "";
  decode_error = λ s. "no JSON";
  is_zero = λ n. false;
  contains = λ s t. false;
}

abbrev message : RawMqttMessage
message = record { topic = "zigbee2mqtt/garden/lamp/availability"; payload = "offline" }

lamp_offline :
    map (λ e. e.availability) (normalize_message codec is_secret networks true message)
    ≡ some "offline" ∷ []
unfolding normalize_message normalize_classified handle normalize_device_availability
    extract_online_state online_or_offline redact_payload_text safe_parse_json classify_topic
    match_network is_match longest_base after_prefix split extend_first classify_below
    classify_parts classify_device_topic
lamp_offline = refl

lamp_topic :
    classify_topic topic networks
    ≡ some (classified garden TopicKind.device_availability (some "lamp") none)
unfolding classify_topic match_network is_match longest_base after_prefix split extend_first
    classify_below classify_parts classify_device_topic
lamp_topic = refl

-- A codec that reads an object with a secret from every text.
abbrev object_codec : Codec
object_codec = record codec {
  loads = λ s. some (dict (entry "password" (text s) no_entries));
  dumps = λ j. "an object";
}

normalize_message-AreStamped_example :
    (length (normalize_message object_codec is_secret networks true message) ≤ 1)
    × All
        (λ e.
          (e.network_id ≡ garden.id)
          × IsRedacted object_codec is_secret "offline" e.raw_payload_redacted)
        (normalize_message object_codec is_secret networks true message)
normalize_message-AreStamped_example =
    normalize_message-AreStamped object_codec is_secret networks true message
      (classified garden TopicKind.device_availability (some "lamp") none) lamp_topic
