-- ===== src/Mqtt/Topics.antt =====
-- mqtt/topics.py: the network and the meaning of a topic. `count` is `len` of a text in Python.
pub mod Splitting
pub mod Matching
pub mod Roundtrip
use Prim.Native.Char.{Char, code}
use Prim.Native.String as Str
use zigbeelens.Common.{
  ℕ, String, Bool, true, false, ◌||◌, Option, none, some, List, [], ◌∷◌, ltb, ◌==◌, if◌then◌else◌,
  str_eq, elem,
}

-- The fields of `NetworkConfig` that topics depend on.
pub record NetworkConfig : Type 0 where
  pub id : String
  pub base_topic : String

pub data TopicKind : Type 0 where
  bridge_state : TopicKind
  bridge_info : TopicKind
  bridge_devices : TopicKind
  bridge_event : TopicKind
  bridge_logging : TopicKind
  bridge_health : TopicKind
  device_availability : TopicKind
  device_payload : TopicKind
  unknown_bridge_topic : TopicKind
  ignored : TopicKind
  request_topic : TopicKind

pub record TopicClassification : Type 0 where
  pub network_id : String
  pub base_topic : String
  pub kind : TopicKind
  pub friendly_name : Option String
  pub bridge_subtopic : Option String

abbrev pub slash : ℕ
slash = 47

infixr 60 ◌+/+◌
-- `f"{a}/{b}"`
abbrev pub ◌+/+◌ : String → String → String
a +/+ b = Str.◌++◌ a (Str.◌++◌ "/" b)

-- `topic[len(prefix) :]` if `topic.startswith(prefix)`
unfoldable pub after_prefix : String → String → Option String
after_prefix Str.[] topic = some topic
after_prefix (Str.◌∷◌ c p) Str.[] = none
after_prefix (Str.◌∷◌ c p) (Str.◌∷◌ d t) =
    let rest = after_prefix p t in if code c == code d then rest else none

-- The first part continued by a character.
unfoldable pub extend_first : Char → List String → List String
extend_first c [] = Str.◌∷◌ c Str.[] ∷ []
extend_first c (w ∷ ws) = Str.◌∷◌ c w ∷ ws

-- `text.split("/")`
unfoldable pub split : String → List String
unfolding extend_first
split Str.[] = "" ∷ []
split (Str.◌∷◌ c s) =
    let rest = split s in if code c == slash then "" ∷ rest else extend_first c rest

-- A network takes a topic that is its base or lies below it.
unfoldable pub is_match : String → NetworkConfig → Bool
unfolding after_prefix
is_match topic n =
    str_eq topic n.base_topic
    || elim (after_prefix (Str.◌++◌ n.base_topic "/") topic) [ none ↦ false | some s ↦ true ]

-- `max(matches, key=...)`, which is the first of the longest_base.
unfoldable pub longest_base : NetworkConfig → Option NetworkConfig → Option NetworkConfig
longest_base n none = some n
longest_base n (some m) =
    if ltb (Str.count n.base_topic) (Str.count m.base_topic) then some m else some n

-- `match_network`
unfoldable pub match_network : String → List NetworkConfig → Option NetworkConfig
unfolding is_match longest_base
match_network topic [] = none
match_network topic (n ∷ networks) =
    let rest = match_network topic networks in
    if is_match topic n then longest_base n rest else rest

-- `BRIDGE_IGNORED`
abbrev pub bridge_ignored : List String
bridge_ignored = "request" ∷ "response" ∷ "extensions" ∷ "groups" ∷ "definitions" ∷ []

-- `BRIDGE_KNOWN`, with its default
unfoldable pub bridge_known : String → TopicKind
bridge_known sub =
    if str_eq sub "state"
    then TopicKind.bridge_state
    else if str_eq sub "info"
    then TopicKind.bridge_info
    else if str_eq sub "devices"
    then TopicKind.bridge_devices
    else if str_eq sub "event"
    then TopicKind.bridge_event
    else if str_eq sub "logging"
    then TopicKind.bridge_logging
    else if str_eq sub "health"
    then TopicKind.bridge_health
    else TopicKind.unknown_bridge_topic

-- What the topics below `bridge` mean.
unfoldable pub bridge_kind : String → TopicKind
unfolding bridge_known
bridge_kind sub =
    if elem sub bridge_ignored
    then TopicKind.ignored
    else if str_eq sub "request" || str_eq sub "response"
    then TopicKind.request_topic
    else bridge_known sub

abbrev pub classified :
    NetworkConfig → TopicKind → Option String → Option String → TopicClassification
classified n kind friendly_name bridge_subtopic = record {
  network_id = n.id;
  base_topic = n.base_topic;
  kind = kind;
  friendly_name = friendly_name;
  bridge_subtopic = bridge_subtopic;
}

-- A topic of a device: itself, its availability, or something else.
unfoldable pub classify_device_topic : NetworkConfig → String → List String → TopicClassification
classify_device_topic n name [] = classified n TopicKind.device_payload (some name) none
classify_device_topic n name (p ∷ []) =
    if str_eq p "availability"
    then classified n TopicKind.device_availability (some name) none
    else classified n TopicKind.ignored none none
classify_device_topic n name (p ∷ q ∷ ps) = classified n TopicKind.ignored none none

unfoldable pub classify_bridge_topic : NetworkConfig → List String → TopicClassification
unfolding bridge_kind
classify_bridge_topic n [] = classified n TopicKind.unknown_bridge_topic none none
classify_bridge_topic n (sub ∷ ps) = classified n (bridge_kind sub) none (some sub)

unfoldable pub classify_parts : NetworkConfig → List String → Option TopicClassification
unfolding classify_device_topic classify_bridge_topic
classify_parts n [] = none
classify_parts n (p ∷ ps) =
    if str_eq p "bridge"
    then some (classify_bridge_topic n ps)
    else some (classify_device_topic n p ps)

-- `classify_topic` below the base of the network
unfoldable pub classify_below : NetworkConfig → String → Option TopicClassification
unfolding after_prefix split classify_parts
classify_below n topic = elim (after_prefix (Str.◌++◌ n.base_topic "/") topic) [
  | none ↦ none
  | some remainder ↦ if str_eq remainder "" then none else classify_parts n (split remainder)
]

-- `classify_topic`
unfoldable pub classify_topic : String → List NetworkConfig → Option TopicClassification
unfolding match_network classify_below
classify_topic topic networks = elim (match_network topic networks) [
  | none ↦ none
  | some n ↦ classify_below n topic
]

-- `subscription_topics`
unfoldable pub subscription_topics : String → Bool → List String
subscription_topics base include_topology_response =
    (base +/+ "bridge/state")
    ∷ (base +/+ "bridge/info")
    ∷ (base +/+ "bridge/devices")
    ∷ (base +/+ "bridge/event")
    ∷ (base +/+ "bridge/logging")
    ∷ (base +/+ "bridge/health")
    ∷ (base +/+ "+/availability")
    ∷ (base +/+ "+")
    ∷ (if include_topology_response then (base +/+ "bridge/response/networkmap") ∷ [] else [])
