-- ===== src/Mqtt/Normalizer/Events.antt =====
-- The events of a message.
use zigbeelens.Common.{
  ◌≤◌, ◌≡◌, refl, sym, subst, ◌⊎◌, none, All-map, String, Bool, true, false, ◌||◌, some, List, [],
  ◌∷◌, length, arith, All, if◌then◌else◌, Bool-cases, Option-cases, inl, inr,
}
use zigbeelens.Mqtt.Payload.{
  Json, null, boolean, number, text, array, dict, redact_payload_value, Codec, redact_payload_text,
  safe_parse_json, extract_online_state,
}
use zigbeelens.Mqtt.Redaction.{IsClean, redact-redact}
use zigbeelens.Mqtt.Topics.{NetworkConfig, TopicKind, TopicClassification, classify_topic}
use zigbeelens.Mqtt.Normalizer.{
  RawMqttMessage, NormalizedMqttEvent, plain_event, normalize_bridge_state, normalize_bridge_info,
  normalize_bridge_devices, normalize_bridge_event, normalize_bridge_logging,
  normalize_bridge_health, normalize_device_availability, normalize_device_payload, takes_text,
  is_dropped, handle, normalize_classified, normalize_message,
}

-- An event of the network of a topic, with the redacted payload.
unfoldable pub IsStamped : TopicClassification → String → NormalizedMqttEvent → Type 0
IsStamped t redacted e = (e.network_id ≡ t.network_id) × (e.raw_payload_redacted ≡ redacted)

unfoldable pub AreStamped : TopicClassification → String → List NormalizedMqttEvent → Type 0
AreStamped t redacted es = (length es ≤ 1) × All (IsStamped t redacted) es

one :
    (t : TopicClassification) (redacted : String) (e : NormalizedMqttEvent)
    → IsStamped t redacted e
    → AreStamped t redacted (e ∷ [])
unfolding AreStamped
one t redacted e h = (omega arith, (h, tt))

nothing : (t : TopicClassification) (redacted : String) → AreStamped t redacted []
unfolding AreStamped
nothing t redacted = (omega arith, tt)

module _ (c : Codec) where
  state-IsStamped :
      (t : TopicClassification) (parsed : Json) (redacted : String)
      → IsStamped t redacted (normalize_bridge_state c t parsed redacted)
  unfolding IsStamped normalize_bridge_state
  state-IsStamped t parsed redacted = elim (Option-cases (extract_online_state c parsed)) [
    | inl e ↦ rw (e, normalize_bridge_state) (refl, refl)
    | inr (s, e) ↦ rw (e, normalize_bridge_state) (refl, refl)
  ]

  availability-IsStamped :
      (t : TopicClassification) (parsed : Json) (redacted : String)
      → IsStamped t redacted (normalize_device_availability c t parsed redacted)
  unfolding IsStamped normalize_device_availability
  availability-IsStamped t parsed redacted = elim (Option-cases (extract_online_state c parsed)) [
    | inl e ↦ rw (e, normalize_device_availability) (refl, refl)
    | inr (s, e) ↦ rw (e, normalize_device_availability) (refl, refl)
  ]

  optional :
      (b : Bool) (t : TopicClassification) (redacted : String) (e : NormalizedMqttEvent)
      → IsStamped t redacted e
      → AreStamped t redacted (if b then e ∷ [] else [])
  optional true t redacted e h = one t redacted e h
  optional false t redacted e h = nothing t redacted

  handle-AreStamped :
      (logs : Bool) (t : TopicClassification) (parsed : Json) (redacted : String) (kind : TopicKind)
      → AreStamped t redacted (handle c logs t parsed redacted kind)
  unfolding handle IsStamped normalize_bridge_info normalize_bridge_devices normalize_bridge_event
      normalize_bridge_logging normalize_bridge_health normalize_device_payload
  handle-AreStamped logs t parsed redacted TopicKind.bridge_state =
      one t redacted (normalize_bridge_state c t parsed redacted)
        (state-IsStamped t parsed redacted)
  handle-AreStamped logs t parsed redacted TopicKind.bridge_info =
      one t redacted (normalize_bridge_info c t parsed redacted) (refl, refl)
  handle-AreStamped logs t parsed redacted TopicKind.bridge_devices =
      one t redacted (normalize_bridge_devices c t parsed redacted) (refl, refl)
  handle-AreStamped logs t parsed redacted TopicKind.bridge_event =
      one t redacted (normalize_bridge_event c t parsed redacted) (refl, refl)
  handle-AreStamped logs t parsed redacted TopicKind.bridge_logging =
      optional _ t redacted (normalize_bridge_logging c t parsed redacted) (refl, refl)
  handle-AreStamped logs t parsed redacted TopicKind.bridge_health =
      one t redacted (normalize_bridge_health c t parsed redacted) (refl, refl)
  handle-AreStamped logs t parsed redacted TopicKind.device_availability =
      one t redacted (normalize_device_availability c t parsed redacted)
        (availability-IsStamped t parsed redacted)
  handle-AreStamped logs t parsed redacted TopicKind.device_payload =
      one t redacted (normalize_device_payload c t parsed redacted) (refl, refl)
  handle-AreStamped logs t parsed redacted TopicKind.unknown_bridge_topic =
      one t redacted (plain_event "unknown_bridge_topic" t redacted) (refl, refl)
  handle-AreStamped logs t parsed redacted TopicKind.ignored = nothing t redacted
  handle-AreStamped logs t parsed redacted TopicKind.request_topic = nothing t redacted

  classified-AreStamped :
      (is_secret : String → Bool) (logs : Bool) (t : TopicClassification) (payload : String)
      → AreStamped t
          (redact_payload_text is_secret c payload)
          (normalize_classified c is_secret logs t payload)
  unfolding normalize_classified IsStamped
  classified-AreStamped is_secret logs t payload =
      let redacted = redact_payload_text is_secret c payload in
      let handled = handle-AreStamped logs t (safe_parse_json c payload).0 redacted t.kind in
      elim (Option-cases (safe_parse_json c payload).1) [
        | inl e ↦ rw (e, normalize_classified) handled
        | inr (error, e) ↦ elim (Bool-cases (takes_text t.kind || is_dropped t.kind)) [
          | inl takes ↦ rw (e, takes, normalize_classified) handled
          | inr json ↦
              rw (e, json, normalize_classified)
                (one t redacted
                  (record (plain_event "parse_error" t redacted) { parse_error = some error })
                  (refl, refl))
        ]
      ]

  -- Whether a payload is a JSON object or array.
  unfoldable pub is_structured : String → Bool
  is_structured payload = elim (c.loads payload) [
    | none ↦ false
    | some parsed ↦ elim parsed [
      | null ↦ false
      | boolean b ↦ false
      | number n ↦ false
      | text s ↦ false
      | array xs ↦ true
      | dict fs ↦ true
    ]
  ]

  -- Of a payload that is a JSON object or array, the text of its redacted value is kept, which has the
  -- mark under every secret key at any depth; any other payload is kept as it is.
  pub IsRedacted : (String → Bool) → String → String → Type 0
  IsRedacted is_secret payload kept =
      ((is_structured payload ≡ true)
        × ((j : Json) × (k : Json) × (c.loads payload ≡ some j)
            × (k ≡ redact_payload_value is_secret j)
            × IsClean is_secret k
            × (kept ≡ c.dumps k)))
      ⊎ ((is_structured payload ≡ false) × (kept ≡ payload))

  parsed-IsRedacted :
      (is_secret : String → Bool) (payload : String) (j : Json)
      → c.loads payload ≡ some j
      → IsRedacted is_secret payload (redact_payload_text is_secret c payload)
  unfolding IsRedacted is_structured redact_payload_text redact_payload_value
  parsed-IsRedacted is_secret payload null e =
      inr (rw (e, is_structured) refl, rw (e, redact_payload_text) refl)
  parsed-IsRedacted is_secret payload (boolean b) e =
      inr (rw (e, is_structured) refl, rw (e, redact_payload_text) refl)
  parsed-IsRedacted is_secret payload (number n) e =
      inr (rw (e, is_structured) refl, rw (e, redact_payload_text) refl)
  parsed-IsRedacted is_secret payload (text s) e =
      inr (rw (e, is_structured) refl, rw (e, redact_payload_text) refl)
  parsed-IsRedacted is_secret payload (array xs) e =
      let j = array xs in
      let k = redact_payload_value is_secret j in
      let clean = (redact-redact is_secret j).0 in
      inl (rw (e, is_structured) refl, (j, k, e, refl, clean, rw (e, redact_payload_text) refl))
  parsed-IsRedacted is_secret payload (dict fs) e =
      let j = dict fs in
      let k = redact_payload_value is_secret j in
      let clean = (redact-redact is_secret j).0 in
      inl (rw (e, is_structured) refl, (j, k, e, refl, clean, rw (e, redact_payload_text) refl))

  redact_payload_text-IsRedacted :
      (is_secret : String → Bool) (payload : String)
      → IsRedacted is_secret payload (redact_payload_text is_secret c payload)
  unfolding IsRedacted is_structured redact_payload_text
  redact_payload_text-IsRedacted is_secret payload = elim (Option-cases (c.loads payload)) [
    | inl e ↦ inr (rw (e, is_structured) refl, rw (e, redact_payload_text) refl)
    | inr (j, e) ↦ parsed-IsRedacted is_secret payload j e
  ]

  -- A message on a topic that is classified gives at most one event. It belongs to the network of
  -- the topic. Of a payload that is a JSON object or array it keeps the text of the redacted value,
  -- which has the mark under every secret key at any depth; any other payload it keeps as it is.
  pub normalize_message-AreStamped :
      (is_secret : String → Bool) (networks : List NetworkConfig) (logs : Bool)
      (message : RawMqttMessage) (t : TopicClassification)
      → classify_topic message.topic networks ≡ some t
      → (length (normalize_message c is_secret networks logs message) ≤ 1)
        × All
            (λ e.
              (e.network_id ≡ t.network_id)
              × IsRedacted is_secret message.payload e.raw_payload_redacted)
            (normalize_message c is_secret networks logs message)
  unfolding normalize_message AreStamped IsStamped
  normalize_message-AreStamped is_secret networks logs message t e =
      let h = classified-AreStamped is_secret logs t message.payload in
      let kept = redact_payload_text-IsRedacted is_secret message.payload in
      rw (e, normalize_message)
        (
          h.0,
          All-map (λ x p. (p.0, subst (IsRedacted is_secret message.payload) (sym p.1) kept))
              (normalize_classified c is_secret logs t message.payload) h.1,
        )
