-- ===== src/Mqtt/Topics/Roundtrip.antt =====
-- The topics that are read as messages of a device.
use Prim.Native.String as Str
use text.Mathlib.TextLemmas.{append_assoc}
use zigbeelens.Common.{
  String, ◌≡◌, ◌≢◌, ◌↔◌, refl, sym, ap, ◌∙◌, subst, false, Option, none, some, List, [], ◌∷◌, arith,
  All, str_eq, eq_iff, Option-cases, inl, inr,
}
use zigbeelens.Mqtt.Topics.{
  NetworkConfig, TopicKind, TopicClassification, classified, ◌+/+◌, after_prefix, split,
  match_network, classify_device_topic, classify_bridge_topic, classify_parts, classify_below,
  classify_topic,
}
use zigbeelens.Mqtt.Topics.Splitting.{
  NoSlash, join_slash, after_prefix-append, after_prefix_inv, split-NoSlash, split-append,
  split-All, join-split,
}

parts_availability :
    (n : NetworkConfig) (name : String) (ps : List String)
    → classify_parts n ps ≡ some (classified n TopicKind.device_availability (some name) none)
    → (ps ≡ name ∷ "availability" ∷ []) × (name ≢ "bridge")
unfolding classify_parts classify_bridge_topic classify_device_topic
parts_availability n name [] h = ground (arith, h)
parts_availability n name (p ∷ []) h = ground (arith, h, eq_iff p "bridge")
parts_availability n name (p ∷ q ∷ []) h =
    ground (arith, h, eq_iff p "bridge", eq_iff q "availability")
parts_availability n name (p ∷ q ∷ r ∷ ps) h =
    ground (arith, h, eq_iff p "bridge", eq_iff q "availability")

availability_parts :
    (n : NetworkConfig) (name : String)
    → name ≢ "bridge"
    → classify_parts n (name ∷ "availability" ∷ [])
      ≡ some (classified n TopicKind.device_availability (some name) none)
unfolding classify_parts classify_device_topic
availability_parts n name other = ground (arith, eq_iff name "bridge")

-- What is known of a remainder that is classified as an availability.
read_remainder :
    (n : NetworkConfig) (name r : String)
    → classify_parts n (split r)
      ≡ some (classified n TopicKind.device_availability (some name) none)
    → (r ≡ name +/+ "availability") × NoSlash name × (name ≢ "bridge")
unfolding join_slash
read_remainder n name r h =
    let parts = parts_availability n name (split r) h in
    let joined = join-split r in
    let clean = split-All r in
    (sym joined ∙ ap join_slash parts.0, (subst (All NoSlash) parts.0 clean).0, parts.1)

availability-NoSlash : NoSlash "availability"
unfolding NoSlash
availability-NoSlash = ground arith

write_remainder :
    (n : NetworkConfig) (name : String)
    → NoSlash name
    → name ≢ "bridge"
    → classify_parts n (split (name +/+ "availability"))
      ≡ some (classified n TopicKind.device_availability (some name) none)
write_remainder n name clean other =
    let parts : split (name +/+ "availability") ≡ name ∷ "availability" ∷ [] =
      split-append name "availability" clean
      ∙ ap (λ ws. name ∷ ws) (split-NoSlash "availability" availability-NoSlash) in
    rw parts (availability_parts n name other)

is_filled : (name : String) → str_eq (name +/+ "availability") "" ≡ false
is_filled Str.[] = refl
is_filled (Str.◌∷◌ c s) =
    rw (Str.append.cons c s (Str.◌++◌ "/" "availability"))
      (ground (arith, Str.compare.cons-nil c (Str.◌++◌ s (Str.◌++◌ "/" "availability"))))

availability_below :
    (n : NetworkConfig) (name topic : String)
    → (classify_below n topic ≡ some (classified n TopicKind.device_availability (some name) none))
      ↔ ((topic ≡ n.base_topic +/+ name +/+ "availability") × NoSlash name × (name ≢ "bridge"))
unfolding classify_below
availability_below n name topic = (forward, backward)
  where
    prefix : String
    prefix = Str.◌++◌ n.base_topic "/"

    answer : Option TopicClassification
    answer = some (classified n TopicKind.device_availability (some name) none)

    nested : (r : String) → Str.◌++◌ prefix r ≡ n.base_topic +/+ r
    nested r = append_assoc n.base_topic "/" r

    forward :
        classify_below n topic ≡ answer
        → (topic ≡ n.base_topic +/+ name +/+ "availability") × NoSlash name × (name ≢ "bridge")
    forward h = elim (Option-cases (after_prefix prefix topic)) [
      | inl e ↦ absurd (ground (arith, e, h))
      | inr (r, e) ↦
          let read = read_remainder n name r (ground (arith, e, h)) in
          (
            after_prefix_inv prefix topic r e ∙ nested r ∙ ap (λ u. n.base_topic +/+ u) read.0,
            read.1,
            read.2,
          )
    ]

    backward :
        (topic ≡ n.base_topic +/+ name +/+ "availability") × NoSlash name × (name ≢ "bridge")
        → classify_below n topic ≡ answer
    backward h =
        let found : after_prefix prefix topic ≡ some (name +/+ "availability") =
          ap (after_prefix prefix) (h.0 ∙ sym (nested (name +/+ "availability")))
          ∙ after_prefix-append prefix (name +/+ "availability") in
        rw (found, classify_below) (rw (is_filled name) (write_remainder n name h.1 h.2))

-- A topic of a network, which is the longest_base base that matches, is read as the availability of a
-- device exactly when it is the base, the device's name and "availability", joined by slashes, where
-- the name has no slash and is not "bridge".
pub classify_topic-availability :
    (topic name : String) (networks : List NetworkConfig) (n : NetworkConfig)
    → match_network topic networks ≡ some n
    → (classify_topic topic networks
        ≡ some (classified n TopicKind.device_availability (some name) none))
      ↔ ((topic ≡ n.base_topic +/+ name +/+ "availability") × NoSlash name × (name ≢ "bridge"))
unfolding classify_topic
classify_topic-availability topic name networks n h =
    rw (h, classify_topic) (availability_below n name topic)
