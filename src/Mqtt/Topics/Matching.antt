-- ===== src/Mqtt/Topics/Matching.antt =====
-- The network that a topic belongs to.
use Prim.Native.String as Str
use zigbeelens.Common.{
  ℕ, String, ◌≡◌, refl, subst, true, false, none, some, List, [], ◌∷◌, arith, All, Some, ltb,
  Bool-cases, Option-cases, inl, inr, ◌≤◌, any,
}
use zigbeelens.Mqtt.Topics.{NetworkConfig, is_match, longest_base, match_network}

-- `n` is a network of the list that takes the topic, and no longer base does.
unfoldable pub IsBest : String → List NetworkConfig → NetworkConfig → Type 0
IsBest topic networks n =
    (is_match topic n ≡ true)
    × Some (λ m. m ≡ n) networks
    × All (λ m. is_match topic m ≡ true → Str.count m.base_topic ≤ Str.count n.base_topic) networks

Bounded : String → ℕ → NetworkConfig → Type 0
Bounded topic k m = is_match topic m ≡ true → Str.count m.base_topic ≤ k

any-Bounded :
    (topic : String) (k : ℕ) (ms : List NetworkConfig)
    → any (is_match topic) ms ≡ false
    → All (Bounded topic k) ms
unfolding Bounded
any-Bounded topic k [] h = tt
any-Bounded topic k (m ∷ ms) h =
    let rest = any-Bounded topic k ms in
    (λ e. absurd (ground (arith, h, e)), rest (ground (arith, h)))

weaken :
    (topic : String) (j k : ℕ) (ms : List NetworkConfig)
    → j ≤ k
    → All (Bounded topic j) ms
    → All (Bounded topic k) ms
unfolding Bounded
weaken topic j k [] h bounds = tt
weaken topic j k (m ∷ ms) h bounds =
    (λ e. ground (arith, h, bounds.0 e), weaken topic j k ms h bounds.1)

-- The longest_base of a matching network and the best of the others.
longest_base-IsBest :
    (topic : String) (m k n : NetworkConfig) (ms : List NetworkConfig)
    → is_match topic m ≡ true
    → IsBest topic ms k
    → longest_base m (some k) ≡ some n
    → IsBest topic (m ∷ ms) n
unfolding longest_base IsBest Bounded
longest_base-IsBest topic m k n ms e best h =
    elim (Bool-cases (ltb (Str.count m.base_topic) (Str.count k.base_topic))) [
      | inl less ↦
          let same : k ≡ n = ground (arith, less, h) in
          subst (IsBest topic (m ∷ ms)) same
            (best.0, inr best.1, (λ _. ground (arith, less), best.2))
      | inr not_less ↦
          let same : m ≡ n = ground (arith, not_less, h) in
          let shorter : Str.count k.base_topic ≤ Str.count m.base_topic =
            ground (arith, not_less) in
          subst (IsBest topic (m ∷ ms)) same (
            e,
            inl refl,
            (
              λ _. omega arith,
              weaken topic (Str.count k.base_topic) (Str.count m.base_topic) ms shorter best.2,
            ),
          )
    ]

-- A topic belongs to a network of the list whose base is the topic or a level above it, and no
-- network with a longer base is so; it belongs to none only if no network of the list matches.
pub match_network-IsBest :
    (topic : String) (networks : List NetworkConfig)
    → ((n : NetworkConfig) → match_network topic networks ≡ some n → IsBest topic networks n)
      × (match_network topic networks ≡ none → any (is_match topic) networks ≡ false)
unfolding match_network longest_base IsBest Bounded
match_network-IsBest topic [] = (λ n h. absurd (cc h), λ h. refl)
match_network-IsBest topic (m ∷ ms) =
    let rest = match_network-IsBest topic ms in
    elim (Bool-cases (is_match topic m)) [
      | inr e ↦ rw e (
        λ n h. let best = rest.0 n h in (best.0, inr best.1, (λ t. absurd (cc (e, t)), best.2)),
        rest.1,
      )
      | inl e ↦ elim (Option-cases (match_network topic ms)) [
        | inl found ↦ (
          λ n h.
              let same : m ≡ n = ground (arith, e, found, h) in
              subst (IsBest topic (m ∷ ms)) same (
                e,
                inl refl,
                (λ _. omega arith, any-Bounded topic (Str.count m.base_topic) ms (rest.1 found)),
              ),
          λ h. absurd (ground (arith, e, found, h)),
        )
        | inr (k, found) ↦ (
          λ n h.
              longest_base-IsBest topic m k n ms e (rest.0 k found) (ground (arith, e, found, h)),
          λ h. absurd (ground (arith, e, found, h)),
        )
      ]
    ]
