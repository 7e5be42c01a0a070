-- ===== src/Incident/Priority/Fates.antt =====
-- What becomes of each candidate: it is selected, or another one accounts for it.
use zigbeelens.Common.{
  String, ◌≡◌, refl, sym, subst, ◌⊎◌, inl, inr, true, false, not, ◌&&◌, ◌||◌, List, [], ◌∷◌, ◌++◌,
  arith, any-append, is_empty, All, Some, All-map, Bool-cases, if◌then◌else◌,
}
use mathlib.Core.List.{append-nil}
use zigbeelens.Common.Order.{sort_with, sort_with-All, sort_with-Some}
use zigbeelens.Incident.Types.{AffectedDevice}
use zigbeelens.Incident.Identity.{Draft}
use zigbeelens.Incident.Priority.{
  is_bridge_offline, outlives_suppression, outlives_explanation, explains, same_key, has_key,
  all_in, shares_network, suppress, is_passed_over, explain, select, is_earlier, apply_priority,
}
use zigbeelens.Incident.Priority.Suppression.{shares_network-append}

-- The devices of the candidates that explain theirs.
abbrev pub explained_by : List Draft → List AffectedDevice
explained_by [] = []
explained_by (d ∷ ds) =
    if explains d.incident_type then d.affected_devices ++ explained_by ds else explained_by ds

-- A candidate for an offline bridge that shares a network with another candidate.
abbrev pub IsSilencing : Draft → Draft → Type 0
IsSilencing d b =
    (is_bridge_offline b.incident_type ≡ true) × (shares_network d.network_ids b.network_ids ≡ true)

-- A candidate that may be passed over on a network that an offline bridge suppresses.
abbrev pub IsSilenced : List Draft → Draft → Type 0
IsSilenced all d = (outlives_suppression d.incident_type ≡ false) × Some (IsSilencing d) all

-- A candidate that may be passed over since the devices given explain all of its own.
abbrev pub IsExplained : List AffectedDevice → Draft → Type 0
IsExplained x d =
    (outlives_explanation d.incident_type ≡ false)
    × (is_empty d.affected_devices ≡ false)
    × (all_in d.affected_devices x ≡ true)

abbrev IsSelected : List Draft → Draft → Type 0
IsSelected out d = Some (λ e. e ≡ d) out

-- The fate of a candidate of the loop that begins with suppressed networks and explained devices.
abbrev IsSettled : List String → List AffectedDevice → List Draft → List Draft → Draft → Type 0
IsSettled s x all out d =
    IsSelected out d
    ⊎ (((outlives_suppression d.incident_type ≡ false) × (shares_network d.network_ids s ≡ true))
        ⊎ (IsSilenced all d ⊎ IsExplained (explained_by out ++ x) d))

has_key-append :
    (a : AffectedDevice) (xs ys : List AffectedDevice)
    → has_key a (xs ++ ys) ≡ (has_key a xs || has_key a ys)
has_key-append a xs ys = any-append (λ b. same_key b a) xs ys

all_in-weaken :
    (xs ys zs : List AffectedDevice)
    → ((a : AffectedDevice) → has_key a ys ≡ true → has_key a zs ≡ true)
    → all_in xs ys ≡ true
    → all_in xs zs ≡ true
all_in-weaken [] ys zs w h = refl
all_in-weaken (x ∷ xs) ys zs w h = ground (arith, w x, all_in-weaken xs ys zs w)

passed_over_cases :
    (t : List String) (x : List AffectedDevice) (d : Draft)
    → is_passed_over t x d ≡ true
    → ((outlives_suppression d.incident_type ≡ false) × (shares_network d.network_ids t ≡ true))
      ⊎ IsExplained x d
unfolding is_passed_over
passed_over_cases t x d h =
    elim (Bool-cases
      (shares_network d.network_ids t && not (outlives_suppression d.incident_type))) [
        | inl e ↦ inl (ground (arith, e), ground (arith, e))
        | inr e ↦ inr (ground (arith, e, h), ground (arith, e, h), ground (arith, e, h))
      ]

-- A candidate that can be suppressed suppresses nothing.
suppress_self :
    (s : List String) (d : Draft) → outlives_suppression d.incident_type ≡ false → suppress s d ≡ s
unfolding suppress
suppress_self s d h = ground (arith, h)

-- The devices that were explained before stay so.
IsExplained-more :
    (xs x : List AffectedDevice) (d : Draft) → IsExplained x d → IsExplained (xs ++ x) d
IsExplained-more xs x d h = (
  h.0,
  h.1,
  all_in-weaken d.affected_devices x (xs ++ x) (λ a k. ground (arith, has_key-append a xs x, k))
      h.2,
)

-- The head of the loop is passed over.
skipped-IsSettled :
    (s : List String) (x : List AffectedDevice) (d : Draft) (ds out : List Draft)
    → is_passed_over (suppress s d) x d ≡ true
    → IsSettled s x (d ∷ ds) out d
skipped-IsSettled s x d ds out h = elim (passed_over_cases (suppress s d) x d h) [
  | inl e ↦
      let shared : shares_network d.network_ids s ≡ true =
        subst (λ t. shares_network d.network_ids t ≡ true) (suppress_self s d e.0) e.1 in
      inr (inl (e.0, shared))
  | inr e ↦ inr (inr (inr (IsExplained-more (explained_by out) x d e)))
]

shares_network-cases :
    (s : List String) (d e : Draft)
    → shares_network e.network_ids (suppress s d) ≡ true
    → (shares_network e.network_ids s ≡ true) ⊎ IsSilencing e d
unfolding suppress
shares_network-cases s d e h = elim (Bool-cases (shares_network e.network_ids s)) [
  | inl k ↦ inl k
  | inr k ↦
      let split = shares_network-append e.network_ids d.network_ids s in
      inr (ground (arith, h, k, split), ground (arith, h, k, split))
]

-- What is settled after a round was settled before it.
later-IsSettled :
    (s : List String) (x : List AffectedDevice) (d : Draft) (ds out : List Draft) (e : Draft)
    → IsSettled (suppress s d) x ds out e
    → IsSettled s x (d ∷ ds) out e
later-IsSettled s x d ds out e (inl h) = inl h
later-IsSettled s x d ds out e (inr (inl h)) = elim (shares_network-cases s d e h.1) [
  | inl k ↦ inr (inl (h.0, k))
  | inr k ↦ inr (inr (inl (h.0, inl k)))
]
later-IsSettled s x d ds out e (inr (inr (inl h))) = inr (inr (inl (h.0, inr h.1)))
later-IsSettled s x d ds out e (inr (inr (inr h))) = inr (inr (inr h))

has_key-explain :
    (x : List AffectedDevice) (d : Draft) (out : List Draft) (a : AffectedDevice)
    → has_key a (explained_by out ++ explain x d) ≡ true
    → has_key a (explained_by (d ∷ out) ++ x) ≡ true
unfolding explain
has_key-explain x d out a h =
    let e = explained_by out in
    let u = has_key-append a e x in
    elim (Bool-cases (explains d.incident_type)) [
      | inl c ↦
          let h' : has_key a (e ++ (d.affected_devices ++ x)) ≡ true = rw c at h in
          let p = has_key-append a e (d.affected_devices ++ x) in
          let q = has_key-append a d.affected_devices x in
          let r = has_key-append a (d.affected_devices ++ e) x in
          let v = has_key-append a d.affected_devices e in rw c (ground (arith, h', p, q, r, v))
      | inr c ↦ let h' : has_key a (e ++ x) ≡ true = rw c at h in rw c h'
    ]

-- The same where the head was selected.
kept-IsSettled :
    (s : List String) (x : List AffectedDevice) (d : Draft) (ds out : List Draft) (e : Draft)
    → IsSettled s (explain x d) ds out e
    → IsSettled s x ds (d ∷ out) e
kept-IsSettled s x d ds out e (inl h) = inl (inr h)
kept-IsSettled s x d ds out e (inr (inl h)) = inr (inl h)
kept-IsSettled s x d ds out e (inr (inr (inl h))) = inr (inr (inl h))
kept-IsSettled s x d ds out e (inr (inr (inr h))) = inr (
    inr (
      inr (
        h.0,
        h.1,
        all_in-weaken e.affected_devices (explained_by out ++ explain x d)
            (explained_by (d ∷ out) ++ x) (has_key-explain x d out) h.2,
      )))

select_skip :
    (s : List String) (x : List AffectedDevice) (d : Draft) (ds : List Draft)
    → is_passed_over (suppress s d) x d ≡ true
    → select s x (d ∷ ds) ≡ select (suppress s d) x ds
unfolding select
select_skip s x d ds e = rw e refl

select_keep :
    (s : List String) (x : List AffectedDevice) (d : Draft) (ds : List Draft)
    → is_passed_over (suppress s d) x d ≡ false
    → select s x (d ∷ ds) ≡ d ∷ select (suppress s d) (explain x d) ds
unfolding select
select_keep s x d ds e = rw e refl

no_networks : (ids : List String) → shares_network ids [] ≡ true → ⊥
no_networks [] h = cc h
no_networks (x ∷ ids) h = no_networks ids h

select-IsSettled :
    (s : List String) (x : List AffectedDevice) (ds : List Draft)
    → All (IsSettled s x ds (select s x ds)) ds
select-IsSettled s x [] = tt
select-IsSettled s x (d ∷ ds) =
    let t = suppress s d in
    elim (Bool-cases (is_passed_over t x d)) [
      | inl e ↦
          let out = select t x ds in
          subst (λ o. All (IsSettled s x (d ∷ ds) o) (d ∷ ds)) (sym (select_skip s x d ds e))
            (
              skipped-IsSettled s x d ds out e,
              All-map (later-IsSettled s x d ds out) ds (select-IsSettled t x ds),
            )
      | inr e ↦
          let out = select t (explain x d) ds in
          subst (λ o. All (IsSettled s x (d ∷ ds) o) (d ∷ ds)) (sym (select_keep s x d ds e))
            (
              inl (inl refl),
              All-map
                  (λ f h. later-IsSettled s x d ds (d ∷ out) f (kept-IsSettled t x d ds out f h)) ds
                  (select-IsSettled t (explain x d) ds),
            )
    ]

-- What becomes of a candidate, all candidates given.
pub data Fate (all out : List Draft) (d : Draft) : Type 0 where
  selected : Some (λ e. e ≡ d) out → Fate all out d
  silenced : IsSilenced all d → Fate all out d
  explained : IsExplained (explained_by out) d → Fate all out d

settled-Fate :
    (all sorted out : List Draft) (d : Draft)
    → (Some (IsSilencing d) sorted → Some (IsSilencing d) all)
    → IsSettled [] [] sorted out d
    → Fate all out d
settled-Fate all sorted out d back (inl h) = selected h
settled-Fate all sorted out d back (inr (inl h)) = absurd (no_networks d.network_ids h.1)
settled-Fate all sorted out d back (inr (inr (inl h))) = silenced (h.0, back h.1)
settled-Fate all sorted out d back (inr (inr (inr h))) =
    explained (rw⁻¹ (append-nil (explained_by out)) h)

-- Each candidate is selected; or a candidate for an offline bridge shares a network with it and it is
-- of a type that this suppresses; or it has devices, selected candidates explain all of them, and it is
-- of a type that this suppresses.
pub apply_priority-Fate : (ds : List Draft) → All (Fate ds (apply_priority ds)) ds
unfolding apply_priority
apply_priority-Fate ds =
    let order = sort_with is_earlier ds in
    sort_with-All is_earlier (Fate ds (select [] [] order)) ds (
      All-map
        (λ d.
          settled-Fate ds order (select [] [] order) d
            (sort_with-Some is_earlier (IsSilencing d) ds))
        order (select-IsSettled [] [] order))
