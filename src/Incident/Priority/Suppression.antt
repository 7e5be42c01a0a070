-- ===== src/Incident/Priority/Suppression.antt =====
-- On a network with an offline bridge, only the bridge itself and what spans networks is selected.
use zigbeelens.Common.{
  ℕ, ◌≤◌, String, ◌≡◌, refl, true, false, ◌||◌, List, [], ◌∷◌, ◌++◌, arith, elem, All, All-map,
  Bool-cases, inl, inr,
}
use zigbeelens.Common.Order.{sort_with, IsRising, sort_with-IsRising}
use zigbeelens.Incident.Types.{IncidentType, AffectedDevice}
use zigbeelens.Incident.Identity.{Draft}
use zigbeelens.Incident.Priority.{
  priority, is_bridge_offline, outlives_suppression, shares_network, suppress, is_passed_over,
  explain, select, is_earlier, apply_priority,
}

elem-append : (x : String) (xs ys : List String) → elem x (xs ++ ys) ≡ (elem x xs || elem x ys)
elem-append x [] ys = refl
elem-append x (y ∷ xs) ys = ground (arith, elem-append x xs ys)

pub shares_network-append :
    (ids xs ys : List String)
    → shares_network ids (xs ++ ys) ≡ (shares_network ids xs || shares_network ids ys)
shares_network-append [] xs ys = refl
shares_network-append (x ∷ ids) xs ys =
    ground (arith, elem-append x xs ys, shares_network-append ids xs ys)

shares_network-suppress :
    (ids : List String) (s : List String) (d : Draft)
    → shares_network ids s ≡ true
    → shares_network ids (suppress s d) ≡ true
unfolding suppress
shares_network-suppress ids s d h = ground (arith, shares_network-append ids d.network_ids s)

-- What is selected lies on none of the suppressed networks.
abbrev Avoids : List String → Draft → Type 0
Avoids s e = shares_network e.network_ids s ≡ true → outlives_suppression e.incident_type ≡ true

Avoids-weaken : (s : List String) (d e : Draft) → Avoids (suppress s d) e → Avoids s e
Avoids-weaken s d e a h = a (shares_network-suppress e.network_ids s d h)

kept_avoids :
    (t : List String) (x : List AffectedDevice) (d : Draft)
    → shares_network d.network_ids t ≡ true
    → is_passed_over t x d ≡ false
    → outlives_suppression d.incident_type ≡ true
unfolding is_passed_over
kept_avoids t x d h e = ground (arith, h, e)

select-Avoids :
    (s : List String) (x : List AffectedDevice) (ds : List Draft) → All (Avoids s) (select s x ds)
unfolding select
select-Avoids s x [] = tt
select-Avoids s x (d ∷ ds) =
    let t = suppress s d in
    elim (Bool-cases (is_passed_over t x d)) [
      | inl e ↦ rw e (All-map (Avoids-weaken s d) (select t x ds) (select-Avoids t x ds))
      | inr e ↦ rw e (
        Avoids-weaken s d d (λ h. kept_avoids t x d h e),
        All-map (Avoids-weaken s d) (select t (explain x d) ds) (select-Avoids t (explain x d) ds),
      )
    ]

pub select-All :
    (P : Draft → Type 0) (s : List String) (x : List AffectedDevice) (ds : List Draft)
    → All P ds
    → All P (select s x ds)
unfolding select
select-All P s x [] h = tt
select-All P s x (d ∷ ds) h =
    let t = suppress s d in
    elim (Bool-cases (is_passed_over t x d)) [
      | inl e ↦ rw e (select-All P t x ds h.1)
      | inr e ↦ rw e (h.0, select-All P t (explain x d) ds h.1)
    ]

-- A candidate for an offline bridge and one that it suppresses have no network in common.
abbrev pub IsClear : Draft → Draft → Type 0
IsClear b d =
    is_bridge_offline b.incident_type ≡ true
    → outlives_suppression d.incident_type ≡ false
    → shares_network d.network_ids b.network_ids ≡ false

abbrev pub IsApart : List Draft → Type 0
IsApart ds = All (λ b. All (IsClear b) ds) ds

abbrev pub rank : Draft → ℕ
rank d = priority d.incident_type

bridge_outlives : (i : IncidentType) → is_bridge_offline i ≡ true → outlives_suppression i ≡ true
bridge_outlives i h = ground (arith, h)

bridge_first : (i : IncidentType) → priority i ≤ 0 → is_bridge_offline i ≡ true
unfolding priority
bridge_first i h = ground (arith, h)

first_bridge : (i : IncidentType) → is_bridge_offline i ≡ true → priority i ≡ 0
unfolding priority
first_bridge i h = ground (arith, h)

-- The selected candidates after an offline bridge are clear of it.
suppress-IsClear : (s : List String) (d e : Draft) → Avoids (suppress s d) e → IsClear d e
unfolding suppress
suppress-IsClear s d e a b o = elim (Bool-cases (shares_network e.network_ids d.network_ids)) [
  | inl h ↦
      let out = a (ground (arith, b, shares_network-append e.network_ids d.network_ids s, h)) in
      absurd (cc (out, o))
  | inr h ↦ h
]

-- No offline bridge comes after a candidate of another type.
later_not_bridge :
    (d e : Draft)
    → priority d.incident_type ≤ priority e.incident_type
    → is_bridge_offline d.incident_type ≡ false
    → is_bridge_offline e.incident_type ≡ false
later_not_bridge d e le n = elim (Bool-cases (is_bridge_offline e.incident_type)) [
  | inl b ↦
      let zero = first_bridge e.incident_type b in
      let first = bridge_first d.incident_type (omega (arith, zero, le)) in absurd (cc (first, n))
  | inr c ↦ c
]

no_bridge :
    (d e : Draft)
    → rank d ≤ rank e
    → is_bridge_offline d.incident_type ≡ false
    → is_bridge_offline e.incident_type ≡ true
    → ⊥
no_bridge d e le n b = let c = later_not_bridge d e le n in cc (b, c)

All-true : {P : Draft → Type 0} → ((x : Draft) → P x) → (xs : List Draft) → All P xs
All-true f [] = tt
All-true f (x ∷ xs) = (f x, All-true f xs)

clash :
    (d : Draft)
    → is_bridge_offline d.incident_type ≡ true
    → outlives_suppression d.incident_type ≡ false
    → ⊥
clash d x y = let z = bridge_outlives d.incident_type x in cc (y, z)

All-both : (P Q : Draft → Type 0) (xs : List Draft) → All P xs → All Q xs → All (λ x. P x × Q x) xs
All-both P Q [] p q = tt
All-both P Q (x ∷ xs) p q = ((p.0, q.0), All-both P Q xs p.1 q.1)

IsApart-cons :
    (d : Draft) (es : List Draft)
    → All (IsClear d) es
    → All (λ b. IsClear b d) es
    → IsApart es
    → IsApart (d ∷ es)
IsApart-cons d es a b c =
    ((λ x y. absurd (clash d x y), a), All-both (λ b. IsClear b d) (λ b. All (IsClear b) es) es b c)

-- What holds of a candidate that is not an offline bridge and of those after it.
ahead-IsClear :
    (d : Draft) (ds : List Draft)
    → is_bridge_offline d.incident_type ≡ false
    → All (λ e. rank d ≤ rank e) ds
    → All (λ b. IsClear b d) ds
ahead-IsClear d ds n h = All-map (λ e le b o. absurd (no_bridge d e le n b)) ds h

behind-IsClear :
    (d : Draft) (es : List Draft)
    → is_bridge_offline d.incident_type ≡ true
    → All (λ b. IsClear b d) es
behind-IsClear d es b = All-true (λ e x o. absurd (clash d b o)) es

select-IsApart :
    (s : List String) (x : List AffectedDevice) (ds : List Draft)
    → IsRising rank ds
    → IsApart (select s x ds)
unfolding select
select-IsApart s x [] r = tt
select-IsApart s x (d ∷ ds) r =
    let t = suppress s d in
    let y = explain x d in
    elim (Bool-cases (is_passed_over t x d)) [
      | inl e ↦ rw e (select-IsApart t x ds r.1)
      | inr e ↦
          let after = All-map (suppress-IsClear s d) (select t y ds) (select-Avoids t y ds) in
          let before : All (λ b. IsClear b d) (select t y ds) =
            elim (Bool-cases (is_bridge_offline d.incident_type)) [
              | inl b ↦ behind-IsClear d (select t y ds) b
              | inr n ↦ select-All (λ b. IsClear b d) t y ds (ahead-IsClear d ds n r.0)
            ] in
          rw e (IsApart-cons d (select t y ds) after before (select-IsApart t y ds r.1))
    ]

earlier_le : (a b : Draft) → is_earlier a b ≡ true → rank a ≤ rank b
unfolding is_earlier
earlier_le a b h = ground (arith, h)

not_earlier_le : (a b : Draft) → is_earlier a b ≡ false → rank b ≤ rank a
unfolding is_earlier
not_earlier_le a b h = ground (arith, h)

-- Whatever is selected beside a candidate for an offline bridge, and is neither such a candidate nor
-- one across networks, has no network in common with it.
pub apply_priority-IsApart : (ds : List Draft) → IsApart (apply_priority ds)
unfolding apply_priority
apply_priority-IsApart ds =
    select-IsApart [] [] (sort_with is_earlier ds)
      (sort_with-IsRising rank is_earlier earlier_le not_earlier_le ds)
