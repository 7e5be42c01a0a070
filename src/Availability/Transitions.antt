-- ===== src/Availability/Transitions.antt =====
-- The windows of the offline transitions of a network.
use zigbeelens.Common.{
  ℕ, zero, suc, ap, ◌∙◌, ◌+◌, ◌-◌, take, some, none, Bool, ◌&&◌, ◌==◌, if◌then◌else◌, elem, ◌≤◌,
  String, Option, ◌≡◌, refl, subst, inl, inr, true, false, List, [], ◌∷◌, arith, leb, str_eq,
  eq_iff, Bool-cases, Option-cases,
}
use zigbeelens.Common.Order.{insert_with, sort_with, sort_with-IsRising}
use zigbeelens.Availability.Windows.{
  Row, Event, kept, passive_hint_max_events_per_device, is_earlier, parse_ts, collect_events,
  reversed, instability_events, cluster_windows,
}
use zigbeelens.Availability.Clusters.{IsClustering, cluster_windows-IsClustering}

earlier_le : (a b : Event) → is_earlier a b ≡ true → a.at ≤ b.at
unfolding is_earlier
earlier_le a b h = ground (arith, h)

not_earlier_le : (a b : Event) → is_earlier a b ≡ false → b.at ≤ a.at
unfolding is_earlier
not_earlier_le a b h = ground (arith, h)

kept-insert_with :
    (d : String) (e : Event) (es : List Event)
    → kept d (insert_with is_earlier e es) ≡ kept d (e ∷ es)
unfolding insert_with kept
kept-insert_with d e [] = refl
kept-insert_with d e (f ∷ fs) = ground (arith, kept-insert_with d e fs)

kept-sort_with : (d : String) (es : List Event) → kept d (sort_with is_earlier es) ≡ kept d es
unfolding sort_with kept
kept-sort_with d [] = refl
kept-sort_with d (e ∷ es) =
    ground (arith, kept-insert_with d e (sort_with is_earlier es), kept-sort_with d es)

kept-room :
    (d : String) (e : Event) (es : List Event)
    → kept d es ≤ passive_hint_max_events_per_device
    → leb passive_hint_max_events_per_device (kept e.ieee es) ≡ false
    → kept d (e ∷ es) ≤ passive_hint_max_events_per_device
unfolding kept
kept-room d e es h room = elim (Bool-cases (str_eq e.ieee d)) [
  | inl same ↦
      let eq = (eq_iff e.ieee d).0 same in
      let room' : leb passive_hint_max_events_per_device (kept d es) ≡ false =
        subst (λ x. leb passive_hint_max_events_per_device (kept x es) ≡ false) eq room in
      ground (arith, same, room')
  | inr other ↦ ground (arith, other, h)
]

take_nothing : (n : ℕ) → take {A = Event} n [] ≡ []
take_nothing zero = refl
take_nothing (suc n) = refl

take_room :
    (k : ℕ) (e : Event) (es : List Event)
    → leb 200 k ≡ false
    → take (200 - k) (e ∷ es) ≡ e ∷ take (200 - suc k) es
take_room k e es h = let n : 200 - k ≡ suc (200 - suc k) = ground (arith, h) in rw n refl

take_full : (k : ℕ) (es : List Event) → leb 200 k ≡ true → take (200 - k) es ≡ []
take_full k es h = let n : 200 - k ≡ 0 = ground (arith, h) in rw n refl

-- Whether two events are one transition.
abbrev pub is_same : Event → Event → Bool
is_same x e = str_eq e.ieee x.ieee && (e.at == x.at)

unfoldable pub occurrences : Event → List Event → ℕ
occurrences x [] = 0
occurrences x (e ∷ es) = if is_same x e then suc (occurrences x es) else occurrences x es

occurrences-insert_with :
    (x e : Event) (es : List Event)
    → occurrences x (insert_with is_earlier e es) ≡ occurrences x (e ∷ es)
unfolding insert_with occurrences
occurrences-insert_with x e [] = refl
occurrences-insert_with x e (f ∷ fs) = ground (arith, occurrences-insert_with x e fs)

occurrences-sort_with :
    (x : Event) (es : List Event) → occurrences x (sort_with is_earlier es) ≡ occurrences x es
unfolding sort_with occurrences
occurrences-sort_with x [] = refl
occurrences-sort_with x (e ∷ es) =
    ground
      (arith, occurrences-insert_with x e (sort_with is_earlier es), occurrences-sort_with x es)

module _ (parse : String → Option ℕ) (norm : String → String) (known : List String) where
  kept-collect_events :
      (d : String) (rows : List Row) (es : List Event)
      → kept d es ≤ passive_hint_max_events_per_device
      → kept d (collect_events parse norm known rows es) ≤ passive_hint_max_events_per_device
  unfolding collect_events kept
  kept-collect_events d [] es h = h
  kept-collect_events d (row ∷ rows) es h =
      let skip = kept-collect_events d rows es h in
      elim (Option-cases (parse_ts parse row.changed_at)) [
        | inl e ↦ ground (arith, e, skip)
        | inr ts ↦
            let e : Event = record { at = ts.0; ieee = norm row.ieee_address } in
            elim (Bool-cases (leb passive_hint_max_events_per_device (kept e.ieee es))) [
              | inl full ↦ ground (arith, ts.1, full, skip)
              | inr room ↦
                  let keep = kept-collect_events d rows (e ∷ es) (kept-room d e es h room) in
                  ground (arith, ts.1, room, skip, keep)
            ]
      ]

  -- The transition that a row reports: to offline, of a known device, at an instant that is given.
  unfoldable pub transition_of : Row → Option Event
  transition_of row =
      if str_eq row.to_state "offline" && elem (norm row.ieee_address) known
      then elim (parse_ts parse row.changed_at) [
        | none ↦ none
        | some ts ↦ some (record { at = ts; ieee = norm row.ieee_address })
      ]
      else none

  -- The transitions of a device.
  unfoldable pub transitions : String → List Row → List Event
  unfolding transition_of
  transitions d [] = []
  transitions d (row ∷ rows) = elim (transition_of row) [
    | none ↦ transitions d rows
    | some e ↦ if str_eq e.ieee d then e ∷ transitions d rows else transitions d rows
  ]

  occurrences-collect_events :
      (x : Event) (rows : List Row) (es : List Event)
      → occurrences x (collect_events parse norm known rows es)
        ≡ occurrences x (take (200 - kept x.ieee es) (transitions x.ieee rows)) + occurrences x es
  unfolding collect_events kept occurrences transitions transition_of
  occurrences-collect_events x [] es = rw (take_nothing (200 - kept x.ieee es)) (omega arith)
  occurrences-collect_events x (row ∷ rows) es =
      let skip = occurrences-collect_events x rows es in
      elim (Option-cases (parse_ts parse row.changed_at)) [
        | inl e ↦ ground (arith, e, skip)
        | inr ts ↦
            let e : Event = record { at = ts.0; ieee = norm row.ieee_address } in
            let keep = occurrences-collect_events x rows (e ∷ es) in
            let more = transitions x.ieee rows in
            let room = take_room (kept x.ieee es) e more in
            let full = take_full (kept x.ieee es) in
            let same = eq_iff e.ieee x.ieee in
            elim (Bool-cases (str_eq e.ieee x.ieee)) [
              | inl own ↦
                  let eq = same.0 own in
                  let count : kept e.ieee es ≡ kept x.ieee es = ap (λ d. kept d es) eq in
                  elim (Bool-cases (leb 200 (kept x.ieee es))) [
                    | inl f ↦ ground (arith, ts.1, own, count, f, skip, full (e ∷ more), full more)
                    | inr r ↦ ground (arith, ts.1, own, count, r, skip, keep, room)
                  ]
              | inr other ↦ ground (arith, ts.1, other, skip, keep)
            ]
      ]

  -- The events are the newest 200 offline transitions of each known device that the rows report, the
  -- rows standing from the oldest to the newest: each transition occurs among the events as often as
  -- among these. The windows of the events rise with more than five minutes between them; each event
  -- falls in one that has its device; each device of a window had an event within it; and no device
  -- has more than 200 events.
  pub instability-IsClustering :
      (rows : List Row)
      → IsClustering
          (instability_events parse norm known rows)
          (cluster_windows (instability_events parse norm known rows))
        × ((d : String) → kept d (instability_events parse norm known rows) ≤ 200)
        × ((x : Event)
            → occurrences x (instability_events parse norm known rows)
              ≡ occurrences x (take 200 (transitions x.ieee (reversed rows))))
  unfolding instability_events kept occurrences
  instability-IsClustering rows = (
    cluster_windows-IsClustering (instability_events parse norm known rows) (
        sort_with-IsRising (λ e. e.at) is_earlier earlier_le not_earlier_le
          (collect_events parse norm known (reversed rows) [])),
    λ d.
        rw (kept-sort_with d (collect_events parse norm known (reversed rows) []))
          (kept-collect_events d (reversed rows) [] (omega arith)),
    λ x.
        occurrences-sort_with x (collect_events parse norm known (reversed rows) [])
        ∙ occurrences-collect_events x (reversed rows) []
        ∙ (omega arith),
  )
