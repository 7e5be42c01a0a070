-- ===== src/Availability/Groups.antt =====
-- decisions/availability_event_groups.py. `event_id` stands for the digest of a network id and two
-- instants; the `params`, which repeat other fields, are left out.
use zigbeelens.Common.{
  ℕ, zero, suc, ◌-◌, ◌/◌, ◌≤◌, ◌<◌, not, String, ◌≡◌, ◌↔◌, refl, Bool, true, false, ◌&&◌, ◌||◌,
  List, [], ◌∷◌, map, arith, ltb, leb, ◌==◌, if◌then◌else◌, length, take, filter, any, is_empty,
  sorted, All, Some, All-map, length-take, Bool-cases, inl, inr,
}
use zigbeelens.Common.Order.{insert_with, sort_with, All-sort_with}
use zigbeelens.Availability.Windows.{Window}

pub data SharedAvailabilityEventState : Type 0 where
  no_events events_available : SharedAvailabilityEventState

pub record SharedAvailabilityEvent : Type 0 where
  pub event_id : String
  pub started_at : ℕ
  pub ended_at : ℕ
  pub device_count : ℕ
  pub device_ieees : List String
  pub duration_minutes : ℕ

pub record SharedAvailabilityEventGroups : Type 0 where
  pub subject_id : String
  pub state : SharedAvailabilityEventState
  pub groups : List SharedAvailabilityEvent

abbrev pub shared_event_min_devices : ℕ
shared_event_min_devices = 11

abbrev pub max_shared_events : ℕ
max_shared_events = 20

-- `_duration_minutes`
unfoldable pub duration_minutes : ℕ → ℕ → ℕ
duration_minutes start stop = (stop - start) / 60_000_000

unfoldable pub group_of : (String → ℕ → ℕ → String) → String → Window → SharedAvailabilityEvent
unfolding duration_minutes
group_of event_id network_id w = record {
  event_id = event_id network_id w.start w.stop;
  started_at = w.start;
  ended_at = w.stop;
  device_count = length (sorted w.devices);
  device_ieees = sorted w.devices;
  duration_minutes = duration_minutes w.start w.stop;
}

-- Whether one group stands before another in the order by both instants, the latest first.
unfoldable pub is_later : SharedAvailabilityEvent → SharedAvailabilityEvent → Bool
is_later a b =
    ltb b.started_at a.started_at || ((b.started_at == a.started_at) && leb b.ended_at a.ended_at)

-- The groups before they are cut to the most that are shown.
unfoldable pub all_groups :
    (String → ℕ → ℕ → String) → String → List Window → List SharedAvailabilityEvent
unfolding is_later group_of
all_groups event_id network_id windows = sort_with is_later (
    map (group_of event_id network_id)
      (filter (λ w. leb shared_event_min_devices (length w.devices)) windows))

unfoldable pub build_shared_availability_event_groups :
    (String → ℕ → ℕ → String) → String → List Window → SharedAvailabilityEventGroups
unfolding all_groups
build_shared_availability_event_groups event_id network_id windows =
    let groups = take max_shared_events (all_groups event_id network_id windows) in
    record {
      subject_id = network_id;
      state =
          if is_empty groups
          then SharedAvailabilityEventState.no_events
          else SharedAvailabilityEventState.events_available;
      groups = groups;
    }

is_empty-insert_with :
    (x : SharedAvailabilityEvent) (xs : List SharedAvailabilityEvent)
    → is_empty (insert_with is_later x xs) ≡ false
unfolding insert_with
is_empty-insert_with x [] = refl
is_empty-insert_with x (y ∷ ys) = ground arith

is_empty-sort_with :
    (xs : List SharedAvailabilityEvent) → is_empty (sort_with is_later xs) ≡ is_empty xs
unfolding sort_with
is_empty-sort_with [] = refl
is_empty-sort_with (x ∷ xs) = is_empty-insert_with x (sort_with is_later xs)

is_empty-take :
    (n : ℕ) (xs : List SharedAvailabilityEvent) → is_empty (take (suc n) xs) ≡ is_empty xs
is_empty-take n [] = refl
is_empty-take n (x ∷ xs) = refl

All-take :
    (P : SharedAvailabilityEvent → Type 0) (n : ℕ) (xs : List SharedAvailabilityEvent)
    → All P xs
    → All P (take n xs)
All-take P zero xs h = tt
All-take P (suc n) [] h = tt
All-take P (suc n) (x ∷ xs) h = (h.0, All-take P n xs h.1)

-- A group of more than ten devices, which is one of the windows.
abbrev pub IsShared :
    (String → ℕ → ℕ → String) → String → List Window → SharedAvailabilityEvent → Type 0
IsShared event_id network_id windows g =
    Some (λ w. (g ≡ group_of event_id network_id w) × (10 < length w.devices)) windows

module _ (event_id : String → ℕ → ℕ → String) (network_id : String) where
  is_empty-filter :
      (p : Window → Bool) (ws : List Window)
      → is_empty (map (group_of event_id network_id) (filter p ws)) ≡ not (any p ws)
  is_empty-filter p [] = refl
  is_empty-filter p (w ∷ ws) = ground (arith, is_empty-filter p ws)

  filter-IsShared :
      (ws : List Window)
      → All (IsShared event_id network_id ws) (
          map
            (group_of event_id network_id)
            (filter (λ w. leb shared_event_min_devices (length w.devices)) ws))
  filter-IsShared [] = tt
  filter-IsShared (w ∷ ws) =
      let rest =
        All-map (λ g s. inr s)
          (map (group_of event_id network_id)
            (filter (λ v. leb shared_event_min_devices (length v.devices)) ws))
          (filter-IsShared ws) in
      elim (Bool-cases (leb shared_event_min_devices (length w.devices))) [
        | inl e ↦ rw e (inl (refl, ground arith), rest)
        | inr e ↦ rw e rest
      ]

  -- The shared events are windows with more than ten devices, at most twenty of them, and the state
  -- tells that there are events exactly when a window has more than ten devices.
  pub groups-IsShared :
      (windows : List Window)
      → let r = build_shared_availability_event_groups event_id network_id windows in
        All (IsShared event_id network_id windows) r.groups
        × (length r.groups ≤ 20)
        × ((r.state ≡ SharedAvailabilityEventState.events_available)
            ↔ (any (λ w. leb 11 (length w.devices)) windows ≡ true))
  unfolding build_shared_availability_event_groups all_groups
  groups-IsShared windows =
      let shared =
        map (group_of event_id network_id)
          (filter (λ w. leb shared_event_min_devices (length w.devices)) windows) in
      let a = is_empty-take 19 (sort_with is_later shared) in
      let b = is_empty-sort_with shared in
      let c = is_empty-filter (λ w. leb shared_event_min_devices (length w.devices)) windows in
      (
        All-take (IsShared event_id network_id windows) max_shared_events
            (all_groups event_id network_id windows)
            (All-sort_with is_later (IsShared event_id network_id windows) _
              (filter-IsShared windows)),
        length-take max_shared_events (all_groups event_id network_id windows),
        ground (arith, a, b, c),
      )
