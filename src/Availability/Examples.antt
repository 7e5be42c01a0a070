-- ===== src/Availability/Examples.antt =====
-- Runs of the theorems on windows and groups.
use zigbeelens.Common.{
  ℕ, take, ◌≤◌, String, ◌≡◌, ◌↔◌, refl, true, Option, some, List, [], ◌∷◌, length, any, leb, str_eq,
  if◌then◌else◌, All,
}
use zigbeelens.Availability.Windows.{
  Row, Event, reversed, Window, kept, instability_events, cluster_windows,
}
use zigbeelens.Common.Order.{sort_with}
use zigbeelens.Availability.Clusters.{IsClustering}
use zigbeelens.Availability.Transitions.{occurrences, transitions, instability-IsClustering}
use zigbeelens.Availability.Groups.{
  SharedAvailabilityEventState, IsShared, build_shared_availability_event_groups, groups-IsShared,
}

abbrev parse : String → Option ℕ
parse s = some (
    if str_eq s "first" then 60_000_000 else if str_eq s "second" then 120_000_000 else 900_000_000)

abbrev row : String → String → Row
row ieee at = record { ieee_address = ieee; to_state = "offline"; changed_at = some at }

abbrev rows : List Row
rows = row "0xa" "first" ∷ row "0xb" "second" ∷ row "0xc" "second" ∷ row "0xa" "third" ∷ []

abbrev known : List String
known = "0xa" ∷ "0xb" ∷ []

-- Two transitions a minute apart share a window; the unknown device is passed over.
two_windows :
    cluster_windows (instability_events parse (λ s. s) known rows)
    ≡ record { start = 60_000_000; stop = 120_000_000; devices = "0xb" ∷ "0xa" ∷ [] }
      ∷ record { start = 900_000_000; stop = 900_000_000; devices = "0xa" ∷ [] }
      ∷ []
unfolding cluster_windows instability_events sort_with
two_windows = refl

instability-IsClustering_example :
    IsClustering
      (instability_events parse (λ s. s) known rows)
      (cluster_windows (instability_events parse (λ s. s) known rows))
    × ((d : String) → kept d (instability_events parse (λ s. s) known rows) ≤ 200)
    × ((x : Event)
        → occurrences x (instability_events parse (λ s. s) known rows)
          ≡ occurrences x (take 200 (transitions parse (λ s. s) known x.ieee (reversed rows))))
instability-IsClustering_example = instability-IsClustering parse (λ s. s) known rows

abbrev storm : Window
storm = record {
  start = 60_000_000;
  stop = 180_000_000;
  devices = "k" ∷ "j" ∷ "i" ∷ "h" ∷ "g" ∷ "f" ∷ "e" ∷ "d" ∷ "c" ∷ "b" ∷ "a" ∷ [];
}

abbrev name : String → ℕ → ℕ → String
name network_id start stop = network_id

groups-IsShared_example :
    All
      (IsShared name "home" (storm ∷ []))
      (build_shared_availability_event_groups name "home" (storm ∷ [])).groups
    × (length (build_shared_availability_event_groups name "home" (storm ∷ [])).groups ≤ 20)
    × (((build_shared_availability_event_groups name "home" (storm ∷ [])).state
          ≡ SharedAvailabilityEventState.events_available)
        ↔ (any (λ w. leb 11 (length w.devices)) (storm ∷ []) ≡ true))
groups-IsShared_example = groups-IsShared name "home" (storm ∷ [])
