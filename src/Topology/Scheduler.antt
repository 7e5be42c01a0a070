-- ===== src/Topology/Scheduler.antt =====
-- `TopologyScheduler`: the state of the startup scan and one round of `_advance_startup`. What the
-- round observes of the collector, the repository, the clock and the capture service is its input.
use zigbeelens.Common.{
  ℕ, ◌+◌, ◌*◌, String, Bool, true, false, not, ◌&&◌, ◌||◌, Option, none, some, List, [], ◌∷◌, ltb,
  leb, if◌then◌else◌, length, elem, add, filter, is_empty, str_eq,
}

-- The fields of the configuration that are read; `mqtt_server` is `server.strip()`.
pub record Config : Type 0 where
  pub topology_enabled : Bool
  pub startup_scan : Bool
  pub refresh_interval_seconds : ℕ
  pub automatic_capture_enabled : Bool
  pub automatic_capture_interval_hours : ℕ
  pub startup_stable_delay : ℕ
  pub automatic_network_map : Bool
  pub mqtt_collector : Bool
  pub mock : Bool
  pub mqtt_server_is_set : Bool
  pub networks : List String

-- What one round observes.
pub record Round : Type 0 where
  pub collector : Option (Bool × Bool)
  pub bridge_state : String → Option String
  pub now : ℕ
  pub capture_in_progress : Bool
  pub request_raises : Bool

pub record Startup : Type 0 where
  pub startup_completed : Bool
  pub startup_networks_done : List String
  pub stable_since : Option ℕ

abbrev pub initial : Startup
initial = record { startup_completed = false; startup_networks_done = []; stable_since = none }

-- What a round does: the next state, the network whose capture is requested, and whether the startup
-- is over.
pub record Advance : Type 0 where
  pub next : Startup
  pub request : Option String
  pub finished : Bool

-- `periodic_capture_interval_seconds`
unfoldable pub periodic_capture_interval_seconds : Config → ℕ
periodic_capture_interval_seconds c =
    if not c.topology_enabled
    then 0
    else if ltb 0 c.refresh_interval_seconds
    then c.refresh_interval_seconds
    else if c.automatic_network_map && c.automatic_capture_enabled
    then c.automatic_capture_interval_hours * 3600
    else 0

-- `startup_scan_allowed`
unfoldable pub startup_scan_allowed : Config → Bool
startup_scan_allowed c =
    c.topology_enabled
    && c.startup_scan
    && not c.mock
    && c.mqtt_collector
    && c.mqtt_server_is_set
    && not (is_empty c.networks)

-- `collector_ready`, of the two flags of `collector.status()`
unfoldable pub collector_ready : Round → Bool
collector_ready r = elim r.collector [ none ↦ false | some status ↦ status.0 && status.1 ]

-- `bridges_ready`
unfoldable pub bridges_ready : (String → Option String) → List String → Bool
bridges_ready bridge_state [] = true
bridges_ready bridge_state (id ∷ ids) = elim (bridge_state id) [
  | none ↦ false
  | some state ↦ if str_eq state "online" then bridges_ready bridge_state ids else false
]

unfoldable pub is_ready : Config → Round → Bool
unfolding collector_ready bridges_ready
is_ready c r = collector_ready r && bridges_ready r.bridge_state c.networks

-- `pending`
abbrev pub pending : List String → List String → List String
pending done ids = filter (λ id. not (elem id done)) ids

-- `_stable_since` after it was set where it was `None`
abbrev pub since : Startup → ℕ → ℕ
since s now = elim s.stable_since [ none ↦ now | some t ↦ t ]

-- The request for the first network that is pending.
unfoldable pub capture : Config → Round → Startup → String → Advance
capture c r s id =
    if r.request_raises
    then record { next = s; request = some id; finished = false }
    else let done = add id s.startup_networks_done in
      if leb (length c.networks) (length done)
      then record {
        next = record s { startup_networks_done = done; startup_completed = true };
        request = some id;
        finished = true;
      }
      else record {
        next = record s { startup_networks_done = done };
        request = some id;
        finished = false;
      }

-- The rest of `_advance_startup` once the delay has passed.
unfoldable pub capture_pending : Config → Round → Startup → List String → Advance
unfolding capture
capture_pending c r s [] = record {
  next = record s { startup_completed = true };
  request = none;
  finished = true;
}
capture_pending c r s (id ∷ ids) =
    if r.capture_in_progress
    then record { next = s; request = none; finished = false }
    else capture c r s id

-- `_advance_startup`
unfoldable pub advance_startup : Config → Startup → Round → Advance
unfolding capture_pending is_ready
advance_startup c s r =
    if s.startup_completed
    then record { next = s; request = none; finished = true }
    else if not (is_ready c r)
    then record { next = record s { stable_since = none }; request = none; finished = false }
    else let t = record s { stable_since = some (since s r.now) } in
      if ltb r.now (since s r.now + c.startup_stable_delay)
      then record { next = t; request = none; finished = false }
      else capture_pending c r t (pending t.startup_networks_done c.networks)

-- The round requested the capture of the network, and the request did not raise.
unfoldable pub requests : Round → Advance → String → Bool
requests r a id =
    not r.request_raises && elim a.request [ none ↦ false | some requested ↦ str_eq requested id ]

-- The state after rounds, the newest first.
unfoldable pub run : Config → List Round → Startup
unfolding advance_startup
run c [] = initial
run c (r ∷ rs) = (advance_startup c (run c rs) r).next

-- One of the rounds, the newest first, requested the capture of the network, and the request did not
-- raise.
unfoldable pub was_requested : Config → List Round → String → Bool
unfolding requests
was_requested c [] id = false
was_requested c (r ∷ rs) id =
    requests r (advance_startup c (run c rs) r) id || was_requested c rs id
