-- ===== src/Topology/Examples.antt =====
-- Runs of the startup scan.
use zigbeelens.Common.{
  ℕ, ◌+◌, ◌≤◌, ◌<◌, ◌≡◌, refl, ◌⊎◌, true, false, some, [], ◌∷◌, arith, elem, length, All,
}
use zigbeelens.Topology.Scheduler.{
  Config, Round, Startup, is_ready, pending, advance_startup, run, was_requested,
}
use zigbeelens.Topology.Startup.{IsSteady, request-IsSteady, over-All, next_progress}

abbrev config : Config
config = record {
  topology_enabled = true;
  startup_scan = true;
  refresh_interval_seconds = 0;
  automatic_capture_enabled = false;
  automatic_capture_interval_hours = 24;
  startup_stable_delay = 30;
  automatic_network_map = false;
  mqtt_collector = true;
  mock = false;
  mqtt_server_is_set = true;
  networks = "home" ∷ "barn" ∷ [];
}

abbrev round : ℕ → Round
round now = record {
  collector = some (true, true);
  bridge_state = λ id. some "online";
  now = now;
  capture_in_progress = false;
  request_raises = false;
}

two_captures : run config (round 31 ∷ round 30 ∷ round 0 ∷ []) ≡ record {
  startup_completed = true;
  startup_networks_done = "barn" ∷ "home" ∷ [];
  stable_since = some 0;
}
unfolding run
two_captures = refl

request-IsSteady_example :
    ((round 30).capture_in_progress ≡ false)
    × (elem "home" config.networks ≡ true)
    × (was_requested config (round 0 ∷ []) "home" ≡ false)
    × ((t : ℕ) × IsSteady config t (round 30 ∷ round 0 ∷ []) × (t + 30 ≤ 30))
unfolding run
request-IsSteady_example = request-IsSteady config (round 0 ∷ []) (round 30) "home" refl

over-All_example :
    All (λ id. was_requested config (round 31 ∷ round 30 ∷ round 0 ∷ []) id ≡ true) config.networks
unfolding run
over-All_example = over-All config (round 31 ∷ round 30 ∷ round 0 ∷ []) refl

abbrev waiting : Startup
waiting = record { startup_completed = false; startup_networks_done = []; stable_since = some 0 }

next_progress_example :
    ((advance_startup config waiting (round 30)).finished ≡ true)
    ⊎ (length (
          pending
            (advance_startup config waiting (round 30)).next.startup_networks_done
            config.networks)
        < length (pending waiting.startup_networks_done config.networks))
unfolding is_ready
next_progress_example = next_progress config waiting (round 30) refl (omega arith) refl refl
