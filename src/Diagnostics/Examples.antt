-- ===== src/Diagnostics/Examples.antt =====
-- Runs of the periodic scheduler, and requests to the coordinator.
use zigbeelens.Common.{ℕ, String, ◌≡◌, refl, true, false, Option, none, some, List, [], ◌∷◌, All}
use zigbeelens.Diagnostics.Periodic.{
  PeriodicWorld, PeriodicAction, schedule_timer, start_locked, cancel_current, stop_locked, claim,
  run_once_enter, tick_enter, run_claimed_finally, periodic_step, run_actions, new_world,
}
use zigbeelens.Common.Order.{sort_with}
use zigbeelens.Diagnostics.Service.{
  NetworkEvaluationSnapshot, Services, evaluate_network, evaluate_device_from_snapshot,
}
use zigbeelens.Diagnostics.Coordinator.{
  Evaluation, Request, ordered_snapshots, universe_matches, collect, complete_snapshots,
  finish_evaluation, refresh_one, evaluate_one, refreshed_device, evaluate_request,
}
use zigbeelens.Diagnostics.Coordinator.Snapshots.{IsFiled}
use zigbeelens.Diagnostics.Coordinator.Estate.{is_known, SeesEstate, evaluate_request-SeesEstate}
use zigbeelens.Diagnostics.Coordinator.Incremental.{Refreshes, evaluate_request-Refreshes}
use zigbeelens.Diagnostics.Periodic.Chain.{IsAlive, IsPeriodic, run_actions-IsAlive}
use zigbeelens.Diagnostics.Periodic.Flights.{
  IsSingle, IsLater, IsQuiet, run_actions-IsSingle, run_actions-IsQuiet,
}

runs : List PeriodicAction → Option PeriodicWorld
unfolding run_actions periodic_step schedule_timer start_locked cancel_current stop_locked claim
    run_once_enter tick_enter run_claimed_finally
runs actions = run_actions new_world actions

-- A tick during a call of `run_once` starts no timer, and the scheduler ends without one.
abbrev overlapped : List PeriodicAction
overlapped =
    PeriodicAction.start
    ∷ PeriodicAction.run_once
    ∷ PeriodicAction.expire 0
    ∷ PeriodicAction.tick 0
    ∷ PeriodicAction.run_claimed_exit
    ∷ []

chain_ends :
    runs overlapped
    ≡ some (record {
      stopped = false;
      running = false;
      timer = some 0;
      next = 1;
      waiting = [];
      fired = [];
      working = [];
      evaluations = 1;
    })
unfolding runs
chain_ends = refl

-- A restart during a tick leaves two timers.
abbrev restarted : List PeriodicAction
restarted =
    PeriodicAction.start
    ∷ PeriodicAction.expire 0
    ∷ PeriodicAction.tick 0
    ∷ PeriodicAction.stop
    ∷ PeriodicAction.start
    ∷ PeriodicAction.run_claimed_exit
    ∷ []

abbrev two_timers : PeriodicWorld
two_timers = record {
  stopped = false;
  running = false;
  timer = some 2;
  next = 3;
  waiting = 2 ∷ 1 ∷ [];
  fired = [];
  working = [];
  evaluations = 1;
}

chain_doubles : runs restarted ≡ some two_timers
unfolding runs
chain_doubles = refl

restarted_run : run_actions new_world restarted ≡ some two_timers
unfolding run_actions periodic_step schedule_timer start_locked cancel_current stop_locked claim
    run_once_enter tick_enter run_claimed_finally
restarted_run = refl

run_actions-IsSingle_example : IsSingle two_timers
run_actions-IsSingle_example = run_actions-IsSingle restarted two_timers restarted_run

abbrev stopped_now : PeriodicWorld
stopped_now = record {
  stopped = true;
  running = true;
  timer = none;
  next = 1;
  waiting = [];
  fired = [];
  working = true ∷ [];
  evaluations = 0;
}

abbrev after_stop : PeriodicWorld
after_stop = record {
  stopped = true;
  running = false;
  timer = none;
  next = 1;
  waiting = [];
  fired = [];
  working = [];
  evaluations = 1;
}

ends_work : run_actions stopped_now (PeriodicAction.run_claimed_exit ∷ []) ≡ some after_stop
unfolding run_actions periodic_step schedule_timer run_claimed_finally
ends_work = refl

exit-IsLater : All IsLater (PeriodicAction.run_claimed_exit ∷ [])
unfolding IsLater
exit-IsLater = (tt, tt)

run_actions-IsQuiet_example : IsQuiet stopped_now after_stop
run_actions-IsQuiet_example =
    run_actions-IsQuiet stopped_now after_stop (PeriodicAction.run_claimed_exit ∷ []) refl
      exit-IsLater ends_work

restarted-IsPeriodic : All IsPeriodic restarted
unfolding IsPeriodic
restarted-IsPeriodic = (tt, (tt, (tt, (tt, (tt, (tt, tt))))))

run_actions-IsAlive_example : IsAlive two_timers
run_actions-IsAlive_example =
    run_actions-IsAlive restarted two_timers restarted-IsPeriodic restarted_run

-- The number of a snapshot is the time of its evaluation.
abbrev snapshot_of : String → ℕ → NetworkEvaluationSnapshot ℕ
snapshot_of id now = record { network_id = id; health_changed = true; content = now }

abbrev services : Services ℕ
services = record {
  networks = "home" ∷ "garden" ∷ [];
  assess = λ id now. (true, now);
  reassess = λ s ieee now. some (true, now);
  sync_incidents = λ ss now. [];
}

abbrev dictionary : List (String × NetworkEvaluationSnapshot ℕ)
dictionary = ("home", snapshot_of "home" 5) ∷ ("garden", snapshot_of "garden" 5) ∷ []

dictionary-IsFiled : IsFiled dictionary
unfolding IsFiled
dictionary-IsFiled = (refl, (refl, tt))

evaluate_request-SeesEstate_example :
    (o : Evaluation ℕ) × (evaluate_request services 7 dictionary (Request.device "home" "0x01")
      ≡ some o)
    × SeesEstate services 7 true dictionary o
unfolding is_known
evaluate_request-SeesEstate_example =
    evaluate_request-SeesEstate services 7 dictionary (Request.device "home" "0x01")
      dictionary-IsFiled

evaluate_request-Refreshes_example :
    Refreshes services 7 "home" "garden"
      (evaluate_network services 7 "home")
      dictionary
      (evaluate_request services 7 dictionary (Request.network "home"))
    × Refreshes services 7 "home" "garden"
        (refreshed_device services 7 dictionary "home" "0x01")
        dictionary
        (evaluate_request services 7 dictionary (Request.device "home" "0x01"))
unfolding universe_matches
evaluate_request-Refreshes_example =
    evaluate_request-Refreshes services 7 dictionary "home" "0x01" "garden" dictionary-IsFiled refl
      refl refl

abbrev correlated_of : Option (Evaluation ℕ) → Option (List (NetworkEvaluationSnapshot ℕ))
correlated_of none = none
correlated_of (some o) = o.result.correlated

-- The network asked about is evaluated anew, the other one is taken as it is.
one_of_two :
    correlated_of (evaluate_request services 7 dictionary (Request.device "home" "0x01"))
    ≡ some (snapshot_of "garden" 5 ∷ snapshot_of "home" 7 ∷ [])
unfolding evaluate_request evaluate_one refreshed_device refresh_one finish_evaluation
    complete_snapshots universe_matches collect ordered_snapshots sort_with
    evaluate_device_from_snapshot
one_of_two = refl
