-- ===== src/Diagnostics/Periodic.antt =====
-- `PeriodicEvaluationScheduler` of diagnostics/coordinator.py with its callers and timers,
-- interleaved at the critical sections of its lock.
pub mod Flights
pub mod Chain
use zigbeelens.Common.{
  ℕ, suc, Bool, true, false, not, ◌&&◌, ◌||◌, Option, none, some, List, [], ◌∷◌, ◌==◌,
  if◌then◌else◌,
}

-- `stopped`, `running` and `timer` are the fields of the object; a timer is known by a number. `next`
-- is the number of the next timer. `waiting`: timers that were started and not cancelled. `fired`:
-- callbacks that wait for the lock. `working`: evaluations outside the lock, with their `reschedule`.
pub record PeriodicWorld : Type 0 where
  pub stopped : Bool
  pub running : Bool
  pub timer : Option ℕ
  pub next : ℕ
  pub waiting : List ℕ
  pub fired : List ℕ
  pub working : List Bool
  pub evaluations : ℕ

-- `run_claimed_exit` is the end of an evaluation, whether it raised or not.
pub data PeriodicAction : Type 0 where
  start stop run_once run_claimed_exit : PeriodicAction
  expire tick : ℕ → PeriodicAction

abbrev pub is_in : ℕ → List ℕ → Bool
is_in g [] = false
is_in g (x ∷ xs) = x == g || is_in g xs

abbrev pub without : ℕ → List ℕ → List ℕ
without g [] = []
without g (x ∷ xs) = if x == g then xs else x ∷ without g xs

-- `_schedule_locked`
unfoldable pub schedule_timer : PeriodicWorld → PeriodicWorld
schedule_timer w = record w { timer = some w.next; waiting = w.next ∷ w.waiting; next = suc w.next }

-- `start`
unfoldable pub start_locked : PeriodicWorld → PeriodicWorld
unfolding schedule_timer
start_locked w = if w.stopped then schedule_timer (record w { stopped = false }) else w

-- The waiting timers when the current one is cancelled.
unfoldable pub cancel_current : Option ℕ → List ℕ → List ℕ
cancel_current none ws = ws
cancel_current (some g) ws = without g ws

-- `stop`; its wait changes no state.
unfoldable pub stop_locked : PeriodicWorld → PeriodicWorld
unfolding cancel_current
stop_locked w = record w {
  stopped = true;
  timer = none;
  waiting = cancel_current w.timer w.waiting;
}

-- `self._running = True`, and the evaluation begins.
unfoldable pub claim : Bool → PeriodicWorld → PeriodicWorld
claim reschedule w = record w { running = true; working = reschedule ∷ w.working }

-- The critical section of `run_once`.
unfoldable pub run_once_enter : PeriodicWorld → PeriodicWorld
unfolding claim
run_once_enter w = if w.running then w else claim false w

-- The critical section of `_tick`.
unfoldable pub tick_enter : PeriodicWorld → PeriodicWorld
unfolding claim
tick_enter w = if w.stopped || w.running then w else claim true w

-- The `finally` of `_run_claimed`.
unfoldable pub run_claimed_finally : Bool → List Bool → PeriodicWorld → PeriodicWorld
unfolding schedule_timer
run_claimed_finally reschedule rest w =
    let w' = record w { running = false; working = rest; evaluations = suc w.evaluations } in
    if reschedule && not w.stopped then schedule_timer w' else w'

-- A step of one thread, or `none` where no thread is ready for it.
unfoldable pub periodic_step : PeriodicWorld → PeriodicAction → Option PeriodicWorld
unfolding start_locked stop_locked run_once_enter tick_enter run_claimed_finally
periodic_step w start = some (start_locked w)
periodic_step w stop = some (stop_locked w)
periodic_step w run_once = some (run_once_enter w)
periodic_step w run_claimed_exit = elim w.working [
  | [] ↦ none
  | reschedule ∷ rest ↦ some (run_claimed_finally reschedule rest w)
]
periodic_step w (expire g) =
    if is_in g w.waiting
    then some (record w { waiting = without g w.waiting; fired = g ∷ w.fired })
    else none
periodic_step w (tick g) =
    if is_in g w.fired then some (tick_enter (record w { fired = without g w.fired })) else none

unfoldable pub run_actions : PeriodicWorld → List PeriodicAction → Option PeriodicWorld
unfolding periodic_step
run_actions w [] = some w
run_actions w (a ∷ rest) = elim (periodic_step w a) [ none ↦ none | some w' ↦ run_actions w' rest ]

-- `__init__`
abbrev pub new_world : PeriodicWorld
new_world = record {
  stopped = true;
  running = false;
  timer = none;
  next = 0;
  waiting = [];
  fired = [];
  working = [];
  evaluations = 0;
}
