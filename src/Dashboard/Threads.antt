-- ===== src/Dashboard/Threads.antt =====
-- The threads around a `DashboardPublishScheduler`: callers, timers and publishers, interleaved at
-- the critical sections of its lock.
mod Keeps
pub mod Coverage
pub mod Delivery
pub mod Drain
mod Examples
use zigbeelens.Common.{
  ℕ, zero, suc, ◌+◌, ◌-◌, String, Bool, true, false, not, ◌&&◌, ◌||◌, Option, none, some, List, [],
  ◌∷◌, ◌==◌, ltb, if◌then◌else◌, add, elem, filter,
}
use zigbeelens.Dashboard.Scheduler
use zigbeelens.Dashboard.Scheduler.{Scheduler, Work, attribution, new_scheduler}

-- `waiting`: timers that were started and not cancelled. `fired`: callbacks that wait for the lock;
-- `Timer.cancel` comes too late for these. `flushing`: calls of `flush` between their two critical
-- sections. `working`: publishers that have left the lock and not come back. `sent`: the causes
-- named by each update that was broadcast. `awaited`: the causes asked for since the last `cancel`
-- that no publisher has taken along since; the program has no such field.
pub record World : Type 0 where
  pub sched : Scheduler
  pub waiting : List ℕ
  pub fired : List ℕ
  pub flushing : ℕ
  pub working : List Work
  pub sent : List (Option (List String))
  pub awaited : List String

pub data Action : Type 0 where
  schedule : Option String → Action
  flush_begin flush_enter cancel : Action
  expire timer_enter : ℕ → Action
  -- The publisher comes back; the flag says that it broadcast the update before any exception.
  finish : Bool → Action

abbrev pub has : ℕ → List ℕ → Bool
has g [] = false
has g (x ∷ xs) = x == g || has g xs

abbrev pub discard : ℕ → List ℕ → List ℕ
discard g [] = []
discard g (x ∷ xs) = if x == g then xs else x ∷ discard g xs

-- `self._timer.cancel()` under `if self._timer is not None`
unfoldable pub cancel_timer : Option ℕ → List ℕ → List ℕ
cancel_timer none ws = ws
cancel_timer (some g) ws = discard g ws

-- The timer that a critical section started: the one that the new state holds, if it is new.
unfoldable pub start_timer : Scheduler → Scheduler → List ℕ → List ℕ
start_timer s s' ws = elim s'.timer [
  | none ↦ ws
  | some g ↦ if ltb s.timer_generation g then g ∷ ws else ws
]

abbrev pub ask : Option String → List String → List String
ask none cs = cs
ask (some c) cs = add c cs

unfoldable pub begin_work : Scheduler × Option Work → World → World
begin_work (s, none) w = record w { sched = s }
begin_work (s, some work) w = record w {
  sched = s;
  working = work ∷ w.working;
  awaited = filter (λ c. not (elem c work.causes)) w.awaited;
}

abbrev pub send : Bool → Work → List (Option (List String)) → List (Option (List String))
send b work sent = if b then attribution work ∷ sent else sent

unfoldable pub end_work : Bool → List Work → World → Option World
end_work b [] w = none
end_work b (work ∷ rest) w =
    let s' = Scheduler.publish_exit w.sched in
    some (record w {
      sched = s';
      waiting = start_timer w.sched s' w.waiting;
      working = rest;
      sent = send b work w.sent;
    })

-- A step of one thread, or `none` where no thread is ready for it.
unfoldable pub step : World → Action → Option World
unfolding cancel_timer start_timer begin_work end_work
step w (schedule cause) =
    let s' = Scheduler.schedule cause w.sched in
    let kept = if w.sched.publishing then w.waiting else cancel_timer w.sched.timer w.waiting in
    some (record w {
      sched = s';
      waiting = start_timer w.sched s' kept;
      awaited = ask cause w.awaited;
    })
step w flush_begin = some (record w {
  sched = Scheduler.flush_begin w.sched;
  waiting = cancel_timer w.sched.timer w.waiting;
  flushing = suc w.flushing;
})
step w flush_enter =
    if w.flushing == 0
    then none
    else some
        (begin_work (Scheduler.publish_enter none w.sched) (record w { flushing = w.flushing - 1 }))
step w cancel = some (record w {
  sched = Scheduler.cancel w.sched;
  waiting = cancel_timer w.sched.timer w.waiting;
  awaited = [];
})
step w (expire g) =
    if has g w.waiting
    then some (record w { waiting = discard g w.waiting; fired = g ∷ w.fired })
    else none
step w (timer_enter g) =
    if has g w.fired
    then some (
        begin_work (Scheduler.publish_enter (some g) w.sched)
          (record w { fired = discard g w.fired }))
    else none
step w (finish b) = end_work b w.working w

-- A schedule of steps, each by a thread that is ready.
unfoldable pub run : World → List Action → Option World
run w [] = some w
run w (a ∷ rest) = elim (step w a) [ none ↦ none | some w' ↦ run w' rest ]

abbrev pub init : World
init = record {
  sched = new_scheduler;
  waiting = [];
  fired = [];
  flushing = 0;
  working = [];
  sent = [];
  awaited = [];
}
