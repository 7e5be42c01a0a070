-- ===== src/Dashboard/Threads/Examples.antt =====
-- Runs of the threads, and the theorems at them.
use zigbeelens.Common.{
  ℕ, ◌<◌, ◌≤◌, ◌≡◌, refl, ◌⊎◌, Option, none, ◌↔◌, true, false, ◌||◌, some, List, [], ◌∷◌, length,
  elem, ◌++◌,
}
use zigbeelens.Dashboard.Scheduler
use zigbeelens.Dashboard.Scheduler.{publish_enter, publish_exit, attribution}
use zigbeelens.Dashboard.Threads.{
  World, Action, schedule, expire, timer_enter, finish, step, run, init, has,
}
use zigbeelens.Dashboard.Threads.Coverage.{no_lost_request, one_publisher}
use zigbeelens.Dashboard.Threads.Delivery.{asked_accounted}
use zigbeelens.Dashboard.Threads.Drain.{Drains, outstanding-Drains}

-- A second cause arrives while the first is being published.
abbrev overlap : List Action
overlap = schedule (some "device") ∷ expire 1 ∷ timer_enter 1 ∷ schedule (some "bridge") ∷ []

-- Two rapid requests: the first timer has fired when the second request supersedes it.
abbrev rapid : List Action
rapid = schedule (some "device") ∷ expire 1 ∷ schedule none ∷ []

abbrev get {ℓ} : {A : Type ℓ} → A → Option A → A
get d none = d
get d (some a) = a

abbrev after : List Action → World
after l = get init (run init l)

after_overlap : run init overlap ≡ some (after overlap)
unfolding run step Scheduler.schedule publish_enter
after_overlap = refl

after_rapid : run init rapid ≡ some (after rapid)
unfolding run step Scheduler.schedule
after_rapid = refl

-- The publish of "device" is followed by one that names "bridge".
overlap_sends :
    (after (overlap ++ finish true ∷ expire 2 ∷ timer_enter 2 ∷ finish true ∷ [])).sent
    ≡ some ("bridge" ∷ []) ∷ some ("device" ∷ []) ∷ []
unfolding run step Scheduler.schedule publish_enter publish_exit attribution
overlap_sends = refl

no_lost_request_example :
    ((after overlap).sched.cancelled ≡ false)
    × (((g : ℕ) × ((after overlap).sched.timer ≡ some g)
          × (g ≡ (after overlap).sched.timer_generation)
          × ((has g (after overlap).waiting || has g (after overlap).fired) ≡ true))
        ⊎ (((after overlap).sched.pending ≡ true) × ((after overlap).sched.publishing ≡ true))
        ⊎ (0 < (after overlap).flushing))
unfolding run step Scheduler.schedule publish_enter
no_lost_request_example = no_lost_request overlap {w = after overlap} after_overlap refl

one_publisher_example :
    (length (after overlap).working ≤ 1)
    × ((length (after overlap).working ≡ 1) ↔ ((after overlap).sched.publishing ≡ true))
one_publisher_example = one_publisher overlap {w = after overlap} after_overlap

asked_accounted_example :
    elem "bridge" (after overlap).awaited ≡ elem "bridge" (after overlap).sched.causes
asked_accounted_example = asked_accounted overlap {w = after overlap} "bridge" after_overlap

outstanding-Drains_example : Drains 3 (after overlap)
outstanding-Drains_example = outstanding-Drains overlap {w = after overlap} after_overlap
