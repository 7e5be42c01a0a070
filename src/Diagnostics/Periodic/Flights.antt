-- ===== src/Diagnostics/Periodic/Flights.antt =====
-- Evaluations do not overlap, and do not begin after a stop.
use zigbeelens.Common.{
  ◌≤◌, ◌≡◌, refl, subst, ◌∙◌, Bool, true, not, some, List, [], ◌∷◌, length, arith, All,
  Option-cases, inl, inr, is_empty,
}
use zigbeelens.Diagnostics.Periodic.{
  PeriodicWorld, PeriodicAction, schedule_timer, start_locked, stop_locked, claim, run_once_enter,
  tick_enter, run_claimed_finally, periodic_step, run_actions, new_world,
}

-- The flag tells whether an evaluation is at work, and there is one at most.
unfoldable pub IsSingle : PeriodicWorld → Type 0
IsSingle w = (w.running ≡ not (is_empty w.working)) × (length w.working ≤ 1)

exit-IsSingle :
    (w w' : PeriodicWorld) (working : List Bool)
    → w.working ≡ working
    → IsSingle w
    → periodic_step w PeriodicAction.run_claimed_exit ≡ some w'
    → IsSingle w'
unfolding periodic_step run_claimed_finally schedule_timer IsSingle
exit-IsSingle w w' [] same h e = absurd (ground (arith, same, e))
exit-IsSingle w w' (reschedule ∷ rest) same h e = ground (arith, same, h, e)

periodic_step-IsSingle :
    (w w' : PeriodicWorld) (a : PeriodicAction)
    → IsSingle w
    → periodic_step w a ≡ some w'
    → IsSingle w'
unfolding periodic_step start_locked stop_locked run_once_enter tick_enter run_claimed_finally
    schedule_timer claim IsSingle
periodic_step-IsSingle w w' PeriodicAction.start h e = ground (arith, h, e)
periodic_step-IsSingle w w' PeriodicAction.stop h e = ground (arith, h, e)
periodic_step-IsSingle w w' PeriodicAction.run_once h e = ground (arith, h, e)
periodic_step-IsSingle w w' PeriodicAction.run_claimed_exit h e =
    exit-IsSingle w w' w.working refl h e
periodic_step-IsSingle w w' (PeriodicAction.expire g) h e = ground (arith, h, e)
periodic_step-IsSingle w w' (PeriodicAction.tick g) h e = ground (arith, h, e)

-- Whatever callers and timers do, at most one evaluation is at work at any time, and the flag that
-- guards it is set exactly while one is.
pub run_actions-IsSingle :
    (actions : List PeriodicAction) (w : PeriodicWorld)
    → run_actions new_world actions ≡ some w
    → IsSingle w
unfolding run_actions IsSingle
run_actions-IsSingle actions w e = from new_world actions (refl, omega arith) e
  where
    from :
        (v : PeriodicWorld) (rest : List PeriodicAction)
        → IsSingle v
        → run_actions v rest ≡ some w
        → IsSingle w
    from v [] h e = let same : v ≡ w = cc e in subst IsSingle same h
    from v (a ∷ rest) h e = elim (Option-cases (periodic_step v a)) [
      | inl stuck ↦ absurd (ground (arith, stuck, e))
      | inr (v', moved) ↦
          from v' rest (periodic_step-IsSingle v v' a h moved) (ground (arith, moved, e))
    ]

-- Neither `start` nor `run_once`.
unfoldable pub IsLater : PeriodicAction → Type 0
IsLater PeriodicAction.start = ⊥
IsLater PeriodicAction.stop = Unit
IsLater PeriodicAction.run_once = ⊥
IsLater PeriodicAction.run_claimed_exit = Unit
IsLater (PeriodicAction.expire g) = Unit
IsLater (PeriodicAction.tick g) = Unit

-- Stopped, with no evaluation and no timer begun since.
unfoldable pub IsQuiet : PeriodicWorld → PeriodicWorld → Type 0
IsQuiet w w' = (w'.stopped ≡ true) × (length w'.working ≤ length w.working) × (w'.next ≡ w.next)

exit-IsQuiet :
    (w w' : PeriodicWorld) (working : List Bool)
    → w.working ≡ working
    → w.stopped ≡ true
    → periodic_step w PeriodicAction.run_claimed_exit ≡ some w'
    → IsQuiet w w'
unfolding periodic_step run_claimed_finally schedule_timer IsQuiet
exit-IsQuiet w w' [] same h e = absurd (ground (arith, same, e))
exit-IsQuiet w w' (reschedule ∷ rest) same h e = ground (arith, same, h, e)

periodic_step-IsQuiet :
    (w w' : PeriodicWorld) (a : PeriodicAction)
    → w.stopped ≡ true
    → IsLater a
    → periodic_step w a ≡ some w'
    → IsQuiet w w'
unfolding periodic_step start_locked stop_locked tick_enter claim IsQuiet IsLater
periodic_step-IsQuiet w w' PeriodicAction.start h l e = absurd l
periodic_step-IsQuiet w w' PeriodicAction.stop h l e = ground (arith, h, e)
periodic_step-IsQuiet w w' PeriodicAction.run_once h l e = absurd l
periodic_step-IsQuiet w w' PeriodicAction.run_claimed_exit h l e =
    exit-IsQuiet w w' w.working refl h e
periodic_step-IsQuiet w w' (PeriodicAction.expire g) h l e = ground (arith, h, e)
periodic_step-IsQuiet w w' (PeriodicAction.tick g) h l e = ground (arith, h, e)

-- From a moment when the scheduler is stopped, until `start` or `run_once` is called, no evaluation
-- begins and no timer is started, even by an evaluation that was at work.
pub run_actions-IsQuiet :
    (w w' : PeriodicWorld) (actions : List PeriodicAction)
    → w.stopped ≡ true
    → All IsLater actions
    → run_actions w actions ≡ some w'
    → IsQuiet w w'
unfolding run_actions IsQuiet
run_actions-IsQuiet w w' [] h l e =
    let same : w ≡ w' = cc e in subst (IsQuiet w) same (h, omega arith, refl)
run_actions-IsQuiet w w' (a ∷ rest) h l e = elim (Option-cases (periodic_step w a)) [
  | inl stuck ↦ absurd (ground (arith, stuck, e))
  | inr (v, moved) ↦
      let first = periodic_step-IsQuiet w v a h l.0 moved in
      let later = run_actions-IsQuiet v w' rest first.0 l.1 (ground (arith, moved, e)) in
      (later.0, omega (arith, first.1, later.1), later.2 ∙ first.2)
]
