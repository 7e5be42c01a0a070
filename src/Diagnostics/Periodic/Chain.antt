-- ===== src/Diagnostics/Periodic/Chain.antt =====
-- The chain of timers goes on.
use zigbeelens.Common.{
  ◌≤◌, ◌≡◌, refl, subst, Bool, true, false, not, ◌&&◌, some, List, [], ◌∷◌, length, arith, All,
  Option-cases, inl, inr, is_empty,
}
use zigbeelens.Diagnostics.Periodic.{
  PeriodicWorld, PeriodicAction, schedule_timer, start_locked, stop_locked, claim, tick_enter,
  run_claimed_finally, periodic_step, run_actions, new_world,
}

-- Every evaluation at work is one of a tick.
abbrev pub all_ticks : List Bool → Bool
all_ticks [] = true
all_ticks (b ∷ bs) = b && all_ticks bs

-- While the scheduler is started, a timer waits, a callback waits for the lock, or an evaluation that
-- will start the next timer is at work.
unfoldable pub IsAlive : PeriodicWorld → Type 0
IsAlive w =
    (w.stopped ≡ false → (is_empty w.waiting && is_empty w.fired && is_empty w.working) ≡ false)
    × (all_ticks w.working ≡ true)
    × (w.running ≡ not (is_empty w.working))
    × (length w.working ≤ 1)

-- Not `run_once`.
unfoldable pub IsPeriodic : PeriodicAction → Type 0
IsPeriodic PeriodicAction.start = Unit
IsPeriodic PeriodicAction.stop = Unit
IsPeriodic PeriodicAction.run_once = ⊥
IsPeriodic PeriodicAction.run_claimed_exit = Unit
IsPeriodic (PeriodicAction.expire g) = Unit
IsPeriodic (PeriodicAction.tick g) = Unit

exit-IsAlive :
    (w w' : PeriodicWorld) (working : List Bool)
    → w.working ≡ working
    → IsAlive w
    → periodic_step w PeriodicAction.run_claimed_exit ≡ some w'
    → IsAlive w'
unfolding periodic_step run_claimed_finally schedule_timer IsAlive
exit-IsAlive w w' [] same h e = absurd (ground (arith, same, e))
exit-IsAlive w w' (reschedule ∷ rest) same h e = ground (arith, same, h, e)

periodic_step-IsAlive :
    (w w' : PeriodicWorld) (a : PeriodicAction)
    → IsPeriodic a
    → IsAlive w
    → periodic_step w a ≡ some w'
    → IsAlive w'
unfolding periodic_step start_locked stop_locked tick_enter schedule_timer claim IsAlive IsPeriodic
periodic_step-IsAlive w w' PeriodicAction.start p h e = ground (arith, h, e)
periodic_step-IsAlive w w' PeriodicAction.stop p h e = ground (arith, h, e)
periodic_step-IsAlive w w' PeriodicAction.run_once p h e = absurd p
periodic_step-IsAlive w w' PeriodicAction.run_claimed_exit p h e =
    exit-IsAlive w w' w.working refl h e
periodic_step-IsAlive w w' (PeriodicAction.expire g) p h e = ground (arith, h, e)
periodic_step-IsAlive w w' (PeriodicAction.tick g) p h e = ground (arith, h, e)

-- If `run_once` is never called, then at every moment while the scheduler is started, a timer waits,
-- a callback waits for the lock, or an evaluation that will start the next timer is at work.
pub run_actions-IsAlive :
    (actions : List PeriodicAction) (w : PeriodicWorld)
    → All IsPeriodic actions
    → run_actions new_world actions ≡ some w
    → IsAlive w
unfolding run_actions IsAlive
run_actions-IsAlive actions w p e =
    from new_world actions p (λ h. absurd (cc h), refl, refl, omega arith) e
  where
    from :
        (v : PeriodicWorld) (rest : List PeriodicAction)
        → All IsPeriodic rest
        → IsAlive v
        → run_actions v rest ≡ some w
        → IsAlive w
    from v [] q h k = let same : v ≡ w = cc k in subst IsAlive same h
    from v (a ∷ rest) q h k = elim (Option-cases (periodic_step v a)) [
      | inl stuck ↦ absurd (ground (arith, stuck, k))
      | inr (v', moved) ↦
          from v' rest q.1 (periodic_step-IsAlive v v' a q.0 h moved) (ground (arith, moved, k))
    ]
