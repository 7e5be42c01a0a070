-- ===== src/Dashboard/Threads/Delivery.antt =====
-- What becomes of a cause that was asked for.
use zigbeelens.Common.{
  String, ◌≡◌, refl, sym, ap, not, ◌&&◌, none, some, List, [], ◌∷◌, arith, elem, filter, sorted,
  str_eq, eq_iff, Bool-cases, inl, inr, elem-add, elem-sorted,
}
use zigbeelens.Dashboard.Scheduler
use zigbeelens.Dashboard.Scheduler.{Work, Scheduler, publish_enter, publish_exit}
use zigbeelens.Dashboard.Threads.{
  World, Action, schedule, flush_begin, flush_enter, cancel, expire, timer_enter, finish, step, run,
  init,
}
use zigbeelens.Dashboard.Threads.Keeps.{run_induction}

elem-untaken :
    (c : String) (cs xs : List String)
    → elem c (filter (λ x. not (elem x cs)) xs) ≡ (elem c xs && not (elem c cs))
elem-untaken c cs [] = refl
elem-untaken c cs (x ∷ xs) = elim (Bool-cases (str_eq x c)) [
  | inl same ↦
      let eq = (eq_iff x c).0 same in
      let moved : elem c cs ≡ elem x cs = ap (λ y. elem y cs) (sym eq) in
      ground (arith, same, moved, elem-untaken c cs xs)
  | inr other ↦ ground (arith, other, elem-untaken c cs xs)
]

record IsAccounted (c : String) (w : World) : Type 0 where
  at_hand : elem c w.awaited ≡ elem c w.sched.causes

step-IsAccounted :
    (c : String) (w : World) (a : Action) (w' : World)
    → step w a ≡ some w'
    → IsAccounted c w
    → IsAccounted c w'
unfolding step Scheduler.schedule Scheduler.flush_begin Scheduler.cancel publish_enter publish_exit
step-IsAccounted c w (schedule none) w' h v = ground arith
step-IsAccounted c w (schedule (some d)) w' h v =
    ground (arith, elem-add c d w.awaited, elem-add c d w.sched.causes)
step-IsAccounted c w flush_begin w' h v = ground arith
step-IsAccounted c w flush_enter w' h v =
    ground (arith, elem-sorted c w.sched.causes, elem-untaken c (sorted w.sched.causes) w.awaited)
step-IsAccounted c w cancel w' h v = ground arith
step-IsAccounted c w (expire g) w' h v = ground arith
step-IsAccounted c w (timer_enter g) w' h v =
    ground (arith, elem-sorted c w.sched.causes, elem-untaken c (sorted w.sched.causes) w.awaited)
step-IsAccounted c w (finish b) w' h v = ground arith

-- After any schedule of steps, the scheduler's causes are exactly those that were asked for since the
-- last `cancel` and that no publisher has taken along since they were last asked for.
pub asked_accounted :
    (l : List Action) {w : World} (c : String)
    → run init l ≡ some w
    → elem c w.awaited ≡ elem c w.sched.causes
asked_accounted l c h =
    (run_induction (step-IsAccounted c) init l h (record { at_hand = refl })).at_hand
