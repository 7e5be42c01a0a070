-- ===== src/Dashboard/Threads/Coverage.antt =====
-- No request is lost: while one is outstanding and publishing is not cancelled, a publish is due.
use zigbeelens.Common.{
  ℕ, ◌<◌, ◌≡◌, refl, ◌⊎◌, Bool, true, false, not, ◌||◌, Option, none, some, List, [], ◌∷◌, arith,
  ◌==◌, if◌then◌else◌, length, is_some, is_empty, ◌≤◌, ◌↔◌, inl, inr, Option-cases,
}
use zigbeelens.Dashboard.Scheduler
use zigbeelens.Dashboard.Scheduler.{Scheduler, publish_enter, publish_exit}
use zigbeelens.Dashboard.Threads.{
  World, Action, schedule, flush_begin, flush_enter, cancel, expire, timer_enter, finish, step, run,
  init, has, discard,
}
use zigbeelens.Dashboard.Threads.Keeps.{run_induction}

has-discard_ne : (g h : ℕ) (xs : List ℕ) → (h == g) ≡ false → has g (discard h xs) ≡ has g xs
has-discard_ne g h [] ne = refl
has-discard_ne g h (x ∷ xs) ne = ground (arith, has-discard_ne g h xs ne)

-- A timer that the scheduler holds carries the current generation, and its callback will come.
abbrev pub TimerIsLive : Option ℕ → ℕ → List ℕ → List ℕ → Type 0
TimerIsLive none generation ws fs = Unit
TimerIsLive (some g) generation ws fs = (g ≡ generation) × ((has g ws || has g fs) ≡ true)

abbrev pub is_outstanding : Scheduler → Bool
is_outstanding s = not (is_empty s.causes) || s.has_unattributed_request

-- What the threads keep between two steps.
pub record IsCovered (w : World) : Type 0 where
  pub timer_live : TimerIsLive w.sched.timer w.sched.timer_generation w.waiting w.fired
  pub one_publisher : length w.working ≡ (if w.sched.publishing then 1 else 0)
  pub pending_publishing : w.sched.pending ≡ true → w.sched.publishing ≡ true
  pub pending_kept : w.sched.pending ≡ true → w.sched.cancelled ≡ false
  pub cancelled_clear : w.sched.cancelled ≡ true → is_outstanding w.sched ≡ false
  pub due :
      is_outstanding w.sched ≡ true
      → (is_some w.sched.timer ≡ true) ⊎ (w.sched.pending ≡ true) ⊎ (0 < w.flushing)

pub step-IsCovered :
    (w : World) (a : Action) (w' : World) → step w a ≡ some w' → IsCovered w → IsCovered w'
unfolding step Scheduler.schedule Scheduler.flush_begin Scheduler.cancel publish_enter publish_exit
step-IsCovered w (schedule none) w' h v = ground arith
step-IsCovered w (schedule (some c)) w' h v = ground arith
step-IsCovered w flush_begin w' h v = ground arith
step-IsCovered w flush_enter w' h v = ground arith
step-IsCovered w cancel w' h v = ground arith
step-IsCovered w (expire g) w' h v =
    ground (arith, has-discard_ne w.sched.timer_generation g w.waiting)
step-IsCovered w (timer_enter g) w' h v =
    ground (arith, has-discard_ne w.sched.timer_generation g w.fired)
step-IsCovered w (finish b) w' h v = ground arith

IsCovered-init : IsCovered init
IsCovered-init = ground arith

-- Whatever the threads do, in whatever order, from the start.
pub run-IsCovered : (l : List Action) {w : World} → run init l ≡ some w → IsCovered w
run-IsCovered l h = run_induction step-IsCovered init l h IsCovered-init

due_cases :
    (w : World)
    → IsCovered w
    → is_outstanding w.sched ≡ true
    → (w.sched.cancelled ≡ false)
      × (((g : ℕ) × (w.sched.timer ≡ some g)
            × (g ≡ w.sched.timer_generation)
            × ((has g w.waiting || has g w.fired) ≡ true))
          ⊎ ((w.sched.pending ≡ true) × (w.sched.publishing ≡ true))
          ⊎ (0 < w.flushing))
due_cases w v o = (
  ground arith,
  elim (Option-cases w.sched.timer) [
    | inl e ↦ inr (ground arith)
    | inr (g, e) ↦ inl (g, e, ground arith, ground arith)
  ],
)

-- At every moment, whatever the threads did: if causes or an unattributed request are outstanding,
-- publishing is not cancelled, and a publish is due: the scheduler holds a timer that carries
-- the current generation and whose callback waits or has fired, or a publisher is at work that will
-- publish once more, or a `flush` is about to publish.
pub no_lost_request :
    (l : List Action) {w : World}
    → run init l ≡ some w
    → is_outstanding w.sched ≡ true
    → (w.sched.cancelled ≡ false)
      × (((g : ℕ) × (w.sched.timer ≡ some g)
            × (g ≡ w.sched.timer_generation)
            × ((has g w.waiting || has g w.fired) ≡ true))
          ⊎ ((w.sched.pending ≡ true) × (w.sched.publishing ≡ true))
          ⊎ (0 < w.flushing))
no_lost_request l {w} h o = due_cases w (run-IsCovered l h) o

-- At most one publisher is at work, whatever the threads did, and the flag `publishing` tells.
pub one_publisher :
    (l : List Action) {w : World}
    → run init l ≡ some w
    → (length w.working ≤ 1) × ((length w.working ≡ 1) ↔ (w.sched.publishing ≡ true))
one_publisher l h =
    let v = run-IsCovered l h in (ground arith, (λ e. ground arith, λ e. ground arith))
