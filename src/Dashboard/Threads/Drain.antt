-- ===== src/Dashboard/Threads/Drain.antt =====
-- Outstanding requests are served by the threads that are under way.
use zigbeelens.Common.{
  ℕ, suc, ◌<◌, ◌≤◌, ◌≡◌, refl, inl, inr, true, false, ◌||◌, some, List, [], ◌∷◌, ◌∙◌, arith, length,
  Option-cases, Bool-cases, All,
}
use zigbeelens.Dashboard.Scheduler.{publish_enter, publish_exit}
use zigbeelens.Dashboard.Threads.{
  World, Action, expire, timer_enter, finish, flush_enter, step, run, init, has,
}
use zigbeelens.Dashboard.Threads.Coverage.{IsCovered, is_outstanding, run-IsCovered, step-IsCovered}

-- Steps of threads that are under way: no new request, no `flush`, no `cancel`.
abbrev pub IsUnderWay : Action → Type 0
IsUnderWay (expire g) = Unit
IsUnderWay (timer_enter g) = Unit
IsUnderWay (finish b) = Unit
IsUnderWay flush_enter = Unit
IsUnderWay _ = ⊥

-- A short schedule of such steps after which nothing is outstanding.
pub record Drains (n : ℕ) (w : World) : Type 0 where
  pub steps : List Action
  pub final : World
  pub under_way : All IsUnderWay steps
  pub short : length steps ≤ n
  pub runs : run w steps ≡ some final
  pub drained : is_outstanding final.sched ≡ false

run_cons :
    (w w' : World) (a : Action) (l : List Action) → step w a ≡ some w' → run w (a ∷ l) ≡ run w' l
unfolding run
run_cons w w' a l h = ground (arith, h)

Drains-step :
    (n : ℕ) (w w' : World) (a : Action)
    → IsUnderWay a
    → step w a ≡ some w'
    → Drains n w'
    → Drains (suc n) w
Drains-step n w w' a u h d = record {
  steps = a ∷ d.steps;
  final = d.final;
  under_way = (u, d.under_way);
  short = omega (arith, d.short);
  runs = run_cons w w' a d.steps h ∙ d.runs;
  drained = d.drained;
}

Drains-zero : (n : ℕ) (w : World) → is_outstanding w.sched ≡ false → Drains n w
unfolding run
Drains-zero n w h = record {
  steps = [];
  final = w;
  under_way = tt;
  short = omega arith;
  runs = refl;
  drained = h;
}

Drains-mono : {n : ℕ} {w : World} → Drains n w → Drains (suc n) w
Drains-mono d = record {
  steps = d.steps;
  final = d.final;
  under_way = d.under_way;
  short = omega (arith, d.short);
  runs = d.runs;
  drained = d.drained;
}

-- An idle scheduler: a `flush` that is about to publish takes everything.
flush-Drains :
    (w : World)
    → w.sched.publishing ≡ false
    → w.sched.cancelled ≡ false
    → 0 < w.flushing
    → Drains 1 w
flush-Drains w idle on f = elim (Option-cases (step w flush_enter)) [
  | inl e ↦ absurd (unfold step publish_enter in ground (arith, e))
  | inr (u, e) ↦
      Drains-step 0 w u flush_enter tt e
        (Drains-zero 0 u (unfold step publish_enter in ground (arith, e)))
]

fired-Drains :
    (w : World) (g : ℕ)
    → w.sched.publishing ≡ false
    → w.sched.cancelled ≡ false
    → has g w.fired ≡ true
    → g ≡ w.sched.timer_generation
    → Drains 1 w
fired-Drains w g idle on f cur = elim (Option-cases (step w (timer_enter g))) [
  | inl e ↦ absurd (unfold step publish_enter in ground (arith, e))
  | inr (u, e) ↦
      Drains-step 0 w u (timer_enter g) tt e
        (Drains-zero 0 u (unfold step publish_enter in ground (arith, e)))
]

has-expire :
    (w u : World) (g : ℕ)
    → step w (expire g) ≡ some u
    → (u.sched ≡ w.sched) × (has g u.fired ≡ true)
unfolding step
has-expire w u g h = ground arith

timer-Drains :
    (w : World) (g : ℕ)
    → w.sched.publishing ≡ false
    → w.sched.cancelled ≡ false
    → (has g w.waiting || has g w.fired) ≡ true
    → g ≡ w.sched.timer_generation
    → Drains 2 w
timer-Drains w g idle on c cur = elim (Bool-cases (has g w.fired)) [
  | inl e ↦ Drains-mono (fired-Drains w g idle on e cur)
  | inr ne ↦ elim (Option-cases (step w (expire g))) [
    | inl e ↦ absurd (unfold step in ground (arith, e))
    | inr (u, e) ↦
        let (same, f) = has-expire w u g e in
        Drains-step 1 w u (expire g) tt e
          (fired-Drains u g (ground (arith, same)) (ground (arith, same)) f (ground (arith, same)))
  ]
]

idle-Drains :
    (w : World)
    → IsCovered w
    → w.sched.publishing ≡ false
    → is_outstanding w.sched ≡ true
    → Drains 2 w
idle-Drains w v idle o = elim (Option-cases w.sched.timer) [
  | inl e ↦ Drains-mono (flush-Drains w idle (ground arith) (ground arith))
  | inr (g, e) ↦ timer-Drains w g idle (ground arith) (ground arith) (ground arith)
]

finish_idle :
    (w u : World)
    → step w (finish true) ≡ some u
    → (u.sched.publishing ≡ false) × (is_outstanding u.sched ≡ is_outstanding w.sched)
unfolding step publish_exit
finish_idle w u h = ground arith

Drains-covered : (w : World) → IsCovered w → Drains 3 w
Drains-covered w v = elim (Bool-cases (is_outstanding w.sched)) [
  | inr calm ↦ Drains-zero 3 w calm
  | inl o ↦ elim (Bool-cases w.sched.publishing) [
    | inr idle ↦ Drains-mono (idle-Drains w v idle o)
    | inl busy ↦ elim (Option-cases (step w (finish true))) [
      | inl e ↦ absurd (unfold step in ground (arith, e))
      | inr (u, e) ↦
          let (idle, same) = finish_idle w u e in
          Drains-step 2 w u (finish true) tt e
            (idle-Drains u (step-IsCovered w (finish true) u e v) idle (same ∙ o))
    ]
  ]
]

-- From every moment that the threads can reach, at most three steps of threads that are under way
-- (a publisher that comes back, a timer that expires, a callback or a `flush` that gets the lock)
-- leave no cause and no unattributed request outstanding.
pub outstanding-Drains : (l : List Action) {w : World} → run init l ≡ some w → Drains 3 w
outstanding-Drains l {w} h = Drains-covered w (run-IsCovered l h)
