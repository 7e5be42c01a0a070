-- ===== src/Dashboard/Threads/Keeps.antt =====
-- An invariant of the steps holds after every schedule of steps.
use zigbeelens.Common.{◌≡◌, some, List, [], ◌∷◌, arith, inl, inr, Option-cases, subst}
use zigbeelens.Dashboard.Threads.{World, Action, step, run}

module _ {P : World → Type 0}
    (keep : (w : World) (a : Action) (w' : World) → step w a ≡ some w' → P w → P w') where
  pub run_induction : (w : World) (l : List Action) {w' : World} → run w l ≡ some w' → P w → P w'
  unfolding run
  run_induction w [] h p = subst P (ground arith) p
  run_induction w (a ∷ rest) {w'} h p = elim (Option-cases (step w a)) [
    | inl e ↦ absurd (ground (arith, e))
    | inr (u, e) ↦ run_induction u rest (rw (e, run) at h) (keep w a u e p)
  ]
