-- ===== src/Topology/Startup.antt =====
-- When the startup scan requests a capture, and when it is over.
use zigbeelens.Common.{
  ℕ, suc, ◌+◌, ◌≤◌, ◌<◌, String, ◌≡◌, refl, sym, ◌||◌, ◌∙◌, subst, ap, ◌⊎◌, inl, inr, true, false,
  none, some, List, [], ◌∷◌, arith, if◌then◌else◌, length, elem, add, str_eq, elem-add, eq_iff,
  eq_refl, All, Bool-cases, Option-cases,
}
use zigbeelens.Topology.Scheduler.{
  Config, Round, Startup, is_ready, pending, since, capture, capture_pending, advance_startup, run,
  requests, was_requested,
}

-- Every round from an instant on was ready, the newest round first.
abbrev pub IsSteady : Config → ℕ → List Round → Type 0
IsSteady c t [] = ⊥
IsSteady c t (r ∷ rs) = (is_ready c r ≡ true) × ((r.now ≡ t) ⊎ IsSteady c t rs)

-- The instant that the scheduler keeps is the start of a steady stretch.
abbrev IsTimed : Config → List Round → Startup → Type 0
IsTimed c rs s = s.startup_completed ≡ false → (t : ℕ) → s.stable_since ≡ some t → IsSteady c t rs

-- The networks that are done and those that are pending are together at most all of them, and a
-- startup that is over has none pending.
record IsCounted (c : Config) (s : Startup) : Type 0 where
  total :
      length s.startup_networks_done + length (pending s.startup_networks_done c.networks)
      ≤ length c.networks
  over : s.startup_completed ≡ true → pending s.startup_networks_done c.networks ≡ []

since-some : (s : Startup) (now t : ℕ) → s.stable_since ≡ some t → since s now ≡ t
since-some s now t e = rw e refl

since-none : (s : Startup) (now : ℕ) → s.stable_since ≡ none → since s now ≡ now
since-none s now e = rw e refl

IsSteady-since :
    (c : Config) (rs : List Round) (s : Startup) (r : Round)
    → s.startup_completed ≡ false
    → IsTimed c rs s
    → is_ready c r ≡ true
    → IsSteady c (since s r.now) (r ∷ rs)
IsSteady-since c rs s r o h ready = elim (Option-cases s.stable_since) [
  | inl e ↦ (ready, inl (sym (since-none s r.now e)))
  | inr t ↦
      let before = h o t.0 t.1 in
      (ready, inr (subst (λ u. IsSteady c u rs) (sym (since-some s r.now t.0 t.1)) before))
]

List-cases : (xs : List String) → (xs ≡ []) ⊎ ((x : String) × (ys : List String) × (xs ≡ x ∷ ys))
List-cases [] = inl refl
List-cases (x ∷ xs) = inr (x, xs, refl)

-- A round that leaves the startup open.
next_open :
    (c : Config) (s : Startup) (r : Round)
    → (advance_startup c s r).next.startup_completed ≡ false
    → (s.startup_completed ≡ false)
      × ((advance_startup c s r).next.stable_since
          ≡ (if is_ready c r then some (since s r.now) else none))
unfolding advance_startup capture_pending capture
next_open c s r h = elim (List-cases (pending s.startup_networks_done c.networks)) [
  | inl e ↦ ground (arith, e)
  | inr p ↦ ground (arith, p.2)
]

next-IsTimed :
    (c : Config) (rs : List Round) (s : Startup) (r : Round)
    → IsTimed c rs s
    → IsTimed c (r ∷ rs) (advance_startup c s r).next
next-IsTimed c rs s r h o t e =
    let n = next_open c s r o in
    elim (Bool-cases (is_ready c r)) [
      | inl ready ↦
          let same : since s r.now ≡ t = ground (arith, n.1, ready, e) in
          subst (λ u. IsSteady c u (r ∷ rs)) same (IsSteady-since c rs s r n.0 h ready)
      | inr unready ↦ absurd (ground (arith, n.1, unready, e))
    ]

run-IsTimed : (c : Config) (rs : List Round) → IsTimed c rs (run c rs)
unfolding run
run-IsTimed c [] = λ o t e. absurd (cc e)
run-IsTimed c (r ∷ rs) = next-IsTimed c rs (run c rs) r (run-IsTimed c rs)

-- What holds when a round requests a capture.
request_cases :
    (c : Config) (s : Startup) (r : Round) (id : String)
    → (advance_startup c s r).request ≡ some id
    → (s.startup_completed ≡ false)
      × (is_ready c r ≡ true)
      × (since s r.now + c.startup_stable_delay ≤ r.now)
      × (r.capture_in_progress ≡ false)
      × (elem id (pending s.startup_networks_done c.networks) ≡ true)
unfolding advance_startup capture_pending capture
request_cases c s r id h = elim (List-cases (pending s.startup_networks_done c.networks)) [
  | inl e ↦ absurd (ground (arith, e, h))
  | inr p ↦ ground (arith, p.2, h, eq_refl id)
]

elem-pending :
    (id : String) (done ids : List String)
    → elem id (pending done ids) ≡ true
    → (elem id ids ≡ true) × (elem id done ≡ false)
elem-pending id done [] h = absurd (cc h)
elem-pending id done (x ∷ ids) h = elim (Bool-cases (str_eq x id)) [
  | inl same ↦
      let eq = (eq_iff x id).0 same in
      let moved : elem id done ≡ elem x done = ap (λ y. elem y done) (sym eq) in
      ground (arith, same, moved, elem-pending id done ids)
  | inr other ↦ ground (arith, other, elem-pending id done ids)
]

next_done :
    (c : Config) (s : Startup) (r : Round) (id : String)
    → elem id (advance_startup c s r).next.startup_networks_done
      ≡ (requests r (advance_startup c s r) id || elem id s.startup_networks_done)
unfolding advance_startup capture_pending capture requests
next_done c s r id = elim (List-cases (pending s.startup_networks_done c.networks)) [
  | inl e ↦ ground (arith, e)
  | inr p ↦ ground (arith, p.2, elem-add id p.0 s.startup_networks_done)
]

-- The networks that are done are those that some round requested without an exception.
run_done :
    (c : Config) (rs : List Round) (id : String)
    → elem id (run c rs).startup_networks_done ≡ was_requested c rs id
unfolding run was_requested
run_done c [] id = refl
run_done c (r ∷ rs) id =
    let n = next_done c (run c rs) r id in
    let before = run_done c rs id in ground (arith, n, before)

-- A round of the startup scan requests the capture of a network only where no capture is in progress,
-- the network is configured, no earlier round has requested it without an exception, and the
-- collector and all bridges were ready in every round from some instant on that lies back by the
-- delay at least.
pub request-IsSteady :
    (c : Config) (rs : List Round) (r : Round) (id : String)
    → (advance_startup c (run c rs) r).request ≡ some id
    → (r.capture_in_progress ≡ false)
      × (elem id c.networks ≡ true)
      × (was_requested c rs id ≡ false)
      × ((t : ℕ) × IsSteady c t (r ∷ rs) × (t + c.startup_stable_delay ≤ r.now))
request-IsSteady c rs r id h =
    let s = run c rs in
    let q = request_cases c s r id h in
    let e = elem-pending id s.startup_networks_done c.networks q.4 in
    let fresh = sym (run_done c rs id) ∙ e.1 in
    (q.3, e.0, fresh, (since s r.now, IsSteady-since c rs s r q.0 (run-IsTimed c rs) q.1, q.2))

pending-add :
    (id : String) (done ids : List String)
    → length (pending (add id done) ids) ≤ length (pending done ids)
pending-add id done [] = omega arith
pending-add id done (x ∷ ids) = ground (arith, elem-add x id done, pending-add id done ids)

pending-add_less :
    (id : String) (done ids : List String)
    → elem id (pending done ids) ≡ true
    → length (pending (add id done) ids) < length (pending done ids)
pending-add_less id done [] h = absurd (cc h)
pending-add_less id done (x ∷ ids) h = elim (Bool-cases (str_eq x id)) [
  | inl same ↦
      let eq = (eq_iff x id).0 same in
      let back : str_eq id x ≡ true = subst (λ y. str_eq id y ≡ true) (sym eq) (eq_refl id) in
      ground (
        arith,
        same,
        back,
        elem-add x id done,
        pending-add id done ids,
        pending-add_less id done ids,
      )
  | inr other ↦
      ground
        (arith, other, elem-add x id done, pending-add id done ids, pending-add_less id done ids)
]

length-add : (id : String) (done : List String) → length (add id done) ≤ suc (length done)
length-add id done = ground arith

none_pending : (xs : List String) → length xs ≡ 0 → xs ≡ []
none_pending [] h = refl
none_pending (x ∷ xs) h = absurd (omega (arith, h))

next-IsCounted :
    (c : Config) (s : Startup) (r : Round)
    → IsCounted c s
    → IsCounted c (advance_startup c s r).next
unfolding advance_startup capture_pending capture
next-IsCounted c s r w = elim (List-cases (pending s.startup_networks_done c.networks)) [
  | inl e ↦
      let total = w.total in
      let over = w.over in
      record { total = ground (arith, e, total); over = ground (arith, e, over) }
  | inr p ↦
      let total = w.total in
      let over = w.over in
      let e = p.2 in
      let here : elem p.0 (pending s.startup_networks_done c.networks) ≡ true =
        rw p.2 (ground (arith, eq_refl p.0)) in
      let less = pending-add_less p.0 s.startup_networks_done c.networks here in
      let grown = length-add p.0 s.startup_networks_done in
      let empty = none_pending (pending (add p.0 s.startup_networks_done) c.networks) in
      record {
        total = ground (arith, e, total, less, grown);
        over = ground (arith, e, total, over, less, grown, empty);
      }
]

none_done : (ids : List String) → 0 + length (pending [] ids) ≤ length ids
none_done [] = omega arith
none_done (x ∷ ids) = omega (arith, none_done ids)

run-IsCounted : (c : Config) (rs : List Round) → IsCounted c (run c rs)
unfolding run
run-IsCounted c [] = record { total = none_done c.networks; over = λ h. absurd (cc h) }
run-IsCounted c (r ∷ rs) = next-IsCounted c (run c rs) r (run-IsCounted c rs)

pending-none :
    (done ids : List String) → pending done ids ≡ [] → All (λ id. elem id done ≡ true) ids
pending-none done [] h = tt
pending-none done (x ∷ ids) h = elim (Bool-cases (elem x done)) [
  | inl e ↦ (e, pending-none done ids (ground (arith, e, h)))
  | inr e ↦ absurd (ground (arith, e, h))
]

done-requested :
    (c : Config) (rs : List Round) (ids : List String)
    → All (λ id. elem id (run c rs).startup_networks_done ≡ true) ids
    → All (λ id. was_requested c rs id ≡ true) ids
done-requested c rs [] h = tt
done-requested c rs (id ∷ ids) h = (sym (run_done c rs id) ∙ h.0, done-requested c rs ids h.1)

-- The startup scan is over only when each configured network was requested in some round and the
-- request did not raise.
pub over-All :
    (c : Config) (rs : List Round)
    → (run c rs).startup_completed ≡ true
    → All (λ id. was_requested c rs id ≡ true) c.networks
over-All c rs h =
    let w = run-IsCounted c rs in
    done-requested c rs c.networks
      (pending-none (run c rs).startup_networks_done c.networks (w.over h))

-- A round in which the collector and the bridges are ready, the delay has passed, no capture is in
-- progress and the request does not raise ends the startup or leaves fewer networks pending.
pub next_progress :
    (c : Config) (s : Startup) (r : Round)
    → is_ready c r ≡ true
    → since s r.now + c.startup_stable_delay ≤ r.now
    → r.capture_in_progress ≡ false
    → r.request_raises ≡ false
    → ((advance_startup c s r).finished ≡ true)
      ⊎ (length (pending (advance_startup c s r).next.startup_networks_done c.networks)
          < length (pending s.startup_networks_done c.networks))
unfolding advance_startup capture_pending capture
next_progress c s r ready due free fine =
    elim (List-cases (pending s.startup_networks_done c.networks)) [
      | inl e ↦ inl (ground (arith, e, ready, due, free, fine))
      | inr p ↦
          let e = p.2 in
          let here : elem p.0 (pending s.startup_networks_done c.networks) ≡ true =
            rw p.2 (ground (arith, eq_refl p.0)) in
          let less = pending-add_less p.0 s.startup_networks_done c.networks here in
          ground (arith, e, ready, due, free, fine, less)
    ]
