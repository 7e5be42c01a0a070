-- ===== src/Incident/Lifecycle/Quiet.antt =====
-- The callbacks of a synchronisation tell of every change.
use zigbeelens.Common.{
  ℕ, String, ◌≡◌, refl, sym, ◌∙◌, ap, subst, ◌⊎◌, true, false, none, some, List, [], ◌∷◌, ◌++◌,
  arith, Bool-cases, Option-cases, inl, inr, is_empty,
}
use zigbeelens.Incident.Types.{Lifecycle, Candidate, Row, Tables, EventName, same_lifecycle}
use zigbeelens.Incident.Store.{
  list_active_incidents, get_incident_by_dedup_key, replace_incident_devices_and_networks,
}
use zigbeelens.Incident.Lifecycle.{
  Env, Sync, refresh, reopen_incident, open_incident, sync_candidate, sync_candidates, fade,
  resolve_row, resolve_rows, resolve_stale, sync, sync_body, close, candidate_by_key, is_supported,
  needs_update,
}
use zigbeelens.Incident.Lifecycle.Moves.{sync-Phases}

-- A step that has named no event has changed nothing.
abbrev Quiet : Sync → Sync → Type 0
Quiet st st' = is_empty st'.events ≡ true → st' ≡ st

Quiet-refl : (st : Sync) → Quiet st st
Quiet-refl st e = refl

Quiet-trans : (a b c : Sync) → Quiet a b → Quiet b c → Quiet a c
Quiet-trans a b c p q e =
    let last = q e in last ∙ p (ap (λ (s : Sync). is_empty s.events) (sym last) ∙ e)

is_empty-append_one :
    (names : List EventName) (name : EventName) → is_empty (names ++ name ∷ []) ≡ false
is_empty-append_one [] name = refl
is_empty-append_one (x ∷ names) name = refl

refresh-Quiet :
    (c : Candidate) (id title summary ts : String) (st st' : Sync)
    → refresh c id title summary ts st ≡ some st'
    → Quiet st st'
unfolding refresh replace_incident_devices_and_networks
refresh-Quiet c id title summary ts st st' h e =
    ground (arith, is_empty-append_one st.events EventName.incident_updated)

open-Quiet :
    (env : Env) (c : Candidate) (ts : String) (st st' : Sync)
    → open_incident env c ts st ≡ some st'
    → Quiet st st'
unfolding open_incident replace_incident_devices_and_networks
open-Quiet env c ts st st' h e =
    ground (arith, is_empty-append_one st.events EventName.incident_opened)

fade-Quiet : (env : Env) (now : ℕ) (row : Row) (st : Sync) → Quiet st (fade env now row st)
unfolding fade
fade-Quiet env now row st e = ground (
  arith,
  is_empty-append_one st.events EventName.incident_updated,
  is_empty-append_one st.events EventName.incident_resolved,
)

-- What a step amounts to.
data IsStep (env : Env) (ts : String) (st st' : Sync) : Type 0 where
  same : st' ≡ st → IsStep env ts st st'
  opens : (c : Candidate) → open_incident env c ts st ≡ some st' → IsStep env ts st st'
  renews :
      (c : Candidate) (id title summary : String)
      → refresh c id title summary ts st ≡ some st'
      → IsStep env ts st st'
  fades : (now : ℕ) (row : Row) → st' ≡ fade env now row st → IsStep env ts st st'

IsStep-Quiet : {env : Env} {ts : String} {st st' : Sync} → IsStep env ts st st' → Quiet st st'
IsStep-Quiet {st = st} (same e) = subst (Quiet st) (sym e) (Quiet-refl st)
IsStep-Quiet {env} {ts} {st} {st'} (opens c e) = open-Quiet env c ts st st' e
IsStep-Quiet {ts = ts} {st = st} {st' = st'} (renews c id title summary e) =
    refresh-Quiet c id title summary ts st st' e
IsStep-Quiet {env} {st = st} (fades now row e) =
    subst (Quiet st) (sym e) (fade-Quiet env now row st)

sync_candidate-IsStep :
    (env : Env) (ts : String) (c : Candidate) (st st' : Sync)
    → sync_candidate env ts c st ≡ some st'
    → IsStep env ts st st'
unfolding sync_candidate reopen_incident
sync_candidate-IsStep env ts c st st' h = elim (Bool-cases c.active) [
  | inr e ↦ same (ground (arith, e))
  | inl a ↦ elim (Option-cases (get_incident_by_dedup_key c.dedup_key st.tables.incidents)) [
    | inl e ↦ opens c (ground (arith, a, e))
    | inr (r, e) ↦ elim (Bool-cases (same_lifecycle r.lifecycle_state Lifecycle.opened)) [
      | inr w ↦
          renews c r.id "Incident reopened: " "Underlying signal returned during the watch period."
            (ground (arith, a, e, w))
      | inl o ↦ elim (Bool-cases (needs_update st.tables r c)) [
        | inl u ↦ renews c r.id "Incident updated: " c.content.summary (ground (arith, a, e, o, u))
        | inr u ↦ same (ground (arith, a, e, o, u))
      ]
    ]
  ]
]

resolve_row-IsStep :
    (env : Env) (cs : List Candidate) (now : ℕ) (row : Row) (st st' : Sync)
    → resolve_row env cs now row st ≡ some st'
    → IsStep env (env.iso now) st st'
unfolding resolve_row reopen_incident
resolve_row-IsStep env cs now row st st' h = elim (Bool-cases (is_supported cs row)) [
  | inr e ↦ fades now row (ground (arith, e))
  | inl e ↦ elim (Bool-cases (same_lifecycle row.lifecycle_state Lifecycle.watching)) [
    | inr w ↦ same (ground (arith, e, w))
    | inl w ↦ elim (Option-cases row.dedup_key) [
      | inl k ↦ absurd (ground (arith, k, e, w))
      | inr (key, k) ↦ elim (Option-cases (candidate_by_key key cs)) [
        | inl g ↦ absurd (ground (arith, k, e, w, g))
        | inr (c, g) ↦
            renews c row.id "Incident reopened: "
              "Underlying signal returned during the watch period." (ground (arith, k, e, w, g))
      ]
    ]
  ]
]

sync_candidates-Quiet :
    (env : Env) (ts : String) (cs : List Candidate) (st st' : Sync)
    → sync_candidates env ts cs st ≡ some st'
    → Quiet st st'
unfolding sync_candidates
sync_candidates-Quiet env ts [] st st' h = subst (Quiet st) (cc h) (Quiet-refl st)
sync_candidates-Quiet env ts (c ∷ cs) st st' h = elim (Option-cases (sync_candidate env ts c st)) [
  | inl e ↦ absurd (ground (arith, e))
  | inr (u, e) ↦
      Quiet-trans st u st' (IsStep-Quiet (sync_candidate-IsStep env ts c st u e))
        (sync_candidates-Quiet env ts cs u st' (rw (e, sync_candidates) at h))
]

resolve_rows-Quiet :
    (env : Env) (cs : List Candidate) (now : ℕ) (l : List Row) (st st' : Sync)
    → resolve_rows env cs now l st ≡ some st'
    → Quiet st st'
unfolding resolve_rows
resolve_rows-Quiet env cs now [] st st' h = subst (Quiet st) (cc h) (Quiet-refl st)
resolve_rows-Quiet env cs now (r ∷ l) st st' h = elim (Option-cases (resolve_row env cs now r st)) [
  | inl e ↦ absurd (ground (arith, e))
  | inr (u, e) ↦
      Quiet-trans st u st' (IsStep-Quiet (resolve_row-IsStep env cs now r st u e))
        (resolve_rows-Quiet env cs now l u st' (rw (e, resolve_rows) at h))
]

closed_empty : (st : Sync) → (close st).events ≡ [] → is_empty st.events ≡ true
closed_empty st h = ground (arith, is_empty-append_one st.events EventName.incidents_updated)

raised_unchanged :
    (env : Env) (cs : List Candidate) (now : ℕ) (t t' : Tables) (used : ℕ)
    → sync env cs now t used ≡ (t', none)
    → t' ≡ t
unfolding sync
raised_unchanged env cs now t t' used h = elim (Option-cases (sync_body env cs now t used)) [
  | inl e ↦ ground (arith, e)
  | inr (s, e) ↦ absurd (ground (arith, e))
]

-- A synchronisation that returns no event name has left every table as it was, and one that raises
-- has too: whatever it changed, the callbacks are told.
pub sync_quiet :
    (env : Env) (cs : List Candidate) (now : ℕ) (t t' : Tables) (used : ℕ)
    → (sync env cs now t used ≡ (t', none)) ⊎ (sync env cs now t used ≡ (t', some []))
    → t' ≡ t
sync_quiet env cs now t t' used (inl h) = raised_unchanged env cs now t t' used h
sync_quiet env cs now t t' used (inr h) =
    let p = sync-Phases env cs now t t' used [] h in
    let start : Sync = record { tables = t; events = []; used = used } in
    let q =
      Quiet-trans start p.middle p.last
        (sync_candidates-Quiet env (env.iso now) cs start p.middle p.candidates)
        (unfold resolve_stale in
          resolve_rows-Quiet env cs now (list_active_incidents p.middle.tables.incidents) p.middle
            p.last p.stale) in
    p.tables ∙ ap (λ (s : Sync). s.tables) (q (closed_empty p.last (sym p.names_closed)))
