-- ===== src/Incident/Lifecycle/Transitions.antt =====
-- The lifecycle of an incident over one synchronisation.
use zigbeelens.Common.{
  ℕ, ◌+◌, ◌*◌, ◌≤◌, String, ◌≡◌, ◌≢◌, refl, sym, ◌∙◌, ap, subst, true, false, some, List, [], arith,
  Option-cases, inl, inr,
}
use mathlib.Core.Option
use zigbeelens.Incident.Types.{Lifecycle, Candidate, Row, Tables, EventName, same_lifecycle}
use zigbeelens.Incident.Store.{is_active, updated}
use zigbeelens.Incident.Store.Rows.{find, HasUniqueIds}
use zigbeelens.Incident.Lifecycle.{
  Env, Sync, minute, parse_ts, is_settled, is_supported, opened_update, watch_update,
  resolve_update, sync,
}
use zigbeelens.Incident.Lifecycle.Stale.{settled, find-resolve_stale}
use zigbeelens.Incident.Lifecycle.Moves.{Revived, left, taken, sync_candidates-Synced, sync-Phases}

-- What one synchronisation can make of an incident.
pub record Moves (r r' : Row) : Type 0 where
  pub id : r'.id ≡ r.id
  pub dedup_key : r'.dedup_key ≡ r.dedup_key
  pub incident_type : r'.incident_type ≡ r.incident_type
  pub opened_at : r'.opened_at ≡ r.opened_at
  pub resolved_stays : r.lifecycle_state ≡ Lifecycle.resolved → r' ≡ r
  pub watched_first : r.lifecycle_state ≡ Lifecycle.opened → r'.lifecycle_state ≢ Lifecycle.resolved

-- The row after a synchronisation comes from the old one by the candidates and then by age.
pub record Traced (env : Env) (cs : List Candidate) (now : ℕ) (i : String) (t' : Tables) (r : Row)
    : Type 0 where
  pub between : Row
  pub revived : Revived (env.iso now) r between
  pub found : find i t'.incidents ≡ some (settled env cs now between)

pub sync-Traced :
    (env : Env) (cs : List Candidate) (now : ℕ) (t t' : Tables) (used : ℕ) (names : List EventName)
    → sync env cs now t used ≡ (t', some names)
    → HasUniqueIds t.incidents
    → (i : String) (r : Row) → find i t.incidents ≡ some r
    → Traced env cs now i t' r
sync-Traced env cs now t t' used names h n i r f =
    let p = sync-Phases env cs now t t' used names h in
    let start : Sync = record { tables = t; events = []; used = used } in
    let s = sync_candidates-Synced env (env.iso now) cs start p.middle p.candidates n in
    let a = s.after i r f in
    record {
      between = a.row;
      revived = a.revived;
      found =
          ap (λ (x : Tables). find i x.incidents) p.tables
          ∙ find-resolve_stale env cs now p.middle {st' = p.last} p.stale s.unique i
          ∙ ap (Option.map (settled env cs now)) a.found;
    }

module _ (env : Env) (cs : List Candidate) (now : ℕ) where
  settled-Moves : (r : Row) → Moves r (settled env cs now r)
  unfolding settled updated same_lifecycle opened_update watch_update resolve_update
  settled-Moves r = record {
    id = ground arith;
    dedup_key = ground arith;
    incident_type = ground arith;
    opened_at = ground arith;
    resolved_stays = λ e. ground arith;
    watched_first = λ e q. ground arith;
  }

  -- A row that a candidate made open has not been watched.
  taken-Moves :
      (c : Candidate) (r : Row)
      → is_active r ≡ true
      → Moves r (settled env cs now (updated (opened_update c (env.iso now)) r))
  unfolding updated opened_update is_active same_lifecycle
  taken-Moves c r a =
      let m = settled-Moves (updated (opened_update c (env.iso now)) r) in
      record {
        id = m.id;
        dedup_key = m.dedup_key;
        incident_type = m.incident_type;
        opened_at = m.opened_at;
        resolved_stays = λ e. ground arith;
        watched_first = λ e. m.watched_first refl;
      }

  Revived-Moves : (r s : Row) → Revived (env.iso now) r s → Moves r (settled env cs now s)
  Revived-Moves r s (left e) = subst (λ x. Moves r (settled env cs now x)) (sym e) (settled-Moves r)
  Revived-Moves r s (taken c a e) =
      subst (λ x. Moves r (settled env cs now x)) (sym e) (taken-Moves c r a)

  -- A row is resolved by age.
  settled_resolves :
      (r : Row)
      → r.lifecycle_state ≢ Lifecycle.resolved
      → (settled env cs now r).lifecycle_state ≡ Lifecycle.resolved
      → (r.lifecycle_state ≡ Lifecycle.watching)
        × (is_supported cs r ≡ false)
        × (since : ℕ) × (parse_ts env r.updated_at ≡ some since)
        × (since
              + (env.incident_watch_window_minutes * minute
                  + env.incident_resolution_grace_minutes * minute)
            ≤ now)
  unfolding settled updated same_lifecycle opened_update watch_update resolve_update is_settled
  settled_resolves r n e = elim (Option-cases (parse_ts env r.updated_at)) [
    | inl f ↦ absurd (ground (arith, f))
    | inr (since, f) ↦ (ground arith, ground arith, since, f, ground (arith, f))
  ]

-- A synchronisation that returns event names keeps every incident, with its id, its key, its type
-- and the time at which it was opened. A resolved incident stays as it is, and an open one is not
-- resolved before it has been watched. The ids of the incidents were unique before.
pub sync-Moves :
    (env : Env) (cs : List Candidate) (now : ℕ) (t t' : Tables) (used : ℕ) (names : List EventName)
    → sync env cs now t used ≡ (t', some names)
    → HasUniqueIds t.incidents
    → (i : String) (r : Row) → find i t.incidents ≡ some r
    → (r' : Row) × (find i t'.incidents ≡ some r') × Moves r r'
sync-Moves env cs now t t' used names h n i r f =
    let e = sync-Traced env cs now t t' used names h n i r f in
    (settled env cs now e.between, e.found, Revived-Moves env cs now r e.between e.revived)

taken_open :
    (env : Env) (cs : List Candidate) (now : ℕ) (c : Candidate) (r : Row)
    → (settled env cs now (updated (opened_update c (env.iso now)) r)).lifecycle_state
      ≢ Lifecycle.resolved
unfolding updated opened_update
taken_open env cs now c r =
    (settled-Moves env cs now (updated (opened_update c (env.iso now)) r)).watched_first refl

Revived-settled :
    (env : Env) (cs : List Candidate) (now : ℕ) (r s : Row)
    → Revived (env.iso now) r s
    → (settled env cs now s).lifecycle_state ≡ Lifecycle.resolved
    → r ≡ s
Revived-settled env cs now r s (left e) q = sym e
Revived-settled env cs now r s (taken c a e) q = absurd (
    taken_open env cs now c r
      (subst (λ x. (settled env cs now x).lifecycle_state ≡ Lifecycle.resolved) e q))

-- A synchronisation resolves an incident only if it was watched, if its key is none of an active
-- candidate, and if the watch window and the grace period have passed since its last update. The
-- ids of the incidents were unique before.
pub sync_resolves_late :
    (env : Env) (cs : List Candidate) (now : ℕ) (t t' : Tables) (used : ℕ) (names : List EventName)
    → sync env cs now t used ≡ (t', some names)
    → HasUniqueIds t.incidents
    → (i : String) (r r' : Row) → find i t.incidents ≡ some r
    → find i t'.incidents ≡ some r'
    → r.lifecycle_state ≢ Lifecycle.resolved
    → r'.lifecycle_state ≡ Lifecycle.resolved
    → (r.lifecycle_state ≡ Lifecycle.watching)
      × (is_supported cs r ≡ false)
      × (since : ℕ) × (parse_ts env r.updated_at ≡ some since)
      × (since
            + (env.incident_watch_window_minutes * minute
                + env.incident_resolution_grace_minutes * minute)
          ≤ now)
sync_resolves_late env cs now t t' used names h n i r r' f f' live done =
    let e = sync-Traced env cs now t t' used names h n i r f in
    let same : r' ≡ settled env cs now e.between = cc (e.found, f') in
    let late = ap (λ (x : Row). x.lifecycle_state) (sym same) ∙ done in
    let whole = Revived-settled env cs now r e.between e.revived late in
    settled_resolves env cs now r live
      (subst (λ x. (settled env cs now x).lifecycle_state ≡ Lifecycle.resolved) (sym whole) late)
