-- ===== src/Incident/Lifecycle/Coverage.antt =====
-- After a synchronisation every active candidate has an open incident.
use zigbeelens.Common.{
  ℕ, String, ◌≡◌, ◌≢◌, refl, ◌∙◌, ap, subst, true, false, ◌&&◌, ◌||◌, some, List, [], ◌∷◌, ◌++◌,
  arith, Bool-cases, Option-cases, inl, inr, str_eq, eq_iff, eq_refl, elem,
}
use mathlib.Core.Option
use zigbeelens.Incident.Types.{Lifecycle, Candidate, Row, Tables, EventName, same_lifecycle}
use zigbeelens.Incident.Store.{has_key, updated}
use zigbeelens.Incident.Store.Rows.{find, has_id, HasUniqueIds, find-update, find-append}
use zigbeelens.Incident.Lifecycle.{
  Env, Sync, is_supported, active_keys, opened_update, new_row, sync_candidate, sync_candidates,
  sync,
}
use zigbeelens.Incident.Lifecycle.Effect.{
  Effect, passed, kept, refreshed, inserted, sync_candidate-Effect,
}
use zigbeelens.Incident.Lifecycle.Stale.{settled, find-resolve_stale}
use zigbeelens.Incident.Lifecycle.Moves.{
  Revived, left, taken, After, Effect-HasUniqueIds, sync_candidates-Synced, sync-Phases,
}

-- An open incident with the key.
pub record OpenFor (key : String) (rows : List Row) : Type 0 where
  pub id : String
  pub row : Row
  pub found : find id rows ≡ some row
  pub opened : row.lifecycle_state ≡ Lifecycle.opened
  pub keyed : has_key key row ≡ true

find-append_new :
    (q : Row) (rows : List Row) → has_id q.id rows ≡ false → find q.id (rows ++ q ∷ []) ≡ some q
unfolding find
find-append_new q rows n = rw find-append (rw n (rw eq_refl refl))

keyed_self : (c : Candidate) (id ts : String) → has_key c.dedup_key (new_row id c ts) ≡ true
unfolding has_key new_row
keyed_self c id ts = eq_refl c.dedup_key

keyed-updated :
    (key ts : String) (c : Candidate) (r : Row)
    → has_key key (updated (opened_update c ts) r) ≡ has_key key r
unfolding has_key updated
keyed-updated key ts c r = refl

open-updated :
    (ts : String) (c : Candidate) (r : Row)
    → (updated (opened_update c ts) r).lifecycle_state ≡ Lifecycle.opened
unfolding updated opened_update
open-updated ts c r = refl

-- The step for an active candidate leaves an open incident with its key.
Effect-OpenFor :
    {c : Candidate} {ts : String} {rows rows' : List Row}
    → c.active ≡ true
    → Effect c ts rows rows'
    → OpenFor c.dedup_key rows'
Effect-OpenFor a (passed i e) = cc (a, i)
Effect-OpenFor a (kept r s o e) = record {
  id = r.id;
  row = r;
  found = rw e s.found;
  opened = o;
  keyed = s.keyed;
}
Effect-OpenFor {c} {ts} {rows} a (refreshed r s e) = record {
  id = r.id;
  row = updated (opened_update c ts) r;
  found = rw e (rw find-update (rw eq_refl (rw s.found refl)));
  opened = open-updated ts c r;
  keyed = keyed-updated c.dedup_key ts c r ∙ s.keyed;
}
Effect-OpenFor {c} {ts} {rows} a (inserted id n e) = record {
  id = id;
  row = new_row id c ts;
  found = rw e (unfold new_row in find-append_new (new_row id c ts) rows n);
  opened = unfold new_row in refl;
  keyed = keyed_self c id ts;
}

-- The other candidates leave it open.
After-OpenFor :
    {key ts : String} {rows rows' : List Row}
    → ((i : String) (r : Row) → find i rows ≡ some r → After ts i rows' r)
    → OpenFor key rows
    → OpenFor key rows'
After-OpenFor {key} {ts} {rows} {rows'} after o =
    let a = after o.id o.row o.found in stays a.row a.found a.revived
  where
    stays : (s : Row) → find o.id rows' ≡ some s → Revived ts o.row s → OpenFor key rows'
    stays s f (left e) = record {
      id = o.id;
      row = s;
      found = f;
      opened = rw e o.opened;
      keyed = rw e o.keyed;
    }
    stays s f (taken c a e) = record {
      id = o.id;
      row = s;
      found = f;
      opened = rw e (open-updated ts c o.row);
      keyed = rw e (keyed-updated key ts c o.row ∙ o.keyed);
    }

active_keys-cons :
    (key : String) (c : Candidate) (cs : List Candidate)
    → elem key (active_keys (c ∷ cs))
      ≡ (c.active && str_eq c.dedup_key key || elem key (active_keys cs))
unfolding active_keys
active_keys-cons key c cs = ground arith

sync_candidates-OpenFor :
    (env : Env) (ts key : String) (cs : List Candidate) (st st' : Sync)
    → sync_candidates env ts cs st ≡ some st'
    → HasUniqueIds st.tables.incidents
    → elem key (active_keys cs) ≡ true
    → OpenFor key st'.tables.incidents
unfolding sync_candidates
sync_candidates-OpenFor env ts key [] st st' h n k = absurd (unfold active_keys in cc k)
sync_candidates-OpenFor env ts key (c ∷ cs) st st' h n k =
    elim (Option-cases (sync_candidate env ts c st)) [
      | inl e ↦ absurd (ground (arith, e))
      | inr (u, e) ↦
          let effect = sync_candidate-Effect env ts c st u e n in
          let n' = Effect-HasUniqueIds effect n in
          let rest = rw (e, sync_candidates) at h in
          elim (Bool-cases (c.active && str_eq c.dedup_key key)) [
            | inl own ↦
                subst (λ j. OpenFor j st'.tables.incidents)
                  ((eq_iff c.dedup_key key).0 (ground arith))
                  (After-OpenFor (sync_candidates-Synced env ts cs u st' rest n').after
                    (Effect-OpenFor (ground arith) effect))
            | inr other ↦
                sync_candidates-OpenFor env ts key cs u st' rest n'
                  (ground (arith, active_keys-cons key c cs, other))
          ]
    ]

-- A supported open incident is left alone by `_resolve_stale`.
settled_supported :
    (env : Env) (cs : List Candidate) (now : ℕ) (key : String) (r : Row)
    → elem key (active_keys cs) ≡ true
    → key ≢ ""
    → has_key key r ≡ true
    → r.lifecycle_state ≡ Lifecycle.opened
    → settled env cs now r ≡ r
unfolding settled is_supported has_key same_lifecycle
settled_supported env cs now key r k ne h o = elim (Option-cases r.dedup_key) [
  | inl e ↦ absurd (ground (arith, e))
  | inr (j, e) ↦
      let same : j ≡ key = (eq_iff j key).0 (ground (arith, e)) in
      ground (arith, e, same, eq_iff key "", eq_iff j "")
]

-- After a synchronisation that returned event names, every key of an active candidate, unless it
-- is the empty text, is the key of an open incident. The ids of the incidents were unique before.
pub sync-OpenFor :
    (env : Env) (cs : List Candidate) (now : ℕ) (t t' : Tables) (used : ℕ) (names : List EventName)
    → sync env cs now t used ≡ (t', some names)
    → HasUniqueIds t.incidents
    → (key : String) → elem key (active_keys cs) ≡ true
    → key ≢ ""
    → OpenFor key t'.incidents
sync-OpenFor env cs now t t' used names h n key k ne =
    let p = sync-Phases env cs now t t' used names h in
    let start : Sync = record { tables = t; events = []; used = used } in
    let o = sync_candidates-OpenFor env (env.iso now) key cs start p.middle p.candidates n k in
    let s = sync_candidates-Synced env (env.iso now) cs start p.middle p.candidates n in
    record {
      id = o.id;
      row = o.row;
      found =
          ap (λ (x : Tables). find o.id x.incidents) p.tables
          ∙ find-resolve_stale env cs now p.middle {st' = p.last} p.stale s.unique o.id
          ∙ ap (Option.map (settled env cs now)) o.found
          ∙ ap some (settled_supported env cs now key o.row k ne o.keyed o.opened);
      opened = o.opened;
      keyed = o.keyed;
    }
