-- ===== src/Incident/Lifecycle/Moves.antt =====
-- How a synchronisation moves each incident along its lifecycle.
use zigbeelens.Common.{
  ℕ, String, ◌≡◌, refl, sym, ◌∙◌, ap, subst, true, false, some, List, [], ◌∷◌, ◌++◌, arith, str_eq,
  eq_iff, Bool-cases, Option-cases, inl, inr,
}
use zigbeelens.Incident.Types.{Candidate, Row, Tables, EventName}
use zigbeelens.Incident.Store.{is_active, updated}
use zigbeelens.Incident.Store.Rows.{
  find, has_id, HasUniqueIds, find-update, find-append, has_id-append, find-has_id,
  update-HasUniqueIds,
}
use zigbeelens.Incident.Lifecycle.{
  Env, Sync, opened_update, new_row, sync_candidate, sync_candidates, resolve_stale, sync, close,
}
use zigbeelens.Incident.Lifecycle.Effect.{
  Effect, passed, kept, refreshed, inserted, sync_candidate-Effect,
}

-- What the candidates do to one row: nothing, or an update from one of them to an active row.
pub data Revived (ts : String) (r r' : Row) : Type 0 where
  left : r' ≡ r → Revived ts r r'
  taken :
      (c : Candidate) → is_active r ≡ true → r' ≡ updated (opened_update c ts) r → Revived ts r r'

Revived-trans : {ts : String} {r s t : Row} → Revived ts r s → Revived ts s t → Revived ts r t
unfolding updated opened_update
Revived-trans (left p) (left q) = left (q ∙ p)
Revived-trans (left p) (taken c a q) = taken c (ground (arith, p)) (ground (arith, p, q))
Revived-trans (taken c a p) (left q) = taken c a (q ∙ p)
Revived-trans (taken c a p) (taken d b q) = taken d a (ground (arith, p, q))

find→has_id : (i : String) (rows : List Row) {r : Row} → find i rows ≡ some r → has_id i rows ≡ true
find→has_id i rows {r} f = elim (Bool-cases (has_id i rows)) [
  | inl e ↦ e
  | inr e ↦ cc (f, find-has_id i rows e)
]

-- The row that an id finds after the step, and how it came about.
pub record After (ts : String) (i : String) (rows' : List Row) (r : Row) : Type 0 where
  pub row : Row
  pub found : find i rows' ≡ some row
  pub revived : Revived ts r row

Effect-After :
    {c : Candidate} {ts : String} {rows rows' : List Row} (i : String) (r : Row)
    → Effect c ts rows rows'
    → find i rows ≡ some r
    → After ts i rows' r
Effect-After i r (passed _ e) f = record { row = r; found = rw e f; revived = left refl }
Effect-After i r (kept _ _ _ e) f = record { row = r; found = rw e f; revived = left refl }
Effect-After {c} {ts} {rows} i r (refreshed q s e) f = elim (Bool-cases (str_eq q.id i)) [
  | inr other ↦ record { row = r; found = rw e (rw find-update (rw other f)); revived = left refl }
  | inl own ↦
      let same : q ≡ r = cc (s.found, f, ap (λ j. find j rows) ((eq_iff q.id i).0 own)) in
      record {
        row = updated (opened_update c ts) r;
        found = rw e (rw find-update (rw own (rw f refl)));
        revived = taken c (ap is_active (sym same) ∙ s.active) refl;
      }
]
Effect-After {rows = rows} i r (inserted id new e) f = record {
  row = r;
  found = rw e (rw find-append (rw (find→has_id i rows {r = r} f) f));
  revived = left refl;
}

append-HasUniqueIds :
    (rows : List Row) (q : Row)
    → has_id q.id rows ≡ false
    → HasUniqueIds rows
    → HasUniqueIds (rows ++ q ∷ [])
append-HasUniqueIds [] q n h = (refl, tt)
append-HasUniqueIds (r ∷ rows) q n h = (
  ground (arith, has_id-append r.id rows (q ∷ []), eq_iff r.id q.id, eq_iff q.id r.id),
  append-HasUniqueIds rows q (ground arith) h.1,
)

pub Effect-HasUniqueIds :
    {c : Candidate} {ts : String} {rows rows' : List Row}
    → Effect c ts rows rows'
    → HasUniqueIds rows
    → HasUniqueIds rows'
Effect-HasUniqueIds (passed _ e) h = subst HasUniqueIds (sym e) h
Effect-HasUniqueIds (kept _ _ _ e) h = subst HasUniqueIds (sym e) h
Effect-HasUniqueIds {c} {ts} {rows} (refreshed q s e) h =
    subst HasUniqueIds (sym e) (update-HasUniqueIds q.id (opened_update c ts) rows h)
Effect-HasUniqueIds {c} {ts} {rows} (inserted id new e) h =
    subst HasUniqueIds (sym e)
      (append-HasUniqueIds rows (new_row id c ts) (unfold new_row in new) h)

-- What the loop over the candidates leaves behind.
pub record Synced (ts : String) (rows rows' : List Row) : Type 0 where
  pub unique : HasUniqueIds rows'
  pub after : (i : String) (r : Row) → find i rows ≡ some r → After ts i rows' r

Synced-step :
    {c : Candidate} {ts : String} {a b d : List Row}
    → HasUniqueIds a
    → Effect c ts a b
    → (HasUniqueIds b → Synced ts b d)
    → Synced ts a d
Synced-step n e rest = record {
  unique = (rest (Effect-HasUniqueIds e n)).unique;
  after = λ i r f.
      let first = Effect-After i r e f in
      let last = (rest (Effect-HasUniqueIds e n)).after i first.row first.found in
      record {
        row = last.row;
        found = last.found;
        revived = Revived-trans first.revived last.revived;
      };
}

pub sync_candidates-Synced :
    (env : Env) (ts : String) (cs : List Candidate) (st st' : Sync)
    → sync_candidates env ts cs st ≡ some st'
    → HasUniqueIds st.tables.incidents
    → Synced ts st.tables.incidents st'.tables.incidents
unfolding sync_candidates
sync_candidates-Synced env ts [] st st' h n =
    let same : st ≡ st' = cc h in
    rw (← same)
      (record { unique = n; after = λ i r f. record { row = r; found = f; revived = left refl } })
sync_candidates-Synced env ts (c ∷ cs) st st' h n =
    elim (Option-cases (sync_candidate env ts c st)) [
      | inl e ↦ absurd (ground (arith, e))
      | inr (u, e) ↦
          Synced-step n (sync_candidate-Effect env ts c st u e n)
            (sync_candidates-Synced env ts cs u st' (rw (e, sync_candidates) at h))
    ]

-- The two phases of a synchronisation that did not raise.
pub record Phases (env : Env) (cs : List Candidate) (now : ℕ) (t t' : Tables) (used : ℕ)
    (names : List EventName) : Type 0 where
  pub middle : Sync
  pub last : Sync
  pub candidates :
      sync_candidates env (env.iso now) cs (record { tables = t; events = []; used = used })
      ≡ some middle
  pub stale : resolve_stale env cs now middle ≡ some last
  pub tables : t' ≡ last.tables
  pub names_closed : names ≡ (close last).events

pub sync-Phases :
    (env : Env) (cs : List Candidate) (now : ℕ) (t t' : Tables) (used : ℕ) (names : List EventName)
    → sync env cs now t used ≡ (t', some names)
    → Phases env cs now t t' used names
unfolding sync
sync-Phases env cs now t t' used names h =
    elim (Option-cases
      (sync_candidates env (env.iso now) cs (record { tables = t; events = []; used = used }))) [
        | inl e ↦ absurd (ground (arith, e))
        | inr (m, e) ↦ elim (Option-cases (resolve_stale env cs now m)) [
          | inl f ↦ absurd (ground (arith, e, f))
          | inr (l, f) ↦ record {
            middle = m;
            last = l;
            candidates = e;
            stale = f;
            tables = ground (arith, e, f);
            names_closed = ground (arith, e, f);
          }
        ]
      ]
