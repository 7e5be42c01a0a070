-- ===== src/Incident/Lifecycle/Effect.antt =====
-- What one candidate does to the incidents: nothing, an update of the incident that it finds, or a
-- new incident.
use zigbeelens.Common.{
  String, ◌≡◌, subst, Bool, true, false, ◌&&◌, some, List, [], ◌∷◌, ◌++◌, arith, str_leb, filter,
  All, Bool-cases, Option-cases, inl, inr,
}
use zigbeelens.Incident.Types.{Lifecycle, Candidate, Row, same_lifecycle}
use zigbeelens.Incident.Store.{
  is_active, has_key, latest, get_incident_by_dedup_key, insert_incident, update_incident,
  replace_incident_devices_and_networks,
}
use zigbeelens.Incident.Store.Rows.{find, has_id, HasUniqueIds}
use zigbeelens.Incident.Store.Active.{Linked-filter}
use zigbeelens.Incident.Lifecycle.{
  Env, Sync, opened_update, new_row, needs_update, refresh, reopen_incident, open_incident,
  sync_candidate,
}

-- The row is the active incident with the key.
pub record Serves (key : String) (rows : List Row) (r : Row) : Type 0 where
  pub found : find r.id rows ≡ some r
  pub active : is_active r ≡ true
  pub keyed : has_key key r ≡ true

pub data Effect (c : Candidate) (ts : String) (rows rows' : List Row) : Type 0 where
  passed : c.active ≡ false → rows' ≡ rows → Effect c ts rows rows'
  kept :
      (r : Row)
      → Serves c.dedup_key rows r
      → r.lifecycle_state ≡ Lifecycle.opened
      → rows' ≡ rows
      → Effect c ts rows rows'
  refreshed :
      (r : Row)
      → Serves c.dedup_key rows r
      → rows' ≡ update_incident r.id (opened_update c ts) rows
      → Effect c ts rows rows'
  inserted :
      (id : String)
      → has_id id rows ≡ false
      → rows' ≡ rows ++ new_row id c ts ∷ []
      → Effect c ts rows rows'

All-filter : (p : Row → Bool) (rs : List Row) → All (λ r. p r ≡ true) (filter p rs)
All-filter p [] = tt
All-filter p (r ∷ rs) = elim (Bool-cases (p r)) [
  | inl e ↦ rw e (e, All-filter p rs)
  | inr e ↦ rw e (All-filter p rs)
]

latest-All {ℓ} :
    (P : Row → Type ℓ) (rs : List Row) → All P rs → (r : Row) → latest rs ≡ some r → P r
unfolding latest
latest-All P [] h r e = absurd (ground arith)
latest-All P (s ∷ rs) h r e = elim (Option-cases (latest rs)) [
  | inl f ↦ subst P (ground (arith, f)) h.0
  | inr (q, f) ↦ elim (Bool-cases (str_leb q.updated_at s.updated_at)) [
    | inl b ↦ subst P (ground (arith, f, b)) h.0
    | inr b ↦ subst P (ground (arith, f, b)) (latest-All P rs h.1 q f)
  ]
]

get-Serves :
    (key : String) (rows : List Row) (r : Row)
    → HasUniqueIds rows
    → get_incident_by_dedup_key key rows ≡ some r
    → Serves key rows r
unfolding get_incident_by_dedup_key
get-Serves key rows r n e =
    let p = λ (s : Row). has_key key s && is_active s in
    let both = latest-All (λ s. p s ≡ true) (filter p rows) (All-filter p rows) r e in
    record {
      found =
          latest-All (λ s. find s.id rows ≡ some s) (filter p rows) (Linked-filter p rows n) r e;
      active = ground arith;
      keyed = ground arith;
    }

pub incidents-refresh :
    (c : Candidate) (id title summary ts : String) (st st' : Sync)
    → refresh c id title summary ts st ≡ some st'
    → st'.tables.incidents ≡ update_incident id (opened_update c ts) st.tables.incidents
unfolding refresh replace_incident_devices_and_networks
incidents-refresh c id title summary ts st st' h = ground arith

open-Effect :
    (env : Env) (c : Candidate) (ts : String) (st st' : Sync)
    → open_incident env c ts st ≡ some st'
    → (has_id (env.new_id st.used) st.tables.incidents ≡ false)
      × (st'.tables.incidents ≡ st.tables.incidents ++ new_row (env.new_id st.used) c ts ∷ [])
unfolding open_incident insert_incident replace_incident_devices_and_networks
open-Effect env c ts st st' h = (ground arith, ground arith)

same_opened : (l : Lifecycle) → same_lifecycle l Lifecycle.opened ≡ true → l ≡ Lifecycle.opened
unfolding same_lifecycle
same_opened l h = ground arith

pub sync_candidate-Effect :
    (env : Env) (ts : String) (c : Candidate) (st st' : Sync)
    → sync_candidate env ts c st ≡ some st'
    → HasUniqueIds st.tables.incidents
    → Effect c ts st.tables.incidents st'.tables.incidents
unfolding sync_candidate
sync_candidate-Effect env ts c st st' h n = elim (Bool-cases c.active) [
  | inr e ↦ passed e (ground (arith, e))
  | inl a ↦ elim (Option-cases (get_incident_by_dedup_key c.dedup_key st.tables.incidents)) [
    | inl e ↦
        let both = open-Effect env c ts st st' (ground (arith, a, e)) in
        inserted (env.new_id st.used) both.0 both.1
    | inr (r, e) ↦
        let serves = get-Serves c.dedup_key st.tables.incidents r n e in
        elim (Bool-cases (same_lifecycle r.lifecycle_state Lifecycle.opened)) [
          | inr w ↦ refreshed r serves (
              incidents-refresh c r.id "Incident reopened: "
                "Underlying signal returned during the watch period." ts st st'
                (unfold reopen_incident in ground (arith, a, e, w)))
          | inl o ↦ elim (Bool-cases (needs_update st.tables r c)) [
            | inl u ↦ refreshed r serves (
                incidents-refresh c r.id "Incident updated: " c.content.summary ts st st'
                  (ground (arith, a, e, o, u)))
            | inr u ↦ kept r serves (same_opened r.lifecycle_state o) (ground (arith, a, e, o, u))
          ]
        ]
  ]
]
