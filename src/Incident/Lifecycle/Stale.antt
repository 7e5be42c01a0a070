-- ===== src/Incident/Lifecycle/Stale.antt =====
-- `_resolve_stale`, row by row: what becomes of each incident depends on its own row, on the
-- candidates and on the time, and not on the order in which the rows are taken.
use zigbeelens.Common.{
  ℕ, String, ◌≡◌, refl, sym, ◌∙◌, ap, false, Option, none, some, List, [], ◌∷◌, arith,
  if◌then◌else◌, str_eq, eq_iff, Bool-cases, Option-cases, inl, inr,
}
use mathlib.Core.Option
use zigbeelens.Incident.Types.{Lifecycle, Candidate, Row, same_lifecycle}
use zigbeelens.Incident.Store.{Update, is_active, update_incident, updated, list_active_incidents}
use zigbeelens.Incident.Store.Rows.{find, has_id, HasUniqueIds, find-update}
use zigbeelens.Incident.Store.Active.{
  Linked, list_active-Linked, list_active-HasUniqueIds, list_active_has,
}
use zigbeelens.Incident.Lifecycle.Effect.{incidents-refresh}
use zigbeelens.Incident.Lifecycle.{
  Env, Sync, parse_ts, opened_update, watch_update, resolve_update, is_settled, is_supported,
  candidate_by_key, reopen_incident, fade, resolve_row, resolve_rows, resolve_stale,
}

module _ (env : Env) (cs : List Candidate) (now : ℕ) where
  -- The update of a row that an active candidate supports.
  revival : Row → Option Update
  revival row = elim row.dedup_key [
    | none ↦ none
    | some key ↦ Option.map (λ c. opened_update c (env.iso now)) (candidate_by_key key cs)
  ]

  -- The update of a row by age.
  ageing : Row → Option Update
  ageing row = elim (parse_ts env row.updated_at) [
    | none ↦ none
    | some since ↦ elim row.lifecycle_state [
      | Lifecycle.opened ↦ some (watch_update (env.iso now))
      | Lifecycle.watching ↦
          if is_settled env now since then some (resolve_update (env.iso now)) else none
      | Lifecycle.resolved ↦ none
    ]
  ]

  -- The update that a row gets, if any.
  pub row_update : Row → Option Update
  unfolding revival ageing
  row_update row =
      if is_supported cs row
      then (if same_lifecycle row.lifecycle_state Lifecycle.watching then revival row else none)
      else ageing row

  abbrev apply : Option Update → Row → Row
  apply none r = r
  apply (some u) r = updated u r

  -- What becomes of a row.
  unfoldable pub settled : Row → Row
  unfolding row_update
  settled row = apply (row_update row) row

  abbrev apply_to : Row → Option Update → List Row → List Row
  apply_to row none rows = rows
  apply_to row (some u) rows = update_incident row.id u rows

  incidents-fade :
      (row : Row) (st : Sync)
      → (fade env now row st).tables.incidents ≡ apply_to row (ageing row) st.tables.incidents
  unfolding fade ageing
  incidents-fade row st = ground arith

  incidents-revive :
      (row : Row) (key : String) (c : Candidate) (st st' : Sync)
      → row.dedup_key ≡ some key
      → candidate_by_key key cs ≡ some c
      → reopen_incident row c (env.iso now) st ≡ some st'
      → st'.tables.incidents ≡ apply_to row (revival row) st.tables.incidents
  unfolding reopen_incident revival
  incidents-revive row key c st st' k e h = ground (
    arith,
    k,
    e,
    incidents-refresh c row.id "Incident reopened: "
        "Underlying signal returned during the watch period." (env.iso now) st st' h,
  )

  incidents-resolve_row :
      (row : Row) (st : Sync) {st' : Sync}
      → resolve_row env cs now row st ≡ some st'
      → st'.tables.incidents ≡ apply_to row (row_update row) st.tables.incidents
  unfolding resolve_row row_update
  incidents-resolve_row row st {st'} h = elim (Bool-cases (is_supported cs row)) [
    | inr e ↦ rw e (ground (arith, e, incidents-fade row st))
    | inl e ↦ elim (Bool-cases (same_lifecycle row.lifecycle_state Lifecycle.watching)) [
      | inr w ↦ rw (e, w) (ground (arith, e, w))
      | inl w ↦ elim (Option-cases row.dedup_key) [
        | inl k ↦ absurd (ground (arith, k, e, w))
        | inr (key, k) ↦ elim (Option-cases (candidate_by_key key cs)) [
          | inl ec ↦ absurd (ground (arith, k, e, w, ec))
          | inr (c, ec) ↦
              rw (e, w) (incidents-revive row key c st st' k ec (ground (arith, k, e, w, ec)))
        ]
      ]
    ]
  ]

  find-apply_to :
      (i : String) (row : Row) (u : Option Update) (rows : List Row)
      → find i (apply_to row u rows)
        ≡ (if str_eq row.id i then Option.map (apply u) (find i rows) else find i rows)
  find-apply_to i row none rows = ground arith
  find-apply_to i row (some u) rows = find-update i row.id u rows

  Linked-apply_to :
      (row : Row) (u : Option Update) (rows l : List Row)
      → has_id row.id l ≡ false
      → Linked rows l
      → Linked (apply_to row u rows) l
  Linked-apply_to row u rows [] n h = tt
  Linked-apply_to row u rows (s ∷ l) n h = (
    ground (arith, find-apply_to s.id row u rows, h.0, eq_iff row.id s.id, eq_iff s.id row.id),
    Linked-apply_to row u rows l (ground arith) h.1,
  )

  -- One more row is taken: the row's own id finds what becomes of it.
  find-step :
      (r : Row) (l : List Row) (rows rows' : List Row) (i : String)
      → has_id r.id l ≡ false
      → find r.id rows ≡ some r
      → rows' ≡ apply_to r (row_update r) rows
      → (if has_id i l then Option.map settled (find i rows') else find i rows')
        ≡ (if has_id i (r ∷ l) then Option.map settled (find i rows) else find i rows)
  unfolding settled
  find-step r l rows rows' i n f e = elim (Bool-cases (str_eq r.id i)) [
    | inr other ↦ rw e (rw find-apply_to (rw other refl))
    | inl own ↦
        let same : r.id ≡ i = (eq_iff r.id i).0 own in
        rw e (rw find-apply_to (rw own (ground (arith, same, n, f))))
  ]

  find-resolve_rows :
      (l : List Row) (st : Sync) {st' : Sync}
      → resolve_rows env cs now l st ≡ some st'
      → HasUniqueIds l
      → Linked st.tables.incidents l
      → (i : String)
      → find i st'.tables.incidents ≡ (
          if has_id i l
          then Option.map settled (find i st.tables.incidents)
          else find i st.tables.incidents)
  unfolding resolve_rows
  find-resolve_rows [] st h n k i = ground arith
  find-resolve_rows (r ∷ l) st {st'} h n k i = elim (Option-cases (resolve_row env cs now r st)) [
    | inl e ↦ absurd (ground (arith, e))
    | inr (u, e) ↦
        let own = incidents-resolve_row r st {st' = u} e in
        find-resolve_rows l u {st' = st'} (rw (e, resolve_rows) at h) n.1
          (rw own (Linked-apply_to r (row_update r) st.tables.incidents l n.0 k.1)) i
        ∙ find-step r l st.tables.incidents u.tables.incidents i n.0 k.0 own
  ]

  settled_inactive : (r : Row) → is_active r ≡ false → settled r ≡ r
  unfolding settled ageing is_active same_lifecycle
  settled_inactive r h = ground arith

  -- A row that is not in the list is not active, and stays as it is.
  every_row :
      (rows : List Row) (i : String)
      → HasUniqueIds rows
      → (if has_id i (list_active_incidents rows)
          then Option.map settled (find i rows)
          else find i rows)
        ≡ Option.map settled (find i rows)
  every_row rows i n = elim (Bool-cases (has_id i (list_active_incidents rows))) [
    | inl e ↦ rw e refl
    | inr e ↦ elim (Option-cases (find i rows)) [
      | inl f ↦ rw (e, f) refl
      | inr (r, f) ↦ elim (Bool-cases (is_active r)) [
        | inl a ↦ cc (e, list_active_has i rows {r = r} f a)
        | inr a ↦ rw (e, f) (ap some (sym (settled_inactive r a)))
      ]
    ]
  ]

  -- What `_resolve_stale` makes of the incidents.
  pub find-resolve_stale :
      (st : Sync) {st' : Sync}
      → resolve_stale env cs now st ≡ some st'
      → HasUniqueIds st.tables.incidents
      → (i : String) → find i st'.tables.incidents ≡ Option.map settled (find i st.tables.incidents)
  unfolding resolve_stale
  find-resolve_stale st {st'} h n i =
      find-resolve_rows (list_active_incidents st.tables.incidents) st {st' = st'} h
        (list_active-HasUniqueIds st.tables.incidents n) (list_active-Linked st.tables.incidents n)
        i
      ∙ every_row st.tables.incidents i n
