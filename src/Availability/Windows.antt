-- ===== src/Availability/Windows.antt =====
-- `_instability_events` and `_cluster_windows` of topology/passive_hints.py. Instants are
-- microseconds; `parse` stands for `datetime.fromisoformat` with a missing time zone read as UTC,
-- and `norm` for `str(ieee or "").strip().lower()`.
use zigbeelens.Common.{
  ℕ, suc, ◌+◌, String, Bool, ◌&&◌, ◌||◌, not, Option, none, some, List, [], ◌∷◌, ◌++◌, ltb, leb,
  ◌==◌, if◌then◌else◌, str_eq, str_leb, elem, add,
}
use zigbeelens.Common.Order.{sort_with}

pub record Row : Type 0 where
  pub ieee_address : String
  pub to_state : String
  pub changed_at : Option String

pub record Event : Type 0 where
  pub at : ℕ
  pub ieee : String

pub record Window : Type 0 where
  pub start : ℕ
  pub stop : ℕ
  pub devices : List String

abbrev pub passive_hint_max_events_per_device : ℕ
passive_hint_max_events_per_device = 200

-- `timedelta(minutes=PASSIVE_HINT_EVENT_WINDOW_MINUTES)`
abbrev pub gap : ℕ
gap = 300_000_000

-- `_parse_ts`
unfoldable pub parse_ts : (String → Option ℕ) → Option String → Option ℕ
parse_ts parse none = none
parse_ts parse (some value) = if str_eq value "" then none else parse value

-- `per_device.get(ieee, 0)`: how many events of the device were kept.
unfoldable pub kept : String → List Event → ℕ
kept ieee [] = 0
kept ieee (e ∷ es) = if str_eq e.ieee ieee then suc (kept ieee es) else kept ieee es

-- The loop of `_instability_events`, from the newest row on; `events` is in reverse.
unfoldable pub collect_events :
    (String → Option ℕ) → (String → String) → List String → List Row → List Event → List Event
unfolding parse_ts kept
collect_events parse norm known [] events = events
collect_events parse norm known (row ∷ rows) events =
    let ieee = norm row.ieee_address in
    let skip = collect_events parse norm known rows events in
    if not (str_eq row.to_state "offline") || not (elem ieee known)
    then skip
    else elim (parse_ts parse row.changed_at) [
      | none ↦ skip
      | some ts ↦
          let keep =
            collect_events parse norm known rows (record { at = ts; ieee = ieee } ∷ events) in
          if leb passive_hint_max_events_per_device (kept ieee events) then skip else keep
    ]

-- The order of `(item[0], item[1])`
unfoldable pub is_earlier : Event → Event → Bool
is_earlier a b = ltb a.at b.at || ((a.at == b.at) && str_leb a.ieee b.ieee)

-- `reversed(rows)`
abbrev pub reversed {ℓ} : {A : Type ℓ} → List A → List A
reversed [] = []
reversed (x ∷ xs) = reversed xs ++ x ∷ []

-- `_instability_events`
unfoldable pub instability_events :
    (String → Option ℕ) → (String → String) → List String → List Row → List Event
unfolding collect_events is_earlier
instability_events parse norm known rows =
    sort_with is_earlier (collect_events parse norm known (reversed rows) [])

-- The loop of `_cluster_windows` with the window that is open.
unfoldable pub cluster : Window → List Event → List Window
cluster w [] = w ∷ []
cluster w (e ∷ es) =
    let chained = cluster (record w { stop = e.at; devices = add e.ieee w.devices }) es in
    let next = cluster (record { start = e.at; stop = e.at; devices = e.ieee ∷ [] }) es in
    if leb e.at (w.stop + gap) then chained else w ∷ next

-- `_cluster_windows`
unfoldable pub cluster_windows : List Event → List Window
unfolding cluster
cluster_windows [] = []
cluster_windows (e ∷ es) = cluster (record { start = e.at; stop = e.at; devices = e.ieee ∷ [] }) es
