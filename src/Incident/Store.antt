-- ===== src/Incident/Store.antt =====
-- The statements of storage/repository.py on the incident tables, as the lifecycle calls them. A
-- statement that violates a primary key raises: `none`.
pub mod Rows
pub mod Active
use zigbeelens.Common.{
  String, Bool, true, false, not, ◌&&◌, ◌||◌, Option, none, some, List, [], ◌∷◌, ◌++◌, map,
  if◌then◌else◌, str_eq, str_leb, any, filter, elem,
}
use zigbeelens.Incident.Types.{
  Lifecycle, Candidate, AffectedDevice, Content, Row, DeviceRow, NetworkRow, Event, Tables,
  same_lifecycle,
}

-- `lifecycle_state IN ('open', 'watching')`
unfoldable pub is_active : Row → Bool
unfolding same_lifecycle
is_active r = not (same_lifecycle r.lifecycle_state Lifecycle.resolved)

-- `dedup_key = ?`, which NULL does not satisfy
unfoldable pub has_key : String → Row → Bool
has_key key r = elim r.dedup_key [ none ↦ false | some k ↦ str_eq k key ]

-- `ORDER BY updated_at DESC LIMIT 1`
unfoldable pub latest : List Row → Option Row
latest [] = none
latest (r ∷ rs) = elim (latest rs) [
  | none ↦ some r
  | some s ↦ if str_leb s.updated_at r.updated_at then some r else some s
]

-- `get_incident_by_dedup_key`, without the network ids that it loads beside the row
unfoldable pub get_incident_by_dedup_key : String → List Row → Option Row
unfolding latest
get_incident_by_dedup_key key rows = latest (filter (λ r. has_key key r && is_active r) rows)

-- `insert_incident`; `id` is the primary key.
unfoldable pub insert_incident : Row → List Row → Option (List Row)
insert_incident r rows = if any (λ s. str_eq s.id r.id) rows then none else some (rows ++ r ∷ [])

-- The arguments of `update_incident`: `none` leaves a column as it is.
pub record Update : Type 0 where
  pub lifecycle_state : Lifecycle
  pub content : Option Content
  pub resolved_at : Option (Option String)
  pub updated_at : String

abbrev keep_or {ℓ} : {A : Type ℓ} → A → Option A → A
keep_or old none = old
keep_or old (some new) = new

unfoldable pub updated : Update → Row → Row
updated u r = record r {
  lifecycle_state = u.lifecycle_state;
  content = keep_or r.content u.content;
  resolved_at = keep_or r.resolved_at u.resolved_at;
  updated_at = u.updated_at;
}

-- `update_incident`: `UPDATE incidents SET … WHERE id = ?`
unfoldable pub update_incident : String → Update → List Row → List Row
unfolding updated
update_incident id u [] = []
update_incident id u (r ∷ rs) =
    (if str_eq r.id id then updated u r else r) ∷ update_incident id u rs

-- The rows of one incident in `incident_devices`; the primary key is the incident, the network and
-- the address.
unfoldable pub insert_devices :
    String → List AffectedDevice → List DeviceRow → Option (List DeviceRow)
insert_devices id [] rows = some rows
insert_devices id (d ∷ ds) rows =
    let row : DeviceRow = record { incident_id = id; device = d } in
    let rest = insert_devices id ds (rows ++ row ∷ []) in
    if any
      (λ s.
        str_eq s.incident_id id
        && str_eq s.device.network_id d.network_id
        && str_eq s.device.ieee_address d.ieee_address)
      rows
    then none
    else rest

-- `list(dict.fromkeys(nid for nid in network_ids if nid))`
unfoldable pub ordered_networks : List String → List String → List String
ordered_networks seen [] = []
ordered_networks seen (n ∷ ns) =
    let fresh = not (str_eq n "") && not (elem n seen) in
    let rest = ordered_networks (if fresh then n ∷ seen else seen) ns in
    if fresh then n ∷ rest else rest

-- `replace_incident_devices_and_networks`
unfoldable pub replace_incident_devices_and_networks :
    String → List AffectedDevice → List String → Tables → Option Tables
unfolding insert_devices ordered_networks
replace_incident_devices_and_networks id devices networks t =
    let others = filter (λ s. not (str_eq s.incident_id id)) t.incident_devices in
    let networks' : List NetworkRow =
      filter (λ s. not (str_eq s.incident_id id)) t.incident_networks
      ++ map (λ n. record { incident_id = id; network_id = n }) (ordered_networks [] networks) in
    elim (insert_devices id devices others) [
      | none ↦ none
      | some rows ↦ some (record t { incident_devices = rows; incident_networks = networks' })
    ]

-- `updated_at DESC, id DESC`
unfoldable pub is_newer : Row → Row → Bool
is_newer a b =
    if str_eq a.updated_at b.updated_at
    then str_leb b.id a.id
    else str_leb b.updated_at a.updated_at

-- `CASE lifecycle_state WHEN 'open' THEN 0 WHEN 'watching' THEN 1 ELSE 2 END, updated_at DESC, id DESC`
unfoldable pub is_before : Row → Row → Bool
unfolding is_newer
is_before a b = elim (a.lifecycle_state) [
  | Lifecycle.opened ↦ elim (b.lifecycle_state) [ Lifecycle.opened ↦ is_newer a b | _ ↦ true ]
  | Lifecycle.watching ↦ elim (b.lifecycle_state) [
    | Lifecycle.opened ↦ false
    | Lifecycle.watching ↦ is_newer a b
    | Lifecycle.resolved ↦ true
  ]
  | Lifecycle.resolved ↦ elim (b.lifecycle_state) [ Lifecycle.resolved ↦ is_newer a b | _ ↦ false ]
]

unfoldable pub insert_row : Row → List Row → List Row
unfolding is_before
insert_row r [] = r ∷ []
insert_row r (s ∷ rs) = if is_before r s then r ∷ s ∷ rs else s ∷ insert_row r rs

unfoldable pub order_rows : List Row → List Row
unfolding insert_row
order_rows [] = []
order_rows (r ∷ rs) = insert_row r (order_rows rs)

-- `list_active_incidents`
unfoldable pub list_active_incidents : List Row → List Row
unfolding order_rows
list_active_incidents rows = order_rows (filter is_active rows)
