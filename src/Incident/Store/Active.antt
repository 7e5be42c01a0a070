-- ===== src/Incident/Store/Active.antt =====
-- `list_active_incidents`: the active rows, each with the id that finds it, in the order of the
-- statement.
use zigbeelens.Common.{
  String, ◌≡◌, refl, ◌∙◌, Bool, true, false, ◌||◌, some, List, [], ◌∷◌, arith, str_eq, eq_iff,
  eq_refl, filter, All, Bool-cases, inl, inr,
}
use zigbeelens.Incident.Types.{Row}
use zigbeelens.Incident.Store.{is_active, is_before, insert_row, order_rows, list_active_incidents}
use zigbeelens.Incident.Store.Rows.{find, has_id, HasUniqueIds}

-- Rows of a table, each the one that its id finds.
abbrev pub Linked : List Row → List Row → Type 0
Linked table = All (λ r. find r.id table ≡ some r)

Linked-cons :
    (r : Row) (table l : List Row) → has_id r.id l ≡ false → Linked table l → Linked (r ∷ table) l
unfolding find
Linked-cons r table [] n h = tt
Linked-cons r table (s ∷ l) n h = (
  ground (arith, h.0, eq_iff s.id r.id, eq_iff r.id s.id),
  Linked-cons r table l (ground arith) h.1,
)

has_id-filter :
    (i : String) (p : Row → Bool) (rs : List Row)
    → has_id i rs ≡ false
    → has_id i (filter p rs) ≡ false
has_id-filter i p [] h = refl
has_id-filter i p (r ∷ rs) h = ground (arith, has_id-filter i p rs)

pub Linked-filter : (p : Row → Bool) (rs : List Row) → HasUniqueIds rs → Linked rs (filter p rs)
unfolding find
Linked-filter p [] h = tt
Linked-filter p (r ∷ rs) h =
    let rest =
      Linked-cons r rs (filter p rs) (has_id-filter r.id p rs h.0) (Linked-filter p rs h.1) in
    elim (Bool-cases (p r)) [
      | inl e ↦ rw e (ground (arith, eq_refl r.id), rest)
      | inr e ↦ rw e rest
    ]

filter-HasUniqueIds :
    (p : Row → Bool) (rs : List Row) → HasUniqueIds rs → HasUniqueIds (filter p rs)
filter-HasUniqueIds p [] h = tt
filter-HasUniqueIds p (r ∷ rs) h = elim (Bool-cases (p r)) [
  | inl e ↦ rw e (has_id-filter r.id p rs h.0, filter-HasUniqueIds p rs h.1)
  | inr e ↦ rw e (filter-HasUniqueIds p rs h.1)
]

All-insert_row {ℓ} :
    (P : Row → Type ℓ) (r : Row) (rs : List Row) → P r → All P rs → All P (insert_row r rs)
unfolding insert_row
All-insert_row P r [] h hs = (h, tt)
All-insert_row P r (s ∷ rs) h hs = elim (Bool-cases (is_before r s)) [
  | inl e ↦ rw e (h, hs)
  | inr e ↦ rw e (hs.0, All-insert_row P r rs h hs.1)
]

All-order_rows {ℓ} : (P : Row → Type ℓ) (rs : List Row) → All P rs → All P (order_rows rs)
unfolding order_rows
All-order_rows P [] h = tt
All-order_rows P (r ∷ rs) h = All-insert_row P r (order_rows rs) h.0 (All-order_rows P rs h.1)

has_id-insert_row :
    (i : String) (r : Row) (rs : List Row)
    → has_id i (insert_row r rs) ≡ (str_eq r.id i || has_id i rs)
unfolding insert_row
has_id-insert_row i r [] = refl
has_id-insert_row i r (s ∷ rs) = ground (arith, has_id-insert_row i r rs)

has_id-order_rows : (i : String) (rs : List Row) → has_id i (order_rows rs) ≡ has_id i rs
unfolding order_rows
has_id-order_rows i [] = refl
has_id-order_rows i (r ∷ rs) =
    ground (arith, has_id-insert_row i r (order_rows rs), has_id-order_rows i rs)

insert_row-HasUniqueIds :
    (r : Row) (rs : List Row)
    → has_id r.id rs ≡ false
    → HasUniqueIds rs
    → HasUniqueIds (insert_row r rs)
unfolding insert_row
insert_row-HasUniqueIds r [] n h = (refl, tt)
insert_row-HasUniqueIds r (s ∷ rs) n h = elim (Bool-cases (is_before r s)) [
  | inl e ↦ rw e (n, h)
  | inr e ↦ rw e (
    ground (arith, has_id-insert_row s.id r rs, eq_iff r.id s.id, eq_iff s.id r.id),
    insert_row-HasUniqueIds r rs (ground arith) h.1,
  )
]

order_rows-HasUniqueIds : (rs : List Row) → HasUniqueIds rs → HasUniqueIds (order_rows rs)
unfolding order_rows
order_rows-HasUniqueIds [] h = tt
order_rows-HasUniqueIds (r ∷ rs) h =
    insert_row-HasUniqueIds r (order_rows rs) (has_id-order_rows r.id rs ∙ h.0)
      (order_rows-HasUniqueIds rs h.1)

-- The rows of the list are those that their ids find, and no id comes twice.
pub list_active-Linked : (rs : List Row) → HasUniqueIds rs → Linked rs (list_active_incidents rs)
unfolding list_active_incidents
list_active-Linked rs h =
    All-order_rows (λ r. find r.id rs ≡ some r) _ (Linked-filter is_active rs h)

pub list_active-HasUniqueIds :
    (rs : List Row) → HasUniqueIds rs → HasUniqueIds (list_active_incidents rs)
unfolding list_active_incidents
list_active-HasUniqueIds rs h = order_rows-HasUniqueIds _ (filter-HasUniqueIds is_active rs h)

find-active :
    (i : String) (rs : List Row) {r : Row}
    → find i rs ≡ some r
    → is_active r ≡ true
    → has_id i (filter is_active rs) ≡ true
unfolding find
find-active i [] f a = cc
find-active i (s ∷ rs) {r} f a = ground (arith, find-active i rs {r = r})

-- An active row that its id finds is in the list.
pub list_active_has :
    (i : String) (rs : List Row) {r : Row}
    → find i rs ≡ some r
    → is_active r ≡ true
    → has_id i (list_active_incidents rs) ≡ true
unfolding list_active_incidents
list_active_has i rs f a = has_id-order_rows i (filter is_active rs) ∙ find-active i rs f a
