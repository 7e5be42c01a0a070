-- ===== src/Incident/Store/Rows.antt =====
-- Laws of the statements on `incidents`: a row is found by its id.
use zigbeelens.Common.{
  String, ◌≡◌, refl, Bool, false, ◌||◌, Option, none, some, List, [], ◌∷◌, ◌++◌, arith,
  if◌then◌else◌, str_eq, eq_iff, any,
}
use mathlib.Core.Option
use zigbeelens.Incident.Types.{Row}
use zigbeelens.Incident.Store.{Update, update_incident, updated}

-- The row with an id.
unfoldable pub find : String → List Row → Option Row
find i [] = none
find i (r ∷ rs) = if str_eq r.id i then some r else find i rs

abbrev pub has_id : String → List Row → Bool
has_id i = any (λ r. str_eq r.id i)

-- The primary key of `incidents`.
abbrev pub HasUniqueIds : List Row → Type 0
HasUniqueIds [] = Unit
HasUniqueIds (r ∷ rs) = (has_id r.id rs ≡ false) × HasUniqueIds rs

pub find-update :
    (i j : String) (u : Update) (rs : List Row)
    → find i (update_incident j u rs)
      ≡ (if str_eq j i then Option.map (updated u) (find i rs) else find i rs)
unfolding find update_incident
find-update i j u [] = ground arith
find-update i j u (r ∷ rs) =
    ground (arith, find-update i j u rs, eq_iff r.id i, eq_iff r.id j, eq_iff j i)

pub find-append :
    (i : String) (rs ss : List Row)
    → find i (rs ++ ss) ≡ (if has_id i rs then find i rs else find i ss)
unfolding find
find-append i [] ss = refl
find-append i (r ∷ rs) ss = ground (arith, find-append i rs ss)

pub has_id-append :
    (i : String) (rs ss : List Row) → has_id i (rs ++ ss) ≡ (has_id i rs || has_id i ss)
has_id-append i [] ss = refl
has_id-append i (r ∷ rs) ss = ground (arith, has_id-append i rs ss)

pub find-has_id : (i : String) (rs : List Row) → has_id i rs ≡ false → find i rs ≡ none
unfolding find
find-has_id i [] h = refl
find-has_id i (r ∷ rs) h = ground (arith, find-has_id i rs)

pub has_id-update :
    (i j : String) (u : Update) (rs : List Row) → has_id i (update_incident j u rs) ≡ has_id i rs
unfolding update_incident
has_id-update i j u [] = refl
has_id-update i j u (r ∷ rs) = ground (arith, has_id-update i j u rs)

pub update-HasUniqueIds :
    (j : String) (u : Update) (rs : List Row)
    → HasUniqueIds rs
    → HasUniqueIds (update_incident j u rs)
unfolding update_incident
update-HasUniqueIds j u [] h = tt
update-HasUniqueIds j u (r ∷ rs) h =
    (ground (arith, has_id-update r.id j u rs, h.0), update-HasUniqueIds j u rs h.1)
