-- ===== src/Diagnostics/Coordinator/Snapshots.antt =====
-- The dictionary of snapshots, and the order of the snapshots.
use Prim.Native.Nat.{Ordering}
use Prim.Native.String as Str
use zigbeelens.Common.{
  String, ◌≡◌, refl, ap, ◌∙◌, subst, true, false, none, some, List, [], ◌∷◌, map, elem, sorted,
  insert_sorted, str_eq, str_leb, eq_iff, eq_refl, ◌⊎◌, arith, All, Bool-cases, Option-cases, inl,
  inr,
}
use zigbeelens.Common.Order.{sort_with, insert_with}
use zigbeelens.Diagnostics.Service.{NetworkEvaluationSnapshot}
use zigbeelens.Diagnostics.Coordinator.{
  includes, get_snapshot, put_snapshot, ordered_snapshots, universe_matches, collect,
  complete_snapshots,
}

-- Adjacent texts are in order.
abbrev IsOrdered : List String → Type 0
IsOrdered [] = Unit
IsOrdered (x ∷ []) = Unit
IsOrdered (x ∷ y ∷ ys) = (str_leb x y ≡ true) × IsOrdered (y ∷ ys)

insert_ordered : (x : String) (ys : List String) → IsOrdered (x ∷ ys) → insert_sorted x ys ≡ x ∷ ys
insert_ordered x [] h = refl
insert_ordered x (y ∷ ys) h = rw h.0 refl

sorted_ordered : (xs : List String) → IsOrdered xs → sorted xs ≡ xs
sorted_ordered [] h = refl
sorted_ordered (x ∷ []) h = refl
sorted_ordered (x ∷ y ∷ ys) h = rw (sorted_ordered (y ∷ ys) h.1) (rw h.0 refl)

compare_flip : (x y : String) → Str.compare x y ≡ Ordering.gt → Str.compare y x ≡ Ordering.lt
compare_flip Str.[] Str.[] h = absurd (ground (arith, h, Str.compare.nil-nil))
compare_flip Str.[] (Str.◌∷◌ d t) h = absurd (ground (arith, h, Str.compare.nil-cons d t))
compare_flip (Str.◌∷◌ c s) Str.[] h = Str.compare.nil-cons c s
compare_flip (Str.◌∷◌ c s) (Str.◌∷◌ d t) h =
    rw (Str.compare.cons-cons d c t s)
      (ground (arith, rw (Str.compare.cons-cons c d s t) at h, compare_flip s t))

str_leb_total : (x y : String) → str_leb x y ≡ false → str_leb y x ≡ true
str_leb_total x y h = ground (arith, h, compare_flip x y)

insert-IsOrdered : (x : String) (ys : List String) → IsOrdered ys → IsOrdered (insert_sorted x ys)
insert-IsOrdered x [] h = tt
insert-IsOrdered x (y ∷ []) h = elim (Bool-cases (str_leb x y)) [
  | inl e ↦ rw e (e, tt)
  | inr e ↦ rw e (str_leb_total x y e, tt)
]
insert-IsOrdered x (y ∷ z ∷ zs) h =
    let rest = insert-IsOrdered x (z ∷ zs) h.1 in
    elim (Bool-cases (str_leb x y)) [
      | inl e ↦ rw e (e, h)
      | inr e ↦ elim (Bool-cases (str_leb x z)) [
        | inl f ↦ rw (e, f) (str_leb_total x y e, (f, h.1))
        | inr f ↦ rw (e, f) (h.0, rw f at rest)
      ]
    ]

sorted-IsOrdered : (xs : List String) → IsOrdered (sorted xs)
sorted-IsOrdered [] = tt
sorted-IsOrdered (x ∷ xs) = insert-IsOrdered x (sorted xs) (sorted-IsOrdered xs)

pub sorted_twice : (xs : List String) → sorted (sorted xs) ≡ sorted xs
sorted_twice xs = sorted_ordered (sorted xs) (sorted-IsOrdered xs)

All-within :
    (xs ys : List String)
    → ((x : String) → elem x ys ≡ true → elem x xs ≡ true)
    → All (λ x. elem x xs ≡ true) ys
All-within xs [] h = tt
All-within xs (y ∷ ys) h =
    (h y (ground (arith, eq_refl y)), All-within xs ys (λ x e. h x (ground (arith, e))))

pub All-elem : (xs : List String) → All (λ x. elem x xs ≡ true) xs
All-elem xs = All-within xs xs (λ x e. e)

includes-All : (xs ys : List String) → All (λ x. elem x xs ≡ true) ys → includes xs ys ≡ true
includes-All xs [] h = refl
includes-All xs (y ∷ ys) h = rw h.0 (includes-All xs ys h.1)

module _ {C : Type 0} where
  insert_ids :
      (x : NetworkEvaluationSnapshot C) (xs : List (NetworkEvaluationSnapshot C))
      → map (λ s. s.network_id) (insert_with (λ a b. str_leb a.network_id b.network_id) x xs)
        ≡ insert_sorted x.network_id (map (λ s. s.network_id) xs)
  unfolding insert_with
  insert_ids x [] = refl
  insert_ids x (y ∷ ys) = elim (Bool-cases (str_leb x.network_id y.network_id)) [
    | inl e ↦ rw e refl
    | inr e ↦ rw e (ap (λ l. y.network_id ∷ l) (insert_ids x ys))
  ]

  -- The order of the snapshots is that of their networks.
  pub ids-ordered_snapshots :
      (xs : List (NetworkEvaluationSnapshot C))
      → map (λ s. s.network_id) (ordered_snapshots xs) ≡ sorted (map (λ s. s.network_id) xs)
  unfolding ordered_snapshots sort_with
  ids-ordered_snapshots [] = refl
  ids-ordered_snapshots (x ∷ xs) =
      insert_ids x (ordered_snapshots xs)
      ∙ ap (insert_sorted x.network_id) (ids-ordered_snapshots xs)

  pub ids-sort_with :
      (xs : List (NetworkEvaluationSnapshot C))
      → map (λ s. s.network_id) (sort_with (λ a b. str_leb a.network_id b.network_id) xs)
        ≡ sorted (map (λ s. s.network_id) xs)
  unfolding ordered_snapshots
  ids-sort_with = ids-ordered_snapshots

  pub same_universe :
      (ids : List String) (dict : List (String × NetworkEvaluationSnapshot C))
      → map (λ e. e.0) dict ≡ ids
      → universe_matches ids dict ≡ true
  unfolding universe_matches
  same_universe ids dict h = let own = includes-All ids ids (All-elem ids) in rw h (rw own refl)

  pub includes_keys :
      (ids : List String) (dict : List (String × NetworkEvaluationSnapshot C))
      → universe_matches ids dict ≡ true
      → includes (map (λ e. e.0) dict) ids ≡ true
  unfolding universe_matches
  includes_keys ids dict h = ground (arith, h)

  pub keys-file :
      (xs : List (NetworkEvaluationSnapshot C))
      → map {A = String × NetworkEvaluationSnapshot C} (λ e. e.0) (map (λ s. (s.network_id, s)) xs)
        ≡ map (λ s. s.network_id) xs
  keys-file [] = refl
  keys-file (x ∷ xs) = ap (λ l. x.network_id ∷ l) (keys-file xs)

  -- Every snapshot is filed under its network.
  unfoldable pub IsFiled : List (String × NetworkEvaluationSnapshot C) → Type 0
  IsFiled dict = All (λ e. e.1.network_id ≡ e.0) dict

  pub get_snapshot-IsFiled :
      (id : String) (dict : List (String × NetworkEvaluationSnapshot C))
      → IsFiled dict
      → (s : NetworkEvaluationSnapshot C) → get_snapshot id dict ≡ some s
      → s.network_id ≡ id
  unfolding IsFiled
  get_snapshot-IsFiled id [] h s e = absurd (cc e)
  get_snapshot-IsFiled id ((k, v) ∷ rest) h s e =
      ground (arith, h.0, e, eq_iff k id, get_snapshot-IsFiled id rest h.1 s)

  pub put_snapshot-IsFiled :
      (id : String) (s : NetworkEvaluationSnapshot C)
      (dict : List (String × NetworkEvaluationSnapshot C))
      → s.network_id ≡ id
      → IsFiled dict
      → IsFiled (put_snapshot id s dict)
  unfolding IsFiled
  put_snapshot-IsFiled id s [] e h = (e, tt)
  put_snapshot-IsFiled id s ((k, v) ∷ rest) e h =
      let later = put_snapshot-IsFiled id s rest e h.1 in
      elim (Bool-cases (str_eq k id)) [
        | inl same ↦ rw same (ground (arith, e, same, eq_iff k id), h.1)
        | inr other ↦ rw other (h.0, later)
      ]

  pub file-IsFiled :
      (xs : List (NetworkEvaluationSnapshot C)) → IsFiled (map (λ s. (s.network_id, s)) xs)
  unfolding IsFiled
  file-IsFiled [] = tt
  file-IsFiled (x ∷ xs) = (refl, file-IsFiled xs)

  -- What is collected are the snapshots of the networks asked for, in turn.
  collect_ids :
      (ids : List String) (dict : List (String × NetworkEvaluationSnapshot C))
      → IsFiled dict
      → (ss : List (NetworkEvaluationSnapshot C)) → collect ids dict ≡ some ss
      → map (λ s. s.network_id) ss ≡ ids
  unfolding collect
  collect_ids [] dict h ss e =
      let same : [] ≡ ss = cc e in subst (λ l. map (λ s. s.network_id) l ≡ []) same refl
  collect_ids (id ∷ ids) dict h ss e = elim (Option-cases (get_snapshot id dict)) [
    | inl missing ↦ absurd (ground (arith, missing, e))
    | inr (s, found) ↦ elim (Option-cases (collect ids dict)) [
      | inl missing ↦ absurd (ground (arith, found, missing, e))
      | inr (rest, collected) ↦
          let same : s ∷ rest ≡ ss = ground (arith, found, collected, e) in
          let first = get_snapshot-IsFiled id dict h s found in
          let later = collect_ids ids dict h rest collected in
          subst (λ l. map (λ x. x.network_id) l ≡ id ∷ ids) same (cc (first, later))
    ]
  ]

  get_snapshot-some :
      (id : String) (dict : List (String × NetworkEvaluationSnapshot C))
      → elem id (map (λ e. e.0) dict) ≡ true
      → (s : NetworkEvaluationSnapshot C) × (get_snapshot id dict ≡ some s)
  get_snapshot-some id [] h = absurd (cc h)
  get_snapshot-some id ((k, v) ∷ rest) h = elim (Bool-cases (str_eq k id)) [
    | inl same ↦ (v, rw same refl)
    | inr other ↦
        let later = get_snapshot-some id rest (ground (arith, other, h)) in
        (later.0, rw other later.1)
  ]

  collect-next :
      (id : String) (ids : List String) (dict : List (String × NetworkEvaluationSnapshot C))
      (s : NetworkEvaluationSnapshot C) (ss : List (NetworkEvaluationSnapshot C))
      → get_snapshot id dict ≡ some s
      → collect ids dict ≡ some ss
      → collect (id ∷ ids) dict ≡ some (s ∷ ss)
  unfolding collect
  collect-next id ids dict s ss e f = ground (arith, e, f)

  -- No key is missing where the dictionary has all networks.
  pub collect-some :
      (ids : List String) (dict : List (String × NetworkEvaluationSnapshot C))
      → includes (map (λ e. e.0) dict) ids ≡ true
      → (ss : List (NetworkEvaluationSnapshot C)) × (collect ids dict ≡ some ss)
  unfolding collect
  collect-some [] dict h = ([], refl)
  collect-some (id ∷ ids) dict h =
      let first = get_snapshot-some id dict (ground (arith, h)) in
      let later = collect-some ids dict (ground (arith, h)) in
      (first.0 ∷ later.0, collect-next id ids dict first.0 later.0 first.1 later.1)

  pub complete_cases :
      (ids : List String) (dict : List (String × NetworkEvaluationSnapshot C))
      → IsFiled dict
      → ((ss : List (NetworkEvaluationSnapshot C)) × (complete_snapshots ids dict ≡ some (some ss))
          × (map (λ s. s.network_id) ss ≡ ids)
          × (universe_matches ids dict ≡ true))
        ⊎ (complete_snapshots ids dict ≡ some none)
  unfolding complete_snapshots
  complete_cases ids dict filed = elim (Bool-cases (universe_matches ids dict)) [
    | inl same ↦
        let whole = collect-some ids dict (includes_keys ids dict same) in
        let given = collect_ids ids dict filed whole.0 whole.1 in
        inl (whole.0, rw (same, complete_snapshots) (rw whole.1 refl), given, same)
    | inr other ↦ inr (rw (other, complete_snapshots) refl)
  ]
