-- ===== src/Common/Order.antt =====
-- `sorted` by a comparison, stable, and what holds of its items and of their order.
use Prim.Native.Nat.{ℕ, ◌≤◌}
use mathlib.Core.Path.{◌≡◌, refl}
use mathlib.Core.Logic.{◌⊎◌, inl, inr}
use mathlib.Core.Bool.{Bool, true, false, ◌||◌}
use mathlib.Core.List.{List, [], ◌∷◌}
use native.Mathlib.Omega.{arith}
use zigbeelens.Common.Tests.{if◌then◌else◌, Bool-cases}
use zigbeelens.Common.Lists.{All, All-map, Some, any, filter, length}

module _ {ℓ} {A : Type ℓ} where
  unfoldable pub insert_with : (A → A → Bool) → A → List A → List A
  insert_with before x [] = x ∷ []
  insert_with before x (y ∷ ys) = if before x y then x ∷ y ∷ ys else y ∷ insert_with before x ys

  unfoldable pub sort_with : (A → A → Bool) → List A → List A
  unfolding insert_with
  sort_with before [] = []
  sort_with before (x ∷ xs) = insert_with before x (sort_with before xs)

module _ {ℓ κ} {A : Type ℓ} (before : A → A → Bool) (P : A → Type κ) where
  pub All-insert_with : (x : A) (ys : List A) → P x → All P ys → All P (insert_with before x ys)
  unfolding insert_with
  All-insert_with x [] p h = (p, tt)
  All-insert_with x (y ∷ ys) p h = elim (Bool-cases (before x y)) [
    | inl e ↦ rw e (p, h)
    | inr e ↦ rw e (h.0, All-insert_with x ys p h.1)
  ]

  pub All-sort_with : (xs : List A) → All P xs → All P (sort_with before xs)
  unfolding sort_with
  All-sort_with [] h = tt
  All-sort_with (x ∷ xs) h = All-insert_with x (sort_with before xs) h.0 (All-sort_with xs h.1)

  All-un_insert : (x : A) (ys : List A) → All P (insert_with before x ys) → P x × All P ys
  unfolding insert_with
  All-un_insert x [] h = h
  All-un_insert x (y ∷ ys) h = elim (Bool-cases (before x y)) [
    | inl e ↦ rw e at h
    | inr e ↦
        let h' : P y × All P (insert_with before x ys) = rw e at h in
        let rest = All-un_insert x ys h'.1 in (rest.0, (h'.0, rest.1))
  ]

  pub sort_with-All : (xs : List A) → All P (sort_with before xs) → All P xs
  unfolding sort_with
  sort_with-All [] h = tt
  sort_with-All (x ∷ xs) h =
      let rest = All-un_insert x (sort_with before xs) h in (rest.0, sort_with-All xs rest.1)

-- A list whose keys never fall.
module _ {ℓ} {A : Type ℓ} (key : A → ℕ) where
  abbrev pub IsRising : List A → Type ℓ
  IsRising [] = Unit
  IsRising (x ∷ xs) = All (λ y. key x ≤ key y) xs × IsRising xs

module _ {ℓ} {A : Type ℓ} (key : A → ℕ) (before : A → A → Bool)
    (true→le : (x y : A) → before x y ≡ true → key x ≤ key y)
    (false→le : (x y : A) → before x y ≡ false → key y ≤ key x) where
  insert_with-IsRising :
      (x : A) (ys : List A) → IsRising key ys → IsRising key (insert_with before x ys)
  unfolding insert_with
  insert_with-IsRising x [] h = (tt, tt)
  insert_with-IsRising x (y ∷ ys) h = elim (Bool-cases (before x y)) [
    | inl e ↦
        let le = true→le x y e in rw e ((le, All-map (λ z yz. omega (arith, le, yz)) ys h.0), h)
    | inr e ↦ rw e (
      All-insert_with before (λ z. key y ≤ key z) x ys (false→le x y e) h.0,
      insert_with-IsRising x ys h.1,
    )
  ]

  pub sort_with-IsRising : (xs : List A) → IsRising key (sort_with before xs)
  unfolding sort_with
  sort_with-IsRising [] = tt
  sort_with-IsRising (x ∷ xs) = insert_with-IsRising x (sort_with before xs) (sort_with-IsRising xs)

module _ {ℓ} {A : Type ℓ} (before : A → A → Bool) (P : A → Type 0) where
  swap_first : (x y : A) (ys : List A) → P x ⊎ Some P ys → P x ⊎ Some P (y ∷ ys)
  swap_first x y ys (inl p) = inl p
  swap_first x y ys (inr q) = inr (inr q)

  Some-un_insert : (x : A) (ys : List A) → Some P (insert_with before x ys) → P x ⊎ Some P ys
  unfolding insert_with
  Some-un_insert x [] h = h
  Some-un_insert x (y ∷ ys) h = elim (Bool-cases (before x y)) [
    | inl e ↦ rw e at h
    | inr e ↦
        let h' : P y ⊎ Some P (insert_with before x ys) = rw e at h in
        elim h' [ inl p ↦ inr (inl p) | inr q ↦ swap_first x y ys (Some-un_insert x ys q) ]
  ]

  pub sort_with-Some : (xs : List A) → Some P (sort_with before xs) → Some P xs
  unfolding sort_with
  sort_with-Some [] h = h
  sort_with-Some (x ∷ xs) h = elim (Some-un_insert x (sort_with before xs) h) [
    | inl p ↦ inl p
    | inr q ↦ inr (sort_with-Some xs q)
  ]

-- Counts and tests do not depend on the order.
module _ {ℓ} {A : Type ℓ} (before : A → A → Bool) (p : A → Bool) where
  count_insert :
      (x : A) (ys : List A)
      → length (filter p (insert_with before x ys)) ≡ length (filter p (x ∷ ys))
  unfolding insert_with
  count_insert x [] = refl
  count_insert x (y ∷ ys) = ground (arith, count_insert x ys)

  pub count_sort : (xs : List A) → length (filter p (sort_with before xs)) ≡ length (filter p xs)
  unfolding sort_with
  count_sort [] = refl
  count_sort (x ∷ xs) = ground (arith, count_sort xs, count_insert x (sort_with before xs))

  any_insert : (x : A) (ys : List A) → any p (insert_with before x ys) ≡ (p x || any p ys)
  unfolding insert_with
  any_insert x [] = refl
  any_insert x (y ∷ ys) = ground (arith, any_insert x ys)

  pub any_sort : (xs : List A) → any p (sort_with before xs) ≡ any p xs
  unfolding sort_with
  any_sort [] = refl
  any_sort (x ∷ xs) = ground (arith, any_sort xs, any_insert x (sort_with before xs))
