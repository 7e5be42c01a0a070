-- ===== src/Common/Sorting.antt =====
-- `set(xs)` and `sorted(xs, key=key)` over a type with a test `same` for equality.
use Prim.Native.Nat.{ℕ}
use mathlib.Core.Path.{◌≡◌, refl, subst}
use mathlib.Core.Bool.{Bool, true, ◌||◌}
use mathlib.Core.List.{List, [], ◌∷◌, ◌++◌}
use native.Mathlib.Omega.{arith}
use zigbeelens.Common.Tests.{if◌then◌else◌, leb}
use zigbeelens.Common.Lists.{any}

module _ {ℓ} {A : Type ℓ} where
  -- `x in xs`
  abbrev pub has : (A → A → Bool) → A → List A → Bool
  has same x = any (λ y. same y x)

  unfoldable pub distinct : (A → A → Bool) → List A → List A
  distinct same [] = []
  distinct same (x ∷ xs) = let rest = distinct same xs in if has same x rest then rest else x ∷ rest

  unfoldable pub insert_by : (A → ℕ) → A → List A → List A
  insert_by key x [] = x ∷ []
  insert_by key x (y ∷ ys) = if leb (key x) (key y) then x ∷ y ∷ ys else y ∷ insert_by key x ys

  unfoldable pub sort_by : (A → ℕ) → List A → List A
  unfolding insert_by
  sort_by key [] = []
  sort_by key (x ∷ xs) = insert_by key x (sort_by key xs)

module _ {ℓ} {A : Type ℓ} (same : A → A → Bool) where
  pub has-append :
      (x : A) (xs ys : List A) → has same x (xs ++ ys) ≡ (has same x xs || has same x ys)
  has-append x [] ys = refl
  has-append x (z ∷ zs) ys = ground (arith, has-append x zs ys)

module _ {ℓ} {A : Type ℓ} (same : A → A → Bool) (key : A → ℕ) where
  pub has-insert_by :
      (x y : A) (ys : List A) → has same x (insert_by key y ys) ≡ (same y x || has same x ys)
  unfolding insert_by
  has-insert_by x y [] = refl
  has-insert_by x y (z ∷ zs) = ground (arith, has-insert_by x y zs)

  pub has-sort_by : (x : A) (xs : List A) → has same x (sort_by key xs) ≡ has same x xs
  unfolding sort_by
  has-sort_by x [] = refl
  has-sort_by x (y ∷ ys) = ground (arith, has-insert_by x y (sort_by key ys), has-sort_by x ys)

module _ {ℓ} {A : Type ℓ} (same : A → A → Bool)
    (same→eq : (x y : A) → same x y ≡ true → x ≡ y) where
  absorb : (x y : A) (xs : List A) → has same y xs ≡ true → same y x ≡ true → has same x xs ≡ true
  absorb x y xs h e = subst (λ z. has same z xs ≡ true) (same→eq y x e) h

  pub has-distinct : (x : A) (xs : List A) → has same x (distinct same xs) ≡ has same x xs
  unfolding distinct
  has-distinct x [] = refl
  has-distinct x (y ∷ ys) = ground (arith, has-distinct x ys, absorb x y (distinct same ys))
