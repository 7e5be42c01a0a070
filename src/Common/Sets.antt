-- ===== src/Common/Sets.antt =====
-- Python's `set` of texts as a list, membership by `==`, and `sorted`.
use Prim.Native.Nat.{Ordering}
use Prim.Native.String.{String, compare}
use mathlib.Core.Path.{◌≡◌, refl, subst}
use mathlib.Core.Logic.{inl, inr}
use mathlib.Core.Bool.{Bool, true, false, ◌||◌}
use mathlib.Core.List.{List, [], ◌∷◌}
use native.Mathlib.Omega.{arith}
use text.Mathlib.Text.{◌==◌ as str_eq}
use text.Mathlib.TextEquality.{eq_iff}
use text.Mathlib.TextPositions.{eq_refl}
use zigbeelens.Common.Tests.{if◌then◌else◌, Bool-cases}

-- Texts are ordered by code points, as Python orders them.
abbrev pub str_leb : String → String → Bool
str_leb a b = elim (compare a b) [ Ordering.gt ↦ false | _ ↦ true ]

-- `x in xs`
abbrev pub elem : String → List String → Bool
elem x [] = false
elem x (y ∷ ys) = str_eq y x || elem x ys

-- `xs.add(x)`
abbrev pub add : String → List String → List String
add x xs = if elem x xs then xs else x ∷ xs

abbrev pub insert_sorted : String → List String → List String
insert_sorted x [] = x ∷ []
insert_sorted x (y ∷ ys) = if str_leb x y then x ∷ y ∷ ys else y ∷ insert_sorted x ys

-- `sorted(xs)`
abbrev pub sorted : List String → List String
sorted [] = []
sorted (x ∷ xs) = insert_sorted x (sorted xs)

elem-add_self : (y : String) (xs : List String) → elem y (add y xs) ≡ (str_eq y y || elem y xs)
elem-add_self y xs = rw eq_refl (ground (arith, eq_refl y))

pub elem-add : (x y : String) (xs : List String) → elem x (add y xs) ≡ (str_eq y x || elem x xs)
elem-add x y xs = elim (Bool-cases (str_eq y x)) [
  | inl e ↦
      subst (λ (z : String). elem z (add y xs) ≡ (str_eq y z || elem z xs)) ((eq_iff y x).0 e)
        (elem-add_self y xs)
  | inr e ↦ ground (arith, e)
]

pub elem-insert_sorted :
    (x y : String) (xs : List String) → elem x (insert_sorted y xs) ≡ (str_eq y x || elem x xs)
elem-insert_sorted x y [] = refl
elem-insert_sorted x y (z ∷ zs) = ground (arith, elem-insert_sorted x y zs)

pub elem-sorted : (x : String) (xs : List String) → elem x (sorted xs) ≡ elem x xs
elem-sorted x [] = refl
elem-sorted x (y ∷ ys) = ground (arith, elem-insert_sorted x y (sorted ys), elem-sorted x ys)
