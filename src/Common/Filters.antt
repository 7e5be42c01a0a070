-- ===== src/Common/Filters.antt =====
-- What `filter` and `take` keep, and how many.
use zigbeelens.Common.Tests.{Bool-cases}
use zigbeelens.Common.Lists.{length, take, any, filter, All, Some, All-map}
use Prim.Native.Nat.{ℕ, zero, suc, ◌+◌, ◌≤◌, ◌<◌}
use mathlib.Core.Path.{◌≡◌, refl, ap}
use mathlib.Core.Logic.{◌⊎◌, inl, inr}
use mathlib.Core.Bool.{Bool, true, false, not}
use mathlib.Core.List.{List, [], ◌∷◌}
use native.Mathlib.Omega.{arith}

module _ {A : Type 0} where
  pub All-filter {κ} :
      (P : A → Type κ) (p : A → Bool) (xs : List A)
      → All P xs
      → All (λ x. P x × (p x ≡ true)) (filter p xs)
  All-filter P p [] h = tt
  All-filter P p (x ∷ xs) h =
      let rest = All-filter P p xs h.1 in
      elim (Bool-cases (p x)) [ inl e ↦ rw e ((h.0, e), rest) | inr e ↦ rw e rest ]

  pub All-take {κ} : (P : A → Type κ) (n : ℕ) (xs : List A) → All P xs → All P (take n xs)
  All-take P zero xs h = tt
  All-take P (suc n) [] h = tt
  All-take P (suc n) (x ∷ xs) h = (h.0, All-take P n xs h.1)

  pub All-self : (xs : List A) → All (λ x. Some (λ y. y ≡ x) xs) xs
  All-self [] = tt
  All-self (x ∷ xs) = (inl refl, All-map (λ z h. inr h) xs (All-self xs))

  pub Some-filter : (P : A → Type 0) (p : A → Bool) (xs : List A) → Some P (filter p xs) → Some P xs
  Some-filter P p [] h = h
  Some-filter P p (x ∷ xs) h = elim (Bool-cases (p x)) [
    | inl e ↦ elim (keep (rw e at h)) [ inl q ↦ inl q | inr q ↦ inr (Some-filter P p xs q) ]
    | inr e ↦ inr (Some-filter P p xs (rw e at h))
  ]
    where
      keep : P x ⊎ Some P (filter p xs) → P x ⊎ Some P (filter p xs)
      keep q = q

  pub take_all : (n : ℕ) (xs : List A) → length (take n xs) < n → take n xs ≡ xs
  take_all zero xs h = ground (arith, h)
  take_all (suc n) [] h = refl
  take_all (suc n) (x ∷ xs) h = ap (λ ys. x ∷ ys) (take_all n xs (omega (arith, h)))

  -- How many of a part of the list satisfy the test.
  pub count_take :
      (p : A → Bool) (n : ℕ) (xs : List A) → length (filter p (take n xs)) ≤ length (filter p xs)
  count_take p zero xs = omega arith
  count_take p (suc n) [] = omega arith
  count_take p (suc n) (x ∷ xs) = ground (arith, count_take p n xs)

  pub count_filter :
      (p q : A → Bool) (xs : List A) → length (filter p (filter q xs)) ≤ length (filter p xs)
  count_filter p q [] = omega arith
  count_filter p q (x ∷ xs) =
      let rest = count_filter p q xs in
      elim (Bool-cases (q x)) [
        | inl e ↦ rw e (ground (arith, rest))
        | inr e ↦ rw e (ground (arith, rest))
      ]

  pub count_not :
      (p : A → Bool) (xs : List A)
      → length (filter p xs) + length (filter (λ x. not (p x)) xs) ≡ length xs
  count_not p [] = refl
  count_not p (x ∷ xs) =
      let rest = count_not p xs in
      elim (Bool-cases (p x)) [
        | inl e ↦ rw e (omega (arith, rest))
        | inr e ↦ rw e (omega (arith, rest))
      ]

  pub filter-All : (p : A → Bool) (xs : List A) → All (λ x. p x ≡ true) xs → filter p xs ≡ xs
  filter-All p [] h = refl
  filter-All p (x ∷ xs) h = rw (h.0) (ap (λ ys. x ∷ ys) (filter-All p xs h.1))

  -- A test that implies another one: the other changes nothing before it.
  pub filter-filter :
      (p q : A → Bool) (xs : List A)
      → All (λ x. p x ≡ true → q x ≡ true) xs
      → filter p (filter q xs) ≡ filter p xs
  filter-filter p q [] h = refl
  filter-filter p q (x ∷ xs) h =
      let rest = filter-filter p q xs h.1 in
      elim (Bool-cases (q x)) [
        | inl e ↦ rw e (cc rest)
        | inr e ↦ let no : p x ≡ false = ground (arith, e, h.0) in rw (e, no) rest
      ]

  -- Who satisfies one test is found among those that do.
  pub any-filter :
      (q : A → A → Bool) (p : A → Bool) (xs : List A)
      → ((x : A) → q x x ≡ true)
      → All (λ x. p x ≡ true → any (λ y. q y x) (filter p xs) ≡ true) xs
  any-filter q p [] h = tt
  any-filter q p (x ∷ xs) h =
      let rest = any-filter q p xs h in
      elim (Bool-cases (p x)) [
        | inl e ↦ (λ _. ground (arith, e, h x), All-map (λ z k pz. ground (arith, e, k pz)) xs rest)
        | inr e ↦ (λ k. absurd (cc (e, k)), All-map (λ z k pz. ground (arith, e, k pz)) xs rest)
      ]

  pub Some-any :
      (P : A → Type 0) (p : A → Bool)
      → ((x : A) → P x → p x ≡ true)
      → (xs : List A) → Some P xs
      → any p xs ≡ true
  Some-any P p f [] h = absurd h
  Some-any P p f (x ∷ xs) (inl h) = ground (arith, f x h)
  Some-any P p f (x ∷ xs) (inr h) = ground (arith, Some-any P p f xs h)

  pub any-Some : (p : A → Bool) (xs : List A) → any p xs ≡ true → Some (λ x. p x ≡ true) xs
  any-Some p [] h = absurd (cc h)
  any-Some p (x ∷ xs) h = elim (Bool-cases (p x)) [
    | inl e ↦ inl e
    | inr e ↦ inr (any-Some p xs (ground (arith, e, h)))
  ]

  -- An item with both properties.
  pub Some-All {κ} :
      (P : A → Type 0) (Q : A → Type κ) (xs : List A) → Some P xs → All Q xs → (x : A) × P x × Q x
  Some-All P Q [] h k = absurd h
  Some-All P Q (x ∷ xs) (inl h) k = (x, h, k.0)
  Some-All P Q (x ∷ xs) (inr h) k = Some-All P Q xs h k.1
