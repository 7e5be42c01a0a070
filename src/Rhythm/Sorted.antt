-- ===== src/Rhythm/Sorted.antt =====
-- `sorted` on numbers, and reading a sorted list by index.
use zigbeelens.Common.{
  ℕ, zero, suc, ◌≤◌, ◌<◌, ◌≡◌, refl, ◌∙◌, ap, List, [], ◌∷◌, arith, leb, if◌then◌else◌, length,
  get_or, All, Bool-cases, inl, inr,
}

unfoldable pub insert : ℕ → List ℕ → List ℕ
insert x [] = x ∷ []
insert x (y ∷ ys) = if leb x y then x ∷ y ∷ ys else y ∷ insert x ys

unfoldable pub sorted : List ℕ → List ℕ
unfolding insert
sorted [] = []
sorted (x ∷ xs) = insert x (sorted xs)

-- Every item is at most the items behind it.
abbrev pub IsSorted : List ℕ → Type 0
IsSorted [] = Unit
IsSorted (x ∷ xs) = All (λ y. x ≤ y) xs × IsSorted xs

All-insert : (x y : ℕ) (ys : List ℕ) → x ≤ y → All (λ z. x ≤ z) ys → All (λ z. x ≤ z) (insert y ys)
unfolding insert
All-insert x y [] h hs = (h, tt)
All-insert x y (z ∷ zs) h hs = elim (Bool-cases (leb y z)) [
  | inl e ↦ rw e (h, hs)
  | inr e ↦ rw e (hs.0, All-insert x y zs h hs.1)
]

All-trans : (x y : ℕ) (ys : List ℕ) → x ≤ y → All (λ z. y ≤ z) ys → All (λ z. x ≤ z) ys
All-trans x y [] h hs = tt
All-trans x y (z ∷ zs) h hs = (omega arith, All-trans x y zs h hs.1)

insert-IsSorted : (x : ℕ) (ys : List ℕ) → IsSorted ys → IsSorted (insert x ys)
unfolding insert
insert-IsSorted x [] h = (tt, tt)
insert-IsSorted x (y ∷ ys) h = elim (Bool-cases (leb x y)) [
  | inl e ↦ rw e ((ground arith, All-trans x y ys (ground arith) h.0), h)
  | inr e ↦ rw e (All-insert y x ys (ground arith) h.0, insert-IsSorted x ys h.1)
]

pub sorted-IsSorted : (xs : List ℕ) → IsSorted (sorted xs)
unfolding sorted
sorted-IsSorted [] = tt
sorted-IsSorted (x ∷ xs) = insert-IsSorted x (sorted xs) (sorted-IsSorted xs)

length-insert : (x : ℕ) (ys : List ℕ) → length (insert x ys) ≡ suc (length ys)
unfolding insert
length-insert x [] = refl
length-insert x (y ∷ ys) = ground (arith, length-insert x ys)

pub length-sorted : (xs : List ℕ) → length (sorted xs) ≡ length xs
unfolding sorted
length-sorted [] = refl
length-sorted (x ∷ xs) = length-insert x (sorted xs) ∙ ap suc (length-sorted xs)

get_or-All : (x : ℕ) (xs : List ℕ) (i : ℕ) → All (λ y. x ≤ y) xs → i < length xs → x ≤ get_or xs i 0
get_or-All x [] i h lt = elim lt [ ]
get_or-All x (y ∷ ys) zero h lt = h.0
get_or-All x (y ∷ ys) (suc i) h lt = get_or-All x ys i h.1 (omega arith)

-- A sorted list read at a larger index gives a larger item.
pub get_or_mono :
    (xs : List ℕ) (i j : ℕ) → IsSorted xs → i ≤ j → j < length xs → get_or xs i 0 ≤ get_or xs j 0
get_or_mono [] i j h le lt = elim lt [ ]
get_or_mono (x ∷ xs) zero zero h le lt = omega arith
get_or_mono (x ∷ xs) zero (suc j) h le lt = get_or-All x xs j h.0 (omega arith)
get_or_mono (x ∷ xs) (suc i) zero h le lt = absurd (omega arith)
get_or_mono (x ∷ xs) (suc i) (suc j) h le lt = get_or_mono xs i j h.1 (omega arith) (omega arith)

insert-All : (P : ℕ → Type 0) (x : ℕ) (ys : List ℕ) → All P (insert x ys) → P x × All P ys
unfolding insert
insert-All P x [] h = h
insert-All P x (y ∷ ys) h = elim (Bool-cases (leb x y)) [
  | inl e ↦ rw e at h
  | inr e ↦
      let h' : P y × All P (insert x ys) = rw e at h in
      let rest = insert-All P x ys h'.1 in (rest.0, (h'.0, rest.1))
]

-- What holds of all items of the sorted list holds of all items.
pub sorted-All : (P : ℕ → Type 0) (xs : List ℕ) → All P (sorted xs) → All P xs
unfolding sorted
sorted-All P [] h = tt
sorted-All P (x ∷ xs) h =
    let rest = insert-All P x (sorted xs) h in (rest.0, sorted-All P xs rest.1)

-- Every item of a sorted list is at most the last one.
pub All-le_last :
    (xs : List ℕ) (last : ℕ)
    → suc last ≡ length xs
    → IsSorted xs
    → All (λ y. y ≤ get_or xs last 0) xs
All-le_last [] last e s = tt
All-le_last (x ∷ []) zero e s = (omega arith, tt)
All-le_last (x ∷ []) (suc last) e s = absurd (omega arith)
All-le_last (x ∷ y ∷ ys) zero e s = absurd (omega arith)
All-le_last (x ∷ y ∷ ys) (suc last) e s =
    (get_or-All x (y ∷ ys) last s.0 (omega arith), All-le_last (y ∷ ys) last (omega arith) s.1)
