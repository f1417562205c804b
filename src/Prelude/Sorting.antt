-- ===== src/Prelude/Sorting.antt =====
-- sort.Slice of the Go library, and what it keeps and gives.
use Prim.Native.Nat.{ℕ, suc, ◌+◌, ◌≤◌}
use mathlib.Core.Path.{◌≡◌, refl, ap, subst}
use mathlib.Core.Bool.{Bool}
use mathlib.Core.Logic.{inl, inr}
use mathlib.Core.List.{List, [], ◌∷◌, ◌++◌, foldl, append-nil, Perm, perm_middle}
use mathlib.Core.List.Perm
use native.Mathlib.Omega.{arith}
use ots.Prelude.Tests.{ltb, if◌then◌else◌, Bool-cases}
use ots.Prelude.Lists.{length, All}

-- sort.Slice, as the insertion sort that it is on fewer than twelve elements. Where `less` is a
-- strict total order and no two elements are the same, the sorted list is the only one.
unfoldable pub insert {ℓ} : {A : Type ℓ} → (A → A → Bool) → A → List A → List A
insert less x [] = x ∷ []
insert less x (y ∷ ys) = if less x y then x ∷ y ∷ ys else y ∷ insert less x ys

unfoldable pub sort_slice {ℓ} : {A : Type ℓ} → (A → A → Bool) → List A → List A
sort_slice less xs = foldl (λ sorted x. insert less x sorted) [] xs

-- The sort keeps what holds of all elements, and the length.
module _ {ℓ κ} {A : Type ℓ} (P : A → Type κ) (less : A → A → Bool) where
  insert-All : (x : A) (ys : List A) → P x → All P ys → All P (insert less x ys)
  unfolding insert
  insert-All x [] p ps = (p, tt)
  insert-All x (y ∷ ys) p ps = elim (Bool-cases (less x y)) [
    | inl e ↦ rw e (p, ps)
    | inr e ↦ rw e (ps.0, insert-All x ys p ps.1)
  ]

  sort_onto-All :
      (xs sorted : List A)
      → All P xs
      → All P sorted
      → All P (foldl (λ s x. insert less x s) sorted xs)
  sort_onto-All [] sorted ps qs = qs
  sort_onto-All (x ∷ xs) sorted ps qs =
      sort_onto-All xs (insert less x sorted) ps.1 (insert-All x sorted ps.0 qs)

  pub sort_slice-All : (xs : List A) → All P xs → All P (sort_slice less xs)
  unfolding sort_slice
  sort_slice-All xs ps = sort_onto-All xs [] ps tt

module _ {ℓ} {A : Type ℓ} (less : A → A → Bool) where
  length-insert : (x : A) (ys : List A) → length (insert less x ys) ≡ suc (length ys)
  unfolding insert
  length-insert x [] = refl
  length-insert x (y ∷ ys) = elim (Bool-cases (less x y)) [
    | inl e ↦ rw e
    | inr e ↦ rw e (ap suc (length-insert x ys))
  ]

  length-sort_onto :
      (xs sorted : List A)
      → length (foldl (λ s x. insert less x s) sorted xs) ≡ length xs + length sorted
  length-sort_onto [] sorted = omega arith
  length-sort_onto (x ∷ xs) sorted =
      omega (arith, length-sort_onto xs (insert less x sorted), length-insert x sorted)

  pub length-sort_slice : (xs : List A) → length (sort_slice less xs) ≡ length xs
  unfolding sort_slice
  length-sort_slice xs = omega (arith, length-sort_onto xs [])

module _ {ℓ} {A : Type ℓ} (less : A → A → Bool) where
  insert-perm : (x : A) (ys : List A) → Perm (insert less x ys) (x ∷ ys)
  unfolding insert
  insert-perm x [] = Perm.refl (x ∷ [])
  insert-perm x (y ∷ ys) = elim (Bool-cases (less x y)) [
    | inl e ↦ rw e (Perm.refl (x ∷ y ∷ ys))
    | inr e ↦ rw e (Perm.trans (Perm.cons y (insert-perm x ys)) (Perm.swap _ _ _))
  ]

  sort_onto-perm :
      (xs sorted : List A) → Perm (foldl (λ s x. insert less x s) sorted xs) (xs ++ sorted)
  sort_onto-perm [] sorted = Perm.refl sorted
  sort_onto-perm (x ∷ xs) sorted =
      Perm.trans (sort_onto-perm xs (insert less x sorted))
        (Perm.trans (Perm.append (Perm.refl xs) (insert-perm x sorted)) (perm_middle xs sorted))

  pub sort_slice-perm : (xs : List A) → Perm (sort_slice less xs) xs
  unfolding sort_slice
  sort_slice-perm xs = subst (Perm (sort_slice less xs)) (append-nil xs) (sort_onto-perm xs [])

-- In ascending order.
abbrev pub IsAscending : List ℕ → Type 0
IsAscending [] = Unit
IsAscending (x ∷ xs) = All (λ y. x ≤ y) xs × IsAscending xs

All-le : (x y : ℕ) (ys : List ℕ) → x ≤ y → All (λ z. y ≤ z) ys → All (λ z. x ≤ z) ys
All-le x y [] h hs = tt
All-le x y (z ∷ ys) h hs = (omega arith, All-le x y ys h hs.1)

insert-IsAscending : (x : ℕ) (ys : List ℕ) → IsAscending ys → IsAscending (insert ltb x ys)
unfolding insert
insert-IsAscending x [] h = (tt, tt)
insert-IsAscending x (y ∷ ys) h = elim (Bool-cases (ltb x y)) [
  | inl e ↦ rw e ((ground arith, All-le x y ys (ground arith) h.0), h)
  | inr e ↦ rw e (insert-All (λ z. y ≤ z) ltb x ys (ground arith) h.0, insert-IsAscending x ys h.1)
]

sort_onto-IsAscending :
    (xs sorted : List ℕ)
    → IsAscending sorted
    → IsAscending (foldl (λ s x. insert ltb x s) sorted xs)
sort_onto-IsAscending [] sorted h = h
sort_onto-IsAscending (x ∷ xs) sorted h =
    sort_onto-IsAscending xs (insert ltb x sorted) (insert-IsAscending x sorted h)

pub sort_slice-IsAscending : (xs : List ℕ) → IsAscending (sort_slice ltb xs)
unfolding sort_slice
sort_slice-IsAscending xs = sort_onto-IsAscending xs [] tt
