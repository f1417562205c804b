-- ===== src/Notary/Sorted.antt =====
-- SortAttestations (internal/core/notary/notary.go) sorts: its result holds the same
-- attestations, and none of them is less than one that stands before it.
use ots.Prelude.{
  ℕ, zero, suc, ◌≤◌, ◌≡◌, refl, sym, subst, arith, true, false, List, [], ◌∷◌, length, All,
  Bool-cases, inl, inr,
}
use ots.Notary.{Attestation, less, select_least, sort_from, sort_attestations}
use ots.Notary.Order.{IsProper, less_irrefl, less_trans, not_less_trans}
use mathlib.Core.List.{Perm}
use mathlib.Core.List.Perm

-- No attestation is less than one before it.
abbrev pub IsSorted : List Attestation → Type 0
IsSorted [] = Unit
IsSorted (a ∷ atts) = All (λ b. less b a ≡ false) atts × IsSorted atts

module _ {ℓ} (P : Attestation → Type ℓ) where
  select_least-All :
      (a : Attestation) (atts : List Attestation)
      → P a
      → All P atts
      → P (select_least a atts).0 × All P (select_least a atts).1
  unfolding select_least
  select_least-All a [] p ps = (p, tt)
  select_least-All a (b ∷ atts) p ps = elim (Bool-cases (less b a)) [
    | inl swap ↦ let (q, qs) = select_least-All b atts ps.0 ps.1 in rw swap (q, (p, qs))
    | inr keep ↦ let (q, qs) = select_least-All a atts p ps.1 in rw keep (q, (ps.0, qs))
  ]

  sort_from-All : (n : ℕ) (atts : List Attestation) → All P atts → All P (sort_from n atts)
  unfolding sort_from
  sort_from-All zero atts ps = ps
  sort_from-All (suc n) [] ps = tt
  sort_from-All (suc n) (a ∷ atts) ps =
      let (q, qs) = select_least-All a atts ps.0 ps.1 in (q, sort_from-All n _ qs)

  -- What holds of all attestations holds of all of them sorted.
  pub sort_attestations-All :
      (atts : List Attestation) → All P atts → All P (sort_attestations atts)
  unfolding sort_attestations
  sort_attestations-All atts ps = sort_from-All (length atts) atts ps

select_least-perm :
    (a : Attestation) (atts : List Attestation)
    → Perm ((select_least a atts).0 ∷ (select_least a atts).1) (a ∷ atts)
unfolding select_least
select_least-perm a [] = Perm.refl (a ∷ [])
select_least-perm a (b ∷ atts) = elim (Bool-cases (less b a)) [
  | inl swap ↦ rw swap (Perm.trans (Perm.swap _ _ _) (Perm.cons a (select_least-perm b atts)))
  | inr keep ↦ rw keep (
      Perm.trans (Perm.swap _ _ _)
        (Perm.trans (Perm.cons b (select_least-perm a atts)) (Perm.swap _ _ _)))
]

length-select_least :
    (a : Attestation) (atts : List Attestation) → length (select_least a atts).1 ≡ length atts
unfolding select_least
length-select_least a [] = refl
length-select_least a (b ∷ atts) = elim (Bool-cases (less b a)) [
  | inl swap ↦ rw swap (omega (arith, length-select_least b atts))
  | inr keep ↦ rw keep (omega (arith, length-select_least a atts))
]

sort_from-perm : (n : ℕ) (atts : List Attestation) → Perm (sort_from n atts) atts
unfolding sort_from
sort_from-perm zero atts = Perm.refl atts
sort_from-perm (suc n) [] = Perm.refl []
sort_from-perm (suc n) (a ∷ atts) =
    Perm.trans (Perm.cons _ (sort_from-perm n (select_least a atts).1)) (select_least-perm a atts)

-- SortAttestations rearranges the attestations, and loses and repeats none.
pub sort_attestations-perm : (atts : List Attestation) → Perm (sort_attestations atts) atts
unfolding sort_attestations
sort_attestations-perm atts = sort_from-perm (length atts) atts

asym : (a b : Attestation) → IsProper a → IsProper b → less a b ≡ true → less b a ≡ false
asym a b p q h = elim (Bool-cases (less b a)) [
  | inr no_less ↦ no_less
  | inl back ↦ cc (less_trans a b a p q p h back, less_irrefl a p)
]

-- What is selected is not greater than the first, nor than any of the rest.
abbrev IsLeast : Attestation → Attestation × List Attestation → Type 0
IsLeast a (least, rest) = (less a least ≡ false) × All (λ b. less b least ≡ false) rest

select_least_swapped :
    (a b : Attestation) (atts : List Attestation)
    → less b a ≡ true
    → select_least a (b ∷ atts) ≡ ((select_least b atts).0, a ∷ (select_least b atts).1)
unfolding select_least
select_least_swapped a b atts swap = rw swap

select_least_kept :
    (a b : Attestation) (atts : List Attestation)
    → less b a ≡ false
    → select_least a (b ∷ atts) ≡ ((select_least a atts).0, b ∷ (select_least a atts).1)
unfolding select_least
select_least_kept a b atts keep = rw keep

select_least-IsLeast :
    (a : Attestation) (atts : List Attestation)
    → IsProper a
    → All IsProper atts
    → IsLeast a (select_least a atts)
select_least-IsLeast a [] p ps = unfold select_least in (less_irrefl a p, tt)
select_least-IsLeast a (b ∷ atts) p ps = elim (Bool-cases (less b a)) [
  | inl swap ↦
      let (le, les) = select_least-IsLeast b atts ps.0 ps.1 in
      let q = (select_least-All IsProper b atts ps.0 ps.1).0 in
      let a_le = not_less_trans a b (select_least b atts).0 p ps.0 q (asym b a ps.0 p swap) le in
      subst (IsLeast a) (sym (select_least_swapped a b atts swap)) (a_le, (a_le, les))
  | inr keep ↦
      let (le, les) = select_least-IsLeast a atts p ps.1 in
      let q = (select_least-All IsProper a atts p ps.1).0 in
      let b_le = not_less_trans b a (select_least a atts).0 ps.0 p q keep le in
      subst (IsLeast a) (sym (select_least_kept a b atts keep)) (le, (b_le, les))
]

sort_from-IsSorted :
    (n : ℕ) (atts : List Attestation)
    → length atts ≤ n
    → All IsProper atts
    → IsSorted (sort_from n atts)
unfolding sort_from
sort_from-IsSorted zero [] h ps = tt
sort_from-IsSorted zero (a ∷ atts) h ps = absurd (omega arith)
sort_from-IsSorted (suc n) [] h ps = tt
sort_from-IsSorted (suc n) (a ∷ atts) h ps =
    let (q, qs) = select_least-All IsProper a atts ps.0 ps.1 in
    (
      sort_from-All (λ b. less b (select_least a atts).0 ≡ false) n (select_least a atts).1
          (select_least-IsLeast a atts ps.0 ps.1).1,
      sort_from-IsSorted n (select_least a atts).1 (omega (arith, length-select_least a atts)) qs,
    )

-- After SortAttestations the list holds the same attestations as before, and none is less than
-- one that stands before it, where no unknown attestation carries a known tag.
pub sort_attestations_sorts :
    (atts : List Attestation)
    → All IsProper atts
    → Perm (sort_attestations atts) atts × IsSorted (sort_attestations atts)
unfolding sort_attestations
sort_attestations_sorts atts ps =
    (sort_from-perm (length atts) atts, sort_from-IsSorted (length atts) atts (omega arith) ps)

length-sort_from : (n : ℕ) (atts : List Attestation) → length (sort_from n atts) ≡ length atts
unfolding sort_from
length-sort_from zero atts = refl
length-sort_from (suc n) [] = refl
length-sort_from (suc n) (a ∷ atts) =
    omega (arith, length-sort_from n (select_least a atts).1, length-select_least a atts)

pub length-sort_attestations :
    (atts : List Attestation) → length (sort_attestations atts) ≡ length atts
unfolding sort_attestations
length-sort_attestations atts = length-sort_from (length atts) atts
