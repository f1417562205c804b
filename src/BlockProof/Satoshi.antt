-- ===== src/BlockProof/Satoshi.antt =====
-- The merkle root of a block as Bitcoin defines it, and the levels of MakeTimestampFromBlock
-- (internal/bitcoin/blockproof.go) of even length.
use ots.Prelude.{
  ℕ, zero, suc, ◌≤◌, ◌≡◌, ◌≢◌, refl, ap, ◌∙◌, arith, Bool, true, false, ◌%◌, ◌==◌, if◌then◌else◌,
  List, [], ◌∷◌, ◌++◌, Bytes, length, All,
}
use ots.Op.{Hashes}
use ots.Timestamp.Shared.{Heap}
use ots.Timestamp.Shared.Level.{IsDistinct}
use ots.BlockProof.{last_of, make_even}

abbrev pub double_sha256 : Hashes → Bytes → Bytes
double_sha256 h b = h.sha256 (h.sha256 b)

-- The list with its last element twice, where its length is odd.
abbrev pub even {ℓ} : {A : Type ℓ} → List A → List A
even [] = []
even (x ∷ []) = x ∷ x ∷ []
even (x ∷ y ∷ xs) = x ∷ y ∷ even xs

-- The hashes of the pairs.
abbrev pub above : Hashes → List Bytes → List Bytes
above h [] = []
above h (x ∷ []) = []
above h (x ∷ y ∷ xs) = double_sha256 h (x ++ y) ∷ above h xs

-- On fuel; the number of hashes is enough.
abbrev pub satoshi_root : Hashes → ℕ → List Bytes → Bytes
satoshi_root h zero hashes = []
satoshi_root h (suc fuel) [] = []
satoshi_root h (suc fuel) (x ∷ []) = x
satoshi_root h (suc fuel) (x ∷ y ∷ hashes) = satoshi_root h fuel (above h (even (x ∷ y ∷ hashes)))

abbrev pub msgs_of : Heap → List ℕ → List Bytes
msgs_of s [] = []
msgs_of s (t ∷ ts) = (s.node t).msg ∷ msgs_of s ts

two_more : (n : ℕ) → (suc (suc n) % 2 == 1) ≡ (n % 2 == 1)
two_more n = ap (λ m. m == 1) (omega arith)

two_in_front :
    (t u : ℕ) (xs ys : List ℕ) (b : Bool)
    → (if b then t ∷ u ∷ xs else t ∷ u ∷ ys) ≡ t ∷ u ∷ (if b then xs else ys)
two_in_front t u xs ys true = refl
two_in_front t u xs ys false = refl

pub make_even-even : (level : List ℕ) → make_even level ≡ even level
unfolding make_even
make_even-even [] = refl
make_even-even (t ∷ []) = refl
make_even-even (t ∷ u ∷ []) = refl
make_even-even (t ∷ u ∷ v ∷ level) =
    let rest : List ℕ = v ∷ level in
    let longer : List ℕ = rest ++ (last_of v level ∷ []) in
    ap (λ odd. if odd then t ∷ u ∷ longer else t ∷ u ∷ rest) (two_more (length rest))
    ∙ two_in_front t u longer rest (length rest % 2 == 1)
    ∙ ap (λ xs. t ∷ u ∷ xs) (make_even-even (v ∷ level))

pub msgs_of-even : (s : Heap) (level : List ℕ) → msgs_of s (even level) ≡ even (msgs_of s level)
msgs_of-even s [] = refl
msgs_of-even s (t ∷ []) = refl
msgs_of-even s (t ∷ u ∷ level) =
    ap (λ ms. (s.node t).msg ∷ (s.node u).msg ∷ ms) (msgs_of-even s level)

pub All-even {ℓ} : (P : ℕ → Type ℓ) (level : List ℕ) → All P level → All P (even level)
All-even P [] v = tt
All-even P (t ∷ []) v = (v.0, (v.0, tt))
All-even P (t ∷ u ∷ level) v = (v.0, (v.1.0, All-even P level v.1.1))

pub even-All {ℓ} : (P : ℕ → Type ℓ) (level : List ℕ) → All P (even level) → All P level
even-All P [] v = tt
even-All P (t ∷ []) v = (v.0, tt)
even-All P (t ∷ u ∷ level) v = (v.0, (v.1.0, even-All P level v.1.1))

-- No node of a pair stands in a later pair.
abbrev pub ArePairs : List ℕ → Type 0
ArePairs [] = Unit
ArePairs (l ∷ []) = ⊥
ArePairs (l ∷ r ∷ level) = All (λ t. l ≢ t) level × (All (λ t. r ≢ t) level × ArePairs level)

pub even-ArePairs : (level : List ℕ) → IsDistinct level → ArePairs (even level)
even-ArePairs [] v = tt
even-ArePairs (t ∷ []) v = (tt, (tt, tt))
even-ArePairs (t ∷ u ∷ level) v = (
  All-even (λ x. t ≢ x) level v.0.1,
  (All-even (λ x. u ≢ x) level v.1.0, even-ArePairs level v.1.1),
)

pub length-even {ℓ} : {A : Type ℓ} (xs : List A) → length (even xs) ≤ suc (length xs)
length-even [] = omega arith
length-even (x ∷ []) = omega arith
length-even (x ∷ y ∷ xs) = omega (arith, length-even xs)
