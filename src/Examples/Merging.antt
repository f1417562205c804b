-- ===== src/Examples/Merging.antt =====
-- Three trees joined at a merkle tip.
use ots.Prelude.{ℕ, ◌≡◌, ◌<◌, refl, arith, [], ◌∷◌, some, replicate, All}
use ots.Result.{ok}
use ots.Timestamp.Shared.{Heap, fresh, make_merkle_tree}
use ots.Timestamp.Shared.Level.{IsReady, IsDistinct}
use ots.Timestamp.Shared.Merkle.{IsTip, make_merkle_tree-IsTip}
use ots.Examples.Data.{toy_hashes, toy_laws}

abbrev leaves : Heap
leaves = record { next = 3; node = λ t. fresh (replicate 32 t) }

leaf : (t : ℕ) → t < 3 → IsReady leaves t
leaf t below = record {
  allocated = below;
  no_op = refl;
  some_bytes = omega arith;
  fits = omega arith;
}

leaves-IsReady : All (IsReady leaves) (0 ∷ 1 ∷ 2 ∷ [])
leaves-IsReady = (leaf 0 (omega arith), (leaf 1 (omega arith), (leaf 2 (omega arith), tt)))

leaves-IsDistinct : IsDistinct (0 ∷ 1 ∷ 2 ∷ [])
leaves-IsDistinct =
    ((λ e. omega (arith, e), (λ e. omega (arith, e), tt)), ((λ e. omega (arith, e), tt), (tt, tt)))

make_merkle_tree-IsTip_example :
    (s' : Heap) × (tip : ℕ) × (make_merkle_tree toy_hashes (0 ∷ 1 ∷ 2 ∷ []) leaves
      ≡ (s', ok (some tip)))
    × IsTip toy_hashes (0 ∷ 1 ∷ 2 ∷ []) leaves s' tip
make_merkle_tree-IsTip_example =
    make_merkle_tree-IsTip toy_hashes 0 (1 ∷ 2 ∷ []) leaves toy_laws leaves-IsReady
      leaves-IsDistinct
