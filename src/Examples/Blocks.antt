-- ===== src/Examples/Blocks.antt =====
-- A block of three transactions, with the merkle tip in the second one.
use ots.Prelude.{ℕ, ◌≡◌, refl, arith, List, [], ◌∷◌, ◌++◌, Bytes, replicate}
use ots.Prelude.Int.{pos}
use ots.Result.{ok}
use ots.Timestamp.Shared.{Heap, fresh}
use ots.Timestamp.Shared.Paths.{Reaches, Extends}
use ots.BlockProof.{has_prefix, index, only_index, make_timestamp_from_block}
use ots.BlockProof.Satoshi.{double_sha256, satoshi_root}
use ots.BlockProof.Proof.{make_timestamp_from_block_lem}
use ots.Examples.Data.{toy_hashes, toy_laws}

abbrev message : Bytes
message = replicate 32 5

abbrev raw_tx : Bytes
raw_tx = (1 ∷ 2 ∷ []) ++ (message ++ (3 ∷ []))

abbrev txids : List Bytes
txids = replicate 32 7 ∷ double_sha256 toy_hashes raw_tx ∷ replicate 32 9 ∷ []

abbrev merkle_root : Bytes
merkle_root = satoshi_root toy_hashes 3 txids

abbrev tips : Heap
tips = record { next = 1; node = λ t. fresh message }

found_once : only_index raw_tx message (index raw_tx message) ≡ ok 2
unfolding only_index index has_prefix
found_once = refl

make_timestamp_from_block_lem_example :
    (s : Heap) × (root : ℕ) × (make_timestamp_from_block toy_hashes 0 raw_tx
        (pos 1)
        txids
        merkle_root
        tips
      ≡ (s, ok root))
    × Reaches toy_hashes s 0 root
    × ((s.node root).msg ≡ merkle_root)
    × Extends tips s
make_timestamp_from_block_lem_example =
    make_timestamp_from_block_lem toy_hashes 0 1 2 raw_tx merkle_root txids tips toy_laws
      (omega arith) refl (omega arith) found_once refl (refl, (refl, (refl, tt))) refl
