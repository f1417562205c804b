-- ===== src/Examples/Trees.antt =====
-- Proof trees and files at concrete inputs.
use ots.Prelude.{◌≤◌, ◌≡◌, ◌≢◌, refl, arith, [], ◌∷◌, ◌++◌, Bytes, length}
use ots.Result.{ok, err, trailing_garbage, stuck}
use ots.Op
use ots.Notary.{check_uri, check_chars}
use ots.Timestamp.Tree.{IsValid, height}
use ots.Timestamp.Codec.{serialize_bytes, deserialize, recursion_limit_depth}
use ots.Timestamp.Codec.Canonical.{canonical}
use ots.Timestamp.Codec.Ends.{deserialize-ne-stuck}
use ots.Timestamp.Codec.RoundTrip.{deserialize-serialize_tree}
use ots.Timestamp.Detached.{file_digest, serialize_detached_bytes, deserialize_detached}
use ots.Timestamp.Detached.RoundTrip.{
  deserialize_detached-serialize_detached, deserialize_detached_trailing,
}
use ots.Examples.Data.{toy_hashes, digest, tree, file}

pub tree-IsValid : IsValid toy_hashes tree
unfolding check_uri check_chars Op.apply Op.apply_unary
tree-IsValid = (
  omega arith,
  omega arith,
  (refl, (omega arith, tt)),
  (
    (omega arith, omega arith),
    refl,
    (omega arith, omega arith, (refl, (omega arith, tt)), tt),
    (tt, refl, (omega arith, omega arith, (omega arith, tt), tt), tt),
  ),
)

pub tree-low : height tree ≤ recursion_limit_depth
unfolding height
tree-low = omega arith

deserialize-serialize_tree_example :
    (out : Bytes) × (serialize_bytes tree ≡ ok out)
    × (deserialize toy_hashes recursion_limit_depth digest (out ++ (9 ∷ []))
        ≡ ok (canonical tree, 9 ∷ []))
deserialize-serialize_tree_example =
    deserialize-serialize_tree toy_hashes tree (9 ∷ []) tree-IsValid tree-low

digest-size : length (file_digest file) ≡ Op.digest_length
unfolding file_digest Op.digest_length
digest-size = refl

deserialize_detached-serialize_detached_example :
    (out : Bytes) × (serialize_detached_bytes file ≡ ok out)
    × (deserialize_detached toy_hashes out ≡ ok (record { timestamp = canonical tree }))
deserialize_detached-serialize_detached_example =
    deserialize_detached-serialize_detached toy_hashes file tree-IsValid tree-low digest-size

deserialize_detached_trailing_example :
    (out : Bytes) × (serialize_detached_bytes file ≡ ok out)
    × (deserialize_detached toy_hashes (out ++ (9 ∷ [])) ≡ err trailing_garbage)
deserialize_detached_trailing_example =
    deserialize_detached_trailing toy_hashes file 9 [] tree-IsValid tree-low digest-size

deserialize-ne-stuck_example :
    deserialize toy_hashes recursion_limit_depth digest (0xff ∷ 0xff ∷ 0x08 ∷ []) ≢ stuck
deserialize-ne-stuck_example =
    deserialize-ne-stuck toy_hashes recursion_limit_depth digest (0xff ∷ 0xff ∷ 0x08 ∷ [])
