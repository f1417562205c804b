-- ===== src/Timestamp/Codec/RoundTrip.antt =====
-- Serialize and Deserialize together (internal/core/timestamp/timestamp.go).
use ots.Prelude.{ℕ, ◌≤◌, ◌≡◌, [], ◌++◌, Bytes}
use ots.Result.{ok}
use ots.Op.{Hashes}
use ots.Timestamp.{Timestamp, msg_of}
use ots.Timestamp.Tree.{IsValid, height}
use ots.Timestamp.Codec.{deserialize, serialize_bytes, recursion_limit_depth}
use ots.Timestamp.Codec.Canonical.{canonical, canonical-IsValid, msg_of-canonical, height-canonical}
use ots.Timestamp.Codec.Layout.{tree_bytes}
use ots.Timestamp.Codec.Encoded.{serialize-tree_bytes}
use ots.Timestamp.Codec.Decoded.{deserialize-tree_bytes}
use native.Mathlib.Nat.{le_trans}

pub deserialize-canonical :
    (h : Hashes) (t : Timestamp) (depth : ℕ) (rest : Bytes)
    → IsValid h t
    → height t ≤ depth
    → deserialize h depth (msg_of t) (tree_bytes (canonical t) ++ rest) ≡ ok (canonical t, rest)
deserialize-canonical h t depth rest v low = rw (← msg_of-canonical t) (
    deserialize-tree_bytes h (canonical t) depth rest (canonical-IsValid h t v)
      (le_trans (height-canonical t) low))

-- A valid tree of at most 256 levels is serialized, and what Serialize wrote is read back with the
-- message of its root, whatever follows it: as the tree with the attestations and the operations
-- of every node sorted.
pub deserialize-serialize_tree :
    (h : Hashes) (t : Timestamp) (rest : Bytes)
    → IsValid h t
    → height t ≤ recursion_limit_depth
    → (out : Bytes) × (serialize_bytes t ≡ ok out)
      × (deserialize h recursion_limit_depth (msg_of t) (out ++ rest) ≡ ok (canonical t, rest))
unfolding serialize_bytes
deserialize-serialize_tree h t rest v low = (
  tree_bytes (canonical t),
  serialize-tree_bytes h t [] v,
  deserialize-canonical h t recursion_limit_depth rest v low,
)
