-- ===== src/Timestamp/Detached/RoundTrip.antt =====
-- A written .ots file is read back (internal/core/timestamp/timestamp.go).
use ots.Prelude.{
  arith, ℕ, ◌≤◌, ◌≡◌, refl, ap, ◌∙◌, [], ◌∷◌, ◌++◌, append_assoc, append-nil, Bytes, length,
}
use ots.Prelude.Int.{pos}
use ots.Result.{ok, err, ◌>>=◌, ◌>>◌, trailing_garbage}
use ots.Serialize.{read_bytes, assert_eof}
use ots.Serialize.Fields.{assert_magic_exact, read_bytes_exact}
use ots.Op
use ots.Op.{Hashes, digest_length}
use ots.Timestamp.{Timestamp, msg_of}
use ots.Timestamp.Tree.{IsValid, height}
use ots.Timestamp.Codec.{deserialize, recursion_limit_depth}
use ots.Timestamp.Codec.Canonical.{canonical, msg_of-canonical}
use ots.Timestamp.Codec.Layout.{tree_bytes}
use ots.Timestamp.Codec.Encoded.{serialize-tree_bytes}
use ots.Timestamp.Codec.RoundTrip.{deserialize-canonical}
use ots.Timestamp.Detached.{
  Detached, header_magic, major_version, file_digest, new_detached, serialize_detached,
  serialize_detached_bytes, require_sha256, deserialize_detached,
}

-- What precedes the tree.
header_bytes : Bytes → Bytes
header_bytes digest = header_magic ++ (major_version ∷ 0x08 ∷ digest)

serialize_detached-tree_bytes :
    (h : Hashes) (d : Detached)
    → IsValid h d.timestamp
    → serialize_detached_bytes d
      ≡ ok (header_bytes (msg_of d.timestamp) ++ tree_bytes (canonical d.timestamp))
unfolding serialize_detached_bytes serialize_detached header_bytes Op.serialize
serialize_detached-tree_bytes h d v = serialize-tree_bytes h d.timestamp _ v

-- With the header read, what is left is the tree and the end of the file.
deserialize_detached-header :
    (h : Hashes) (digest body : Bytes)
    → length digest ≡ digest_length
    → deserialize_detached h (header_bytes digest ++ body) ≡ (do
      (t, rest) ← deserialize h recursion_limit_depth digest body
      assert_eof rest
      new_detached t)
unfolding deserialize_detached header_bytes digest_length
deserialize_detached-header h digest body size =
    let front : read_bytes (pos digest_length) (digest ++ body) ≡ ok (digest, body) =
      rw size at (read_bytes_exact digest body (rw size (omega arith))) in
    rw (assert_magic_exact header_magic (major_version ∷ 0x08 ∷ (digest ++ body)) (omega arith))
      (unfold Op.deserialize Op.deserialize_from_tag require_sha256 in rw front)

new_detached_fits :
    (t : Timestamp)
    → length (msg_of t) ≡ digest_length
    → new_detached t ≡ ok (record { timestamp = t })
unfolding new_detached
new_detached_fits t size = rw size

-- A file that Serialize writes for a valid tree of at most 256 levels over a 32-byte digest is
-- read back as the tree with the attestations and operations of every node sorted.
pub deserialize_detached-serialize_detached :
    (h : Hashes) (d : Detached)
    → IsValid h d.timestamp
    → height d.timestamp ≤ recursion_limit_depth
    → length (file_digest d) ≡ digest_length
    → (out : Bytes) × (serialize_detached_bytes d ≡ ok out)
      × (deserialize_detached h out ≡ ok (record { timestamp = canonical d.timestamp }))
unfolding file_digest
deserialize_detached-serialize_detached h d v low size =
    let t = d.timestamp in
    let whole : deserialize h recursion_limit_depth (msg_of t) (tree_bytes (canonical t))
        ≡ ok (canonical t, []) =
      rw append-nil at (deserialize-canonical h t recursion_limit_depth [] v low) in
    (
      header_bytes (msg_of t) ++ tree_bytes (canonical t),
      serialize_detached-tree_bytes h d v,
      deserialize_detached-header h (msg_of t) (tree_bytes (canonical t)) size
          ∙ rw whole
              (unfold assert_eof in new_detached_fits (canonical t) (rw (msg_of-canonical t) size)),
    )

-- A file that Serialize writes for a valid tree of at most 256 levels over a 32-byte digest is
-- refused as trailing garbage when one byte or more stands behind it.
pub deserialize_detached_trailing :
    (h : Hashes) (d : Detached) (b : ℕ) (more : Bytes)
    → IsValid h d.timestamp
    → height d.timestamp ≤ recursion_limit_depth
    → length (file_digest d) ≡ digest_length
    → (out : Bytes) × (serialize_detached_bytes d ≡ ok out)
      × (deserialize_detached h (out ++ (b ∷ more)) ≡ err trailing_garbage)
unfolding file_digest
deserialize_detached_trailing h d b more v low size =
    let t = d.timestamp in
    (
      header_bytes (msg_of t) ++ tree_bytes (canonical t),
      serialize_detached-tree_bytes h d v,
      ap (deserialize_detached h)
            (append_assoc (header_bytes (msg_of t)) (tree_bytes (canonical t)) (b ∷ more))
          ∙ deserialize_detached-header h (msg_of t) (tree_bytes (canonical t) ++ (b ∷ more)) size
          ∙ rw (deserialize-canonical h t recursion_limit_depth (b ∷ more) v low)
              (unfold assert_eof in refl),
    )
