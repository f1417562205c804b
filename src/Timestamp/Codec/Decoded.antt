-- ===== src/Timestamp/Codec/Decoded.antt =====
-- Deserialize (internal/core/timestamp/timestamp.go) on the bytes of a valid tree: item by
-- item, and then by induction on the tree.
use ots.Prelude.{
  ℕ, zero, suc, ◌+◌, ◌≤◌, ◌≡◌, refl, ap, ◌∙◌, arith, List, [], ◌∷◌, ◌++◌, append_assoc, append-nil,
  Bytes, All, length, length-append, le→ltb-false,
}
use ots.Result.{ok}
use ots.Op
use ots.Op.{Op, Hashes, append, prepend, sha256, sha1, crypt, ripemd160, keccak256, max_msg_length}
use ots.Op.Format.{IsValid as IsValidOp, argument}
use ots.Notary.{Attestation}
use ots.Notary.Format.{IsValid as IsValidAttestation, attestation_bytes}
use ots.Timestamp.{Timestamp, stamp, Ops, no_ops, op_stamp, msg_of, length_ops, new}
use ots.Timestamp.Tree.{IsValid, IsValidOps, height, height_ops}
use ots.Timestamp.Codec.{deserialize, add_op_stamp}
use ots.Timestamp.Codec.Layout.{
  marked_bytes, last_bytes, attestations_bytes, separator, op_bytes, tree_bytes, ops_bytes,
}
use ots.Timestamp.Codec.Items.{
  add_ops, add_ops-add_op_stamp, add_op_stamp-add_ops, msg_of-add_op_stamp, run, run_last_op,
  run_marked_op, run-last_bytes, run-marked_bytes,
}

count_ops : (ops : Ops) → length_ops ops ≤ length (ops_bytes ops)
unfolding tree_bytes
count_ops no_ops = omega arith
count_ops (op_stamp o s ops) = omega (
  arith,
  count_ops ops,
  length-append (separator ops) (op_bytes o ++ (tree_bytes s ++ ops_bytes ops)),
  length-append (argument o) (tree_bytes s ++ ops_bytes ops),
  length-append (tree_bytes s) (ops_bytes ops),
)

count_marked : (atts : List Attestation) → length atts ≤ length (marked_bytes atts)
unfolding marked_bytes
count_marked [] = omega arith
count_marked (a ∷ atts) =
    omega (arith, count_marked atts, length-append (attestation_bytes a) (marked_bytes atts))

count_last : (atts : List Attestation) → length atts ≤ length (last_bytes atts)
unfolding last_bytes
count_last [] = omega arith
count_last (a ∷ []) = omega arith
count_last (a ∷ b ∷ atts) =
    omega
      (arith, count_last (b ∷ atts), length-append (attestation_bytes a) (last_bytes (b ∷ atts)))

-- The loop's fuel is enough for all items.
count_items :
    (atts : List Attestation) (ops : Ops) (msg rest : Bytes)
    → length atts + length_ops ops ≤ length (tree_bytes (stamp msg atts ops) ++ rest)
unfolding tree_bytes attestations_bytes
count_items atts no_ops msg rest = omega (
  arith,
  count_last atts,
  length-append (last_bytes atts ++ []) rest,
  length-append (last_bytes atts) [],
)
count_items atts (op_stamp o s ops) msg rest = omega (
  arith,
  count_marked atts,
  count_ops (op_stamp o s ops),
  length-append (marked_bytes atts ++ ops_bytes (op_stamp o s ops)) rest,
  length-append (marked_bytes atts) (ops_bytes (op_stamp o s ops)),
)

-- Deserialize on bytes that hold an item: the loop runs on all of them.
deserialize_start :
    (h : Hashes) (depth : ℕ) (msg : Bytes) (b : ℕ) (buf : Bytes)
    → length msg ≤ max_msg_length
    → deserialize h (suc depth) msg (b ∷ buf)
      ≡ run h (deserialize h depth) (suc (length buf)) (stamp msg [] no_ops) (b ∷ buf)
unfolding deserialize new
deserialize_start h depth msg b buf fits = rw (le→ltb-false _ _ fits)

-- A run of the loop with fuel for all the items settles Deserialize.
deserialize_from_run :
    (h : Hashes) (depth n : ℕ) (msg buf rest : Bytes) (t : Timestamp)
    → length msg ≤ max_msg_length
    → 1 ≤ n
    → n ≤ length buf
    → ((f : ℕ) → n ≤ f → run h (deserialize h depth) f (stamp msg [] no_ops) buf ≡ ok (t, rest))
    → deserialize h (suc depth) msg buf ≡ ok (t, rest)
deserialize_from_run h depth n msg [] rest t fits some_item enough runs = absurd (omega arith)
deserialize_from_run h depth n msg (b ∷ buf) rest t fits some_item enough runs =
    deserialize_start h depth msg b buf fits ∙ runs (suc (length buf)) enough

regroup_last : (a b rest : Bytes) → (a ++ (b ++ [])) ++ rest ≡ a ++ (b ++ rest)
regroup_last a b rest = simp (append_assoc, append-nil)

regroup_more : (a b c rest : Bytes) → (a ++ (b ++ c)) ++ rest ≡ a ++ (b ++ (c ++ rest))
regroup_more a b c rest = simp append_assoc

-- That the loop, at one depth, reads the operations of a node with the given message.
abbrev ReadsOps : Hashes → ℕ → Bytes → Ops → Bytes → Type 0
ReadsOps h depth msg ops rest =
    (fuel : ℕ) (t : Timestamp)
    → msg_of t ≡ msg
    → 1 ≤ length_ops ops
    → length_ops ops ≤ fuel
    → run h (deserialize h depth) fuel t (ops_bytes ops ++ rest) ≡ ok (add_ops ops t, rest)

-- The loop on a node's bytes, where it reads the node's operations.
node_runs :
    (h : Hashes) (depth : ℕ) (msg rest : Bytes) (atts : List Attestation) (ops : Ops)
    → 1 ≤ length atts + length_ops ops
    → All IsValidAttestation atts
    → ReadsOps h depth msg ops rest
    → (fuel : ℕ) → length atts + length_ops ops ≤ fuel
    → run h
        (deserialize h depth)
        fuel
        (stamp msg [] no_ops)
        (tree_bytes (stamp msg atts ops) ++ rest)
      ≡ ok (stamp msg atts ops, rest)
unfolding tree_bytes attestations_bytes
node_runs h depth msg rest [] no_ops some_item v reads fuel enough = absurd (omega arith)
node_runs h depth msg rest (a ∷ atts) no_ops some_item v reads zero enough = absurd (omega arith)
node_runs h depth msg rest (a ∷ atts) no_ops some_item v reads (suc fuel) enough =
    ap (run h (deserialize h depth) (suc fuel) (stamp msg [] no_ops))
      (ap (λ (x : Bytes). x ++ rest) (append-nil (last_bytes (a ∷ atts))))
    ∙ run-last_bytes h (deserialize h depth) a atts fuel (stamp msg [] no_ops) rest (omega arith)
        v.0 v.1
node_runs h depth msg rest atts (op_stamp o s ops) some_item v reads fuel enough =
    ap (run h (deserialize h depth) fuel (stamp msg [] no_ops))
      (append_assoc (marked_bytes atts) (ops_bytes (op_stamp o s ops)) rest)
    ∙ run-marked_bytes h (deserialize h depth) atts fuel (length_ops (op_stamp o s ops))
        (stamp msg [] no_ops) (stamp msg atts (op_stamp o s ops)) _ rest enough v
        (λ f le. reads f (stamp msg atts no_ops) refl (omega arith) le)

-- The loop on an operation and those behind it, where it reads its stamp and those.
op_runs :
    (h : Hashes) (depth : ℕ) (msg rest : Bytes) (o : Op) (s : Timestamp) (ops : Ops)
    → IsValidOp o
    → Op.apply h o msg ≡ ok (msg_of s)
    → ((buf : Bytes) → deserialize h depth (msg_of s) (tree_bytes s ++ buf) ≡ ok (s, buf))
    → ReadsOps h depth msg ops rest
    → ReadsOps h depth msg (op_stamp o s ops) rest
unfolding tree_bytes
op_runs h depth msg rest o s ops v link reads reads_ops zero t same some_op enough =
    absurd (omega arith)
op_runs h depth msg rest o s no_ops v link reads reads_ops (suc fuel) t same some_op enough =
    ap (run h (deserialize h depth) (suc fuel) t) (regroup_last (op_bytes o) (tree_bytes s) rest)
    ∙ run_last_op h (deserialize h depth) fuel o s t (tree_bytes s) rest v (rw same link)
        (reads rest)
    ∙ ap (λ (x : Timestamp). ok (x, rest)) (add_op_stamp-add_ops o s t)
op_runs h depth msg rest o s (op_stamp p u ops) v link reads reads_ops (suc fuel) t same some_op
      enough =
    let more : Ops = op_stamp p u ops in
    ap (run h (deserialize h depth) (suc fuel) t)
      (regroup_more (0xff ∷ op_bytes o) (tree_bytes s) (ops_bytes more) rest)
    ∙ run_marked_op h (deserialize h depth) fuel o s t (tree_bytes s) (ops_bytes more ++ rest) v
        (rw same link) (reads _)
    ∙ reads_ops fuel (add_op_stamp o s t) (msg_of-add_op_stamp o s t ∙ same) (omega arith)
        (omega arith)
    ∙ ap (λ (x : Timestamp). ok (x, rest)) (add_ops-add_op_stamp o s more t)

mutual
  unfolding height

  decode_tree :
      (h : Hashes) (t : Timestamp) (depth : ℕ) (rest : Bytes)
      → IsValid h t
      → height t ≤ depth
      → deserialize h depth (msg_of t) (tree_bytes t ++ rest) ≡ ok (t, rest)
  decode_tree h (stamp msg atts ops) zero rest v low = absurd (omega arith)
  decode_tree h (stamp msg atts ops) (suc depth) rest v low =
      deserialize_from_run h depth (length atts + length_ops ops) msg _ rest (stamp msg atts ops)
        v.0 v.1 (count_items atts ops msg rest)
        (node_runs h depth msg rest atts ops v.1 v.2
          (decode_ops h ops msg depth rest v.3 (omega arith)))

  decode_ops :
      (h : Hashes) (ops : Ops) (msg : Bytes) (depth : ℕ) (rest : Bytes)
      → IsValidOps h msg ops
      → height_ops ops ≤ depth
      → ReadsOps h depth msg ops rest
  decode_ops h no_ops msg depth rest v low = λ fuel t same some_op enough. absurd (omega arith)
  decode_ops h (op_stamp o s ops) msg depth rest v low =
      op_runs h depth msg rest o s ops v.0 v.1 (λ buf. decode_tree h s depth buf v.2 (omega arith))
        (decode_ops h ops msg depth rest v.3 (omega arith))

-- From the bytes of a valid tree that is no deeper than its depth limit, Deserialize builds that
-- tree, and leaves the bytes behind it unread.
pub deserialize-tree_bytes :
    (h : Hashes) (t : Timestamp) (depth : ℕ) (rest : Bytes)
    → IsValid h t
    → height t ≤ depth
    → deserialize h depth (msg_of t) (tree_bytes t ++ rest) ≡ ok (t, rest)
deserialize-tree_bytes h t depth rest v low = decode_tree h t depth rest v low
