-- ===== src/Timestamp/Codec/Encoded.antt =====
-- Serialize (internal/core/timestamp/timestamp.go) against the plain description of its bytes.
use ots.Prelude.{
  ℕ, ◌+◌, ◌≤◌, ◌≡◌, refl, sym, ap, ◌∙◌, arith, ◌&&◌, List, [], ◌∷◌, ◌++◌, append_assoc, append-nil,
  Bytes, All, length, ◌==◌, if◌then◌else◌, Bool-cases, inl, inr,
}
use ots.Result.{Result, ok}
use ots.Op
use ots.Op.{Op, Hashes}
use ots.Op.Format.{IsValid as IsValidOp, argument}
use ots.Notary
use ots.Notary.{Attestation}
use ots.Notary.Format.{IsValid as IsValidAttestation}
use ots.Notary.Sorted.{sort_attestations-All, length-sort_attestations}
use ots.Timestamp.{Timestamp, stamp, Ops, no_ops, op_stamp, length_ops}
use ots.Timestamp.Tree.{IsValid, IsValidOps}
use ots.Timestamp.Codec.{Writer, writer_less, write_ops, write_items, serialize, writers_of}
use ots.Prelude.Sorting.{insert, sort_slice, sort_slice-All, length-sort_slice}
use ots.Timestamp.Codec.Canonical.{
  OpStamp, op_stamp_less, of_list, canonical, canonical_stamps, length-canonical_stamps,
}
use mathlib.Core.List.{foldl}
use ots.Timestamp.Codec.Layout.{
  marked_bytes, last_bytes, attestations_bytes, op_bytes, tree_bytes, ops_bytes, marked_front-last,
  write_marked-marked_bytes, write_last-last_bytes,
}

-- A writer of an operation whose Serialize appends the bytes of the stamp.
abbrev IsWriterOf : Writer → OpStamp → Type 0
IsWriterOf (o, write) (p, s) = (o ≡ p) × ((ctx : Bytes) → write ctx ≡ ok (ctx ++ tree_bytes s))

abbrev AreWritersOf : List Writer → List OpStamp → Type 0
AreWritersOf [] [] = Unit
AreWritersOf [] (x ∷ xs) = ⊥
AreWritersOf (w ∷ ws) [] = ⊥
AreWritersOf (w ∷ ws) (x ∷ xs) = IsWriterOf w x × AreWritersOf ws xs

insert-AreWritersOf :
    (w : Writer) (x : OpStamp) (ws : List Writer) (xs : List OpStamp)
    → IsWriterOf w x
    → AreWritersOf ws xs
    → AreWritersOf (insert writer_less w ws) (insert op_stamp_less x xs)
unfolding insert
insert-AreWritersOf w x [] [] r rs = (r, tt)
insert-AreWritersOf w x [] (y ∷ ys) r rs = absurd rs
insert-AreWritersOf w x (v ∷ vs) [] r rs = absurd rs
insert-AreWritersOf w x (v ∷ vs) (y ∷ ys) r rs =
    let same : writer_less w v ≡ op_stamp_less x y = rw (r.0, rs.0.0) in
    elim (Bool-cases (op_stamp_less x y)) [
      | inl e ↦ rw (same ∙ e, e) (r, rs)
      | inr e ↦ rw (same ∙ e, e) (rs.0, insert-AreWritersOf w x vs ys r rs.1)
    ]

sort_onto-AreWritersOf :
    (ws sorted : List Writer) (xs sorted' : List OpStamp)
    → AreWritersOf ws xs
    → AreWritersOf sorted sorted'
    → AreWritersOf
        (foldl (λ s w. insert writer_less w s) sorted ws)
        (foldl (λ s x. insert op_stamp_less x s) sorted' xs)
sort_onto-AreWritersOf [] sorted [] sorted' r rs = rs
sort_onto-AreWritersOf [] sorted (x ∷ xs) sorted' r rs = absurd r
sort_onto-AreWritersOf (w ∷ ws) sorted [] sorted' r rs = absurd r
sort_onto-AreWritersOf (w ∷ ws) sorted (x ∷ xs) sorted' r rs =
    sort_onto-AreWritersOf ws _ xs _ r.1 (insert-AreWritersOf w x sorted sorted' r.0 rs)

sort_slice-AreWritersOf :
    (ws : List Writer) (xs : List OpStamp)
    → AreWritersOf ws xs
    → AreWritersOf (sort_slice writer_less ws) (sort_slice op_stamp_less xs)
unfolding sort_slice
sort_slice-AreWritersOf ws xs r = sort_onto-AreWritersOf ws [] xs [] r tt

abbrev HasValidOp : OpStamp → Type 0
HasValidOp (o, s) = IsValidOp o

-- One operation, and then its stamp.
write_one :
    (w : Writer) (x : OpStamp) (ctx : Bytes)
    → IsWriterOf w x
    → HasValidOp x
    → w.1 (Op.serialize w.0 ctx) ≡ ok (ctx ++ (op_bytes x.0 ++ tree_bytes x.1))
write_one w x ctx r v = rw (r.0) (
    rw (Op.Format.serialize_lem x.0 ctx v)
      (r.1 _ ∙ ap ok (append_assoc ctx (op_bytes x.0) (tree_bytes x.1))))

write_ops-ops_bytes :
    (ws : List Writer) (xs : List OpStamp) (ctx : Bytes)
    → AreWritersOf ws xs
    → All HasValidOp xs
    → write_ops ws ctx ≡ ok (ctx ++ ops_bytes (of_list xs))
unfolding write_ops tree_bytes
write_ops-ops_bytes [] [] ctx r v = ap ok (sym (append-nil ctx))
write_ops-ops_bytes [] (x ∷ xs) ctx r v = absurd r
write_ops-ops_bytes (w ∷ ws) [] ctx r v = absurd r
write_ops-ops_bytes (w ∷ []) (x ∷ []) ctx r v =
    write_one w x ctx r.0 v.0
    ∙ ap (λ (t : Bytes). ok (ctx ++ (op_bytes x.0 ++ t))) (sym (append-nil (tree_bytes x.1)))
write_ops-ops_bytes (w ∷ []) (x ∷ y ∷ ys) ctx r v = absurd r.1
write_ops-ops_bytes (w ∷ u ∷ us) (x ∷ []) ctx r v = absurd r.1
write_ops-ops_bytes (w ∷ u ∷ us) (x ∷ y ∷ ys) ctx r v =
    rw (write_one w x (ctx ++ (0xff ∷ [])) r.0 v.0) (
      write_ops-ops_bytes (u ∷ us) (y ∷ ys) _ r.1 v.1
      ∙ ap ok
          (regroup ctx (0xff ∷ []) (op_bytes x.0) (tree_bytes x.1) (ops_bytes (of_list (y ∷ ys)))))
  where
    regroup : (a b c d e : Bytes) → ((a ++ b) ++ (c ++ d)) ++ e ≡ a ++ (b ++ (c ++ (d ++ e)))
    regroup a b c d e = simp append_assoc

write_items-tree_bytes :
    (msg : Bytes) (atts : List Attestation) (ws : List Writer) (xs : List OpStamp) (ctx : Bytes)
    → 1 ≤ length atts + length xs
    → All IsValidAttestation atts
    → AreWritersOf ws xs
    → All HasValidOp xs
    → write_items atts ws ctx ≡ ok (ctx ++ tree_bytes (stamp msg atts (of_list xs)))
unfolding write_items tree_bytes attestations_bytes
write_items-tree_bytes msg [] [] [] ctx some_item v r q = absurd (omega arith)
write_items-tree_bytes msg (a ∷ atts) [] [] ctx some_item v r q =
    write_last-last_bytes a atts ctx v.0 v.1
    ∙ ap (λ (t : Bytes). ok (ctx ++ t)) (sym (append-nil (last_bytes (a ∷ atts))))
write_items-tree_bytes msg atts [] (x ∷ xs) ctx some_item v r q = absurd r
write_items-tree_bytes msg atts (w ∷ ws) [] ctx some_item v r q = absurd r
write_items-tree_bytes msg atts (w ∷ ws) (x ∷ xs) ctx some_item v r q =
    rw (marked_front-last atts ctx) (
      rw (write_marked-marked_bytes atts ctx v) (
        write_ops-ops_bytes (w ∷ ws) (x ∷ xs) _ r q
        ∙ ap ok (append_assoc ctx (marked_bytes atts) (ops_bytes (of_list (x ∷ xs))))))

canonical_stamps-HasValidOp :
    (h : Hashes) (msg : Bytes) (ops : Ops)
    → IsValidOps h msg ops
    → All HasValidOp (canonical_stamps ops)
unfolding canonical
canonical_stamps-HasValidOp h msg no_ops v = tt
canonical_stamps-HasValidOp h msg (op_stamp o s ops) v =
    (v.0, canonical_stamps-HasValidOp h msg ops v.3)

not_empty : (a b : ℕ) (x y : Result Bytes) → 1 ≤ a + b → (if a == 0 && b == 0 then x else y) ≡ y
not_empty a b x y some_item = ground arith

mutual
  unfolding serialize canonical

  serialize-canonical :
      (h : Hashes) (t : Timestamp) (ctx : Bytes)
      → IsValid h t
      → serialize t ctx ≡ ok (ctx ++ tree_bytes (canonical t))
  serialize-canonical h (stamp msg atts ops) ctx v =
      not_empty (length atts) (length_ops ops) _ _ v.1
      ∙ write_items-tree_bytes msg (Notary.sort_attestations atts)
          (sort_slice writer_less (writers_of ops))
          (sort_slice op_stamp_less (canonical_stamps ops)) ctx
          (omega (
            arith,
            v.1,
            length-sort_attestations atts,
            length-sort_slice op_stamp_less (canonical_stamps ops),
            length-canonical_stamps ops,
          ))
          (sort_attestations-All IsValidAttestation atts v.2)
          (sort_slice-AreWritersOf _ _ (writers_of-AreWritersOf h msg ops v.3))
          (sort_slice-All HasValidOp op_stamp_less _ (canonical_stamps-HasValidOp h msg ops v.3))

  writers_of-AreWritersOf :
      (h : Hashes) (msg : Bytes) (ops : Ops)
      → IsValidOps h msg ops
      → AreWritersOf (writers_of ops) (canonical_stamps ops)
  writers_of-AreWritersOf h msg no_ops v = tt
  writers_of-AreWritersOf h msg (op_stamp o s ops) v =
      ((refl, λ ctx. serialize-canonical h s ctx v.2), writers_of-AreWritersOf h msg ops v.3)

-- On a valid tree Serialize succeeds, and appends the bytes of the tree with the attestations and
-- operations of every node sorted.
pub serialize-tree_bytes :
    (h : Hashes) (t : Timestamp) (ctx : Bytes)
    → IsValid h t
    → serialize t ctx ≡ ok (ctx ++ tree_bytes (canonical t))
serialize-tree_bytes h t ctx v = serialize-canonical h t ctx v
