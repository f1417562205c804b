-- ===== src/Timestamp/Codec/Items.antt =====
-- The loop of Deserialize (internal/core/timestamp/timestamp.go) on one item, and on the
-- attestations of a node.
use ots.Prelude.{
  ℕ, zero, suc, ◌+◌, ◌≤◌, ◌≡◌, refl, sym, ap, ◌∙◌, arith, false, List, [], ◌∷◌, ◌++◌, append_assoc,
  append-nil, Bytes, All, length, ◌==◌,
}
use ots.Result.{ok, Reader, ◌>>=◌}
use ots.Serialize.{read_byte}
use ots.Op
use ots.Op.{Op, Hashes, append, prepend, sha256, sha1, crypt, ripemd160, keccak256, max_msg_length}
use ots.Op.Format.{IsValid as IsValidOp, argument, deserialize_from_tag-argument}
use ots.Notary.{Attestation}
use ots.Notary.Format.{
  IsValid as IsValidAttestation, attestation_bytes, deserialize-attestation_bytes,
}
use ots.Timestamp.{Timestamp, stamp, Ops, no_ops, op_stamp, msg_of, add_last}
use ots.Timestamp.Codec.{read_item, read_items, applied, add_attestation, add_op_stamp}
use ots.Timestamp.Codec.Layout.{marked_bytes, last_bytes, op_bytes}

abbrev pub append_ops : Ops → Ops → Ops
append_ops no_ops others = others
append_ops (op_stamp o s ops) others = op_stamp o s (append_ops ops others)

-- The node with more operations or attestations behind its own.
abbrev pub add_ops : Ops → Timestamp → Timestamp
add_ops others (stamp msg atts ops) = stamp msg atts (append_ops ops others)

abbrev add_all : List Attestation → Timestamp → Timestamp
add_all others (stamp msg atts ops) = stamp msg (atts ++ others) ops

append_ops-add_last :
    (ops : Ops) (o : Op) (s : Timestamp) (others : Ops)
    → append_ops (add_last ops o s) others ≡ append_ops ops (op_stamp o s others)
append_ops-add_last no_ops o s others = refl
append_ops-add_last (op_stamp p t ops) o s others =
    ap (op_stamp p t) (append_ops-add_last ops o s others)

append_ops-no_ops : (ops : Ops) → append_ops ops no_ops ≡ ops
append_ops-no_ops no_ops = refl
append_ops-no_ops (op_stamp o s ops) = ap (op_stamp o s) (append_ops-no_ops ops)

pub add_ops-add_op_stamp :
    (o : Op) (s : Timestamp) (ops : Ops) (t : Timestamp)
    → add_ops ops (add_op_stamp o s t) ≡ add_ops (op_stamp o s ops) t
unfolding add_op_stamp
add_ops-add_op_stamp o s ops (stamp msg atts os) =
    ap (stamp msg atts) (append_ops-add_last os o s ops)

pub add_op_stamp-add_ops :
    (o : Op) (s t : Timestamp) → add_op_stamp o s t ≡ add_ops (op_stamp o s no_ops) t
unfolding add_op_stamp
add_op_stamp-add_ops o s (stamp msg atts ops) =
    ap (stamp msg atts)
      (sym (append_ops-no_ops (add_last ops o s)) ∙ append_ops-add_last ops o s no_ops)

add_all-add_attestation :
    (a : Attestation) (atts : List Attestation) (t : Timestamp)
    → add_all atts (add_attestation a t) ≡ add_all (a ∷ atts) t
unfolding add_attestation
add_all-add_attestation a atts (stamp msg own ops) =
    ap (λ x. stamp msg x ops) (append_assoc own (a ∷ []) atts)

pub msg_of-add_attestation :
    (a : Attestation) (t : Timestamp) → msg_of (add_attestation a t) ≡ msg_of t
unfolding add_attestation
msg_of-add_attestation a (stamp msg atts ops) = refl

pub msg_of-add_op_stamp : (o : Op) (s t : Timestamp) → msg_of (add_op_stamp o s t) ≡ msg_of t
unfolding add_op_stamp
msg_of-add_op_stamp o s (stamp msg atts ops) = refl

-- No operation has the tag of an attestation or of a separator.
tag_plain : (o : Op) → ((Op.tag o == 0x00) ≡ false) × ((Op.tag o == 0xff) ≡ false)
tag_plain (append arg) = (refl, refl)
tag_plain (prepend arg) = (refl, refl)
tag_plain sha256 = (refl, refl)
tag_plain sha1 = (refl, refl)
tag_plain (crypt ripemd160) = (refl, refl)
tag_plain (crypt keccak256) = (refl, refl)

-- The loop of Deserialize with the read of the byte before it.
module _ (h : Hashes) (read_child : Bytes → Reader Timestamp) where
  abbrev pub run : ℕ → Timestamp → Reader Timestamp
  run fuel t buf = read_byte buf >>= λ (tag, rest). read_items h read_child fuel tag t rest

  run_marked_attestation :
      (fuel : ℕ) (t : Timestamp) (a : Attestation) (buf : Bytes)
      → IsValidAttestation a
      → run (suc fuel) t (0xff ∷ 0x00 ∷ (attestation_bytes a ++ buf))
        ≡ run fuel (add_attestation a t) buf
  unfolding read_items read_item
  run_marked_attestation fuel t a buf v = rw (deserialize-attestation_bytes a buf v)

  run_last_attestation :
      (fuel : ℕ) (t : Timestamp) (a : Attestation) (buf : Bytes)
      → IsValidAttestation a
      → run (suc fuel) t (0x00 ∷ (attestation_bytes a ++ buf)) ≡ ok (add_attestation a t, buf)
  unfolding read_items read_item
  run_last_attestation fuel t a buf v = rw (deserialize-attestation_bytes a buf v)

  -- What reading an operation and its stamp needs of the stamp's own reader.
  read_item_op :
      (o : Op) (s t : Timestamp) (front buf : Bytes)
      → IsValidOp o
      → Op.apply h o (msg_of t) ≡ ok (msg_of s)
      → read_child (msg_of s) (front ++ buf) ≡ ok (s, buf)
      → read_item h read_child (Op.tag o) t (argument o ++ (front ++ buf))
        ≡ ok (add_op_stamp o s t, buf)
  unfolding read_item
  read_item_op o s t front buf v link reads =
      rw ((tag_plain o).0) (
        rw (deserialize_from_tag-argument o (front ++ buf) v)
          (rw link (unfold applied in rw reads)))

  pub run_last_op :
      (fuel : ℕ) (o : Op) (s t : Timestamp) (front buf : Bytes)
      → IsValidOp o
      → Op.apply h o (msg_of t) ≡ ok (msg_of s)
      → read_child (msg_of s) (front ++ buf) ≡ ok (s, buf)
      → run (suc fuel) t (op_bytes o ++ (front ++ buf)) ≡ ok (add_op_stamp o s t, buf)
  unfolding read_items
  run_last_op fuel o s t front buf v link reads =
      rw ((tag_plain o).1) (read_item_op o s t front buf v link reads)

  pub run_marked_op :
      (fuel : ℕ) (o : Op) (s t : Timestamp) (front buf : Bytes)
      → IsValidOp o
      → Op.apply h o (msg_of t) ≡ ok (msg_of s)
      → read_child (msg_of s) (front ++ buf) ≡ ok (s, buf)
      → run (suc fuel) t (0xff ∷ (op_bytes o ++ (front ++ buf))) ≡ run fuel (add_op_stamp o s t) buf
  unfolding read_items
  run_marked_op fuel o s t front buf v link reads = rw (read_item_op o s t front buf v link reads)

  pub run-last_bytes :
      (a : Attestation) (atts : List Attestation) (fuel : ℕ) (t : Timestamp) (rest : Bytes)
      → length atts ≤ fuel
      → IsValidAttestation a
      → All IsValidAttestation atts
      → run (suc fuel) t (last_bytes (a ∷ atts) ++ rest) ≡ ok (add_all (a ∷ atts) t, rest)
  unfolding last_bytes
  run-last_bytes a [] fuel t rest enough v vs =
      run_last_attestation fuel t a rest v ∙ ap (λ (x : Timestamp). ok (x, rest)) (add_one t)
    where
      add_one : (t : Timestamp) → add_attestation a t ≡ add_all (a ∷ []) t
      add_one (stamp msg own ops) = unfold add_attestation in refl
  run-last_bytes a (b ∷ atts) zero t rest enough v vs = absurd (omega arith)
  run-last_bytes a (b ∷ atts) (suc fuel) t rest enough v vs =
      rw (append_assoc (attestation_bytes a) (last_bytes (b ∷ atts)) rest) (
        run_marked_attestation (suc fuel) t a (last_bytes (b ∷ atts) ++ rest) v
        ∙ run-last_bytes b atts fuel (add_attestation a t) rest (omega arith) vs.0 vs.1
        ∙ ap (λ (x : Timestamp). ok (x, rest)) (add_all-add_attestation a (b ∷ atts) t))

  -- Marked attestations, and then whatever the reader makes of the rest.
  pub run-marked_bytes :
      (atts : List Attestation) (fuel n : ℕ) (t result : Timestamp) (buf rest : Bytes)
      → length atts + n ≤ fuel
      → All IsValidAttestation atts
      → ((f : ℕ) → n ≤ f → run f (add_all atts t) buf ≡ ok (result, rest))
      → run fuel t (marked_bytes atts ++ buf) ≡ ok (result, rest)
  unfolding marked_bytes
  run-marked_bytes [] fuel n (stamp msg own ops) result buf rest enough v finish =
      rw append-nil at (finish fuel (omega arith))
  run-marked_bytes (a ∷ atts) zero n t result buf rest enough v finish = absurd (omega arith)
  run-marked_bytes (a ∷ atts) (suc fuel) n t result buf rest enough v finish =
      rw (append_assoc (attestation_bytes a) (marked_bytes atts) buf) (
        run_marked_attestation fuel t a (marked_bytes atts ++ buf) v.0
        ∙ run-marked_bytes atts fuel n (add_attestation a t) result buf rest (omega arith) v.1
            (λ f le. rw (add_all-add_attestation a atts t) (finish f le)))
