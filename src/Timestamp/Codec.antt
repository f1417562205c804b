-- ===== src/Timestamp/Codec.antt =====
-- Serialize and Deserialize of a proof tree (internal/core/timestamp/timestamp.go).
pub mod Canonical
pub mod Layout
pub mod Items
pub mod Encoded
pub mod Decoded
pub mod RoundTrip
pub mod Ends
use ots.Prelude.{
  ℕ, zero, suc, ◌+◌, Bool, true, false, List, [], ◌∷◌, ◌++◌, ◌&&◌, Option, none, some, Bytes,
  length, ◌==◌, if◌then◌else◌,
}
use ots.Result.{
  Result, ok, err, panicked, stuck, Reader, ◌>>=◌, ◌>>◌, guard, empty_timestamp, recursion_limit,
  invalid_for_op,
}
use ots.Serialize.{write_bytes, read_byte}
use ots.Op
use ots.Op.{Op, Hashes}
use ots.Notary
use ots.Notary.{Attestation}
use ots.Timestamp.{Timestamp, stamp, Ops, no_ops, op_stamp, msg_of, add_last, length_ops, new}
use ots.Prelude.Sorting.{sort_slice}

abbrev pub recursion_limit_depth : ℕ
recursion_limit_depth = 256

-- An operation with the Serialize of its stamp.
abbrev pub Writer : Type 0
Writer = Op × (Bytes → Result Bytes)

abbrev pub writer_less : Writer → Writer → Bool
writer_less v w = Op.less v.0 w.0

-- Each attestation behind 0xff 0x00.
unfoldable pub write_marked : List Attestation → Bytes → Bytes
write_marked [] ctx = ctx
write_marked (a ∷ atts) ctx =
    write_marked atts (Notary.serialize a (write_bytes (0xff ∷ 0x00 ∷ []) ctx))

-- atts[:len(atts)-1] and atts[len(atts)-1]
unfoldable pub but_last : List Attestation → List Attestation
but_last [] = []
but_last (a ∷ []) = []
but_last (a ∷ b ∷ atts) = a ∷ but_last (b ∷ atts)

unfoldable pub last? : List Attestation → Option Attestation
last? [] = none
last? (a ∷ []) = some a
last? (a ∷ b ∷ atts) = last? (b ∷ atts)

-- The last attestation of a node without operations; an index of -1 would panic.
unfoldable pub write_last : Option Attestation → Bytes → Result Bytes
write_last none ctx = panicked
write_last (some a) ctx = ok (Notary.serialize a (write_bytes (0x00 ∷ []) ctx))

-- The last attestation, if there is one, of a node with operations.
unfoldable pub write_marked_last : Option Attestation → Bytes → Bytes
write_marked_last none ctx = ctx
write_marked_last (some a) ctx = Notary.serialize a (write_bytes (0xff ∷ 0x00 ∷ []) ctx)

-- The operations, each but the last behind 0xff.
unfoldable pub write_ops : List Writer → Bytes → Result Bytes
write_ops [] ctx = ok ctx
write_ops ((o, write) ∷ []) ctx = write (Op.serialize o ctx)
write_ops ((o, write) ∷ w ∷ writers) ctx = do
  ctx₁ ← write (Op.serialize o (write_bytes (0xff ∷ []) ctx))
  write_ops (w ∷ writers) ctx₁

unfoldable pub write_items : List Attestation → List Writer → Bytes → Result Bytes
write_items atts [] ctx = write_last (last? atts) (write_marked (but_last atts) ctx)
write_items atts (w ∷ writers) ctx =
    write_ops (w ∷ writers) (write_marked_last (last? atts) (write_marked (but_last atts) ctx))

unfoldable mutual
  pub serialize : Timestamp → Bytes → Result Bytes
  serialize (stamp msg atts ops) ctx =
      if length atts == 0 && length_ops ops == 0
      then err empty_timestamp
      else write_items (Notary.sort_attestations atts) (sort_slice writer_less (writers_of ops)) ctx

  pub writers_of : Ops → List Writer
  writers_of no_ops = []
  writers_of (op_stamp o s ops) = (o, serialize s) ∷ writers_of ops

unfoldable pub serialize_bytes : Timestamp → Result Bytes
serialize_bytes t = serialize t []

-- An error of Apply becomes a DeserializationError.
unfoldable pub applied : Result Bytes → Result Bytes
applied (ok result) = ok result
applied (err e) = err (invalid_for_op e)
applied panicked = panicked
applied stuck = stuck

unfoldable pub add_attestation : Attestation → Timestamp → Timestamp
add_attestation a (stamp msg atts ops) = stamp msg (atts ++ (a ∷ [])) ops

unfoldable pub add_op_stamp : Op → Timestamp → Timestamp → Timestamp
add_op_stamp o child (stamp msg atts ops) = stamp msg atts (add_last ops o child)

-- readItem; `read_child` is Deserialize at one depth less.
unfoldable pub read_item : Hashes → (Bytes → Reader Timestamp) → ℕ → Timestamp → Reader Timestamp
read_item h read_child tag t buf =
    if tag == 0x00
    then (do (att, buf₁) ← Notary.deserialize buf; ok (add_attestation att t, buf₁))
    else (do
      (o, buf₁) ← Op.deserialize_from_tag tag buf
      result ← applied (Op.apply h o (msg_of t))
      (child, buf₂) ← read_child result buf₁
      ok (add_op_stamp o child t, buf₂))

-- The loop over the items behind 0xff, and the last item; `tag` is the byte read before the test.
-- A round of the loop reads two bytes at least, so there is fuel for more rounds than bytes.
unfoldable pub read_items :
    Hashes → (Bytes → Reader Timestamp) → ℕ → ℕ → Timestamp → Reader Timestamp
read_items h read_child zero tag t buf = stuck
read_items h read_child (suc fuel) tag t buf =
    let again = (do
      (next, buf₁) ← read_byte buf
      (t', buf₂) ← read_item h read_child next t buf₁
      (tag', buf₃) ← read_byte buf₂
      read_items h read_child fuel tag' t' buf₃) in
    if tag == 0xff then again else read_item h read_child tag t buf

unfoldable pub deserialize : Hashes → ℕ → Bytes → Reader Timestamp
deserialize h zero initial_msg buf = err recursion_limit
deserialize h (suc depth) initial_msg buf = do
  t ← new initial_msg
  (tag, buf₁) ← read_byte buf
  read_items h (deserialize h depth) (suc (length buf₁)) tag t buf₁

-- What Deserialize leaves unread is not looked at.
unfoldable pub deserialize_bytes : Hashes → Bytes → Bytes → Result Timestamp
deserialize_bytes h encoded initial_msg = do
  (t, buf) ← deserialize h recursion_limit_depth initial_msg encoded
  ok t
