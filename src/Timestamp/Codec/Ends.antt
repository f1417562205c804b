-- ===== src/Timestamp/Codec/Ends.antt =====
-- Deserialize ends on every input (internal/core/timestamp/timestamp.go): the loop never
-- runs out of the fuel that it is given, and a tree that is read leaves no more than was there.
use ots.Prelude.{ℕ, zero, suc, ◌≤◌, ◌≢◌, arith, true, Bytes, length, ltb, ◌==◌}
use ots.Result.{Result, stuck, Reader}
use ots.Result.Ensures.{
  Ensures, returns, fails, panics, Ensures-bind, Ensures-if, Ensures-weaken, Ensures-ne-stuck,
}
use ots.Serialize.Leaves.{Leaves, read_byte-Leaves}
use ots.Op
use ots.Op.{Op, Hashes, max_msg_length}
use ots.Op.Apply.{apply-Ensures}
use ots.Op.Leaves.{deserialize_from_tag-Leaves}
use ots.Notary.Leaves.{deserialize-Leaves as attestation-Leaves}
use ots.Timestamp.{Timestamp, msg_of, new}
use ots.Timestamp.Codec.{read_item, read_items, deserialize, applied}

Ensures-applied {κ} :
    {P : Bytes → Type κ} {r : Result Bytes}
    → Ensures true P r
    → Ensures true (λ x. Unit {0}) (applied r)
unfolding applied
Ensures-applied (returns p) = returns tt
Ensures-applied fails = fails
Ensures-applied (panics e) = panics e

applied-Ensures :
    (h : Hashes) (o : Op) (msg : Bytes) → Ensures true (λ r. Unit {0}) (applied (Op.apply h o msg))
applied-Ensures h o msg = Ensures-applied (apply-Ensures h o msg true)

module _ (h : Hashes) (read_child : Bytes → Reader Timestamp)
    (child-Leaves : (msg buf : Bytes) → Leaves true (length buf) (read_child msg buf)) where
  read_item-Leaves :
      (tag : ℕ) (t : Timestamp) (buf : Bytes)
      → Leaves true (length buf) (read_item h read_child tag t buf)
  unfolding read_item
  read_item-Leaves tag t buf =
      Ensures-if (tag == 0x00)
        (λ _. Ensures-bind (attestation-Leaves buf) λ (att, rest) le. returns le)
        (λ _. Ensures-bind (deserialize_from_tag-Leaves true tag buf) λ (o, rest) le.
          Ensures-bind (applied-Ensures h o (msg_of t)) λ result _.
            Ensures-bind (child-Leaves result rest) λ (child, after) le'. returns (omega arith))

  read_items-Leaves :
      (fuel tag : ℕ) (t : Timestamp) (buf : Bytes)
      → suc (length buf) ≤ fuel
      → Leaves true (length buf) (read_items h read_child fuel tag t buf)
  unfolding read_items
  read_items-Leaves zero tag t buf enough = absurd (omega arith)
  read_items-Leaves (suc fuel) tag t buf enough =
      Ensures-if (tag == 0xff)
        (λ _. Ensures-bind (read_byte-Leaves true buf) λ (next, buf₁) le₁.
          Ensures-bind (read_item-Leaves next t buf₁) λ (t', buf₂) le₂.
            Ensures-bind (read_byte-Leaves true buf₂) λ (tag', buf₃) le₃.
              Ensures-weaken (read_items-Leaves fuel tag' t' buf₃ (omega arith))
                λ (t'', rest) le. omega arith)
        (λ _. read_item-Leaves tag t buf)

new-Ensures : (msg : Bytes) → Ensures true (λ t. Unit {0}) (new msg)
unfolding new
new-Ensures msg = Ensures-if (ltb max_msg_length (length msg)) (λ _. fails) (λ _. returns tt)

pub deserialize-Leaves :
    (h : Hashes) (depth : ℕ) (msg buf : Bytes)
    → Leaves true (length buf) (deserialize h depth msg buf)
unfolding deserialize
deserialize-Leaves h zero msg buf = fails
deserialize-Leaves h (suc depth) msg buf = Ensures-bind (new-Ensures msg) λ t _.
    Ensures-bind (read_byte-Leaves true buf) λ (tag, rest) le.
      Ensures-weaken
        (read_items-Leaves h (deserialize h depth) (deserialize-Leaves h depth) (suc (length rest))
          tag t rest (omega arith))
        λ (t', after) le'. omega arith

-- On every input and for every limit of depth Deserialize comes to an end, by a tree, an error or
-- a panic: its loop never uses up the fuel that it starts with.
pub deserialize-ne-stuck :
    (h : Hashes) (depth : ℕ) (msg buf : Bytes) → deserialize h depth msg buf ≢ stuck
deserialize-ne-stuck h depth msg buf = Ensures-ne-stuck (deserialize-Leaves h depth msg buf)
