-- ===== src/Timestamp.antt =====
-- internal/core/timestamp/timestamp.go: the proof tree. A node holds a message, its attestations
-- and the operations that lead to further messages. Here each stamp belongs to one node, as in a
-- tree that Deserialize or Merge built; a method returns the node as it leaves it.
pub mod Codec
pub mod Detached
pub mod Tree
pub mod Shared
use ots.Prelude.{
  ℕ, zero, suc, ◌+◌, ◌≤◌, Bool, true, false, List, [], ◌∷◌, ◌++◌, not, ◌&&◌, ◌||◌, Option, none,
  some, Bytes, length, ltb, ◌==◌, bytes_equal, if◌then◌else◌,
}
use ots.Result.{
  Result, ok, err, panicked, stuck, ◌>>=◌, message_exceeds_limit, different_messages, op_not_found,
}
use ots.Op
use ots.Op.{Op, Hashes, max_msg_length}
use ots.Notary
use ots.Notary.{Attestation}
use mathlib.Core.List.{map}

mutual
  pub data Timestamp : Type 0 where
    stamp : Bytes → List Attestation → Ops → Timestamp

  -- The slice of OpStamp of a node.
  pub data Ops : Type 0 where
    no_ops : Ops
    op_stamp : Op → Timestamp → Ops → Ops

abbrev pub msg_of : Timestamp → Bytes
msg_of (stamp msg atts ops) = msg

abbrev pub attestations_of : Timestamp → List Attestation
attestations_of (stamp msg atts ops) = atts

abbrev pub ops_of : Timestamp → Ops
ops_of (stamp msg atts ops) = ops

abbrev pub length_ops : Ops → ℕ
length_ops no_ops = 0
length_ops (op_stamp o s ops) = suc (length_ops ops)

-- The stamp of the first operation that is Equal to `o`.
unfoldable pub find_op : Op → Ops → Option Timestamp
find_op o no_ops = none
find_op o (op_stamp p s ops) = if Op.equal p o then some s else find_op o ops

-- That stamp replaced.
unfoldable pub put_op : Op → Timestamp → Ops → Ops
put_op o s no_ops = no_ops
put_op o s (op_stamp p t ops) =
    if Op.equal p o then op_stamp p s ops else op_stamp p t (put_op o s ops)

-- append(ops, OpStamp{Op: o, Stamp: s})
abbrev pub add_last : Ops → Op → Timestamp → Ops
add_last no_ops o s = op_stamp o s no_ops
add_last (op_stamp p t ops) o s = op_stamp p t (add_last ops o s)

unfoldable pub new : Bytes → Result Timestamp
new msg =
    if ltb max_msg_length (length msg) then err message_exceeds_limit else ok (stamp msg [] no_ops)

-- The node with the operation, and the child that it leads to: the one that is there, or a new one.
unfoldable pub child_or_new : Timestamp → Op → Timestamp → Option Timestamp → Timestamp × Timestamp
child_or_new t o fresh (some child) = (t, child)
child_or_new (stamp msg atts ops) o fresh none = (stamp msg atts (add_last ops o fresh), fresh)

unfoldable pub add_op : Hashes → Timestamp → Op → Result (Timestamp × Timestamp)
add_op h t o = do
  result ← Op.apply h o (msg_of t)
  fresh ← new result
  ok (child_or_new t o fresh (find_op o (ops_of t)))

-- `t.Ops[i].Stamp = stamp`, where the operation is there and the messages agree.
unfoldable pub set_found : Timestamp → Op → Timestamp → Option Timestamp → Result Timestamp
set_found t o s none = err op_not_found
set_found (stamp msg atts ops) o s (some old) =
    if bytes_equal (msg_of old) (msg_of s)
    then ok (stamp msg atts (put_op o s ops))
    else err different_messages

unfoldable pub set_op_result : Timestamp → Op → Timestamp → Result Timestamp
set_op_result t o s = set_found t o s (find_op o (ops_of t))

unfoldable pub has_attestation : List Attestation → Attestation → Bool
has_attestation [] att = false
has_attestation (a ∷ atts) att = Notary.equal a att || has_attestation atts att

unfoldable pub add_attestations : List Attestation → List Attestation → List Attestation
add_attestations atts [] = atts
add_attestations atts (att ∷ others) =
    add_attestations (if has_attestation atts att then atts else atts ++ (att ∷ [])) others

-- The child that Merge goes on with.
unfoldable pub child_of :
    Hashes → Timestamp → Op → Option Timestamp → Result (Timestamp × Timestamp)
child_of h t o (some child) = ok (t, child)
child_of h t o none = add_op h t o

-- A node after a call, and how the call ended: Merge keeps what it has merged before an error.
abbrev pub Merging : Type 0
Merging = Timestamp × Result (Unit {0})

unfoldable pub put_child : Op → Timestamp → Timestamp → Timestamp
put_child o child (stamp msg atts ops) = stamp msg atts (put_op o child ops)

-- The rest of the loop over the other's operations runs where the child's Merge went well.
unfoldable pub go_on : (Timestamp → Merging) → Merging → Merging
go_on rest (t, ok u) = rest t
go_on rest (t, err e) = (t, err e)
go_on rest (t, panicked) = (t, panicked)
go_on rest (t, stuck) = (t, stuck)

unfoldable pub merge_child :
    Timestamp → Op → (Timestamp → Merging) → Result (Timestamp × Timestamp) → Merging
merge_child t o merge_into (ok (t', child)) =
    let (child', ended) = merge_into child in (put_child o child' t', ended)
merge_child t o merge_into (err e) = (t, err e)
merge_child t o merge_into panicked = (t, panicked)
merge_child t o merge_into stuck = (t, stuck)

unfoldable mutual
  pub merge : Hashes → Timestamp → Timestamp → Merging
  merge h t (stamp msg atts ops) =
      let merged =
        merge_ops h (stamp (msg_of t) (add_attestations (attestations_of t) atts) (ops_of t)) ops in
      if bytes_equal (msg_of t) msg then merged else (t, err different_messages)

  pub merge_ops : Hashes → Timestamp → Ops → Merging
  merge_ops h t no_ops = (t, ok tt)
  merge_ops h t (op_stamp o s ops) =
      go_on (λ t'. merge_ops h t' ops)
        (merge_child t o (λ child. merge h child s) (child_of h t o (find_op o (ops_of t))))

unfoldable pub all_in : List Attestation → List Attestation → Bool
all_in [] others = true
all_in (a ∷ atts) others = has_attestation others a && all_in atts others

unfoldable pub equal_found : (Timestamp → Bool) → Option Timestamp → Bool
equal_found same none = false
equal_found same (some s) = same s

unfoldable mutual
  pub equal : Timestamp → Timestamp → Bool
  equal (stamp msg atts ops) other =
      bytes_equal msg (msg_of other)
      && length atts == length (attestations_of other)
      && length_ops ops == length_ops (ops_of other)
      && all_in atts (attestations_of other)
      && equal_ops ops (ops_of other)

  pub equal_ops : Ops → Ops → Bool
  equal_ops no_ops others = true
  equal_ops (op_stamp o s ops) others =
      equal_found (λ other. equal s other) (find_op o others) && equal_ops ops others

-- Each attestation with the message that it attests, in the order of the walk.
unfoldable mutual
  pub all_attestations : Timestamp → List (Bytes × Attestation)
  all_attestations (stamp msg atts ops) = map (λ att. (msg, att)) atts ++ all_attestations_ops ops

  pub all_attestations_ops : Ops → List (Bytes × Attestation)
  all_attestations_ops no_ops = []
  all_attestations_ops (op_stamp o s ops) = all_attestations s ++ all_attestations_ops ops
