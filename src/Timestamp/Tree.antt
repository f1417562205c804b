-- ===== src/Timestamp/Tree.antt =====
-- Which proof trees are well formed, and how deep they are: the nesting that Deserialize bounds by
-- its recursion limit (internal/core/timestamp/timestamp.go).
use ots.Prelude.{ℕ, suc, ◌+◌, ◌≤◌, ◌≡◌, List, All, length}
use ots.Result.{ok}
use ots.Op
use ots.Op.{Hashes, Op, max_msg_length}
use ots.Op.Format.{IsValid as IsValidOp}
use ots.Notary.Format.{IsValid as IsValidAttestation}
use ots.Timestamp.{Timestamp, stamp, Ops, no_ops, op_stamp, msg_of, length_ops}
use Prim.Native.Nat.{max}

-- A node that Serialize accepts and that Deserialize can give back: it is not empty, its message
-- is within the limit, its attestations and operations are valid, and each operation leads from
-- the message to that of its stamp.
module _ (h : Hashes) where
  abbrev mutual
    pub IsValid : Timestamp → Type 0
    IsValid (stamp msg atts ops) =
        (length msg ≤ max_msg_length)
        × (1 ≤ length atts + length_ops ops)
        × All IsValidAttestation atts
        × IsValidOps msg ops

    pub IsValidOps : List ℕ → Ops → Type 0
    IsValidOps msg no_ops = Unit
    IsValidOps msg (op_stamp o s ops) =
        IsValidOp o × (Op.apply h o msg ≡ ok (msg_of s)) × IsValid s × IsValidOps msg ops

-- The number of nodes on the longest way down.
unfoldable mutual
  pub height : Timestamp → ℕ
  height (stamp msg atts ops) = suc (height_ops ops)

  pub height_ops : Ops → ℕ
  height_ops no_ops = 0
  height_ops (op_stamp o s ops) = max (height s) (height_ops ops)
