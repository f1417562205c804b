-- ===== src/Timestamp/Shared/Unrolled.antt =====
-- The proof tree that hangs below a shared node: what Serialize (internal/core/timestamp/timestamp.go)
-- walks through, with a copy of a node for every path to it.
use ots.Prelude.{ℕ, zero, suc, List, [], ◌∷◌}
use ots.Result.{Result, ok, err, panicked, stuck}
use ots.Op.{Op}
use ots.Timestamp.{Timestamp, stamp, Ops, no_ops, op_stamp}
use ots.Timestamp.Shared.{Node, Heap}

abbrev pub add_front : Op → Result Timestamp → Result Ops → Result Ops
add_front o (ok t) (ok ops) = ok (op_stamp o t ops)
add_front o (ok t) r = r
add_front o (err e) r = err e
add_front o panicked r = panicked
add_front o stuck r = stuck

unfoldable pub unroll_ops : (ℕ → Result Timestamp) → List (Op × ℕ) → Result Ops
unroll_ops unroll_child [] = ok no_ops
unroll_ops unroll_child ((o, child) ∷ ops) =
    add_front o (unroll_child child) (unroll_ops unroll_child ops)

abbrev pub with_ops : Node → Result Ops → Result Timestamp
with_ops n (ok ops) = ok (stamp n.msg n.attestations ops)
with_ops n (err e) = err e
with_ops n panicked = panicked
with_ops n stuck = stuck

-- On fuel: where no path returns to a node, their number is enough.
unfoldable pub unroll : ℕ → Heap → ℕ → Result Timestamp
unfolding unroll_ops
unroll zero s t = stuck
unroll (suc fuel) s t = with_ops (s.node t) (unroll_ops (unroll fuel s) (s.node t).ops)
