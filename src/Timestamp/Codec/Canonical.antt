-- ===== src/Timestamp/Codec/Canonical.antt =====
-- The tree that a proof file stands for: Serialize sorts the attestations and the operations of
-- every node, so a tree comes back sorted.
use ots.Prelude.{ℕ, suc, ◌≤◌, ◌≡◌, refl, ap, arith, Bool, List, [], ◌∷◌, All, length}
use ots.Op
use ots.Op.{Op, Hashes}
use ots.Op.Format.{IsValid as IsValidOp}
use ots.Notary
use ots.Notary.{Attestation}
use ots.Notary.Format.{IsValid as IsValidAttestation}
use ots.Notary.Sorted.{sort_attestations-All, length-sort_attestations}
use ots.Result.{ok}
use ots.Timestamp.{Timestamp, stamp, Ops, no_ops, op_stamp, msg_of, length_ops}
use ots.Prelude.Sorting.{sort_slice, sort_slice-All, length-sort_slice}
use ots.Timestamp.Tree.{IsValid, IsValidOps, height, height_ops}

abbrev pub OpStamp : Type 0
OpStamp = Op × Timestamp

abbrev pub op_stamp_less : OpStamp → OpStamp → Bool
op_stamp_less x y = Op.less x.0 y.0

abbrev pub of_list : List OpStamp → Ops
of_list [] = no_ops
of_list ((o, s) ∷ xs) = op_stamp o s (of_list xs)

unfoldable mutual
  pub canonical : Timestamp → Timestamp
  canonical (stamp msg atts ops) =
      stamp msg (Notary.sort_attestations atts)
        (of_list (sort_slice op_stamp_less (canonical_stamps ops)))

  pub canonical_stamps : Ops → List OpStamp
  canonical_stamps no_ops = []
  canonical_stamps (op_stamp o s ops) = (o, canonical s) ∷ canonical_stamps ops

pub msg_of-canonical : (t : Timestamp) → msg_of (canonical t) ≡ msg_of t
unfolding canonical
msg_of-canonical (stamp msg atts ops) = refl

length-of_list : (xs : List OpStamp) → length_ops (of_list xs) ≡ length xs
length-of_list [] = refl
length-of_list (x ∷ xs) = ap suc (length-of_list xs)

pub length-canonical_stamps : (ops : Ops) → length (canonical_stamps ops) ≡ length_ops ops
unfolding canonical
length-canonical_stamps no_ops = refl
length-canonical_stamps (op_stamp o s ops) = ap suc (length-canonical_stamps ops)

-- A valid operation with its stamp, behind the message.
abbrev IsValidStamp : Hashes → List ℕ → OpStamp → Type 0
IsValidStamp h msg (o, s) = IsValidOp o × (Op.apply h o msg ≡ ok (msg_of s)) × IsValid h s

of_list-IsValidOps :
    (h : Hashes) (msg : List ℕ) (xs : List OpStamp)
    → All (IsValidStamp h msg) xs
    → IsValidOps h msg (of_list xs)
of_list-IsValidOps h msg [] ps = tt
of_list-IsValidOps h msg ((o, s) ∷ xs) ps =
    (ps.0.0, ps.0.1, ps.0.2, of_list-IsValidOps h msg xs ps.1)

mutual
  unfolding canonical

  node-IsValid : (h : Hashes) (t : Timestamp) → IsValid h t → IsValid h (canonical t)
  node-IsValid h (stamp msg atts ops) v = (
    v.0,
    omega (
      arith,
      length-sort_attestations atts,
      length-of_list (sort_slice op_stamp_less (canonical_stamps ops)),
      length-sort_slice op_stamp_less (canonical_stamps ops),
      length-canonical_stamps ops,
    ),
    sort_attestations-All IsValidAttestation atts v.2,
    of_list-IsValidOps h msg _ (
        sort_slice-All (IsValidStamp h msg) op_stamp_less (canonical_stamps ops)
          (canonical_stamps-valid h msg ops v.3)),
  )

  canonical_stamps-valid :
      (h : Hashes) (msg : List ℕ) (ops : Ops)
      → IsValidOps h msg ops
      → All (IsValidStamp h msg) (canonical_stamps ops)
  canonical_stamps-valid h msg no_ops v = tt
  canonical_stamps-valid h msg (op_stamp o s ops) v = (
    (v.0, rw (msg_of-canonical s) v.1, node-IsValid h s v.2),
    canonical_stamps-valid h msg ops v.3,
  )

pub canonical-IsValid : (h : Hashes) (t : Timestamp) → IsValid h t → IsValid h (canonical t)
canonical-IsValid h t v = node-IsValid h t v

-- A height bound on every stamp bounds the height of the operations.
of_list-height :
    (n : ℕ) (xs : List OpStamp) → All (λ x. height x.1 ≤ n) xs → height_ops (of_list xs) ≤ n
unfolding height
of_list-height n [] ps = omega arith
of_list-height n ((o, s) ∷ xs) ps = omega (arith, of_list-height n xs ps.1)

mutual
  unfolding canonical height

  height-canon : (t : Timestamp) → height (canonical t) ≤ height t
  height-canon (stamp msg atts ops) = omega (
    arith,
    of_list-height (height_ops ops) (sort_slice op_stamp_less (canonical_stamps ops)) (
        sort_slice-All (λ x. height x.1 ≤ height_ops ops) op_stamp_less (canonical_stamps ops)
          (height-canonical_stamps (height_ops ops) ops (omega arith))),
  )

  height-canonical_stamps :
      (n : ℕ) (ops : Ops) → height_ops ops ≤ n → All (λ x. height x.1 ≤ n) (canonical_stamps ops)
  height-canonical_stamps n no_ops le = tt
  height-canonical_stamps n (op_stamp o s ops) le =
      (omega (arith, height-canon s), height-canonical_stamps n ops (omega arith))

pub height-canonical : (t : Timestamp) → height (canonical t) ≤ height t
height-canonical t = height-canon t
