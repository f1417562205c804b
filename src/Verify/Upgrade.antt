-- ===== src/Verify/Upgrade.antt =====
-- Upgrade of a proof from its calendars (internal/verify/verify.go: Upgrade, upgradePending,
-- findNode, IsComplete).
use ots.Prelude.{
  Bool, true, false, List, [], ◌∷◌, Option, none, some, Bytes, length, ltb, bytes_equal,
  if◌then◌else◌,
}
use ots.Result.{Result, ok, ◌>>=◌}
use ots.Op.{Op, Hashes}
use ots.Notary.{Attestation, pending, bitcoin, litecoin, unknown}
use ots.Timestamp.{Timestamp, stamp, Ops, no_ops, op_stamp, Merging, merge, go_on, all_attestations}
use ots.Verify.{Upgrader}

-- findNode, and the call on the node that it finds, in place: the first in the order of the walk
-- whose message is `msg`.
unfoldable pub in_ops :
    Op
    → Ops
    → Option (Timestamp × Result (Unit {0}))
    → Option (Ops × Result (Unit {0}))
    → Timestamp
    → Option (Ops × Result (Unit {0}))
in_ops o ops (some (s', r)) later s = some (op_stamp o s' ops, r)
in_ops o ops none (some (ops', r)) s = some (op_stamp o s ops', r)
in_ops o ops none none s = none

unfoldable mutual
  pub at_node : (Timestamp → Merging) → Bytes → Timestamp → Option Merging
  at_node f msg (stamp m atts ops) =
      let below : Option Merging = elim (at_node_ops f msg ops) [
        | none ↦ none
        | some (ops', r) ↦ some (stamp m atts ops', r)
      ] in
      if bytes_equal m msg then some (f (stamp m atts ops)) else below

  pub at_node_ops : (Timestamp → Merging) → Bytes → Ops → Option (Ops × Result (Unit {0}))
  at_node_ops f msg no_ops = none
  at_node_ops f msg (op_stamp o s ops) = in_ops o ops (at_node f msg s) (at_node_ops f msg ops) s

-- One pending attestation: a calendar's error is skipped, and so is a message that is gone.
unfoldable pub merge_found : Timestamp → Option Merging → Merging
merge_found t none = (t, ok tt)
merge_found t (some merged) = merged

unfoldable pub upgrade_one : Hashes → Upgrader → Bytes → Attestation → Timestamp → Merging
upgrade_one h up msg (pending uri) t = elim (up uri msg) [
  | none ↦ (t, ok tt)
  | some upgraded ↦ merge_found t (at_node (λ sub. merge h sub upgraded) msg t)
]
upgrade_one h up msg (bitcoin height) t = (t, ok tt)
upgrade_one h up msg (litecoin height) t = (t, ok tt)
upgrade_one h up msg (unknown tag_bytes payload) t = (t, ok tt)

unfoldable pub upgrade_all : Hashes → Upgrader → List (Bytes × Attestation) → Timestamp → Merging
upgrade_all h up [] t = (t, ok tt)
upgrade_all h up ((msg, att) ∷ items) t =
    go_on (upgrade_all h up items) (upgrade_one h up msg att t)

-- Whether the proof gained attestations.
unfoldable pub upgrade : Hashes → Upgrader → Timestamp → Timestamp × Result Bool
upgrade h up t =
    let (t', ended) = upgrade_all h up (all_attestations t) t in
    (t', ended >>= λ _. ok (ltb (length (all_attestations t)) (length (all_attestations t'))))

unfoldable pub upgrade_pending : Hashes → Option Upgrader → Timestamp → Merging
upgrade_pending h none t = (t, ok tt)
upgrade_pending h (some up) t = let (t', ended) = upgrade h up t in (t', ended >>= λ _. ok tt)

unfoldable pub has_bitcoin : List (Bytes × Attestation) → Bool
has_bitcoin [] = false
has_bitcoin ((msg, bitcoin height) ∷ items) = true
has_bitcoin ((msg, pending uri) ∷ items) = has_bitcoin items
has_bitcoin ((msg, litecoin height) ∷ items) = has_bitcoin items
has_bitcoin ((msg, unknown tag_bytes payload) ∷ items) = has_bitcoin items

unfoldable pub is_complete : Timestamp → Bool
is_complete t = has_bitcoin (all_attestations t)
