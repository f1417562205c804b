-- ===== src/Stamper/Send.antt =====
-- maybeSendTx (internal/stamper/stamper.go). The calls that build the tree end in a value or in an
-- error, which is logged only.
use ots.Prelude.{
  ℕ, ◌+◌, Bool, false, List, [], ◌∷◌, ◌++◌, Option, none, some, Bytes, length, ltb, ◌==◌,
  if◌then◌else◌,
}
use ots.Result.{Result, ok}
use ots.Op.{Hashes, sha256}
use ots.Timestamp.Shared.{Heap, new, add_op, make_merkle_tree}
use ots.Stamper.{Config, Backend, Stamper, remove}

-- The variables of the first loop of maybeSendTx.
pub record Batch : Type 0 where
  pub batch_heap : Heap
  pub queue : List Bytes
  pub leaves : List (Bytes × ℕ)
  pub sha_leaves : List ℕ

unfoldable pub add_leaf : Bytes → ℕ → Batch → Heap × Result ℕ → Batch
add_leaf c leaf b (heap, ok sha) = record b {
  batch_heap = heap;
  leaves = b.leaves ++ ((c, leaf) ∷ []);
  sha_leaves = b.sha_leaves ++ (sha ∷ []);
}
add_leaf c leaf b (heap, _) = record b { batch_heap = heap; queue = remove c b.queue }

unfoldable pub start_leaf : Hashes → Bytes → Batch → Heap × Result ℕ → Batch
start_leaf h c b (heap, ok leaf) = add_leaf c leaf b (add_op h leaf sha256 heap)
start_leaf h c b (heap, _) = record b { batch_heap = heap; queue = remove c b.queue }

unfoldable pub gather_leaves : Hashes → List Bytes → Batch → Batch
gather_leaves h [] b = b
gather_leaves h (c ∷ cs) b = gather_leaves h cs (start_leaf h c b (new c b.batch_heap))

unfoldable pub remove_leaves : List (Bytes × ℕ) → List Bytes → List Bytes
remove_leaves [] pending = pending
remove_leaves ((c, leaf) ∷ leaves) pending = remove_leaves leaves (remove c pending)

unfoldable pub sent {ℓ} :
    {S : Type ℓ} → ℕ → Stamper S → ℕ → List (Bytes × ℕ) → Bytes → Option Bytes → Stamper S
sent now s tip leaves txid none = s
sent now s tip leaves txid (some stripped) = record s {
  pending = remove_leaves leaves s.pending;
  unconfirmed =
      s.unconfirmed
      ++ (record { txid = txid; raw_tx = stripped; tip = tip; leaves = leaves; sent_at = now }
          ∷ []);
  last_tx_time = some now;
}

unfoldable pub send_tip {ℓ} :
    {S : Type ℓ}
    → Backend
    → ℕ
    → Stamper S
    → ℕ
    → List (Bytes × ℕ)
    → Option (Bytes × Bytes)
    → Stamper S
send_tip btc now s tip leaves none = s
send_tip btc now s tip leaves (some (txid, raw)) =
    sent now s tip leaves txid (btc.strip_witness raw)

unfoldable pub with_tip {ℓ} :
    {S : Type ℓ}
    → Backend
    → Config
    → ℕ
    → Stamper S
    → List (Bytes × ℕ)
    → Heap × Result (Option ℕ)
    → Stamper S
with_tip btc cfg now s leaves (heap, ok (some tip)) =
    send_tip btc now (record s { heap = heap }) tip leaves
      (btc.send_op_return (heap.node tip).msg cfg.max_fee)
with_tip btc cfg now s leaves (heap, _) = record s { heap = heap }

unfoldable pub send_batch {ℓ} :
    {S : Type ℓ} → Hashes → Backend → Config → ℕ → Stamper S → Batch → Stamper S
send_batch {S = S} h btc cfg now s b =
    let s' : Stamper S = record s { pending = b.queue; heap = b.batch_heap } in
    elim b.sha_leaves [
      | [] ↦ s'
      | sha ∷ shas ↦ with_tip btc cfg now s' b.leaves (make_merkle_tree h (sha ∷ shas) b.batch_heap)
    ]

-- `!s.lastTxTime.IsZero() && time.Since(s.lastTxTime) < s.cfg.MinTxInterval`
abbrev pub too_early : Config → ℕ → Option ℕ → Bool
too_early cfg now none = false
too_early cfg now (some last) = ltb now (last + cfg.min_tx_interval)

unfoldable pub maybe_send_tx {ℓ} :
    {S : Type ℓ} → Hashes → Backend → Config → ℕ → Stamper S → Stamper S
maybe_send_tx h btc cfg now s =
    if length s.pending == 0
    then s
    else if too_early cfg now s.last_tx_time
    then s
    else send_batch h btc cfg now s (
        gather_leaves h s.pending
          (record { batch_heap = s.heap; queue = s.pending; leaves = []; sha_leaves = [] }))
