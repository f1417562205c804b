-- ===== src/Stamper/Safe.antt =====
-- How a commitment may leave the stamper (internal/stamper/stamper.go): only by a finalize that built
-- the block proof, attested its root, and put the commitment's tree into the store.
pub mod Stored
pub mod Finalized
pub mod Confirmed
pub mod Sent
use ots.Prelude.{
  ℕ, ◌≡◌, ◌≢◌, refl, sym, ap, ◌∙◌, arith, Bool, true, false, not, List, [], ◌∷◌, ◌++◌, ◌||◌, Bytes,
  bytes_equal, bytes_equal→eq, Bool-cases, Option, none, some, if◌then◌else◌, ◌⊎◌, inl, inr,
}
use ots.Prelude.Int.{int_less, pos}
use ots.Result.{Result, ok, err, panicked, stuck, read_failed}
use ots.Op.{Hashes}
use ots.Notary.{bitcoin}
use ots.Timestamp.{Timestamp}
use ots.Timestamp.Shared.{Node, Heap, put_node}
use ots.Timestamp.Shared.Unrolled.{unroll}
use ots.BlockProof.{make_timestamp_from_block}
use ots.Verify.{BlockHeader}
use ots.Calendar.Store.{Storage}
use ots.Stamper.{
  Config, TxStatus, Backend, UnconfirmedTx, Stamper, is_in, has_leaf, in_unconfirmed, is_pending,
}
use ots.Stamper.Confirm.{
  find_tx, attest_root, put_tree, put_leaves, with_store, finish, finalize_at, finalize, requeue,
  Tracking, finalized, track_confirmed, track_tx, track_next, track_all, track_confirmations,
}
use ots.Stamper.Queue.{is_in-requeue, is_in-requeue_leaf, in_unconfirmed-append}

-- The root with an attestation of the block behind its others.
abbrev pub with_bitcoin : ℕ → ℕ → Heap → Heap
with_bitcoin root height heap =
    put_node root
      (record (heap.node root) {
        attestations = (heap.node root).attestations ++ (bitcoin height ∷ []);
      })
      heap

-- The node of the commitment among the leaves.
abbrev pub IsLeaf : Bytes → ℕ → List (Bytes × ℕ) → Type 0
IsLeaf c node [] = ⊥
IsLeaf c node ((d, leaf) ∷ leaves) = ((d ≡ c) × (leaf ≡ node)) ⊎ IsLeaf c node leaves

-- The last store is the first one behind further Puts that succeed.
pub data IsLater {ℓ} {S : Type ℓ} (storage : Storage S) (store : S) : S → Type ℓ where
  at_once : IsLater storage store store
  put_on :
      {mid last : S} (key : Bytes) (t : Timestamp)
      → IsLater storage store mid
      → storage.put key t mid ≡ ok last
      → IsLater storage store last

-- The tree below the commitment's leaf in this heap was put into the store, under the commitment.
pub record IsPut {ℓ} {S : Type ℓ} (storage : Storage S) (c : Bytes) (heap : Heap)
    (leaves : List (Bytes × ℕ)) : Type ℓ where
  pub node : ℕ
  pub tree : Timestamp
  pub store : S
  pub store' : S
  pub is_leaf : IsLeaf c node leaves
  pub below : unroll heap.next heap node ≡ ok tree
  pub put_lem : storage.put c tree store ≡ ok store'

-- The Bitcoin node has the transaction in a block with enough confirmations, the block proof leads from
-- its merkle tip to a root, and with the block's attestation at that root the commitment's tree was put
-- into the store.
pub record IsFinal {ℓ} {S : Type ℓ} (h : Hashes) (storage : Storage S) (btc : Backend)
    (cfg : Config) (c : Bytes) (utx : UnconfirmedTx) : Type ℓ where
  pub st : TxStatus
  pub block_hash : Bytes
  pub height : ℕ
  pub txids : List Bytes
  pub tx_index : ℕ
  pub header : BlockHeader
  pub before : Heap
  pub after : Heap
  pub root : ℕ
  pub status : btc.tx_status utx.txid ≡ some st
  pub deep : int_less st.confirmations cfg.min_confirmations ≡ false
  pub hash : st.block_hash ≡ some block_hash
  pub block : btc.block_tx_ids block_hash ≡ some (height, txids)
  pub header_lem : btc.block_header height ≡ some header
  pub proof_lem :
      make_timestamp_from_block h utx.tip utx.raw_tx (pos tx_index) txids header.merkle_root before
      ≡ (after, ok root)
  pub put_lem : IsPut storage c (with_bitcoin root height after) utx.leaves

abbrev pub IsAmong : UnconfirmedTx → List UnconfirmedTx → Type 0
IsAmong utx [] = ⊥
IsAmong utx (other ∷ utxs) = (utx ≡ other) ⊎ IsAmong utx utxs

-- One of the transactions made the commitment final, and since then the store took further trees only.
abbrev pub AnyFinal {ℓ} :
    {S : Type ℓ} → Hashes → Storage S → Backend → Config → Bytes → S → List UnconfirmedTx → Type ℓ
AnyFinal h storage btc cfg c last utxs =
    (utx : UnconfirmedTx) × IsAmong utx utxs
    × (v : IsFinal h storage btc cfg c utx) × IsLater storage v.put_lem.store' last
