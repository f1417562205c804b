-- ===== src/Stamper/Confirm.antt =====
-- trackConfirmations and finalize (internal/stamper/stamper.go).
use ots.Prelude.{
  ℕ, suc, Bool, true, false, List, [], ◌∷◌, ◌++◌, not, Option, none, some, Bytes, bytes_equal,
  if◌then◌else◌,
}
use ots.Prelude.Int.{pos, int_less}
use ots.Result.{Result, ok, err, panicked, stuck, tx_not_in_block, read_failed}
use ots.Op.{Hashes}
use ots.Notary.{bitcoin}
use ots.Timestamp.{Timestamp}
use ots.Timestamp.Shared.{Heap, put_node}
use ots.Timestamp.Shared.Unrolled.{unroll}
use ots.BlockProof.{make_timestamp_from_block}
use ots.Calendar.Store.{Storage}
use ots.Verify.{BlockHeader}
use ots.Stamper.{Config, TxStatus, Backend, UnconfirmedTx, Stamper, put_pending}

-- The first index of the transaction in the block.
unfoldable pub find_tx : Bytes → List Bytes → Option ℕ
find_tx txid [] = none
find_tx txid (t ∷ txids) =
    if bytes_equal txid t
    then some 0
    else elim (find_tx txid txids) [ none ↦ none | some i ↦ some (suc i) ]

unfoldable pub attest_root : ℕ → ℕ → Heap → Heap
attest_root root height s =
    put_node root
      (record (s.node root) { attestations = (s.node root).attestations ++ (bitcoin height ∷ []) })
      s

-- The loop over the leaves at the end of finalize: the store as it leaves it.
unfoldable pub put_tree {ℓ} : {S : Type ℓ} → Storage S → Bytes → S → Result Timestamp → Result S
put_tree storage c store (ok t) = storage.put c t store
put_tree storage c store (err e) = err e
put_tree storage c store panicked = panicked
put_tree storage c store stuck = stuck

-- One round of that loop behind Put.
unfoldable pub put_next {ℓ} :
    {S : Type ℓ} → (S → S × Result (Unit {0})) → S → Result S → S × Result (Unit {0})
put_next rest store (ok store') = rest store'
put_next rest store (err e) = (store, err e)
put_next rest store panicked = (store, panicked)
put_next rest store stuck = (store, stuck)

unfoldable pub put_leaves {ℓ} :
    {S : Type ℓ} → Storage S → Heap → List (Bytes × ℕ) → S → S × Result (Unit {0})
put_leaves storage heap [] store = (store, ok tt)
put_leaves storage heap ((c, leaf) ∷ leaves) store =
    put_next (put_leaves storage heap leaves) store
      (put_tree storage c store (unroll heap.next heap leaf))

abbrev pub with_store {ℓ} :
    {S : Type ℓ} → Stamper S → S × Result (Unit {0}) → Stamper S × Result (Unit {0})
with_store s (store, r) = (record s { store = store }, r)

-- finalize from the block proof on.
unfoldable pub finish {ℓ} :
    {S : Type ℓ}
    → Storage S
    → Stamper S
    → UnconfirmedTx
    → ℕ
    → Heap × Result ℕ
    → Stamper S × Result (Unit {0})
finish storage s utx height (heap, ok root) =
    let attested : Heap = attest_root root height heap in
    with_store (record s { heap = attested }) (put_leaves storage attested utx.leaves s.store)
finish storage s utx height (heap, err e) = (record s { heap = heap }, err e)
finish storage s utx height (heap, panicked) = (record s { heap = heap }, panicked)
finish storage s utx height (heap, stuck) = (record s { heap = heap }, stuck)

unfoldable pub finalize_at {ℓ} :
    {S : Type ℓ}
    → Hashes
    → Storage S
    → Stamper S
    → UnconfirmedTx
    → ℕ
    → List Bytes
    → Option ℕ
    → Option BlockHeader
    → Stamper S × Result (Unit {0})
finalize_at h storage s utx height txids none header = (s, err tx_not_in_block)
finalize_at h storage s utx height txids (some i) none = (s, err read_failed)
finalize_at h storage s utx height txids (some i) (some header) =
    finish storage s utx height
      (make_timestamp_from_block h utx.tip utx.raw_tx (pos i) txids header.merkle_root s.heap)

unfoldable pub finalize {ℓ} :
    {S : Type ℓ}
    → Hashes
    → Storage S
    → Backend
    → Stamper S
    → UnconfirmedTx
    → Bytes
    → Stamper S × Result (Unit {0})
finalize h storage btc s utx block_hash = elim (btc.block_tx_ids block_hash) [
  | none ↦ (s, err read_failed)
  | some (height, txids) ↦
      finalize_at h storage s utx height txids (find_tx utx.txid txids) (btc.block_header height)
]

unfoldable pub requeue : List (Bytes × ℕ) → List Bytes → List Bytes
requeue [] pending = pending
requeue ((c, leaf) ∷ leaves) pending = requeue leaves (put_pending c pending)

-- Whether the transaction remains; a panic ends the program.
abbrev pub Tracking {ℓ} : Type ℓ → Type ℓ
Tracking S = Stamper S × Result Bool

unfoldable pub finalized {ℓ} : {S : Type ℓ} → Stamper S × Result (Unit {0}) → Tracking S
finalized (s, ok u) = (s, ok false)
finalized (s, err e) = (s, ok true)
finalized (s, panicked) = (s, panicked)
finalized (s, stuck) = (s, stuck)

unfoldable pub track_confirmed {ℓ} :
    {S : Type ℓ}
    → Hashes
    → Storage S
    → Backend
    → Stamper S
    → UnconfirmedTx
    → Bool
    → Option Bytes
    → Tracking S
track_confirmed h storage btc s utx true (some block_hash) =
    finalized (finalize h storage btc s utx block_hash)
track_confirmed h storage btc s utx true none = (s, ok true)
track_confirmed h storage btc s utx false block_hash = (s, ok true)

unfoldable pub track_tx {ℓ} :
    {S : Type ℓ}
    → Hashes
    → Storage S
    → Backend
    → Config
    → Stamper S
    → UnconfirmedTx
    → Option TxStatus
    → Tracking S
track_tx h storage btc cfg s utx none = (s, ok true)
track_tx h storage btc cfg s utx (some st) =
    if int_less st.confirmations (pos 0)
    then (record s { pending = requeue utx.leaves s.pending }, ok false)
    else track_confirmed h storage btc s utx (not (int_less st.confirmations cfg.min_confirmations))
        st.block_hash

unfoldable pub track_next {ℓ} :
    {S : Type ℓ}
    → (Bool → Stamper S → Stamper S × Result (Unit {0}))
    → Tracking S
    → Stamper S × Result (Unit {0})
track_next rest (s, ok keep) = rest keep s
track_next rest (s, err e) = (s, err e)
track_next rest (s, panicked) = (s, panicked)
track_next rest (s, stuck) = (s, stuck)

-- The loop of trackConfirmations, with the transactions that remain so far.
unfoldable pub track_all {ℓ} :
    {S : Type ℓ}
    → Hashes
    → Storage S
    → Backend
    → Config
    → List UnconfirmedTx
    → List UnconfirmedTx
    → Stamper S
    → Stamper S × Result (Unit {0})
track_all h storage btc cfg remaining [] s = (record s { unconfirmed = remaining }, ok tt)
track_all h storage btc cfg remaining (utx ∷ utxs) s =
    track_next
      (λ keep s'.
        track_all h storage btc cfg (if keep then remaining ++ (utx ∷ []) else remaining) utxs s')
      (track_tx h storage btc cfg s utx (btc.tx_status utx.txid))

unfoldable pub track_confirmations {ℓ} :
    {S : Type ℓ} → Hashes → Storage S → Backend → Config → Stamper S → Stamper S × Result (Unit {0})
track_confirmations h storage btc cfg s = track_all h storage btc cfg [] s.unconfirmed s
