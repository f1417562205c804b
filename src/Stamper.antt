-- ===== src/Stamper.antt =====
-- internal/stamper/stamper.go: the stamper takes commitments from the journal, anchors their merkle
-- tip in a Bitcoin transaction, and stores the finished proofs. The mutex makes every method one
-- step. The Bitcoin node is an argument of each step, with what it answers during that step; so are
-- the time and the decoding of transactions, which is a library's.
pub mod Confirm
pub mod Send
pub mod Step
pub mod Queue
pub mod Safe
pub mod Kept
pub mod Tracked
use ots.Prelude.{
  ℕ, zero, suc, ◌+◌, ◌-◌, ◌≤◌, Bool, true, false, List, [], ◌∷◌, ◌++◌, not, ◌&&◌, ◌||◌, Option,
  none, some, Bytes, length, ltb, ◌==◌, bytes_equal, if◌then◌else◌,
}
use ots.Prelude.Int.{ℤ, pos, negsuc, int_less}
use ots.Result.{Result, ok, err, panicked, stuck, tx_not_in_block, read_failed}
use ots.Op.{Hashes, sha256}
use ots.Notary.{Attestation, bitcoin}
use ots.Timestamp.{Timestamp, all_attestations}
use ots.Timestamp.Shared.{Node, Heap, put_node, new, add_op, make_merkle_tree}
use ots.Timestamp.Shared.Unrolled.{unroll}
use ots.BlockProof.{make_timestamp_from_block}
use ots.Calendar.Journal
use ots.Calendar.Journal.{Journal}
use ots.Calendar.Store.{Storage}
use ots.Verify.{BlockHeader}
use ots.Verify.Upgrade.{has_bitcoin}

pub record Config : Type 0 where
  pub min_confirmations : ℤ
  pub min_tx_interval : ℕ
  pub max_fee : ℕ
  pub max_pending : ℤ

pub record TxStatus : Type 0 where
  pub confirmations : ℤ
  pub block_hash : Option Bytes

-- What the Bitcoin node answers; `none` is an error.
pub record Backend : Type 0 where
  pub tx_status : Bytes → Option TxStatus
  pub block_tx_ids : Bytes → Option (ℕ × List Bytes)
  pub block_header : ℕ → Option BlockHeader
  pub send_op_return : Bytes → ℕ → Option (Bytes × Bytes)
  pub strip_witness : Bytes → Option Bytes

pub record UnconfirmedTx : Type 0 where
  pub txid : Bytes
  pub raw_tx : Bytes
  pub tip : ℕ
  pub leaves : List (Bytes × ℕ)
  pub sent_at : ℕ

-- `heap` holds the nodes of the trees that the stamper builds.
pub record Stamper {ℓ} (S : Type ℓ) : Type ℓ where
  pub journal : Journal
  pub store : S
  pub pending : List Bytes
  pub unconfirmed : List UnconfirmedTx
  pub cursor : ℕ
  pub last_tx_time : Option ℕ
  pub heap : Heap

-- New; the configuration is an argument of the calls that read it.
abbrev pub new_stamper {ℓ} : {S : Type ℓ} → Journal → S → Heap → Stamper S
new_stamper journal store heap = record {
  journal = journal;
  store = store;
  pending = [];
  unconfirmed = [];
  cursor = 0;
  last_tx_time = none;
  heap = heap;
}

-- The set of pending commitments, in the order in which a range over the map meets them.
unfoldable pub is_in : Bytes → List Bytes → Bool
is_in c [] = false
is_in c (d ∷ pending) = bytes_equal d c || is_in c pending

unfoldable pub put_pending : Bytes → List Bytes → List Bytes
put_pending c pending = if is_in c pending then pending else pending ++ (c ∷ [])

unfoldable pub remove : Bytes → List Bytes → List Bytes
remove c [] = []
remove c (d ∷ pending) = if bytes_equal d c then remove c pending else d ∷ remove c pending

-- An error of Get means that there is no proof; a panic ends the program.
abbrev pub confirmed_tree : Result Timestamp → Result Bool
confirmed_tree (ok t) = ok (has_bitcoin (all_attestations t))
confirmed_tree (err e) = ok false
confirmed_tree panicked = panicked
confirmed_tree stuck = stuck

unfoldable pub is_confirmed {ℓ} : {S : Type ℓ} → Storage S → Stamper S → Bytes → Result Bool
is_confirmed storage s commitment = confirmed_tree (storage.get commitment s.store)

-- One round of Recover behind isConfirmed.
unfoldable pub recover_with {ℓ} :
    {S : Type ℓ}
    → (Stamper S → Stamper S × Result (Unit {0}))
    → Bytes
    → Stamper S
    → Result Bool
    → Stamper S × Result (Unit {0})
recover_with rest commitment s (ok true) = rest s
recover_with rest commitment s (ok false) =
    rest (record s { pending = put_pending commitment s.pending })
recover_with rest commitment s (err e) = (s, err e)
recover_with rest commitment s panicked = (s, panicked)
recover_with rest commitment s stuck = (s, stuck)

-- One round of Recover behind the read.
unfoldable pub recover_next {ℓ} :
    {S : Type ℓ}
    → Storage S
    → (Stamper S → Stamper S × Result (Unit {0}))
    → Stamper S
    → Result Bytes
    → Stamper S × Result (Unit {0})
recover_next storage rest s (ok commitment) =
    recover_with rest commitment s (is_confirmed storage s commitment)
recover_next storage rest s (err e) = (s, err e)
recover_next storage rest s panicked = (s, panicked)
recover_next storage rest s stuck = (s, stuck)

-- The loop of Recover over the journal, with `n` records left from index `i` on; `reads` tells
-- whether the ReadAt of a record goes well.
unfoldable pub recover_from {ℓ} :
    {S : Type ℓ} → Storage S → (ℕ → Bool) → ℕ → ℕ → Stamper S → Stamper S × Result (Unit {0})
recover_from storage reads zero i s = (s, ok tt)
recover_from storage reads (suc n) i s =
    recover_next storage (recover_from storage reads n (suc i)) s
      (Journal.read (reads i) s.journal i)

abbrev pub set_cursor {ℓ} :
    {S : Type ℓ} → ℕ → Stamper S × Result (Unit {0}) → Stamper S × Result (Unit {0})
set_cursor n (s, ok u) = (record s { cursor = n }, ok u)
set_cursor n (s, err e) = (s, err e)
set_cursor n (s, panicked) = (s, panicked)
set_cursor n (s, stuck) = (s, stuck)

unfoldable pub recover {ℓ} :
    {S : Type ℓ} → Storage S → (ℕ → Bool) → Stamper S → Stamper S × Result (Unit {0})
recover storage reads s =
    set_cursor s.journal.count (recover_from storage reads s.journal.count 0 s)

-- One round of ingestJournal behind the read.
unfoldable pub ingest_next {ℓ} :
    {S : Type ℓ} → (Stamper S → Stamper S) → Stamper S → Result Bytes → Stamper S
ingest_next rest s (ok commitment) =
    rest (record s { pending = put_pending commitment s.pending; cursor = suc s.cursor })
ingest_next rest s _ = s

-- The loop of ingestJournal, with `n` records left.
unfoldable pub ingest {ℓ} : {S : Type ℓ} → Config → (ℕ → Bool) → ℕ → Stamper S → Stamper S
ingest cfg reads zero s = s
ingest {S = S} cfg reads (suc n) s =
    let more : Stamper S =
      ingest_next (ingest cfg reads n) s (Journal.read (reads s.cursor) s.journal s.cursor) in
    if not (int_less (pos (length s.pending)) cfg.max_pending) then s else more

unfoldable pub ingest_journal {ℓ} : {S : Type ℓ} → Config → (ℕ → Bool) → Stamper S → Stamper S
ingest_journal cfg reads s = ingest cfg reads (s.journal.count - s.cursor) s

unfoldable pub has_leaf : Bytes → List (Bytes × ℕ) → Bool
has_leaf c [] = false
has_leaf c ((d, leaf) ∷ leaves) = bytes_equal d c || has_leaf c leaves

unfoldable pub in_unconfirmed : Bytes → List UnconfirmedTx → Bool
in_unconfirmed c [] = false
in_unconfirmed c (utx ∷ utxs) = has_leaf c utx.leaves || in_unconfirmed c utxs

unfoldable pub is_pending {ℓ} : {S : Type ℓ} → Stamper S → Bytes → Bool
is_pending s c = is_in c s.pending || in_unconfirmed c s.unconfirmed

pub record StamperStatus : Type 0 where
  pub pending_commitments : ℕ
  pub unconfirmed_txs : ℕ
  pub last_tx_time : Option ℕ

unfoldable pub status {ℓ} : {S : Type ℓ} → Stamper S → StamperStatus
status s = record {
  pending_commitments = length s.pending;
  unconfirmed_txs = length s.unconfirmed;
  last_tx_time = s.last_tx_time;
}
