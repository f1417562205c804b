-- ===== src/Stamper/Safe/Finalized.antt =====
-- finalize and one round of trackConfirmations (internal/stamper/stamper.go): the commitments of a
-- transaction that is dropped are queued again or final.
use ots.Prelude.{
  ℕ, ◌≡◌, ◌≢◌, refl, Bool, true, false, not, List, Bytes, Bool-cases, Option, none, some, ◌⊎◌, inl,
  inr,
}
use ots.Prelude.Int.{int_less, pos}
use ots.Result.{Result, ok, err, panicked, stuck, read_failed}
use ots.Op.{Hashes}
use ots.Timestamp.Shared.{Heap}
use ots.BlockProof.{make_timestamp_from_block}
use ots.Verify.{BlockHeader}
use ots.Calendar.Store.{Storage}
use ots.Stamper.{Config, TxStatus, Backend, UnconfirmedTx, Stamper, is_in, has_leaf}
use ots.Stamper.Confirm.{
  find_tx, attest_root, finish, finalize_at, finalize, requeue, Tracking, finalized,
  track_confirmed, track_tx,
}
use ots.Stamper.Queue.{is_in-requeue, is_in-requeue_leaf}
use ots.Stamper.Safe.{with_bitcoin, IsPut, IsLater, at_once, IsFinal}
use ots.Stamper.Safe.Stored.{put_leaves-IsLater, put_leaves-IsStored}

module _ {ℓ} {S : Type ℓ} (h : Hashes) (storage : Storage S) (btc : Backend) (cfg : Config)
    (c : Bytes) where
  -- A part of the loop that runs from `s`: what it leaves alone, and that nothing leaves the queue.
  pub record IsTracked {A : Type 0} (s : Stamper S) (e : Stamper S × Result A) : Type ℓ where
    pub same_journal : e.0.journal ≡ s.journal
    pub same_cursor : e.0.cursor ≡ s.cursor
    pub same_unconfirmed : e.0.unconfirmed ≡ s.unconfirmed
    pub kept : is_in c s.pending ≡ true → is_in c e.0.pending ≡ true
    pub later : IsLater storage s.store e.0.store

  -- What a finalize without an error did for a commitment of the transaction.
  record IsAttested (utx : UnconfirmedTx) (height : ℕ) (txids : List Bytes) (header : BlockHeader)
      (last : S) : Type ℓ where
    tx_index : ℕ
    before : Heap
    after : Heap
    root : ℕ
    proof_lem :
        make_timestamp_from_block h utx.tip utx.raw_tx
          (pos tx_index)
          txids
          header.merkle_root
          before
        ≡ (after, ok root)
    put_lem : IsPut storage c (with_bitcoin root height after) utx.leaves
    kept_lem : IsLater storage put_lem.store' last

  same-IsTracked : {A : Type 0} (s : Stamper S) (r : Result A) → IsTracked s (s, r)
  same-IsTracked s r = record {
    same_journal = refl;
    same_cursor = refl;
    same_unconfirmed = refl;
    kept = λ e. e;
    later = at_once;
  }

  finish-IsTracked :
      (utx : UnconfirmedTx) (s : Stamper S) (height : ℕ) (e : Heap × Result ℕ)
      → IsTracked s (finish storage s utx height e)
  unfolding finish
  finish-IsTracked utx s height (heap, ok root) = record {
    same_journal = refl;
    same_cursor = refl;
    same_unconfirmed = refl;
    kept = λ e. e;
    later = put_leaves-IsLater storage c (attest_root root height heap) utx.leaves s.store;
  }
  finish-IsTracked utx s height (heap, err x) = record {
    same_journal = refl;
    same_cursor = refl;
    same_unconfirmed = refl;
    kept = λ e. e;
    later = at_once;
  }
  finish-IsTracked utx s height (heap, panicked) = record {
    same_journal = refl;
    same_cursor = refl;
    same_unconfirmed = refl;
    kept = λ e. e;
    later = at_once;
  }
  finish-IsTracked utx s height (heap, stuck) = record {
    same_journal = refl;
    same_cursor = refl;
    same_unconfirmed = refl;
    kept = λ e. e;
    later = at_once;
  }

  finish-IsAttested :
      (utx : UnconfirmedTx) (s : Stamper S) (height i : ℕ) (txids : List Bytes)
      (header : BlockHeader) (e : Heap × Result ℕ)
      → make_timestamp_from_block h utx.tip utx.raw_tx (pos i) txids header.merkle_root s.heap ≡ e
      → (finish storage s utx height e).1 ≡ ok tt
      → has_leaf c utx.leaves ≡ true
      → IsAttested utx height txids header (finish storage s utx height e).0.store
  unfolding finish attest_root
  finish-IsAttested utx s height i txids header (heap, ok root) run done there =
      let (put, later) =
        put_leaves-IsStored storage c (with_bitcoin root height heap) utx.leaves s.store done
          there in
      record {
        tx_index = i;
        before = s.heap;
        after = heap;
        root = root;
        proof_lem = run;
        put_lem = put;
        kept_lem = later;
      }
  finish-IsAttested utx s height i txids header (heap, err x) run done there = cc
  finish-IsAttested utx s height i txids header (heap, panicked) run done there = cc
  finish-IsAttested utx s height i txids header (heap, stuck) run done there = cc

  -- What finalize left, and that a commitment of its transaction is attested where it ends well.
  record IsFinalized (utx : UnconfirmedTx) (block_hash : Bytes) (s : Stamper S)
      (e : Stamper S × Result (Unit {0})) : Type ℓ where
    tracked : IsTracked s e
    attested :
        e.1 ≡ ok tt
        → has_leaf c utx.leaves ≡ true
        → (height : ℕ) × (txids : List Bytes) × (header : BlockHeader) × (btc.block_tx_ids
              block_hash
            ≡ some (height, txids))
          × (btc.block_header height ≡ some header)
          × IsAttested utx height txids header e.0.store

  finalize_at-IsFinalized :
      (s : Stamper S) (utx : UnconfirmedTx) (block_hash : Bytes) (height : ℕ) (txids : List Bytes)
      (found : Option ℕ) (header : Option BlockHeader)
      → btc.block_tx_ids block_hash ≡ some (height, txids)
      → btc.block_header height ≡ header
      → IsFinalized utx block_hash s (finalize_at h storage s utx height txids found header)
  unfolding finalize_at
  finalize_at-IsFinalized s utx block_hash height txids none header at_hash at_height = record {
    tracked = same-IsTracked s _;
    attested = λ done there. cc;
  }
  finalize_at-IsFinalized s utx block_hash height txids (some i) none at_hash at_height = record {
    tracked = same-IsTracked s _;
    attested = λ done there. cc;
  }
  finalize_at-IsFinalized s utx block_hash height txids (some i) (some header) at_hash at_height =
      record {
        tracked = finish-IsTracked utx s height _;
        attested = λ done there. (
          height,
          txids,
          header,
          at_hash,
          at_height,
          finish-IsAttested utx s height i txids header _ refl done there,
        );
      }

  finalize-IsFinalized :
      (s : Stamper S) (utx : UnconfirmedTx) (block_hash : Bytes)
      → IsFinalized utx block_hash s (finalize h storage btc s utx block_hash)
  unfolding finalize
  finalize-IsFinalized s utx block_hash = go (btc.block_tx_ids block_hash) refl
    where
      go :
          (found : Option (ℕ × List Bytes))
          → btc.block_tx_ids block_hash ≡ found
          → IsFinalized utx block_hash s (elim found [
            | none ↦ (s, err read_failed)
            | some (height, txids) ↦
                finalize_at h storage s utx height txids
                  (find_tx utx.txid txids)
                  (btc.block_header height)
          ])
      go none e = record { tracked = same-IsTracked s _; attested = λ done there. cc }
      go (some (height, txids)) e = finalize_at-IsFinalized s utx block_hash height txids _ _ e refl

  -- One round of the loop: what it left, and where the commitments of a dropped transaction are.
  pub record IsRound (utx : UnconfirmedTx) (s : Stamper S) (e : Tracking S) : Type ℓ where
    pub tracked : IsTracked s e
    pub dropped :
        e.1 ≡ ok false
        → has_leaf c utx.leaves ≡ true
        → (is_in c e.0.pending ≡ true)
          ⊎ ((v : IsFinal h storage btc cfg c utx) × IsLater storage v.put_lem.store' e.0.store)

  stays-IsRound :
      (utx : UnconfirmedTx) (s : Stamper S) (r : Result Bool) → r ≢ ok false → IsRound utx s (s, r)
  stays-IsRound utx s r stays = record {
    tracked = same-IsTracked s r;
    dropped = λ done there. absurd (stays done);
  }

  finalized-IsRound :
      (utx : UnconfirmedTx) (s : Stamper S) (st : TxStatus) (block_hash : Bytes)
      (e : Stamper S × Result (Unit {0}))
      → btc.tx_status utx.txid ≡ some st
      → int_less st.confirmations cfg.min_confirmations ≡ false
      → st.block_hash ≡ some block_hash
      → IsFinalized utx block_hash s e
      → IsRound utx s (finalized e)
  unfolding finalized
  finalized-IsRound utx s st block_hash (s', ok u) status deep hash v = record {
    tracked = record {
      same_journal = v.tracked.same_journal;
      same_cursor = v.tracked.same_cursor;
      same_unconfirmed = v.tracked.same_unconfirmed;
      kept = v.tracked.kept;
      later = v.tracked.later;
    };
    dropped = λ done there.
        let (height, txids, header, at_hash, at_height, x) = v.attested refl there in
        inr (
          record {
            st = st;
            block_hash = block_hash;
            height = height;
            txids = txids;
            tx_index = x.tx_index;
            header = header;
            before = x.before;
            after = x.after;
            root = x.root;
            status = status;
            deep = deep;
            hash = hash;
            block = at_hash;
            header_lem = at_height;
            proof_lem = x.proof_lem;
            put_lem = x.put_lem;
          },
          x.kept_lem,
        );
  }
  finalized-IsRound utx s st block_hash (s', err x) status deep hash v = record {
    tracked = record {
      same_journal = v.tracked.same_journal;
      same_cursor = v.tracked.same_cursor;
      same_unconfirmed = v.tracked.same_unconfirmed;
      kept = v.tracked.kept;
      later = v.tracked.later;
    };
    dropped = λ done there. cc;
  }
  finalized-IsRound utx s st block_hash (s', panicked) status deep hash v = record {
    tracked = record {
      same_journal = v.tracked.same_journal;
      same_cursor = v.tracked.same_cursor;
      same_unconfirmed = v.tracked.same_unconfirmed;
      kept = v.tracked.kept;
      later = v.tracked.later;
    };
    dropped = λ done there. cc;
  }
  finalized-IsRound utx s st block_hash (s', stuck) status deep hash v = record {
    tracked = record {
      same_journal = v.tracked.same_journal;
      same_cursor = v.tracked.same_cursor;
      same_unconfirmed = v.tracked.same_unconfirmed;
      kept = v.tracked.kept;
      later = v.tracked.later;
    };
    dropped = λ done there. cc;
  }

  track_confirmed-IsRound :
      (s : Stamper S) (utx : UnconfirmedTx) (st : TxStatus) (shallow : Bool)
      (block_hash : Option Bytes)
      → btc.tx_status utx.txid ≡ some st
      → int_less st.confirmations cfg.min_confirmations ≡ shallow
      → st.block_hash ≡ block_hash
      → IsRound utx s (track_confirmed h storage btc s utx (not shallow) block_hash)
  unfolding track_confirmed
  track_confirmed-IsRound s utx st false (some block_hash) status deep hash =
      finalized-IsRound utx s st block_hash _ status deep hash
        (finalize-IsFinalized s utx block_hash)
  track_confirmed-IsRound s utx st false none status deep hash = stays-IsRound utx s _ (λ e. cc)
  track_confirmed-IsRound s utx st true block_hash status deep hash =
      stays-IsRound utx s _ (λ e. cc)

  requeued-IsRound :
      (utx : UnconfirmedTx) (s : Stamper S)
      → IsRound utx s (record s { pending = requeue utx.leaves s.pending }, ok false)
  requeued-IsRound utx s = record {
    tracked = record {
      same_journal = refl;
      same_cursor = refl;
      same_unconfirmed = refl;
      kept = λ e. is_in-requeue c utx.leaves s.pending e;
      later = at_once;
    };
    dropped = λ done there. inl (is_in-requeue_leaf c utx.leaves s.pending there);
  }

  pub track_tx-IsRound :
      (s : Stamper S) (utx : UnconfirmedTx) (found : Option TxStatus)
      → btc.tx_status utx.txid ≡ found
      → IsRound utx s (track_tx h storage btc cfg s utx found)
  unfolding track_tx
  track_tx-IsRound s utx none status = stays-IsRound utx s _ (λ e. cc)
  track_tx-IsRound s utx (some st) status = elim (Bool-cases (int_less st.confirmations (pos 0))) [
    | inl conflicted ↦ rw conflicted (requeued-IsRound utx s)
    | inr other ↦ rw other (track_confirmed-IsRound s utx st _ st.block_hash status refl refl)
  ]
