-- ===== src/Stamper/Safe/Sent.antt =====
-- maybeSendTx (internal/stamper/stamper.go) keeps every commitment that a node can
-- hold.
use ots.Prelude.{
  ℕ, suc, ◌≤◌, ◌≡◌, refl, ap, ◌∙◌, arith, true, false, List, [], ◌∷◌, Bytes, length, ◌==◌,
  bytes_equal, bytes_equal→eq, le→ltb-false, Bool-cases, Option, none, some, inl, inr,
}
use ots.Result.{Result, ok}
use ots.Op
use ots.Op.{Hashes, HashLaws, sha256, max_msg_length}
use ots.Op.Apply.{apply_hash}
use ots.Timestamp.Shared.{Node, Heap, update, fresh, find_op, new, add_op, make_merkle_tree}
use ots.Timestamp.Shared.Grown.{add_op-IsAdded}
use ots.Stamper.{Config, Backend, Stamper, is_in, in_unconfirmed, is_pending}
use ots.Stamper.Send.{
  Batch, add_leaf, start_leaf, gather_leaves, sent, send_tip, with_tip, send_batch, too_early,
  maybe_send_tx,
}
use ots.Stamper.Queue.{is_in-remove, is_in-remove_leaves, in_unconfirmed-append}

-- The two calls that make a leaf and its hash succeed for a commitment that a node can hold.
start_leaf-queue_self :
    (h : Hashes) (c : Bytes) (b : Batch)
    → HashLaws h
    → length c ≤ max_msg_length
    → (start_leaf h c b (new c b.batch_heap)).queue ≡ b.queue
unfolding start_leaf add_leaf new find_op
start_leaf-queue_self h c b laws fits =
    let s : Heap = record {
      next = suc b.batch_heap.next;
      node = update b.batch_heap.node b.batch_heap.next (fresh c);
    } in
    let here : s.node b.batch_heap.next ≡ fresh c = ground arith in
    let (s', e, v) =
      add_op-IsAdded h b.batch_heap.next sha256 (h.sha256 c) s (omega arith)
        (ap (λ (n : Node). find_op sha256 n.ops) here)
        (ap (λ (n : Node). Op.apply h sha256 n.msg) here
          ∙ (apply_hash h Op.ripemd160 c laws fits).0) in
    rw (le→ltb-false max_msg_length (length c) fits) (rw e)

start_leaf-queue_other :
    (h : Hashes) (c d : Bytes) (b : Batch) (e : Heap × Result ℕ)
    → bytes_equal d c ≡ false
    → is_in c b.queue ≡ true
    → is_in c (start_leaf h d b e).queue ≡ true
unfolding start_leaf add_leaf
start_leaf-queue_other h c d b (heap, ok leaf) differs there = made (add_op h leaf sha256 heap)
  where
    made : (e : Heap × Result ℕ) → is_in c (add_leaf d leaf b e).queue ≡ true
    made (heap', ok sha) = there
    made (heap', _) = is_in-remove c d b.queue differs there
start_leaf-queue_other h c d b (heap, _) differs there = is_in-remove c d b.queue differs there

gather_leaves-queue :
    (h : Hashes) (c : Bytes) (cs : List Bytes) (b : Batch)
    → HashLaws h
    → length c ≤ max_msg_length
    → is_in c b.queue ≡ true
    → is_in c (gather_leaves h cs b).queue ≡ true
unfolding gather_leaves
gather_leaves-queue h c [] b laws fits there = there
gather_leaves-queue h c (d ∷ cs) b laws fits there =
    gather_leaves-queue h c cs (start_leaf h d b (new d b.batch_heap)) laws fits
      (elim (Bool-cases (bytes_equal d c)) [
        | inl same ↦
            rw (bytes_equal→eq d c same)
              (ap (λ queue. is_in c queue) (start_leaf-queue_self h c b laws fits) ∙ there)
        | inr other ↦ start_leaf-queue_other h c d b (new d b.batch_heap) other there
      ])

-- What one part of maybeSendTx leaves: the store, the journal and the cursor, and every commitment
-- that is queued or unconfirmed.
pub record IsSent {ℓ} {S : Type ℓ} (c : Bytes) (s s' : Stamper S) : Type ℓ where
  pub same_store : s'.store ≡ s.store
  pub same_journal : s'.journal ≡ s.journal
  pub same_cursor : s'.cursor ≡ s.cursor
  pub pending_kept : is_pending s c ≡ true → is_pending s' c ≡ true

module _ {ℓ} {S : Type ℓ} (c : Bytes) where
  same-IsSent : (s : Stamper S) (heap : Heap) → IsSent c s (record s { heap = heap })
  unfolding is_pending
  same-IsSent s heap = record {
    same_store = refl;
    same_journal = refl;
    same_cursor = refl;
    pending_kept = λ e. e;
  }

  sent-IsSent :
      (now : ℕ) (s : Stamper S) (heap : Heap) (tip : ℕ) (leaves : List (Bytes × ℕ)) (txid : Bytes)
      (stripped : Option Bytes)
      → IsSent c s (sent now (record s { heap = heap }) tip leaves txid stripped)
  unfolding sent is_pending in_unconfirmed
  sent-IsSent now s heap tip leaves txid none = same-IsSent s heap
  sent-IsSent now s heap tip leaves txid (some stripped) = record {
    same_store = refl;
    same_journal = refl;
    same_cursor = refl;
    pending_kept = λ e.
        rw (in_unconfirmed-append c s.unconfirmed _) (elim (Bool-cases (is_in c s.pending)) [
          | inl queued ↦ ground (arith, is_in-remove_leaves c leaves s.pending queued)
          | inr other ↦ ground (arith, e, other)
        ]);
  }

  send_tip-IsSent :
      (btc : Backend) (now : ℕ) (s : Stamper S) (heap : Heap) (tip : ℕ) (leaves : List (Bytes × ℕ))
      (tx : Option (Bytes × Bytes))
      → IsSent c s (send_tip btc now (record s { heap = heap }) tip leaves tx)
  unfolding send_tip
  send_tip-IsSent btc now s heap tip leaves none = same-IsSent s heap
  send_tip-IsSent btc now s heap tip leaves (some (txid, raw)) =
      sent-IsSent now s heap tip leaves txid (btc.strip_witness raw)

  with_tip-IsSent :
      (btc : Backend) (cfg : Config) (now : ℕ) (s : Stamper S) (old : Heap)
      (leaves : List (Bytes × ℕ)) (e : Heap × Result (Option ℕ))
      → IsSent c s (with_tip btc cfg now (record s { heap = old }) leaves e)
  unfolding with_tip
  with_tip-IsSent btc cfg now s old leaves (heap, ok (some tip)) =
      send_tip-IsSent btc now s heap tip leaves _
  with_tip-IsSent btc cfg now s old leaves (heap, _) = same-IsSent s heap

  IsSent-queue :
      (s t : Stamper S) (queue : List Bytes) (heap : Heap)
      → (is_in c s.pending ≡ true → is_in c queue ≡ true)
      → IsSent c (record s { pending = queue; heap = heap }) t
      → IsSent c s t
  unfolding is_pending
  IsSent-queue s t queue heap kept v = record {
    same_store = v.same_store;
    same_journal = v.same_journal;
    same_cursor = v.same_cursor;
    pending_kept = λ e. v.pending_kept (ground (arith, kept, e));
  }

  send_batch-IsSent :
      (h : Hashes) (btc : Backend) (cfg : Config) (now : ℕ) (s : Stamper S) (b : Batch)
      → (is_in c s.pending ≡ true → is_in c b.queue ≡ true)
      → IsSent c s (send_batch h btc cfg now s b)
  unfolding send_batch
  send_batch-IsSent h btc cfg now s b kept =
      IsSent-queue s (send_batch h btc cfg now s b) b.queue b.batch_heap kept (go b.sha_leaves)
    where
      s' : Stamper S
      s' = record s { pending = b.queue; heap = b.batch_heap }

      go :
          (shas : List ℕ)
          → IsSent c s' (elim shas [
            | [] ↦ s'
            | sha ∷ shas ↦
                with_tip btc cfg now s' b.leaves (make_merkle_tree h (sha ∷ shas) b.batch_heap)
          ])
      go [] = same-IsSent s' b.batch_heap
      go (sha ∷ shas) = with_tip-IsSent btc cfg now s' b.batch_heap b.leaves _

  pub maybe_send_tx-IsSent :
      (h : Hashes) (btc : Backend) (cfg : Config) (now : ℕ) (s : Stamper S)
      → HashLaws h
      → length c ≤ max_msg_length
      → IsSent c s (maybe_send_tx h btc cfg now s)
  unfolding maybe_send_tx
  maybe_send_tx-IsSent h btc cfg now s laws fits = elim (Bool-cases (length s.pending == 0)) [
    | inl none_pending ↦ rw none_pending (same-IsSent s s.heap)
    | inr other ↦ rw other (elim (Bool-cases (too_early cfg now s.last_tx_time)) [
      | inl early ↦ rw early (same-IsSent s s.heap)
      | inr due ↦ rw due (
          send_batch-IsSent h btc cfg now s _
            (λ e. gather_leaves-queue h c s.pending _ laws fits e))
    ])
  ]
