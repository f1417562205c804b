-- ===== src/BlockProof/Proof.antt =====
-- MakeTimestampFromBlock (internal/bitcoin/blockproof.go) on a block that holds the transaction.
use ots.Prelude.{
  ℕ, ◌+◌, ◌≤◌, ◌<◌, ◌≡◌, sym, ap, ◌∙◌, arith, some, List, [], ◌∷◌, Bytes, bytes_equal_self, length,
  All, inl, inr,
}
use ots.Prelude.Int.{pos}
use ots.Result.{ok}
use ots.Op.{Hashes, HashLaws, max_result_length}
use ots.Timestamp.Shared.{Heap}
use ots.Timestamp.Shared.Paths.{Reaches, Reaches-trans, Reaches-Extends, Extends, Extends-trans}
use ots.Timestamp.Shared.Level.{IsReady, ReachesOne}
use ots.BlockProof.{
  index, only_index, tx_node, txid_at, first_level, join_block, make_timestamp_from_block,
}
use ots.BlockProof.Satoshi.{double_sha256, satoshi_root}
use ots.BlockProof.InTx.{IsStepped, tx_node-IsStepped}
use ots.BlockProof.FirstLevel.{first_level-IsFirstLevel}
use ots.BlockProof.Root.{join_block-IsTip}

-- What reaches one of these nodes, and they all reach the tip.
Reaches-All :
    (h : Hashes) (s s' : Heap) (level : List ℕ) (t tip : ℕ)
    → Extends s s'
    → ReachesOne h s level t
    → All (λ u. Reaches h s' u tip) level
    → Reaches h s' t tip
Reaches-All h s s' [] t tip x p v = absurd p
Reaches-All h s s' (u ∷ level) t tip x (inl p) v = Reaches-trans (Reaches-Extends x p) v.0
Reaches-All h s s' (u ∷ level) t tip x (inr p) v = Reaches-All h s s' level t tip x p v.1

make_timestamp_from_block-run :
    (h : Hashes) (tip i node root : ℕ) (raw merkle_root : Bytes) (txids : List Bytes)
    (level : List ℕ) (s s₁ s₂ s₃ : Heap)
    → tx_node h tip raw s ≡ (s₁, ok node)
    → txid_at txids i ≡ some (s₁.node node).msg
    → first_level h (pos i) node 0 txids s₁ ≡ (s₂, ok level)
    → join_block h (length txids) level s₂ ≡ (s₃, ok root)
    → (s₃.node root).msg ≡ merkle_root
    → make_timestamp_from_block h tip raw (pos i) txids merkle_root s ≡ (s₃, ok root)
unfolding make_timestamp_from_block
make_timestamp_from_block-run h tip i node root raw merkle_root txids level s s₁ s₂ s₃ run₁ at_i
      run₂ run₃ msg =
    rw run₁ (rw at_i (rw bytes_equal_self (rw run₂ (rw run₃ (rw msg (rw bytes_equal_self))))))

txid_at-inside :
    (txids : List Bytes) (i : ℕ) (txid : Bytes) → txid_at txids i ≡ some txid → 1 ≤ length txids
txid_at-inside [] i txid e = cc
txid_at-inside (t ∷ txids) i txid e = omega arith

stepped-IsReady :
    (h : Hashes) (t t' : ℕ) (msg : Bytes) (s s' : Heap)
    → IsStepped h t msg s s' t'
    → length msg ≡ 32
    → IsReady s' t'
stepped-IsReady h t t' msg s s' x size = record {
  allocated = x.allocated;
  no_op = x.no_op;
  some_bytes = omega (arith, size, ap length x.msg_lem);
  fits = omega (arith, size, ap length x.msg_lem);
}

-- MakeTimestampFromBlock, for a tip that no operation leaves, a transaction of at most 4096 bytes in
-- which the tip's message is found once, the hashes of the block's transactions with 32 bytes each
-- and that of this one at its index, the merkle root that Bitcoin defines for them, and hash functions
-- that give digests of their lengths, succeeds: a chain of operations leads from the tip to a root
-- whose message is the merkle root, and the messages, attestations and operations of before are kept.
pub make_timestamp_from_block_lem :
    (h : Hashes) (tip i place : ℕ) (raw merkle_root : Bytes) (txids : List Bytes) (s : Heap)
    → HashLaws h
    → tip < s.next
    → (s.node tip).ops ≡ []
    → length raw ≤ max_result_length
    → only_index raw (s.node tip).msg (index raw (s.node tip).msg) ≡ ok place
    → txid_at txids i ≡ some (double_sha256 h raw)
    → All (λ txid. length txid ≡ 32) txids
    → satoshi_root h (length txids) txids ≡ merkle_root
    → (s' : Heap) × (root : ℕ) × (make_timestamp_from_block h tip raw (pos i) txids merkle_root s
        ≡ (s', ok root))
      × Reaches h s' tip root
      × ((s'.node root).msg ≡ merkle_root)
      × Extends s s'
make_timestamp_from_block_lem h tip i place raw merkle_root txids s laws allocated no_op fits found
      at_i sizes is_root =
    let (s₁, node, run₁, x) = tx_node-IsStepped h tip place raw s laws allocated no_op fits found in
    let here : txid_at txids i ≡ some (s₁.node node).msg = at_i ∙ ap some (sym x.msg_lem) in
    let zero_more : 0 + i ≡ i = omega arith in
    let ready : IsReady s₁ node =
      stepped-IsReady h tip node (double_sha256 h raw) s s₁ x (laws.length_sha256 (h.sha256 raw)) in
    let (s₂, level, run₂, v, there) =
      first_level-IsFirstLevel h i node i 0 txids s₁ zero_more here ready sizes in
    let some_tx : 1 ≤ length txids = txid_at-inside txids i (double_sha256 h raw) at_i in
    let (s₃, root, run₃, t, msg) =
      join_block-IsTip h (length txids) level s₂ laws v.ready v.distinct
        (omega (arith, some_tx, v.as_many)) (omega (arith, v.as_many)) in
    let root_msg : (s₃.node root).msg ≡ merkle_root =
      msg ∙ ap (satoshi_root h (length txids)) v.msgs ∙ is_root in
    (
      s₃,
      root,
      make_timestamp_from_block-run h tip i node root raw merkle_root txids level s s₁ s₂ s₃ run₁
          here run₂ run₃ root_msg,
      Reaches-trans (Reaches-Extends (Extends-trans v.extends t.extends) x.reached)
          (Reaches-All h s₂ s₃ level node root t.extends there t.reached),
      root_msg,
      Extends-trans x.extends (Extends-trans v.extends t.extends),
    )
