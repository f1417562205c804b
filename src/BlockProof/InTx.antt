-- ===== src/BlockProof/InTx.antt =====
-- From the message in the transaction to the node of its hash, in MakeTimestampFromBlock
-- (internal/bitcoin/blockproof.go).
use ots.Prelude.{
  ℕ, ◌+◌, ◌≤◌, ◌<◌, ◌≡◌, refl, ap, ◌∙◌, arith, none, [], ◌∷◌, ◌++◌, append-nil, append_assoc, Bytes,
  length, length-append, take, drop,
}
use ots.Result.{ok}
use ots.Op
use ots.Op.{
  Op, Hashes, HashLaws, append, prepend, sha256, new_append, new_prepend, max_msg_length,
  max_result_length,
}
use ots.Op.Apply.{apply_hash, Links→apply, new_append_fits, new_prepend_fits}
use ots.Timestamp.Shared.{Heap, Node, find_op, add_op}
use ots.Timestamp.Shared.Paths.{
  Reaches, here, via, Reaches-trans, Reaches-Extends, Extends, Extends-refl, Extends-trans,
}
use ots.Timestamp.Shared.Grown.{add_op-IsAdded, IsAdded-Extends, IsAdded-Edge}
use ots.BlockProof.{index, only_index, add_part, tx_node}
use ots.BlockProof.Satoshi.{double_sha256}
use ots.BlockProof.Index.{index-append, only_index-found}

-- What a chain of operations from one node leaves: the last node has the message and no operation.
pub record IsStepped (h : Hashes) (t : ℕ) (result : Bytes) (s s' : Heap) (t' : ℕ) : Type 0 where
  pub extends : Extends s s'
  pub reached : Reaches h s' t t'
  pub allocated : t' < s'.next
  pub no_op : (s'.node t').ops ≡ []
  pub msg_lem : (s'.node t').msg ≡ result

IsStepped-trans :
    {h : Hashes} {t u v : ℕ} {m n : Bytes} {s s₁ s₂ : Heap}
    → IsStepped h t m s s₁ u
    → IsStepped h u n s₁ s₂ v
    → IsStepped h t n s s₂ v
IsStepped-trans x y = record {
  extends = Extends-trans x.extends y.extends;
  reached = Reaches-trans (Reaches-Extends y.extends x.reached) y.reached;
  allocated = y.allocated;
  no_op = y.no_op;
  msg_lem = y.msg_lem;
}

add_op-IsStepped :
    (h : Hashes) (t : ℕ) (o : Op) (msg result : Bytes) (s : Heap)
    → t < s.next
    → (s.node t).ops ≡ []
    → (s.node t).msg ≡ msg
    → Op.apply h o msg ≡ ok result
    → (s' : Heap) × (t' : ℕ) × (add_op h t o s ≡ (s', ok t')) × IsStepped h t result s s' t'
unfolding find_op
add_op-IsStepped h t o msg result s allocated no_op same image =
    let free : find_op o (s.node t).ops ≡ none = ap (find_op o) no_op in
    let image' : Op.apply h o (s.node t).msg ≡ ok result = ap (Op.apply h o) same ∙ image in
    let (s', run, x) = add_op-IsAdded h t o result s allocated free image' in
    (
      s',
      s.next,
      run,
      record {
        extends = IsAdded-Extends allocated x;
        reached = via o (IsAdded-Edge allocated x h free image') here;
        allocated = omega (arith, x.one_more);
        no_op = ap (λ (n : Node). n.ops) x.child;
        msg_lem = ap (λ (n : Node). n.msg) x.child;
      },
    )

apply-append :
    (h : Hashes) (msg part : Bytes)
    → 1 ≤ length part
    → length msg + length part ≤ max_result_length
    → Op.apply h (append part) msg ≡ ok (msg ++ part)
apply-append h msg part some_bytes fits =
    let long : length (msg ++ part) ≡ length msg + length part = length-append msg part in
    Links→apply h (append part) msg (msg ++ part) (record {
      msg_fits = omega (arith, fits);
      image = refl;
      not_empty = omega (arith, some_bytes, long);
      result_fits = omega (arith, fits, long);
    })

apply-prepend :
    (h : Hashes) (msg part : Bytes)
    → 1 ≤ length part
    → length part + length msg ≤ max_result_length
    → Op.apply h (prepend part) msg ≡ ok (part ++ msg)
apply-prepend h msg part some_bytes fits =
    let long : length (part ++ msg) ≡ length part + length msg = length-append part msg in
    Links→apply h (prepend part) msg (part ++ msg) (record {
      msg_fits = omega (arith, fits);
      image = refl;
      not_empty = omega (arith, some_bytes, long);
      result_fits = omega (arith, fits, long);
    })

same-IsStepped :
    (h : Hashes) (t : ℕ) (msg : Bytes) (s : Heap)
    → t < s.next
    → (s.node t).ops ≡ []
    → (s.node t).msg ≡ msg
    → IsStepped h t msg s s t
same-IsStepped h t msg s allocated no_op same = record {
  extends = Extends-refl s;
  reached = here;
  allocated = allocated;
  no_op = no_op;
  msg_lem = same;
}

module _ (h : Hashes) (t : ℕ) (msg : Bytes) (s : Heap) (allocated : t < s.next)
    (no_op : (s.node t).ops ≡ []) (same : (s.node t).msg ≡ msg) where
  prepend-IsStepped :
      (part : Bytes)
      → length part + length msg ≤ max_result_length
      → (s' : Heap) × (t' : ℕ) × (add_part h new_prepend part t s ≡ (s', ok t'))
        × IsStepped h t (part ++ msg) s s' t'
  unfolding add_part
  prepend-IsStepped [] fits = (s, t, refl, same-IsStepped h t msg s allocated no_op same)
  prepend-IsStepped (b ∷ part) fits =
      let (s', t', run, x) =
        add_op-IsStepped h t (prepend (b ∷ part)) msg ((b ∷ part) ++ msg) s allocated no_op same
          (apply-prepend h msg (b ∷ part) (omega arith) fits) in
      let made : new_prepend (b ∷ part) ≡ ok (prepend (b ∷ part)) =
        new_prepend_fits (b ∷ part) (omega arith) (omega (arith, fits)) in
      (s', t', rw made run, x)

  append-IsStepped :
      (part : Bytes)
      → length msg + length part ≤ max_result_length
      → (s' : Heap) × (t' : ℕ) × (add_part h new_append part t s ≡ (s', ok t'))
        × IsStepped h t (msg ++ part) s s' t'
  unfolding add_part
  append-IsStepped [] fits =
      (s, t, refl, same-IsStepped h t (msg ++ []) s allocated no_op (rw (append-nil msg) same))
  append-IsStepped (b ∷ part) fits =
      let (s', t', run, x) =
        add_op-IsStepped h t (append (b ∷ part)) msg (msg ++ (b ∷ part)) s allocated no_op same
          (apply-append h msg (b ∷ part) (omega arith) fits) in
      let made : new_append (b ∷ part) ≡ ok (append (b ∷ part)) =
        new_append_fits (b ∷ part) (omega arith) (omega (arith, fits)) in
      (s', t', rw made run, x)

tx_node-run :
    (h : Hashes) (tip i t₁ t₂ t₃ t₄ : ℕ) (raw : Bytes) (s s₁ s₂ s₃ s₄ : Heap)
    → only_index raw (s.node tip).msg (index raw (s.node tip).msg) ≡ ok i
    → add_part h new_prepend (take i raw) tip s ≡ (s₁, ok t₁)
    → add_part h new_append (drop (i + length (s.node tip).msg) raw) t₁ s₁ ≡ (s₂, ok t₂)
    → add_op h t₂ sha256 s₂ ≡ (s₃, ok t₃)
    → add_op h t₃ sha256 s₃ ≡ (s₄, ok t₄)
    → tx_node h tip raw s ≡ (s₄, ok t₄)
unfolding tx_node
tx_node-run h tip i t₁ t₂ t₃ t₄ raw s s₁ s₂ s₃ s₄ found run₁ run₂ run₃ run₄ =
    rw found (rw run₁ (rw run₂ (rw run₃ run₄)))

-- A transaction of at most 4096 bytes in which the message stands once.
pub tx_node-IsStepped :
    (h : Hashes) (tip i : ℕ) (raw : Bytes) (s : Heap)
    → HashLaws h
    → tip < s.next
    → (s.node tip).ops ≡ []
    → length raw ≤ max_result_length
    → only_index raw (s.node tip).msg (index raw (s.node tip).msg) ≡ ok i
    → (s' : Heap) × (node : ℕ) × (tx_node h tip raw s ≡ (s', ok node))
      × IsStepped h tip (double_sha256 h raw) s s' node
tx_node-IsStepped h tip i raw s laws allocated no_op fits found =
    let msg : Bytes = (s.node tip).msg in
    let before : Bytes = take i raw in
    let after : Bytes = drop (i + length msg) raw in
    let around : before ++ (msg ++ after) ≡ raw =
      index-append raw msg i (only_index-found raw msg i (index raw msg) found) in
    let size : length before + (length msg + length after) ≡ length raw =
      omega
        (arith, ap length around, length-append before (msg ++ after), length-append msg after) in
    let front : length (before ++ msg) ≡ length before + length msg = length-append before msg in
    let (s₁, t₁, run₁, x₁) =
      prepend-IsStepped h tip msg s allocated no_op refl before (omega (arith, size, fits)) in
    let (s₂, t₂, run₂, x₂) =
      append-IsStepped h t₁ (before ++ msg) s₁ x₁.allocated x₁.no_op x₁.msg_lem after
        (omega (arith, size, fits, front)) in
    let whole : (s₂.node t₂).msg ≡ raw = x₂.msg_lem ∙ append_assoc before msg after ∙ around in
    let once_size : length (h.sha256 raw) ≡ 32 = laws.length_sha256 raw in
    let (s₃, t₃, run₃, x₃) =
      add_op-IsStepped h t₂ sha256 raw (h.sha256 raw) s₂ x₂.allocated x₂.no_op whole
        (apply_hash h Op.ripemd160 raw laws fits).0 in
    let (s₄, t₄, run₄, x₄) =
      add_op-IsStepped h t₃ sha256 (h.sha256 raw) (double_sha256 h raw) s₃ x₃.allocated x₃.no_op
        x₃.msg_lem (apply_hash h Op.ripemd160 (h.sha256 raw) laws (omega (arith, once_size))).0 in
    (
      s₄,
      t₄,
      tx_node-run h tip i t₁ t₂ t₃ t₄ raw s s₁ s₂ s₃ s₄ found run₁ run₂ run₃ run₄,
      IsStepped-trans (IsStepped-trans (IsStepped-trans x₁ x₂) x₃) x₄,
    )
