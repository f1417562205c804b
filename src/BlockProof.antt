-- ===== src/BlockProof.antt =====
-- internal/bitcoin/blockproof.go: the operations that lead from the message in a transaction to the
-- merkle root of its block, on the heap of shared nodes.
pub mod Satoshi
pub mod Pairs
pub mod Root
pub mod FirstLevel
pub mod Index
pub mod InTx
pub mod Proof
use ots.Prelude.{
  ℕ, zero, suc, ◌+◌, ◌%◌, Bool, true, false, List, [], ◌∷◌, ◌++◌, not, ◌&&◌, Option, none, some,
  Bytes, length, take, drop, ltb, ◌==◌, bytes_equal, if◌then◌else◌,
}
use ots.Prelude.Int.{ℤ, pos, negsuc}
use ots.Result.{
  Result, ok, err, panicked, stuck, tip_not_found, tip_repeated, tx_out_of_range, txid_differs,
  root_differs,
}
use ots.Op.{Op, Hashes, new_append, new_prepend, sha256}
use ots.Timestamp.Shared.{Action, ◌>>=◌, ◌>>◌, pure, read_node, new, add_op, cat_sha256d}

-- bytes.HasPrefix
unfoldable pub has_prefix : Bytes → Bytes → Bool
has_prefix s [] = true
has_prefix [] (b ∷ p) = false
has_prefix (a ∷ s) (b ∷ p) = a == b && has_prefix s p

abbrev pub one_later : Option ℕ → Option ℕ
one_later none = none
one_later (some i) = some (suc i)

-- bytes.Index
unfoldable pub index : Bytes → Bytes → Option ℕ
index [] p = if has_prefix [] p then some 0 else none
index (a ∷ s) p = if has_prefix (a ∷ s) p then some 0 else one_later (index s p)

-- The offset of the message in the transaction, where it stands once.
unfoldable pub only_index : Bytes → Bytes → Option ℕ → Result ℕ
only_index raw msg none = err tip_not_found
only_index raw msg (some i) =
    if ltb (length raw) (i + 1)
    then panicked
    else elim (index (drop (i + 1) raw) msg) [ none ↦ ok i | some j ↦ err tip_repeated ]

-- The operation, made from its argument, where that is not empty.
unfoldable pub add_part : Hashes → (Bytes → Result Op) → Bytes → ℕ → Action ℕ
add_part h make [] node = pure (ok node)
add_part h make (b ∷ part) node = do o ← pure (make (b ∷ part)); add_op h node o

-- From the tip to the node of the transaction's hash.
unfoldable pub tx_node : Hashes → ℕ → Bytes → Action ℕ
tx_node h tip raw = do
  n ← read_node tip
  i ← pure (only_index raw n.msg (index raw n.msg))
  before ← add_part h new_prepend (take i raw) tip
  whole ← add_part h new_append (drop (i + length n.msg) raw) before
  once ← add_op h whole sha256
  add_op h once sha256

-- txids[i]
abbrev pub txid_at : List Bytes → ℕ → Option Bytes
txid_at [] i = none
txid_at (t ∷ txids) zero = some t
txid_at (t ∷ txids) (suc i) = txid_at txids i

abbrev pub in_range : List Bytes → ℤ → Option Bytes
in_range txids (negsuc i) = none
in_range txids (pos i) = txid_at txids i

abbrev pub check_txid : Bytes → Option Bytes → Result (Unit {0})
check_txid msg none = err tx_out_of_range
check_txid msg (some txid) = if not (bytes_equal msg txid) then err txid_differs else ok tt

-- The lowest level: `node` at its index, and a new node for every other hash; `j` counts up.
unfoldable pub first_level : Hashes → ℤ → ℕ → ℕ → List Bytes → Action (List ℕ)
first_level h tx_index node j [] = pure (ok [])
first_level h tx_index node j (txid ∷ txids) = do
  t ← (elim tx_index [
    | pos i ↦ (if j == i then pure (ok node) else new txid)
    | negsuc i ↦ new txid
  ])
  level ← first_level h tx_index node (suc j) txids
  pure (ok (t ∷ level))

-- append(level, level[len(level)-1]) where the length is odd
abbrev pub last_of : ℕ → List ℕ → ℕ
last_of t [] = t
last_of t (u ∷ level) = last_of u level

unfoldable pub make_even : List ℕ → List ℕ
make_even [] = []
make_even (t ∷ level) =
    if length (t ∷ level) % 2 == 1 then (t ∷ level) ++ (last_of t level ∷ []) else t ∷ level

-- The inner loop, two nodes a round; level[j+1] out of range is a panic.
unfoldable pub join_pairs : Hashes → List ℕ → Action (List ℕ)
join_pairs h [] = pure (ok [])
join_pairs h (l ∷ []) = pure panicked
join_pairs h (l ∷ r ∷ level) = do
  parent ← cat_sha256d h l r
  next ← join_pairs h level
  pure (ok (parent ∷ next))

-- The outer loop, on fuel: a level of two nodes or more has fewer above it.
unfoldable pub join_block : Hashes → ℕ → List ℕ → Action ℕ
join_block h zero level = pure stuck
join_block h (suc fuel) [] = pure panicked
join_block h (suc fuel) (root ∷ []) = pure (ok root)
join_block h (suc fuel) (l ∷ r ∷ level) =
    join_pairs h (make_even (l ∷ r ∷ level)) >>= join_block h fuel

unfoldable pub make_timestamp_from_block : Hashes → ℕ → Bytes → ℤ → List Bytes → Bytes → Action ℕ
make_timestamp_from_block h tip raw_tx tx_index txids merkle_root = do
  node ← tx_node h tip raw_tx
  n ← read_node node
  pure (check_txid n.msg (in_range txids tx_index))
  level ← first_level h tx_index node 0 txids
  root ← join_block h (length txids) level
  r ← read_node root
  pure (if not (bytes_equal r.msg merkle_root) then err root_differs else ok tt)
  pure (ok root)
