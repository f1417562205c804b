-- ===== src/Timestamp/Shared.antt =====
-- internal/core/timestamp/timestamp.go where nodes are shared: NonceTimestamp, CatThenUnaryOp and
-- MakeMerkleTree join trees at a common node, so a node is a pointer into a heap. A call gives the
-- heap as it leaves it, also where it ends in an error.
pub mod Paths
pub mod Grown
pub mod Redirected
pub mod Joined
pub mod Level
pub mod Round
pub mod Merkle
pub mod Unrolled
use ots.Prelude.{
  ℕ, zero, suc, ◌+◌, Bool, true, false, List, [], ◌∷◌, ◌++◌, not, Option, none, some, Bytes, length,
  ltb, ◌==◌, bytes_equal, if◌then◌else◌,
}
use ots.Result.{
  Result, ok, err, panicked, stuck, message_exceeds_limit, different_messages, op_not_found,
  paths_diverged, no_timestamps,
}
use ots.Op
use ots.Op.{Op, Hashes, max_msg_length, new_append, new_prepend, sha256}
use ots.Notary.{Attestation}
use ots.Timestamp.{all_in}

pub record Node : Type 0 where
  pub msg : Bytes
  pub attestations : List Attestation
  pub ops : List (Op × ℕ)

-- The nodes below `next` are allocated.
pub record Heap : Type 0 where
  pub next : ℕ
  pub node : ℕ → Node

abbrev pub update : (ℕ → Node) → ℕ → Node → ℕ → Node
update f k n i = if i == k then n else f i

abbrev pub put_node : ℕ → Node → Heap → Heap
put_node k n s = record s { node = update s.node k n }

abbrev pub Action {ℓ} : Type ℓ → Type ℓ
Action A = Heap → Heap × Result A

abbrev pub go_on {ℓ κ} :
    {A : Type ℓ} {B : Type κ} → (A → Action B) → Heap × Result A → Heap × Result B
go_on rest (s, ok value) = rest value s
go_on rest (s, err e) = (s, err e)
go_on rest (s, panicked) = (s, panicked)
go_on rest (s, stuck) = (s, stuck)

infixl 5 ◌>>=◌ ◌>>◌
abbrev pub ◌>>=◌ {ℓ κ} : {A : Type ℓ} {B : Type κ} → Action A → (A → Action B) → Action B
◌>>=◌ action rest s = go_on rest (action s)

abbrev pub ◌>>◌ {ℓ} : {B : Type ℓ} → Action (Unit {0}) → Action B → Action B
◌>>◌ action rest = action >>= λ done. rest

-- What does not look at the heap.
abbrev pub pure {ℓ} : {A : Type ℓ} → Result A → Action A
pure r s = (s, r)

abbrev pub read_node : ℕ → Action Node
read_node t s = (s, ok (s.node t))

abbrev pub fresh : Bytes → Node
fresh msg = record { msg = msg; attestations = []; ops = [] }

abbrev pub allocate : Node → Action ℕ
allocate n s = (record { next = suc s.next; node = update s.node s.next n }, ok s.next)

abbrev pub check_length : Bytes → Result (Unit {0})
check_length msg = if ltb max_msg_length (length msg) then err message_exceeds_limit else ok tt

-- New
unfoldable pub new : Bytes → Action ℕ
new msg = do pure (check_length msg); allocate (fresh msg)

-- The stamp of the first operation that is Equal to `o`.
unfoldable pub find_op : Op → List (Op × ℕ) → Option ℕ
find_op o [] = none
find_op o ((p, s) ∷ ops) = if Op.equal p o then some s else find_op o ops

unfoldable pub append_op : ℕ → Op → ℕ → Action (Unit {0})
append_op t o child s =
    (put_node t (record (s.node t) { ops = (s.node t).ops ++ ((o, child) ∷ []) }) s, ok tt)

-- AddOp from its search on; the node that New made is dropped where the operation is there.
unfoldable pub child_or_new : ℕ → Op → Bytes → Option ℕ → Action ℕ
unfolding append_op
child_or_new t o result (some child) = pure (ok child)
child_or_new t o result none = do
  child ← allocate (fresh result)
  append_op t o child
  pure (ok child)

unfoldable pub add_op : Hashes → ℕ → Op → Action ℕ
unfolding child_or_new
add_op h t o = do
  n ← read_node t
  result ← pure (Op.apply h o n.msg)
  pure (check_length result)
  child_or_new t o result (find_op o n.ops)

-- The stamp of that operation replaced.
unfoldable pub put_op : Op → ℕ → List (Op × ℕ) → List (Op × ℕ)
put_op o s [] = []
put_op o s ((p, t) ∷ ops) = if Op.equal p o then (p, s) ∷ ops else (p, t) ∷ put_op o s ops

unfoldable pub set_found : ℕ → Op → ℕ → Option ℕ → Action (Unit {0})
set_found t o child none s = (s, err op_not_found)
set_found t o child (some old) s =
    if not (bytes_equal (s.node old).msg (s.node child).msg)
    then (s, err different_messages)
    else (put_node t (record (s.node t) { ops = put_op o child (s.node t).ops }) s, ok tt)

unfoldable pub set_op_result : ℕ → Op → ℕ → Action (Unit {0})
unfolding set_found
set_op_result t o child s = set_found t o child (find_op o (s.node t).ops) s

unfoldable pub equal_found : (ℕ → Result Bool) → Option ℕ → Result Bool → Result Bool
equal_found same none below = ok false
equal_found same (some s) below = elim (same s) [
  | ok b ↦ (if b then below else ok false)
  | err e ↦ err e
  | panicked ↦ panicked
  | stuck ↦ stuck
]

unfoldable pub equal_ops : (ℕ → ℕ → Result Bool) → List (Op × ℕ) → List (Op × ℕ) → Result Bool
unfolding equal_found
equal_ops same [] others = ok true
equal_ops same ((o, s) ∷ ops) others =
    equal_found (same s) (find_op o others) (equal_ops same ops others)

-- Equal of two nodes, on fuel.
unfoldable pub equal : ℕ → Heap → ℕ → ℕ → Result Bool
unfolding equal_ops
equal zero s a b = stuck
equal (suc fuel) s a b =
    let below = equal_ops (equal fuel s) (s.node a).ops (s.node b).ops in
    if not (bytes_equal (s.node a).msg (s.node b).msg)
    then ok false
    else if not (length (s.node a).attestations == length (s.node b).attestations)
    then ok false
    else if not (length (s.node a).ops == length (s.node b).ops)
    then ok false
    else if not (all_in (s.node a).attestations (s.node b).attestations)
    then ok false
    else below

-- Each step goes to another node where no path returns, so the number of nodes is fuel enough.
abbrev pub equal_nodes : ℕ → ℕ → Action Bool
equal_nodes a b s = (s, equal s.next s a b)

-- The node, or a new one without a message where it is nil.
abbrev pub or_empty : Option ℕ → Action ℕ
or_empty (some t) = pure (ok t)
or_empty none = new []

unfoldable pub cat_then_unary_op : Hashes → Op → Option ℕ → Option ℕ → Action ℕ
cat_then_unary_op h unary left? right? = do
  left ← or_empty left?
  right ← or_empty right?
  l ← read_node left
  r ← read_node right
  append_op ← pure (new_append r.msg)
  left_append ← add_op h left append_op
  prepend_op ← pure (new_prepend l.msg)
  right_prepend ← add_op h right prepend_op
  same ← equal_nodes left_append right_prepend
  pure (if same then ok tt else err paths_diverged)
  set_op_result left append_op right_prepend
  add_op h right_prepend unary

unfoldable pub cat_sha256 : Hashes → ℕ → ℕ → Action ℕ
cat_sha256 h left right = cat_then_unary_op h sha256 (some left) (some right)

unfoldable pub cat_sha256d : Hashes → ℕ → ℕ → Action ℕ
cat_sha256d h left right = do once ← cat_sha256 h left right; add_op h once sha256

-- `nonce` is what rand.Read gave.
unfoldable pub nonce_timestamp : Hashes → Result Bytes → ℕ → Action ℕ
nonce_timestamp h nonce private = do
  bytes ← pure nonce
  append_op ← pure (new_append bytes)
  stamp2 ← add_op h private append_op
  add_op h stamp2 sha256

-- The inner loop of MakeMerkleTree, with its variables `prev` and `next`.
unfoldable pub join_level : Hashes → Option ℕ → List ℕ → List ℕ → Action (List ℕ × Option ℕ)
join_level h prev next [] = pure (ok (next, prev))
join_level h none next (t ∷ current) = join_level h (some t) next current
join_level h (some p) next (t ∷ current) = do
  pair ← cat_sha256 h p t
  join_level h none (next ++ (pair ∷ [])) current

abbrev pub odd_one : Option ℕ → List ℕ
odd_one none = []
odd_one (some p) = p ∷ []

-- One round of the outer loop, behind the inner one.
unfoldable pub next_level : (List ℕ → Action (Option ℕ)) → List ℕ × Option ℕ → Action (Option ℕ)
next_level again ([], prev) = pure (ok prev)
next_level again (pair ∷ next, prev) = again ((pair ∷ next) ++ odd_one prev)

-- The outer loop, on fuel: a level has fewer nodes than the one before.
unfoldable pub join_levels : Hashes → ℕ → List ℕ → Action (Option ℕ)
join_levels h zero current = pure stuck
join_levels h (suc fuel) current = join_level h none [] current >>= next_level (join_levels h fuel)

-- The result is nil, `none`, for no input.
unfoldable pub make_merkle_tree : Hashes → List ℕ → Action (Option ℕ)
make_merkle_tree h [] = pure (err no_timestamps)
make_merkle_tree h (t ∷ stamps) = join_levels h (length (t ∷ stamps)) (t ∷ stamps)
