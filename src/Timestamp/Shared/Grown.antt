-- ===== src/Timestamp/Shared/Grown.antt =====
-- What one AddOp and one SetOpResult (internal/core/timestamp/timestamp.go) do to the heap.
use ots.Prelude.{
  ℕ, suc, ◌≤◌, ◌<◌, ◌≡◌, ◌≢◌, refl, sym, ap, ◌∙◌, arith, true, false, List, [], ◌∷◌, ◌++◌, none,
  some, Bytes, length, le→ltb-false, ◌==◌, if◌then◌else◌, Bool-cases, inl, inr, ◌⊎◌,
}
use ots.Result.{ok}
use ots.Op
use ots.Op.{Op, Hashes, max_msg_length}
use ots.Op.Apply.{apply→Links}
use ots.Op.Order.{equal_self, equal→eq}
use ots.Timestamp.Shared.{
  Node, Heap, update, fresh, find_op, put_op, add_op, append_op, child_or_new,
}
use ots.Timestamp.Shared.Paths.{Edge, Extends}

find_op-append :
    (o : Op) (ops others : List (Op × ℕ)) (b : ℕ)
    → find_op o ops ≡ some b
    → find_op o (ops ++ others) ≡ some b
unfolding find_op
find_op-append o [] others b e = cc
find_op-append o ((p, s) ∷ ops) others b e = elim (Bool-cases (Op.equal p o)) [
  | inl same ↦ rw same (rw same at e)
  | inr other ↦ rw other (find_op-append o ops others b (rw other at e))
]

find_op-append_none :
    (o : Op) (ops others : List (Op × ℕ))
    → find_op o ops ≡ none
    → find_op o (ops ++ others) ≡ find_op o others
unfolding find_op
find_op-append_none o [] others e = refl
find_op-append_none o ((p, s) ∷ ops) others e = elim (Bool-cases (Op.equal p o)) [
  | inl same ↦ cc (rw same at e)
  | inr other ↦ rw other (find_op-append_none o ops others (rw other at e))
]

pub find_op-put_op :
    (o : Op) (s b : ℕ) (ops : List (Op × ℕ))
    → find_op o ops ≡ some b
    → find_op o (put_op o s ops) ≡ some s
unfolding find_op put_op
find_op-put_op o s b [] e = cc
find_op-put_op o s b ((p, t) ∷ ops) e = elim (Bool-cases (Op.equal p o)) [
  | inl same ↦ rw same (rw same)
  | inr other ↦ rw other (rw other (find_op-put_op o s b ops (rw other at e)))
]

pub find_op-put_op_other :
    (o o' : Op) (s : ℕ) (ops : List (Op × ℕ))
    → Op.equal o o' ≡ false
    → find_op o' (put_op o s ops) ≡ find_op o' ops
unfolding find_op put_op
find_op-put_op_other o o' s [] e = refl
find_op-put_op_other o o' s ((p, t) ∷ ops) e = elim (Bool-cases (Op.equal p o)) [
  | inl same ↦
      let differs : Op.equal p o' ≡ false = rw (equal→eq p o same) e in rw same (rw differs)
  | inr other ↦
      rw other
        (ap (λ found. if Op.equal p o' then some t else found) (find_op-put_op_other o o' s ops e))
]

same_key : (a : ℕ) → (a == a) ≡ true
same_key a = ground arith

other_key : (a b : ℕ) → a ≢ b → (a == b) ≡ false
other_key a b h = ground arith

-- AddOp of a new operation: the child is fresh, the node has the operation as its last one, and no
-- other node changed.
pub record IsAdded (t : ℕ) (o : Op) (result : Bytes) (s s' : Heap) : Type 0 where
  pub one_more : s'.next ≡ suc s.next
  pub child : s'.node s.next ≡ fresh result
  pub parent : s'.node t ≡ record (s.node t) { ops = (s.node t).ops ++ ((o, s.next) ∷ []) }
  pub others : (a : ℕ) → a ≢ t → a ≢ s.next → s'.node a ≡ s.node a

abbrev added : ℕ → Op → Bytes → Heap → Heap
added t o result s =
    let n : Node = update s.node s.next (fresh result) t in
    record {
      next = suc s.next;
      node =
          update (update s.node s.next (fresh result)) t
            (record n { ops = n.ops ++ ((o, s.next) ∷ []) });
    }

add_op-added :
    (h : Hashes) (t : ℕ) (o : Op) (result : Bytes) (s : Heap)
    → find_op o (s.node t).ops ≡ none
    → Op.apply h o (s.node t).msg ≡ ok result
    → add_op h t o s ≡ (added t o result s, ok s.next)
unfolding add_op child_or_new append_op
add_op-added h t o result s no_op image =
    let fits : length result ≤ max_msg_length =
      (apply→Links h o (s.node t).msg result image).result_fits in
    rw (image, le→ltb-false max_msg_length (length result) fits)
      (ap (λ found. child_or_new t o result found s) no_op)

added-IsAdded :
    (t : ℕ) (o : Op) (result : Bytes) (s : Heap)
    → t < s.next
    → IsAdded t o result s (added t o result s)
added-IsAdded t o result s allocated =
    let below : s.next ≢ t = λ e. absurd (omega (arith, allocated, e)) in
    record {
      one_more = refl;
      child = rw (other_key s.next t below, same_key s.next);
      parent = rw (same_key t, other_key t s.next (λ e. below (sym e)));
      others = λ a not_t not_next. rw (other_key a t not_t, other_key a s.next not_next);
    }

pub add_op-IsAdded :
    (h : Hashes) (t : ℕ) (o : Op) (result : Bytes) (s : Heap)
    → t < s.next
    → find_op o (s.node t).ops ≡ none
    → Op.apply h o (s.node t).msg ≡ ok result
    → (s' : Heap) × (add_op h t o s ≡ (s', ok s.next)) × IsAdded t o result s s'
add_op-IsAdded h t o result s allocated no_op image = (
  added t o result s,
  add_op-added h t o result s no_op image,
  added-IsAdded t o result s allocated,
)

module _ {t : ℕ} {o : Op} {result : Bytes} {s s' : Heap} (allocated : t < s.next)
    (x : IsAdded t o result s s') where
  -- A node that was there: the same, or the parent.
  older : (a : ℕ) → a < s.next → (a ≡ t) ⊎ (s'.node a ≡ s.node a)
  older a below = elim (Bool-cases (a == t)) [
    | inl same ↦ inl (ground arith)
    | inr other ↦ inr (x.others a (ground arith) (ground arith))
  ]

  pub IsAdded-Extends : Extends s s'
  IsAdded-Extends = record {
    longer = omega (arith, x.one_more);
    same_msg = λ a below. elim (older a below) [
      | inl same ↦ rw same (ap (λ (n : Node). n.msg) x.parent)
      | inr kept ↦ ap (λ (n : Node). n.msg) kept
    ];
    same_atts = λ a below. elim (older a below) [
      | inl same ↦ rw same (ap (λ (n : Node). n.attestations) x.parent)
      | inr kept ↦ ap (λ (n : Node). n.attestations) kept
    ];
    keeps = λ a p b below e. elim (older a below) [
      | inl same ↦ rw same (
          ap (λ (n : Node). find_op p n.ops) x.parent
          ∙ find_op-append p (s.node t).ops _ b (rw same at e))
      | inr kept ↦ ap (λ (n : Node). find_op p n.ops) kept ∙ e
    ];
  }

  pub IsAdded-leads : find_op o (s.node t).ops ≡ none → find_op o (s'.node t).ops ≡ some s.next
  unfolding find_op
  IsAdded-leads no_op =
      ap (λ (n : Node). find_op o n.ops) x.parent
      ∙ find_op-append_none o (s.node t).ops ((o, s.next) ∷ []) no_op
      ∙ rw (equal_self o)

  pub IsAdded-Edge :
      (h : Hashes)
      → find_op o (s.node t).ops ≡ none
      → Op.apply h o (s.node t).msg ≡ ok result
      → Edge h s' t o s.next
  IsAdded-Edge h no_op image = record {
    from = omega (arith, x.one_more, allocated);
    to = omega (arith, x.one_more);
    leads = IsAdded-leads no_op;
    applies =
        ap (λ (n : Node). Op.apply h o n.msg) x.parent
        ∙ image
        ∙ ap (λ (n : Node). ok n.msg) (sym x.child);
  }

  -- An operation that is still missing stays missing, but for the new one.
  pub IsAdded-none :
      (a : ℕ) (p : Op)
      → a < s.next
      → Op.equal o p ≡ false
      → find_op p (s.node a).ops ≡ none
      → find_op p (s'.node a).ops ≡ none
  unfolding find_op
  IsAdded-none a p below differs e = elim (older a below) [
    | inl same ↦ rw same (
        ap (λ (n : Node). find_op p n.ops) x.parent
        ∙ find_op-append_none p (s.node t).ops ((o, s.next) ∷ []) (rw same at e)
        ∙ rw differs)
    | inr kept ↦ ap (λ (n : Node). find_op p n.ops) kept ∙ e
  ]
