-- ===== src/Timestamp/Shared/Redirected.antt =====
-- What SetOpResult (internal/core/timestamp/timestamp.go) does to the heap: one operation leads to
-- another node of the same message.
use ots.Prelude.{
  ℕ, ◌<◌, ◌≡◌, ◌≢◌, refl, sym, ap, ◌∙◌, arith, true, false, none, some, ◌==◌, Bool-cases, inl, inr,
  ◌⊎◌, bytes_equal, bytes_equal_self,
}
use ots.Result.{ok}
use ots.Op
use ots.Op.{Op, Hashes}
use ots.Op.Order.{equal→eq}
use ots.Timestamp.Shared.{Node, Heap, put_node, find_op, put_op, set_found, set_op_result}
use ots.Timestamp.Shared.Paths.{Edge, Extends}
use ots.Timestamp.Shared.Grown.{find_op-put_op, find_op-put_op_other}

pub record IsRedirected (t : ℕ) (o : Op) (child : ℕ) (s s' : Heap) : Type 0 where
  pub as_many : s'.next ≡ s.next
  pub parent : s'.node t ≡ record (s.node t) { ops = put_op o child (s.node t).ops }
  pub others : (a : ℕ) → a ≢ t → s'.node a ≡ s.node a

abbrev redirected : ℕ → Op → ℕ → Heap → Heap
redirected t o child s = put_node t (record (s.node t) { ops = put_op o child (s.node t).ops }) s

pub set_op_result-IsRedirected :
    (t : ℕ) (o : Op) (old child : ℕ) (s : Heap)
    → find_op o (s.node t).ops ≡ some old
    → (s.node old).msg ≡ (s.node child).msg
    → (s' : Heap) × (set_op_result t o child s ≡ (s', ok tt)) × IsRedirected t o child s s'
unfolding set_op_result
set_op_result-IsRedirected t o old child s there same =
    let equal_msgs : bytes_equal (s.node old).msg (s.node child).msg ≡ true =
      rw same (bytes_equal_self (s.node child).msg) in
    (
      redirected t o child s,
      rw there (unfold set_found in rw equal_msgs refl),
      record {
        as_many = refl;
        parent = let e : (t == t) ≡ true = ground arith in rw e;
        others = λ a not_t. let e : (a == t) ≡ false = ground (arith, not_t) in rw e;
      },
    )

module _ {t : ℕ} {o : Op} {child : ℕ} {s s' : Heap} (x : IsRedirected t o child s s') where
  either : (a : ℕ) → (a ≡ t) ⊎ (s'.node a ≡ s.node a)
  either a = elim (Bool-cases (a == t)) [
    | inl same ↦ inl (ground arith)
    | inr other ↦ inr (x.others a (ground arith))
  ]

  pub IsRedirected-msg : (a : ℕ) → (s'.node a).msg ≡ (s.node a).msg
  IsRedirected-msg a = elim (either a) [
    | inl same ↦ rw same (ap (λ (n : Node). n.msg) x.parent)
    | inr kept ↦ ap (λ (n : Node). n.msg) kept
  ]

  IsRedirected-atts : (a : ℕ) → (s'.node a).attestations ≡ (s.node a).attestations
  IsRedirected-atts a = elim (either a) [
    | inl same ↦ rw same (ap (λ (n : Node). n.attestations) x.parent)
    | inr kept ↦ ap (λ (n : Node). n.attestations) kept
  ]

  IsRedirected-leads_other :
      (a : ℕ) (p : Op) (b : ℕ)
      → Op.equal o p ≡ false
      → find_op p (s.node a).ops ≡ some b
      → find_op p (s'.node a).ops ≡ some b
  IsRedirected-leads_other a p b differs e = elim (either a) [
    | inl same ↦ rw same (
        ap (λ (n : Node). find_op p n.ops) x.parent
        ∙ find_op-put_op_other o p child (s.node t).ops differs
        ∙ rw same at e)
    | inr kept ↦ ap (λ (n : Node). find_op p n.ops) kept ∙ e
  ]

  -- An edge by another operation stays.
  pub IsRedirected-Edge_other :
      {h : Hashes} {a b : ℕ} (p : Op) → Op.equal o p ≡ false → Edge h s a p b → Edge h s' a p b
  IsRedirected-Edge_other {h} {a} {b} p differs e = record {
    from = omega (arith, e.from, x.as_many);
    to = omega (arith, e.to, x.as_many);
    leads = IsRedirected-leads_other a p b differs e.leads;
    applies = ap (Op.apply h p) (IsRedirected-msg a) ∙ e.applies ∙ ap ok (sym (IsRedirected-msg b));
  }

  -- The new edge.
  pub IsRedirected-Edge :
      (h : Hashes) (old : ℕ)
      → Edge h s t o old
      → child < s.next
      → (s.node old).msg ≡ (s.node child).msg
      → Edge h s' t o child
  IsRedirected-Edge h old e allocated same = record {
    from = omega (arith, e.from, x.as_many);
    to = omega (arith, allocated, x.as_many);
    leads =
        ap (λ (n : Node). find_op o n.ops) x.parent
        ∙ find_op-put_op o child old (s.node t).ops e.leads;
    applies =
        ap (Op.apply h o) (IsRedirected-msg t)
        ∙ e.applies
        ∙ ap ok (same ∙ sym (IsRedirected-msg child));
  }

  -- Against a heap in which the operation was not there yet, nothing is lost.
  pub IsRedirected-Extends :
      (s₀ : Heap) → Extends s₀ s → find_op o (s₀.node t).ops ≡ none → Extends s₀ s'
  IsRedirected-Extends s₀ y no_op = record {
    longer = omega (arith, y.longer, x.as_many);
    same_msg = λ a below. IsRedirected-msg a ∙ y.same_msg a below;
    same_atts = λ a below. IsRedirected-atts a ∙ y.same_atts a below;
    keeps = λ a p b below e. elim (Bool-cases (Op.equal o p)) [
      | inr differs ↦ IsRedirected-leads_other a p b differs (y.keeps a p b below e)
      | inl same ↦ elim (either a) [
        | inl at_t ↦
            let there : find_op o (s₀.node t).ops ≡ some b =
              rw (equal→eq o p same) (rw at_t at e) in
            absurd (cc (there, no_op))
        | inr kept ↦ ap (λ (n : Node). find_op p n.ops) kept ∙ y.keeps a p b below e
      ]
    ];
  }
