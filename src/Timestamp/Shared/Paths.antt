-- ===== src/Timestamp/Shared/Paths.antt =====
-- Paths in a heap of shared nodes (internal/core/timestamp/timestamp.go), and how a heap grows
-- without losing one.
use ots.Prelude.{ℕ, ◌≤◌, ◌<◌, ◌≡◌, sym, ap, ◌∙◌, arith, some}
use ots.Result.{ok}
use ots.Op
use ots.Op.{Op, Hashes}
use ots.Timestamp.Shared.{Node, Heap, find_op}

-- The operation `o` leads from node `a` to node `b`, and its result is the message of `b`.
pub record Edge (h : Hashes) (s : Heap) (a : ℕ) (o : Op) (b : ℕ) : Type 0 where
  pub from : a < s.next
  pub to : b < s.next
  pub leads : find_op o (s.node a).ops ≡ some b
  pub applies : Op.apply h o (s.node a).msg ≡ ok (s.node b).msg

-- A chain of operations leads from one node to another.
pub data Reaches (h : Hashes) (s : Heap) : ℕ → ℕ → Type 0 where
  here : {a : ℕ} → Reaches h s a a
  via : {a b c : ℕ} → (o : Op) → Edge h s a o b → Reaches h s b c → Reaches h s a c

pub Reaches-trans :
    {h : Hashes} {s : Heap} {a b c : ℕ} → Reaches h s a b → Reaches h s b c → Reaches h s a c
Reaches-trans here q = q
Reaches-trans (via o e p) q = via o e (Reaches-trans p q)

-- A later heap has the messages, the attestations and the operations of the earlier one.
pub record Extends (s s' : Heap) : Type 0 where
  pub longer : s.next ≤ s'.next
  pub same_msg : (a : ℕ) → a < s.next → (s'.node a).msg ≡ (s.node a).msg
  pub same_atts : (a : ℕ) → a < s.next → (s'.node a).attestations ≡ (s.node a).attestations
  pub keeps :
      (a : ℕ) (o : Op) (b : ℕ)
      → a < s.next
      → find_op o (s.node a).ops ≡ some b
      → find_op o (s'.node a).ops ≡ some b

pub Extends-refl : (s : Heap) → Extends s s
Extends-refl s = record {
  longer = omega arith;
  same_msg = λ a below. ap (λ (n : Node). n.msg) (λ i. s.node a);
  same_atts = λ a below. λ i. (s.node a).attestations;
  keeps = λ a o b below e. e;
}

pub Extends-trans : {s s' s'' : Heap} → Extends s s' → Extends s' s'' → Extends s s''
Extends-trans x y = record {
  longer = omega (arith, x.longer, y.longer);
  same_msg = λ a below. y.same_msg a (omega (arith, x.longer, below)) ∙ x.same_msg a below;
  same_atts = λ a below. y.same_atts a (omega (arith, x.longer, below)) ∙ x.same_atts a below;
  keeps = λ a o b below e. y.keeps a o b (omega (arith, x.longer, below)) (x.keeps a o b below e);
}

pub Edge-Extends :
    {h : Hashes} {s s' : Heap} {a b : ℕ} {o : Op} → Extends s s' → Edge h s a o b → Edge h s' a o b
Edge-Extends {h = h} {a = a} {b = b} {o = o} x e = record {
  from = omega (arith, e.from, x.longer);
  to = omega (arith, e.to, x.longer);
  leads = x.keeps a o b e.from e.leads;
  applies = ap (Op.apply h o) (x.same_msg a e.from) ∙ e.applies ∙ ap ok (sym (x.same_msg b e.to));
}

pub Reaches-Extends :
    {h : Hashes} {s s' : Heap} {a b : ℕ} → Extends s s' → Reaches h s a b → Reaches h s' a b
Reaches-Extends x here = here
Reaches-Extends x (via o e p) = via o (Edge-Extends x e) (Reaches-Extends x p)
