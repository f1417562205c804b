-- ===== src/Timestamp/Shared/Joined.antt =====
-- CatThenUnaryOp and CatSHA256d (internal/core/timestamp/timestamp.go): both nodes lead to the new
-- one, and nothing that was there is lost.
use ots.Prelude.{
  ℕ, suc, ◌+◌, ◌≤◌, ◌<◌, ◌≡◌, ◌≢◌, refl, sym, ap, ◌∙◌, arith, true, false, ◌++◌, none, some, Bytes,
  length, length-append, bytes_equal_self,
}
use ots.Result.{ok}
use ots.Op
use ots.Op.{Op, Hashes, append, prepend, max_result_length, new_append, new_prepend}
use ots.Op.Apply.{Links→apply, new_append_fits, new_prepend_fits}
use ots.Timestamp.{all_in}
use ots.Timestamp.Shared.{Node, Heap, fresh, find_op, add_op, equal, equal_ops, cat_then_unary_op}
use ots.Timestamp.Shared.Paths.{Edge, Reaches, here, via, Extends, Extends-trans, Edge-Extends}
use ots.Timestamp.Shared.Grown.{
  IsAdded, add_op-IsAdded, IsAdded-Extends, IsAdded-Edge, IsAdded-none,
}
use ots.Timestamp.Shared.Redirected.{
  set_op_result-IsRedirected, IsRedirected-Edge, IsRedirected-Edge_other, IsRedirected-Extends,
}

-- `p` is a new node with nothing but its message, both `l` and `r` lead to it, and no other node of
-- before changed.
pub record IsJoined (h : Hashes) (l r : ℕ) (result : Bytes) (s s' : Heap) (p : ℕ) : Type 0 where
  pub extends : Extends s s'
  pub others : (a : ℕ) → a < s.next → a ≢ l → a ≢ r → s'.node a ≡ s.node a
  pub is_new : s.next ≤ p
  pub allocated : p < s'.next
  pub node_lem : s'.node p ≡ fresh result
  pub from_left : Reaches h s' l p
  pub from_right : Reaches h s' r p

equal-fresh :
    (fuel : ℕ) (s : Heap) (a b : ℕ) (msg : Bytes)
    → s.node a ≡ fresh msg
    → s.node b ≡ fresh msg
    → equal (suc fuel) s a b ≡ ok true
unfolding equal equal_ops all_in
equal-fresh fuel s a b msg at_a at_b = rw (at_a, at_b) (rw (bytes_equal_self msg))

-- What CatThenUnaryOp needs: two nodes, which may be the same one, that do not lead to the other's
-- message yet, and messages within the limits.
pub record CanJoin (h : Hashes) (unary : Op) (l r : ℕ) (result : Bytes) (s : Heap) : Type 0 where
  pub l_allocated : l < s.next
  pub r_allocated : r < s.next
  pub l_free : find_op (append (s.node r).msg) (s.node l).ops ≡ none
  pub r_free : find_op (prepend (s.node l).msg) (s.node r).ops ≡ none
  pub l_some : 1 ≤ length (s.node l).msg
  pub r_some : 1 ≤ length (s.node r).msg
  pub fits : length (s.node l).msg + length (s.node r).msg ≤ max_result_length
  pub gives : Op.apply h unary ((s.node l).msg ++ (s.node r).msg) ≡ ok result

module _ (h : Hashes) (unary : Op) (l r : ℕ) (result : Bytes) (s : Heap)
    (c : CanJoin h unary l r result s) where
  abbrev both : Bytes
  both = (s.node l).msg ++ (s.node r).msg

  abbrev to_right : Op
  to_right = append (s.node r).msg

  abbrev to_left : Op
  to_left = prepend (s.node l).msg

  differs : Op.equal to_right to_left ≡ false
  unfolding Op.equal
  differs = refl

  append_image : Op.apply h to_right (s.node l).msg ≡ ok both
  append_image =
      let long : length both ≡ length (s.node l).msg + length (s.node r).msg =
        length-append (s.node l).msg (s.node r).msg in
      Links→apply h to_right (s.node l).msg both (record {
        msg_fits = omega (arith, c.fits);
        image = refl;
        not_empty = omega (arith, c.l_some, long);
        result_fits = omega (arith, c.fits, long);
      })

  prepend_image : Op.apply h to_left (s.node r).msg ≡ ok both
  prepend_image =
      let long : length both ≡ length (s.node l).msg + length (s.node r).msg =
        length-append (s.node l).msg (s.node r).msg in
      Links→apply h to_left (s.node r).msg both (record {
        msg_fits = omega (arith, c.fits);
        image = refl;
        not_empty = omega (arith, c.l_some, long);
        result_fits = omega (arith, c.fits, long);
      })

  -- The two nodes that AddOp makes, one below each side.
  record BothAdded (s₁ s₂ : Heap) : Type 0 where
    first : IsAdded l to_right both s s₁
    second : IsAdded r to_left both s₁ s₂
    added_left : add_op h l to_right s ≡ (s₁, ok s.next)
    added_right : add_op h r to_left s₁ ≡ (s₂, ok s₁.next)
    left_edge : Edge h s₂ l to_right s.next
    right_edge : Edge h s₂ r to_left s₁.next
    left_node : s₂.node s.next ≡ fresh both
    right_node : s₂.node s₁.next ≡ fresh both
    grown : Extends s s₂

  both_added : (s₁ : Heap) × (s₂ : Heap) × BothAdded s₁ s₂
  both_added =
      let (s₁, e₁, x₁) = add_op-IsAdded h l to_right both s c.l_allocated c.l_free append_image in
      let y₁ : Extends s s₁ = IsAdded-Extends c.l_allocated x₁ in
      let r_there : r < s₁.next = omega (arith, c.r_allocated, x₁.one_more) in
      let r_free : find_op to_left (s₁.node r).ops ≡ none =
        IsAdded-none c.l_allocated x₁ r to_left c.r_allocated differs c.r_free in
      let image : Op.apply h to_left (s₁.node r).msg ≡ ok both =
        ap (Op.apply h to_left) (y₁.same_msg r c.r_allocated) ∙ prepend_image in
      let (s₂, e₂, x₂) = add_op-IsAdded h r to_left both s₁ r_there r_free image in
      let y₂ : Extends s₁ s₂ = IsAdded-Extends r_there x₂ in
      (
        s₁,
        s₂,
        record {
          first = x₁;
          second = x₂;
          added_left = e₁;
          added_right = e₂;
          left_edge = Edge-Extends y₂ (IsAdded-Edge c.l_allocated x₁ h c.l_free append_image);
          right_edge = IsAdded-Edge r_there x₂ h r_free image;
          left_node =
              x₂.others s.next (λ e. absurd (omega (arith, c.r_allocated, e)))
                (λ e. absurd (omega (arith, x₁.one_more, e)))
              ∙ x₁.child;
          right_node = x₂.child;
          grown = Extends-trans y₁ y₂;
        },
      )

  -- Where the two messages agree with their limits, CatThenUnaryOp joins the nodes.
  pub cat_then_unary_op-IsJoined :
      (s' : Heap) × (p : ℕ) × (cat_then_unary_op h unary (some l) (some r) s ≡ (s', ok p))
      × IsJoined h l r result s s' p
  unfolding cat_then_unary_op
  cat_then_unary_op-IsJoined =
      let (s₁, s₂, b) = both_added in
      let n : ℕ = s₁.next in
      let same : (s₂.node s.next).msg ≡ (s₂.node n).msg =
        ap (λ (m : Node). m.msg) (b.left_node ∙ sym b.right_node) in
      let (s₃, e₃, x₃) = set_op_result-IsRedirected l to_right s.next n s₂ b.left_edge.leads same in
      let not_l : n ≢ l = λ e. absurd (omega (arith, b.first.one_more, c.l_allocated, e)) in
      let not_r : n ≢ r = λ e. absurd (omega (arith, b.first.one_more, c.r_allocated, e)) in
      let bare : s₃.node n ≡ fresh both = x₃.others n not_l ∙ b.right_node in
      let n_there : n < s₃.next = omega (arith, x₃.as_many, b.second.one_more) in
      let free : find_op unary (s₃.node n).ops ≡ none =
        unfold find_op in ap (λ (m : Node). find_op unary m.ops) bare in
      let image : Op.apply h unary (s₃.node n).msg ≡ ok result =
        ap (λ (m : Node). Op.apply h unary m.msg) bare ∙ c.gives in
      let (s₄, e₄, x₄) = add_op-IsAdded h n unary result s₃ n_there free image in
      let y₄ : Extends s₃ s₄ = IsAdded-Extends n_there x₄ in
      let append_made : new_append (s.node r).msg ≡ ok to_right =
        new_append_fits (s.node r).msg c.r_some (omega (arith, c.fits)) in
      let prepend_made : new_prepend (s.node l).msg ≡ ok to_left =
        new_prepend_fits (s.node l).msg c.l_some (omega (arith, c.fits)) in
      let same_nodes : equal s₂.next s₂ s.next n ≡ ok true =
        ap (λ fuel. equal fuel s₂ s.next n) b.second.one_more
        ∙ equal-fresh n s₂ s.next n both b.left_node b.right_node in
      let last : Edge h s₄ n unary s₃.next = IsAdded-Edge n_there x₄ h free image in
      (
        s₄,
        s₃.next,
        rw append_made
            (rw b.added_left (rw prepend_made (rw b.added_right (rw same_nodes (rw e₃ e₄))))),
        record {
          extends = Extends-trans (IsRedirected-Extends x₃ s b.grown c.l_free) y₄;
          others = λ a below not_left not_right.
              x₄.others a (λ e. absurd (omega (arith, b.first.one_more, below, e)))
                (λ e.
                  absurd (omega (arith, b.first.one_more, b.second.one_more, x₃.as_many, below, e)))
              ∙ x₃.others a not_left
              ∙ b.second.others a not_right
                  (λ e. absurd (omega (arith, b.first.one_more, below, e)))
              ∙ b.first.others a not_left (λ e. absurd (omega (arith, below, e)));
          is_new = omega (arith, b.first.one_more, b.second.one_more, x₃.as_many);
          allocated = omega (arith, x₄.one_more);
          node_lem = x₄.child;
          from_left =
              via to_right
                (Edge-Extends y₄ (
                  IsRedirected-Edge x₃ h s.next b.left_edge (omega (arith, b.second.one_more))
                    same))
                (via unary last here);
          from_right =
              via to_left
                (Edge-Extends y₄ (IsRedirected-Edge_other x₃ to_left differs b.right_edge))
                (via unary last here);
        },
      )
