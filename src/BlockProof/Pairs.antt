-- ===== src/BlockProof/Pairs.antt =====
-- The inner loop of MakeTimestampFromBlock (internal/bitcoin/blockproof.go).
use ots.Prelude.{
  ℕ, ◌*◌, ◌≤◌, ◌<◌, ◌≡◌, ◌≢◌, refl, sym, ap, ◌∙◌, arith, none, List, [], ◌∷◌, ◌++◌, Bytes, length,
  All, inl, inr,
}
use ots.Result.{ok}
use ots.Op
use ots.Op.{Hashes, HashLaws, sha256}
use ots.Op.Apply.{apply_hash}
use ots.Timestamp.Shared.{Heap, Node, find_op, cat_sha256d, go_on, pure}
use ots.Timestamp.Shared.Paths.{
  Reaches, here, via, Reaches-trans, Reaches-Extends, Extends, Extends-refl, Extends-trans,
}
use ots.Timestamp.Shared.Grown.{add_op-IsAdded, IsAdded-Extends, IsAdded-Edge}
use ots.Timestamp.Shared.Joined.{IsJoined}
use ots.Timestamp.Shared.Level.{
  IsReady, IsDistinct, ReachesOne, All-map, join_ready, IsJoined-ready, IsJoined-new_ready,
}
use ots.BlockProof.{join_pairs}
use ots.BlockProof.Satoshi.{double_sha256, above, msgs_of, ArePairs}

-- The other heap has the messages of the nodes that were there.
pub msgs_of-Extends :
    (s s' : Heap) (ts : List ℕ) → Extends s s' → All (IsReady s) ts → msgs_of s' ts ≡ msgs_of s ts
msgs_of-Extends s s' [] x v = refl
msgs_of-Extends s s' (t ∷ ts) x v =
    rw (x.same_msg t v.0.allocated) (ap (λ ms. (s.node t).msg ∷ ms) (msgs_of-Extends s s' ts x v.1))

-- CatSHA256d of two ready nodes, which may be the same one.
pub join_ready_twice :
    (h : Hashes) (l r : ℕ) (s : Heap)
    → HashLaws h
    → IsReady s l
    → IsReady s r
    → (s' : Heap) × (p : ℕ) × (cat_sha256d h l r s ≡ (s', ok p))
      × IsJoined h l r (double_sha256 h ((s.node l).msg ++ (s.node r).msg)) s s' p
unfolding cat_sha256d find_op
join_ready_twice h l r s laws v w =
    let once : Bytes = h.sha256 ((s.node l).msg ++ (s.node r).msg) in
    let twice : Bytes = h.sha256 once in
    let (s₁, q, run, j) = join_ready h l r s laws v w in
    let size : length once ≡ 32 = laws.length_sha256 ((s.node l).msg ++ (s.node r).msg) in
    let free : find_op sha256 (s₁.node q).ops ≡ none =
      ap (λ (n : Node). find_op sha256 n.ops) j.node_lem in
    let image : Op.apply h sha256 (s₁.node q).msg ≡ ok twice =
      ap (λ (n : Node). Op.apply h sha256 n.msg) j.node_lem
      ∙ (apply_hash h Op.ripemd160 once laws (omega (arith, size))).0 in
    let (s₂, run', x) = add_op-IsAdded h q sha256 twice s₁ j.allocated free image in
    let grown : Extends s₁ s₂ = IsAdded-Extends j.allocated x in
    let last : Reaches h s₂ q s₁.next = via sha256 (IsAdded-Edge j.allocated x h free image) here in
    (
      s₂,
      s₁.next,
      rw run run',
      record {
        extends = Extends-trans j.extends grown;
        others = λ a below not_l not_r.
            x.others a (λ e. absurd (omega (arith, below, j.is_new, e)))
              (λ e. absurd (omega (arith, below, j.is_new, j.allocated, e)))
            ∙ j.others a below not_l not_r;
        is_new = omega (arith, j.is_new, j.allocated);
        allocated = omega (arith, x.one_more);
        node_lem = x.child;
        from_left = Reaches-trans (Reaches-Extends grown j.from_left) last;
        from_right = Reaches-trans (Reaches-Extends grown j.from_right) last;
      },
    )

-- The level above the pairs, in the heap that the loop leaves.
pub record ArePaired (h : Hashes) (level : List ℕ) (s s' : Heap) (next : List ℕ) : Type 0 where
  pub extends : Extends s s'
  pub others : (a : ℕ) → a < s.next → All (λ t. a ≢ t) level → s'.node a ≡ s.node a
  pub ready : All (IsReady s') next
  pub distinct : IsDistinct next
  pub is_new : All (λ t. s.next ≤ t) next
  pub reached : All (ReachesOne h s' next) level
  pub msgs : msgs_of s' next ≡ above h (msgs_of s level)
  pub half : 2 * length next ≡ length level

-- A ready node that is the same in a longer heap.
ready-same :
    (s s' : Heap) (t : ℕ) → IsReady s t → Extends s s' → s'.node t ≡ s.node t → IsReady s' t
ready-same s s' t v x same = record {
  allocated = omega (arith, v.allocated, x.longer);
  no_op = ap (λ (n : Node). n.ops) same ∙ v.no_op;
  some_bytes = omega (arith, v.some_bytes, ap (λ (n : Node). length n.msg) same);
  fits = omega (arith, v.fits, ap (λ (n : Node). length n.msg) same);
}

-- One pair before the others.
pair-ArePaired :
    (h : Hashes) (l r p : ℕ) (level next : List ℕ) (s s₁ s' : Heap)
    → HashLaws h
    → All (IsReady s) level
    → IsJoined h l r (double_sha256 h ((s.node l).msg ++ (s.node r).msg)) s s₁ p
    → ArePaired h level s₁ s' next
    → ArePaired h (l ∷ r ∷ level) s s' (p ∷ next)
pair-ArePaired h l r p level next s s₁ s' laws v j w =
    let new_ready : IsReady s₁ p =
      IsJoined-new_ready j (laws.length_sha256 (h.sha256 ((s.node l).msg ++ (s.node r).msg))) in
    let apart : All (λ t. p ≢ t) level =
      All-map (IsReady s) (λ t. p ≢ t) level
        (λ t x e. absurd (omega (arith, x.allocated, j.is_new, e))) v in
    let same : s'.node p ≡ s₁.node p = w.others p j.allocated apart in
    let ready : IsReady s' p = ready-same s₁ s' p new_ready w.extends same in
    record {
      extends = Extends-trans j.extends w.extends;
      others = λ a below not.
          w.others a (omega (arith, below, j.extends.longer)) not.1.1
          ∙ j.others a below not.0 not.1.0;
      ready = (ready, w.ready);
      distinct = (
        All-map (λ t. s₁.next ≤ t) (λ t. p ≢ t) next
            (λ t new e. absurd (omega (arith, new, j.allocated, e))) w.is_new,
        w.distinct,
      );
      is_new = (
        j.is_new,
        All-map (λ t. s₁.next ≤ t) (λ t. s.next ≤ t) next
            (λ t new. omega (arith, new, j.extends.longer)) w.is_new,
      );
      reached = (
        inl (Reaches-Extends w.extends j.from_left),
        (
          inl (Reaches-Extends w.extends j.from_right),
          All-map (ReachesOne h s' next) (ReachesOne h s' (p ∷ next)) level (λ t x. inr x)
              w.reached,
        ),
      );
      msgs =
          ap (λ m. m ∷ msgs_of s' next) (ap (λ (n : Node). n.msg) (same ∙ j.node_lem))
          ∙ ap (λ ms. double_sha256 h ((s.node l).msg ++ (s.node r).msg) ∷ ms)
              (w.msgs ∙ ap (above h) (msgs_of-Extends s s₁ level j.extends v));
      half = omega (arith, w.half);
    }

join_pairs-pair :
    (h : Hashes) (l r p : ℕ) (level next : List ℕ) (s s₁ s' : Heap)
    → cat_sha256d h l r s ≡ (s₁, ok p)
    → join_pairs h level s₁ ≡ (s', ok next)
    → join_pairs h (l ∷ r ∷ level) s ≡ (s', ok (p ∷ next))
unfolding join_pairs
join_pairs-pair h l r p level next s s₁ s' run run' =
    rw run (ap (go_on (λ above. pure (ok (p ∷ above)))) run')

pub join_pairs-ArePaired :
    (h : Hashes) (level : List ℕ) (s : Heap)
    → HashLaws h
    → All (IsReady s) level
    → ArePairs level
    → (s' : Heap) × (next : List ℕ) × (join_pairs h level s ≡ (s', ok next))
      × ArePaired h level s s' next
unfolding join_pairs
join_pairs-ArePaired h [] s laws v w = (
  s,
  [],
  refl,
  record {
    extends = Extends-refl s;
    others = λ a below not. ap (λ x. x) refl;
    ready = tt;
    distinct = tt;
    is_new = tt;
    reached = tt;
    msgs = refl;
    half = omega arith;
  },
)
join_pairs-ArePaired h (l ∷ []) s laws v w = absurd w
join_pairs-ArePaired h (l ∷ r ∷ level) s laws v w =
    let (s₁, p, run, j) = join_ready_twice h l r s laws v.0 v.1.0 in
    let kept : All (IsReady s₁) level = still level v.1.1 w.0 w.1.0 j in
    let (s', next, run', x) = join_pairs-ArePaired h level s₁ laws kept w.1.1 in
    (
      s',
      p ∷ next,
      join_pairs-pair h l r p level next s s₁ s' run run',
      pair-ArePaired h l r p level next s s₁ s' laws v.1.1 j x,
    )
  where
    still :
        {p : ℕ} {result : Bytes} {s₁ : Heap} (ts : List ℕ)
        → All (IsReady s) ts
        → All (λ t. l ≢ t) ts
        → All (λ t. r ≢ t) ts
        → IsJoined h l r result s s₁ p
        → All (IsReady s₁) ts
    still [] v not_l not_r j = tt
    still (t ∷ ts) v not_l not_r j = (
      IsJoined-ready j t (λ e. not_l.0 (sym e)) (λ e. not_r.0 (sym e)) v.0,
      still ts v.1 not_l.1 not_r.1 j,
    )
