-- ===== src/BlockProof/FirstLevel.antt =====
-- The lowest level of MakeTimestampFromBlock (internal/bitcoin/blockproof.go).
use ots.Prelude.{
  ℕ, zero, suc, ◌+◌, ◌≤◌, ◌<◌, ◌≡◌, ◌≢◌, refl, sym, ap, ◌∙◌, arith, true, false, ◌==◌, le→ltb-false,
  some, List, [], ◌∷◌, Bytes, length, All, ◌⊎◌, inl, inr,
}
use ots.Prelude.Int.{pos}
use ots.Result.{ok}
use ots.Op.{Hashes, max_msg_length}
use ots.Timestamp.Shared.{Heap, Node, update, fresh, find_op, new, go_on, pure}
use ots.Timestamp.Shared.Paths.{here, Extends, Extends-refl, Extends-trans}
use ots.Timestamp.Shared.Level.{IsReady, IsDistinct, ReachesOne, All-map}
use ots.BlockProof.{first_level, txid_at}
use ots.BlockProof.Satoshi.{msgs_of}

-- The level for these hashes; `P` tells where its nodes are.
pub record IsFirstLevel (P : ℕ → Type 0) (txids : List Bytes) (s s' : Heap) (level : List ℕ)
    : Type 0 where
  pub extends : Extends s s'
  pub others : (a : ℕ) → a < s.next → s'.node a ≡ s.node a
  pub ready : All (IsReady s') level
  pub distinct : IsDistinct level
  pub msgs : msgs_of s' level ≡ txids
  pub places : All P level
  pub as_many : length level ≡ length txids

pub ready-others :
    (s s' : Heap) (t : ℕ) → IsReady s t → Extends s s' → s'.node t ≡ s.node t → IsReady s' t
ready-others s s' t v x same = record {
  allocated = omega (arith, v.allocated, x.longer);
  no_op = ap (λ (n : Node). n.ops) same ∙ v.no_op;
  some_bytes = omega (arith, v.some_bytes, ap (λ (n : Node). length n.msg) same);
  fits = omega (arith, v.fits, ap (λ (n : Node). length n.msg) same);
}

abbrev with_new : Bytes → Heap → Heap
with_new msg s = record { next = suc s.next; node = update s.node s.next (fresh msg) }

other_key : (a b : ℕ) → a < b → (a == b) ≡ false
other_key a b below = ground arith

same_key : (a : ℕ) → (a == a) ≡ true
same_key a = ground arith

with_new-others : (msg : Bytes) (s : Heap) (a : ℕ) → a < s.next → (with_new msg s).node a ≡ s.node a
with_new-others msg s a below = rw (other_key a s.next below)

with_new-node : (msg : Bytes) (s : Heap) → (with_new msg s).node s.next ≡ fresh msg
with_new-node msg s = rw (same_key s.next)

with_new-Extends : (msg : Bytes) (s : Heap) → Extends s (with_new msg s)
with_new-Extends msg s = record {
  longer = omega arith;
  same_msg = λ a below. ap (λ (n : Node). n.msg) (with_new-others msg s a below);
  same_atts = λ a below. ap (λ (n : Node). n.attestations) (with_new-others msg s a below);
  keeps = λ a o b below e. ap (λ (n : Node). find_op o n.ops) (with_new-others msg s a below) ∙ e;
}

new-with_new : (msg : Bytes) (s : Heap) → length msg ≡ 32 → new msg s ≡ (with_new msg s, ok s.next)
unfolding new
new-with_new msg s size = rw (le→ltb-false max_msg_length (length msg) (omega (arith, size)))

-- A new node before the others.
new-IsFirstLevel :
    (P Q : ℕ → Type 0) (txid : Bytes) (txids : List Bytes) (s s' : Heap) (level : List ℕ)
    → length txid ≡ 32
    → P s.next
    → ((t : ℕ) → Q t → P t)
    → ((t : ℕ) → Q t → s.next ≢ t)
    → IsFirstLevel Q txids (with_new txid s) s' level
    → IsFirstLevel P (txid ∷ txids) s s' (s.next ∷ level)
new-IsFirstLevel P Q txid txids s s' level size at_next widen apart v =
    let same : s'.node s.next ≡ fresh txid = v.others s.next (omega arith) ∙ with_new-node txid s in
    record {
      extends = Extends-trans (with_new-Extends txid s) v.extends;
      others = λ a below. v.others a (omega (arith, below)) ∙ with_new-others txid s a below;
      ready = (
        record {
          allocated = omega (arith, v.extends.longer);
          no_op = ap (λ (n : Node). n.ops) same;
          some_bytes = omega (arith, size, ap (λ (n : Node). length n.msg) same);
          fits = omega (arith, size, ap (λ (n : Node). length n.msg) same);
        },
        v.ready,
      );
      distinct = (All-map Q (λ t. s.next ≢ t) level apart v.places, v.distinct);
      msgs =
          ap (λ m. m ∷ msgs_of s' level) (ap (λ (n : Node). n.msg) same)
          ∙ ap (λ ms. txid ∷ ms) v.msgs;
      places = (at_next, All-map Q P level widen v.places);
      as_many = omega (arith, v.as_many);
    }

module _ (h : Hashes) (i node : ℕ) where
  first_level-new :
      (j : ℕ) (txid : Bytes) (txids : List Bytes) (s s' : Heap) (level : List ℕ)
      → (j == i) ≡ false
      → length txid ≡ 32
      → first_level h (pos i) node (suc j) txids (with_new txid s) ≡ (s', ok level)
      → first_level h (pos i) node j (txid ∷ txids) s ≡ (s', ok (s.next ∷ level))
  unfolding first_level
  first_level-new j txid txids s s' level other size run =
      rw other
        (rw (new-with_new txid s size) (ap (go_on (λ above. pure (ok (s.next ∷ above)))) run))

  -- Behind the index all nodes are new.
  first_level-behind :
      (j : ℕ) (txids : List Bytes) (s : Heap)
      → i < j
      → All (λ txid. length txid ≡ 32) txids
      → (s' : Heap) × (level : List ℕ) × (first_level h (pos i) node j txids s ≡ (s', ok level))
        × IsFirstLevel (λ t. s.next ≤ t) txids s s' level
  unfolding first_level
  first_level-behind j [] s passed sizes = (
    s,
    [],
    refl,
    record {
      extends = Extends-refl s;
      others = λ a below. λ k. s.node a;
      ready = tt;
      distinct = tt;
      msgs = refl;
      places = tt;
      as_many = refl;
    },
  )
  first_level-behind j (txid ∷ txids) s passed sizes =
      let (s', level, run, v) =
        first_level-behind (suc j) txids (with_new txid s) (omega (arith, passed)) sizes.1 in
      (
        s',
        s.next ∷ level,
        first_level-new j txid txids s s' level (ground (arith, passed)) sizes.0 run,
        new-IsFirstLevel (λ t. s.next ≤ t) (λ t. suc s.next ≤ t) txid txids s s' level sizes.0
            (omega arith) (λ t newer. omega (arith, newer))
            (λ t newer e. absurd (omega (arith, newer, e))) v,
      )

  -- The node itself before the others.
  node-IsFirstLevel :
      (txid : Bytes) (txids : List Bytes) (s s' : Heap) (level : List ℕ)
      → IsReady s node
      → (s.node node).msg ≡ txid
      → IsFirstLevel (λ t. s.next ≤ t) txids s s' level
      → IsFirstLevel (λ t. (t ≡ node) ⊎ (s.next ≤ t)) (txid ∷ txids) s s' (node ∷ level)
  node-IsFirstLevel txid txids s s' level ready same_msg v =
      let same : s'.node node ≡ s.node node = v.others node ready.allocated in
      record {
        extends = v.extends;
        others = v.others;
        ready = (ready-others s s' node ready v.extends same, v.ready);
        distinct = (
          All-map (λ t. s.next ≤ t) (λ t. node ≢ t) level
              (λ t newer e. absurd (omega (arith, newer, ready.allocated, e))) v.places,
          v.distinct,
        );
        msgs =
            ap (λ m. m ∷ msgs_of s' level) (ap (λ (n : Node). n.msg) same ∙ same_msg)
            ∙ ap (λ ms. txid ∷ ms) v.msgs;
        places = (
          inl refl,
          All-map (λ t. s.next ≤ t) (λ t. (t ≡ node) ⊎ (s.next ≤ t)) level (λ t newer. inr newer)
              v.places,
        );
        as_many = omega (arith, v.as_many);
      }

  first_level-node :
      (txid : Bytes) (txids : List Bytes) (s s' : Heap) (level : List ℕ)
      → first_level h (pos i) node (suc i) txids s ≡ (s', ok level)
      → first_level h (pos i) node i (txid ∷ txids) s ≡ (s', ok (node ∷ level))
  unfolding first_level
  first_level-node txid txids s s' level run =
      rw (same_key i) (ap (go_on (λ above. pure (ok (node ∷ above)))) run)

  -- Up to the index, with `d` hashes before it.
  pub first_level-IsFirstLevel :
      (d j : ℕ) (txids : List Bytes) (s : Heap)
      → j + d ≡ i
      → txid_at txids d ≡ some (s.node node).msg
      → IsReady s node
      → All (λ txid. length txid ≡ 32) txids
      → (s' : Heap) × (level : List ℕ) × (first_level h (pos i) node j txids s ≡ (s', ok level))
        × IsFirstLevel (λ t. (t ≡ node) ⊎ (s.next ≤ t)) txids s s' level
        × ReachesOne h s' level node
  first_level-IsFirstLevel d j [] s place found ready sizes = cc
  first_level-IsFirstLevel zero j (txid ∷ txids) s place found ready sizes =
      let same : j ≡ i = omega (arith, place) in
      let (s', level, run, v) = first_level-behind (suc i) txids s (omega arith) sizes.1 in
      (
        s',
        node ∷ level,
        ap (λ k. first_level h (pos i) node k (txid ∷ txids) s) same
            ∙ first_level-node txid txids s s' level run,
        node-IsFirstLevel txid txids s s' level ready (cc found) v,
        inl here,
      )
  first_level-IsFirstLevel (suc d) j (txid ∷ txids) s place found ready sizes =
      let s₁ : Heap = with_new txid s in
      let same : s₁.node node ≡ s.node node = with_new-others txid s node ready.allocated in
      let (s', level, run, v, there) =
        first_level-IsFirstLevel d (suc j) txids s₁ (omega (arith, place))
          (found ∙ ap (λ (n : Node). some n.msg) (sym same))
          (ready-others s s₁ node ready (with_new-Extends txid s) same) sizes.1 in
      (
        s',
        s.next ∷ level,
        first_level-new j txid txids s s' level (other_key j i (omega (arith, place))) sizes.0 run,
        new-IsFirstLevel (λ t. (t ≡ node) ⊎ (s.next ≤ t)) (λ t. (t ≡ node) ⊎ (suc s.next ≤ t)) txid
            txids s s' level sizes.0 (inr (omega arith)) widen apart v,
        inr there,
      )
    where
      widen : (t : ℕ) → (t ≡ node) ⊎ (suc s.next ≤ t) → (t ≡ node) ⊎ (s.next ≤ t)
      widen t (inl same) = inl same
      widen t (inr newer) = inr (omega (arith, newer))

      apart : (t : ℕ) → (t ≡ node) ⊎ (suc s.next ≤ t) → s.next ≢ t
      apart t (inl same) e = absurd (omega (arith, same, e, ready.allocated))
      apart t (inr newer) e = absurd (omega (arith, newer, e))
