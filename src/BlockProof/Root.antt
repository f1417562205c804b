-- ===== src/BlockProof/Root.antt =====
-- The outer loop of MakeTimestampFromBlock (internal/bitcoin/blockproof.go).
use ots.Prelude.{ℕ, zero, suc, ◌≤◌, ◌≡◌, refl, ap, ◌∙◌, arith, List, [], ◌∷◌, length, All}
use ots.Result.{ok}
use ots.Op.{Hashes, HashLaws}
use ots.Timestamp.Shared.{Heap, go_on}
use ots.Timestamp.Shared.Paths.{here, Extends-refl}
use ots.Timestamp.Shared.Level.{IsReady, IsDistinct, ReachesOne}
use ots.Timestamp.Shared.Round.{Joins}
use ots.Timestamp.Shared.Merkle.{IsTip, levels_before}
use ots.BlockProof.{make_even, join_pairs, join_block}
use ots.BlockProof.Satoshi.{
  satoshi_root, above, even, msgs_of, make_even-even, msgs_of-even, All-even, even-All,
  even-ArePairs, length-even,
}
use ots.BlockProof.Pairs.{ArePaired, join_pairs-ArePaired}

-- One round of the loop, from a level of two nodes or more.
even_level-ArePaired :
    (h : Hashes) (level : List ℕ) (s : Heap)
    → HashLaws h
    → All (IsReady s) level
    → IsDistinct level
    → (s' : Heap) × (next : List ℕ) × (join_pairs h (make_even level) s ≡ (s', ok next))
      × ArePaired h (even level) s s' next
even_level-ArePaired h level s laws v w =
    let (s', next, run, x) =
      join_pairs-ArePaired h (even level) s laws (All-even (IsReady s) level v)
        (even-ArePairs level w) in
    (s', next, ap (λ ts. join_pairs h ts s) (make_even-even level) ∙ run, x)

even-Joins :
    (h : Hashes) (level next : List ℕ) (s s' : Heap)
    → ArePaired h (even level) s s' next
    → Joins h level s s' next
even-Joins h level next s s' x = record {
  extends = x.extends;
  ready = x.ready;
  distinct = x.distinct;
  reached = even-All (ReachesOne h s' next) level x.reached;
}

join_block-round :
    (h : Hashes) (fuel l r root : ℕ) (level next : List ℕ) (s s₁ s' : Heap)
    → join_pairs h (make_even (l ∷ r ∷ level)) s ≡ (s₁, ok next)
    → join_block h fuel next s₁ ≡ (s', ok root)
    → join_block h (suc fuel) (l ∷ r ∷ level) s ≡ (s', ok root)
unfolding join_block
join_block-round h fuel l r root level next s s₁ s' run run' =
    ap (go_on (join_block h fuel)) run ∙ run'

satoshi_root-round :
    (h : Hashes) (fuel l r : ℕ) (level next : List ℕ) (s s₁ : Heap)
    → ArePaired h (even (l ∷ r ∷ level)) s s₁ next
    → satoshi_root h fuel (msgs_of s₁ next) ≡ satoshi_root h (suc fuel) (msgs_of s (l ∷ r ∷ level))
satoshi_root-round h fuel l r level next s s₁ x =
    ap (satoshi_root h fuel) (x.msgs ∙ ap (above h) (msgs_of-even s (l ∷ r ∷ level)))

-- The loop over the levels, on different nodes that no operation leaves and whose messages have 1 to
-- 2048 bytes, at least one and not more than the fuel, with hash functions that give digests of their
-- lengths, succeeds: a chain of operations leads from every node to the root, nothing that was there
-- is lost, and the message of the root is the merkle root that Bitcoin defines for the messages.
pub join_block-IsTip :
    (h : Hashes) (fuel : ℕ) (level : List ℕ) (s : Heap)
    → HashLaws h
    → All (IsReady s) level
    → IsDistinct level
    → 1 ≤ length level
    → length level ≤ fuel
    → (s' : Heap) × (root : ℕ) × (join_block h fuel level s ≡ (s', ok root))
      × IsTip h level s s' root
      × ((s'.node root).msg ≡ satoshi_root h fuel (msgs_of s level))
unfolding join_block
join_block-IsTip h zero level s laws v w some_node enough =
    absurd (omega (arith, some_node, enough))
join_block-IsTip h (suc fuel) [] s laws v w some_node enough = absurd (omega (arith, some_node))
join_block-IsTip h (suc fuel) (root ∷ []) s laws v w some_node enough =
    (s, root, refl, record { extends = Extends-refl s; ready = v.0; reached = (here, tt) }, refl)
join_block-IsTip h (suc fuel) (l ∷ r ∷ level) s laws v w some_node enough =
    let (s₁, next, run, x) = even_level-ArePaired h (l ∷ r ∷ level) s laws v w in
    let shorter : length (even level) ≤ suc (length level) = length-even level in
    let (s', root, run', tip, msg) =
      join_block-IsTip h fuel next s₁ laws x.ready x.distinct (omega (arith, x.half))
        (omega (arith, x.half, shorter, enough)) in
    (
      s',
      root,
      join_block-round h fuel l r root level next s s₁ s' run run',
      levels_before h (l ∷ r ∷ level) next s s₁ s' root (even-Joins h (l ∷ r ∷ level) next s s₁ x)
          tip,
      msg ∙ satoshi_root-round h fuel l r level next s s₁ x,
    )
