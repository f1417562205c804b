-- ===== src/Timestamp/Shared/Merkle.antt =====
-- MakeMerkleTree (internal/core/timestamp/timestamp.go): every leaf reaches the tip.
use ots.Prelude.{
  ℕ, zero, suc, ◌+◌, ◌*◌, ◌≤◌, ◌≡◌, refl, arith, List, [], ◌∷◌, ◌++◌, Option, none, some, length,
  length-append, All, inl, inr,
}
use ots.Result.{Result, ok}
use ots.Op.{Hashes, HashLaws}
use ots.Timestamp.Shared.{Heap, next_level, join_levels, make_merkle_tree, odd_one}
use ots.Timestamp.Shared.Paths.{Reaches, Reaches-trans, Reaches-Extends, Extends, Extends-trans}
use ots.Timestamp.Shared.Level.{IsReady, IsDistinct, ReachesOne, All-map}
use ots.Timestamp.Shared.Round.{Joins, join_level-Joins}

-- The tip of a merkle tree over the leaves.
pub record IsTip (h : Hashes) (leaves : List ℕ) (s s' : Heap) (tip : ℕ) : Type 0 where
  pub extends : Extends s s'
  pub ready : IsReady s' tip
  pub reached : All (λ t. Reaches h s' t tip) leaves

-- A level of one node is its tip.
one_left :
    (h : Hashes) (current : List ℕ) (s s' : Heap) (tip : ℕ)
    → Joins h current s s' (tip ∷ [])
    → IsTip h current s s' tip
one_left h current s s' tip j = record {
  extends = j.extends;
  ready = j.ready.0;
  reached = All-map (ReachesOne h s' (tip ∷ [])) (λ t. Reaches h s' t tip) current only j.reached;
}
  where
    only : (t : ℕ) → ReachesOne h s' (tip ∷ []) t → Reaches h s' t tip
    only t (inl p) = p
    only t (inr p) = absurd p

-- What reaches a node of a level reaches its tip.
through :
    (h : Hashes) (s s' : Heap) (tip : ℕ) (level : List ℕ) (t : ℕ)
    → Extends s s'
    → All (λ u. Reaches h s' u tip) level
    → ReachesOne h s level t
    → Reaches h s' t tip
through h s s' tip [] t x reach p = absurd p
through h s s' tip (u ∷ level) t x reach (inl p) = Reaches-trans (Reaches-Extends x p) reach.0
through h s s' tip (u ∷ level) t x reach (inr p) = through h s s' tip level t x reach.1 p

pub levels_before :
    (h : Hashes) (current level : List ℕ) (s s₁ s' : Heap) (tip : ℕ)
    → Joins h current s s₁ level
    → IsTip h level s₁ s' tip
    → IsTip h current s s' tip
levels_before h current level s s₁ s' tip j v = record {
  extends = Extends-trans j.extends v.extends;
  ready = v.ready;
  reached =
      All-map (ReachesOne h s₁ level) (λ t. Reaches h s' t tip) current
        (λ t p. through h s₁ s' tip level t v.extends v.reached p) j.reached;
}

-- A run of the rounds that are left comes to a tip.
abbrev TipFrom : Hashes → List ℕ → Heap → (List ℕ → Heap → Heap × Result (Option ℕ)) → Type 0
TipFrom h current s rounds =
    (s' : Heap) × (tip : ℕ) × (rounds current s ≡ (s', ok (some tip))) × IsTip h current s s' tip

-- A list of nodes that fits the fuel.
abbrev IsLevel : ℕ → List ℕ → Heap → Type 0
IsLevel fuel level s =
    All (IsReady s) level × IsDistinct level × (1 ≤ length level) × (length level ≤ fuel)

next_level-TipFrom :
    (h : Hashes) (fuel : ℕ) (rounds : List ℕ → Heap → Heap × Result (Option ℕ)) (current : List ℕ)
    (s s₁ : Heap) (next : List ℕ) (prev : Option ℕ)
    → ((level : List ℕ) → IsLevel fuel level s₁ → TipFrom h level s₁ rounds)
    → Joins h current s s₁ (next ++ odd_one prev)
    → 2 * length next + length (odd_one prev) ≡ length current
    → 1 ≤ length current
    → length current ≤ suc fuel
    → (s' : Heap) × (tip : ℕ) × (next_level rounds (next, prev) s₁ ≡ (s', ok (some tip)))
      × IsTip h current s s' tip
unfolding next_level
next_level-TipFrom h fuel rounds current s s₁ [] none again joins count some_node enough =
    absurd (omega (arith, count, some_node))
next_level-TipFrom h fuel rounds current s s₁ [] (some tip) again joins count some_node enough =
    (s₁, tip, refl, one_left h current s s₁ tip joins)
next_level-TipFrom h fuel rounds current s s₁ (q ∷ next) prev again joins count some_node enough =
    let level : List ℕ = (q ∷ next) ++ odd_one prev in
    let size : length level ≡ length (q ∷ next) + length (odd_one prev) =
      length-append (q ∷ next) (odd_one prev) in
    let (s', tip, ends, v) =
      again level
        (joins.ready, joins.distinct, omega (arith, size), omega (arith, size, count, enough)) in
    (s', tip, ends, levels_before h current level s s₁ s' tip joins v)

join_levels-TipFrom :
    (h : Hashes) (fuel : ℕ) (current : List ℕ) (s : Heap)
    → HashLaws h
    → IsLevel fuel current s
    → TipFrom h current s (join_levels h fuel)
unfolding join_levels
join_levels-TipFrom h zero current s laws v = absurd (omega (arith, v.2, v.3))
join_levels-TipFrom h (suc fuel) current s laws v =
    let (s₁, next, prev, run, joins, count) = join_level-Joins h current s laws v.0 v.1 in
    rw run (
      next_level-TipFrom h fuel (join_levels h fuel) current s s₁ next prev
        (λ level w. join_levels-TipFrom h fuel level s₁ laws w) joins count v.2 v.3)

-- MakeMerkleTree on one node or more, all different, that no operation leaves and whose messages
-- have 1 to 2048 bytes, with hash functions that give digests of their lengths, comes to a tip: from
-- every one of them a chain of operations leads to it, no operation leaves it, and the messages,
-- attestations and operations of before are all kept.
pub make_merkle_tree-IsTip :
    (h : Hashes) (t : ℕ) (stamps : List ℕ) (s : Heap)
    → HashLaws h
    → All (IsReady s) (t ∷ stamps)
    → IsDistinct (t ∷ stamps)
    → (s' : Heap) × (tip : ℕ) × (make_merkle_tree h (t ∷ stamps) s ≡ (s', ok (some tip)))
      × IsTip h (t ∷ stamps) s s' tip
unfolding make_merkle_tree
make_merkle_tree-IsTip h t stamps s laws v w =
    join_levels-TipFrom h (length (t ∷ stamps)) (t ∷ stamps) s laws (v, w, omega arith, omega arith)
