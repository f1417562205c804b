-- ===== src/Timestamp/Shared/Round.antt =====
-- The inner loop of MakeMerkleTree (internal/core/timestamp/timestamp.go).
use ots.Prelude.{
  ℕ, ◌+◌, ◌*◌, ◌≤◌, ◌<◌, ◌≡◌, ◌≢◌, refl, sym, arith, List, [], ◌∷◌, ◌++◌, append-nil, Option, none,
  some, Bytes, length, length-append, All, All-append,
}
use ots.Result.{ok}
use ots.Op.{Hashes, HashLaws}
use ots.Timestamp.Shared.{Heap, join_level, odd_one}
use ots.Timestamp.Shared.Paths.{Reaches-Extends, Extends, Extends-refl, Extends-trans}
use ots.Timestamp.Shared.Joined.{IsJoined}
use ots.Timestamp.Shared.Level.{
  IsReady, IsDistinct, ReachesOne, All-map, ReachesOne-self, ReachesOne-before, IsDistinct-snoc,
  All-prefix, All-suffix, All-last, join_ready, IsJoined-ready, IsJoined-new_ready,
}

-- The variables of the loop: what is joined so far is newer than `bound`, what is left is older.
record Stage (bound : ℕ) (next todo : List ℕ) (s : Heap) : Type 0 where
  next_ready : All (IsReady s) next
  next_new : All (λ t. bound ≤ t) next
  next_distinct : IsDistinct next
  todo_ready : All (IsReady s) todo
  todo_old : All (λ t. t < bound) todo
  todo_distinct : IsDistinct todo
  within : bound ≤ s.next

-- The level that the loop leaves, against the nodes that it started with.
pub record Joins (h : Hashes) (ts : List ℕ) (s s' : Heap) (level : List ℕ) : Type 0 where
  pub extends : Extends s s'
  pub ready : All (IsReady s') level
  pub distinct : IsDistinct level
  pub reached : All (ReachesOne h s' level) ts

-- The last node of an odd level stays behind the new ones.
Stage-end :
    (h : Hashes) (bound : ℕ) (prev : Option ℕ) (next : List ℕ) (s : Heap)
    → Stage bound next (odd_one prev) s
    → Joins h (next ++ odd_one prev) s s (next ++ odd_one prev)
Stage-end h bound prev next s v = record {
  extends = Extends-refl s;
  ready = All-append (IsReady s) next (odd_one prev) v.next_ready v.todo_ready;
  distinct = all_distinct prev v.todo_old;
  reached = ReachesOne-self h s (next ++ odd_one prev);
}
  where
    all_distinct :
        (q : Option ℕ) → All (λ t. t < bound) (odd_one q) → IsDistinct (next ++ odd_one q)
    all_distinct none old = rw (append-nil next) v.next_distinct
    all_distinct (some p) old = IsDistinct-snoc next p v.next_distinct (
        All-map (λ t. bound ≤ t) (λ t. t ≢ p) next (λ t le e. absurd (omega (arith, le, old.0, e)))
          v.next_new)

-- One joining in the loop.
Stage-step :
    (h : Hashes) (bound l r q : ℕ) (result : Bytes) (next current : List ℕ) (s s' : Heap)
    → Stage bound next (l ∷ r ∷ current) s
    → IsJoined h l r result s s' q
    → length result ≡ 32
    → Stage bound (next ++ (q ∷ [])) current s'
Stage-step h bound l r q result next current s s' v j size = record {
  next_ready = All-append (IsReady s') next (q ∷ []) next_kept (IsJoined-new_ready j size, tt);
  next_new =
      All-append (λ t. bound ≤ t) next (q ∷ []) v.next_new (omega (arith, j.is_new, v.within), tt);
  next_distinct = IsDistinct-snoc next q v.next_distinct (
      All-map (IsReady s) (λ t. t ≢ q) next
        (λ t w e. absurd (omega (arith, w.allocated, j.is_new, e))) v.next_ready);
  todo_ready = todo_kept current v.todo_ready.1.1 v.todo_distinct.0.1 v.todo_distinct.1.0;
  todo_old = v.todo_old.1.1;
  todo_distinct = v.todo_distinct.1.1;
  within = omega (arith, v.within, j.extends.longer);
}
  where
    newer : (ts : List ℕ) → All (IsReady s) ts → All (λ t. bound ≤ t) ts → All (IsReady s') ts
    newer [] w new = tt
    newer (t ∷ ts) w new = (
      IsJoined-ready j t (λ e. absurd (omega (arith, new.0, v.todo_old.0, e)))
          (λ e. absurd (omega (arith, new.0, v.todo_old.1.0, e))) w.0,
      newer ts w.1 new.1,
    )

    next_kept : All (IsReady s') next
    next_kept = newer next v.next_ready v.next_new

    todo_kept :
        (ts : List ℕ)
        → All (IsReady s) ts
        → All (λ t. l ≢ t) ts
        → All (λ t. r ≢ t) ts
        → All (IsReady s') ts
    todo_kept [] w not_l not_r = tt
    todo_kept (t ∷ ts) w not_l not_r = (
      IsJoined-ready j t (λ e. not_l.0 (sym e)) (λ e. not_r.0 (sym e)) w.0,
      todo_kept ts w.1 not_l.1 not_r.1,
    )

-- The nodes that are left, and before them the two that were joined.
Joins-before :
    (h : Hashes) (l r q : ℕ) (result : Bytes) (next current level : List ℕ) (s s₁ s' : Heap)
    → IsJoined h l r result s s₁ q
    → Joins h ((next ++ (q ∷ [])) ++ current) s₁ s' level
    → Joins h (next ++ (l ∷ r ∷ current)) s s' level
Joins-before h l r q result next current level s s₁ s' j v =
    let P : ℕ → Type 0 = ReachesOne h s' level in
    let front : All P (next ++ (q ∷ [])) = All-prefix P (next ++ (q ∷ [])) current v.reached in
    let from_new : ReachesOne h s' level q = All-last P next q front in
    record {
      extends = Extends-trans j.extends v.extends;
      ready = v.ready;
      distinct = v.distinct;
      reached = All-append P next (l ∷ r ∷ current) (All-prefix P next (q ∷ []) front) (
        ReachesOne-before h s' level l q (Reaches-Extends v.extends j.from_left) from_new,
        (
          ReachesOne-before h s' level r q (Reaches-Extends v.extends j.from_right) from_new,
          All-suffix P (next ++ (q ∷ [])) current v.reached,
        ),
      );
    }

-- The whole loop: it joins the nodes to half as many, and the odd one out.
join_level-Stage :
    (h : Hashes) (bound : ℕ) (prev : Option ℕ) (next current : List ℕ) (s : Heap)
    → HashLaws h
    → Stage bound next (odd_one prev ++ current) s
    → (s' : Heap) × (next' : List ℕ) × (prev' : Option ℕ) × (join_level h prev next current s
        ≡ (s', ok (next', prev')))
      × Joins h (next ++ (odd_one prev ++ current)) s s' (next' ++ odd_one prev')
      × (2 * length next' + length (odd_one prev')
          ≡ 2 * length next + length (odd_one prev) + length current)
unfolding join_level
join_level-Stage h bound none next [] s laws v =
    (s, next, none, refl, Stage-end h bound none next s v, omega arith)
join_level-Stage h bound (some p) next [] s laws v =
    (s, next, some p, refl, Stage-end h bound (some p) next s v, omega arith)
join_level-Stage h bound none next (t ∷ current) s laws v =
    let (s', next', prev', run, joins, count) =
      join_level-Stage h bound (some t) next current s laws v in
    (s', next', prev', run, joins, omega (arith, count))
join_level-Stage h bound (some p) next (t ∷ current) s laws v =
    let (s₁, q, made, j) = join_ready h p t s laws v.todo_ready.0 v.todo_ready.1.0 in
    let size : length (h.sha256 ((s.node p).msg ++ (s.node t).msg)) ≡ 32 =
      laws.length_sha256 ((s.node p).msg ++ (s.node t).msg) in
    let (s', next', prev', run, joins, count) =
      join_level-Stage h bound none (next ++ (q ∷ [])) current s₁ laws
        (Stage-step h bound p t q _ next current s s₁ v j size) in
    (
      s',
      next',
      prev',
      rw made run,
      Joins-before h p t q _ next current (next' ++ odd_one prev') s s₁ s' j joins,
      omega (arith, count, length-append next (q ∷ [])),
    )

-- The same from the start of a level.
pub join_level-Joins :
    (h : Hashes) (current : List ℕ) (s : Heap)
    → HashLaws h
    → All (IsReady s) current
    → IsDistinct current
    → (s' : Heap) × (next : List ℕ) × (prev : Option ℕ) × (join_level h none [] current s
        ≡ (s', ok (next, prev)))
      × Joins h current s s' (next ++ odd_one prev)
      × (2 * length next + length (odd_one prev) ≡ length current)
join_level-Joins h current s laws v w =
    let (s', next, prev, run, joins, count) =
      join_level-Stage h s.next none [] current s laws (record {
        next_ready = tt;
        next_new = tt;
        next_distinct = tt;
        todo_ready = v;
        todo_old = All-map (IsReady s) (λ t. t < s.next) current (λ t r. r.allocated) v;
        todo_distinct = w;
        within = omega arith;
      }) in
    (s', next, prev, run, joins, omega (arith, count))
