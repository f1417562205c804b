-- ===== src/Stamper/Safe/Stored.antt =====
-- The loop of finalize that puts the leaves into the store (internal/stamper/stamper.go).
use ots.Prelude.{
  ℕ, ◌≡◌, refl, sym, subst, true, List, [], ◌∷◌, Bytes, bytes_equal, bytes_equal→eq, Bool-cases,
  inl, inr,
}
use ots.Result.{Result, ok, err, panicked, stuck}
use ots.Timestamp.{Timestamp}
use ots.Timestamp.Shared.{Heap}
use ots.Timestamp.Shared.Unrolled.{unroll}
use ots.Calendar.Store.{Storage}
use ots.Stamper.{has_leaf}
use ots.Stamper.Confirm.{put_tree, put_next, put_leaves}
use ots.Stamper.Safe.{IsPut, IsLater, at_once, put_on}

pub IsLater-trans {ℓ} :
    {S : Type ℓ} (storage : Storage S) {store mid last : S}
    → IsLater storage store mid
    → IsLater storage mid last
    → IsLater storage store last
IsLater-trans storage before at_once = before
IsLater-trans storage before (put_on key t later run) =
    put_on key t (IsLater-trans storage before later) run

put_tree-IsLater {ℓ} :
    {S : Type ℓ} (storage : Storage S) (d : Bytes) (store store' : S) (r : Result Timestamp)
    → put_tree storage d store r ≡ ok store'
    → IsLater storage store store'
unfolding put_tree
put_tree-IsLater storage d store store' (ok t) run = put_on d t at_once run
put_tree-IsLater storage d store store' (err x) run = cc
put_tree-IsLater storage d store store' panicked run = cc
put_tree-IsLater storage d store store' stuck run = cc

module _ {ℓ} {S : Type ℓ} (storage : Storage S) (c : Bytes) (heap : Heap) where
  -- A Put of the commitment's tree, with the store that the loop leaves.
  abbrev pub IsStored : List (Bytes × ℕ) → S → Type ℓ
  IsStored leaves last = (v : IsPut storage c heap leaves) × IsLater storage v.store' last

  put_next-IsLater :
      (rest : S → S × Result (Unit {0})) (d : Bytes) (store : S) (t : Result Timestamp)
      (r : Result S)
      → ((store' : S) → IsLater storage store' (rest store').0)
      → put_tree storage d store t ≡ r
      → IsLater storage store (put_next rest store r).0
  unfolding put_next
  put_next-IsLater rest d store t (ok store') below run =
      IsLater-trans storage (put_tree-IsLater storage d store store' t run) (below store')
  put_next-IsLater rest d store t (err x) below run = at_once
  put_next-IsLater rest d store t panicked below run = at_once
  put_next-IsLater rest d store t stuck below run = at_once

  pub put_leaves-IsLater :
      (leaves : List (Bytes × ℕ)) (store : S)
      → IsLater storage store (put_leaves storage heap leaves store).0
  unfolding put_leaves
  put_leaves-IsLater [] store = at_once
  put_leaves-IsLater ((d, n) ∷ leaves) store =
      put_next-IsLater (put_leaves storage heap leaves) d store (unroll heap.next heap n) _
        (put_leaves-IsLater leaves) refl

  later-IsStored :
      (d : Bytes) (n : ℕ) (leaves : List (Bytes × ℕ)) (last : S)
      → IsStored leaves last
      → IsStored ((d, n) ∷ leaves) last
  later-IsStored d n leaves last (v, later) = (
    record {
      node = v.node;
      tree = v.tree;
      store = v.store;
      store' = v.store';
      is_leaf = inr v.is_leaf;
      below = v.below;
      put_lem = v.put_lem;
    },
    later,
  )

  put_tree-IsPut :
      (d : Bytes) (n : ℕ) (leaves : List (Bytes × ℕ)) (store store' : S) (r : Result Timestamp)
      → d ≡ c
      → unroll heap.next heap n ≡ r
      → put_tree storage d store r ≡ ok store'
      → (v : IsPut storage c heap ((d, n) ∷ leaves)) × (v.store' ≡ store')
  unfolding put_tree
  put_tree-IsPut d n leaves store store' (ok t) same below run = (
    record {
      node = n;
      tree = t;
      store = store;
      store' = store';
      is_leaf = inl (same, refl);
      below = below;
      put_lem = rw same at run;
    },
    refl,
  )
  put_tree-IsPut d n leaves store store' (err x) same below run = cc
  put_tree-IsPut d n leaves store store' panicked same below run = cc
  put_tree-IsPut d n leaves store store' stuck same below run = cc

  -- One round of the loop, with the others after it.
  put_next-IsStored :
      (d : Bytes) (n : ℕ) (leaves : List (Bytes × ℕ)) (store : S) (r : Result S)
      → ((store' : S)
          → (put_leaves storage heap leaves store').1 ≡ ok tt
          → has_leaf c leaves ≡ true
          → IsStored leaves (put_leaves storage heap leaves store').0)
      → put_tree storage d store (unroll heap.next heap n) ≡ r
      → (put_next (put_leaves storage heap leaves) store r).1 ≡ ok tt
      → has_leaf c ((d, n) ∷ leaves) ≡ true
      → IsStored ((d, n) ∷ leaves) (put_next (put_leaves storage heap leaves) store r).0
  unfolding has_leaf put_next
  put_next-IsStored d n leaves store (ok store') below run done there =
      elim (Bool-cases (bytes_equal d c)) [
        | inl same ↦
            let (v, stored) =
              put_tree-IsPut d n leaves store store' (unroll heap.next heap n)
                (bytes_equal→eq d c same) refl run in
            (
              v,
              subst (λ x. IsLater storage x (put_leaves storage heap leaves store').0) (sym stored)
                  (put_leaves-IsLater leaves store'),
            )
        | inr other ↦ later-IsStored d n leaves _ (below store' done (rw other at there))
      ]
  put_next-IsStored d n leaves store (err x) below run done there = cc
  put_next-IsStored d n leaves store panicked below run done there = cc
  put_next-IsStored d n leaves store stuck below run done there = cc

  pub put_leaves-IsStored :
      (leaves : List (Bytes × ℕ)) (store : S)
      → (put_leaves storage heap leaves store).1 ≡ ok tt
      → has_leaf c leaves ≡ true
      → IsStored leaves (put_leaves storage heap leaves store).0
  unfolding put_leaves has_leaf
  put_leaves-IsStored [] store done there = cc
  put_leaves-IsStored ((d, n) ∷ leaves) store done there =
      put_next-IsStored d n leaves store (put_tree storage d store (unroll heap.next heap n))
        (put_leaves-IsStored leaves) refl done there
