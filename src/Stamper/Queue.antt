-- ===== src/Stamper/Queue.antt =====
-- The set of pending commitments and the leaves of a transaction (internal/stamper/stamper.go).
use ots.Prelude.{
  ℕ, ◌≡◌, refl, arith, true, false, List, [], ◌∷◌, ◌++◌, ◌||◌, Bytes, bytes_equal, bytes_equal_self,
  bytes_equal→eq, Bool-cases, ◌⊎◌, inl, inr,
}
use ots.Stamper.{UnconfirmedTx, is_in, put_pending, remove, has_leaf, in_unconfirmed}
use ots.Stamper.Confirm.{requeue}
use ots.Stamper.Send.{remove_leaves}

pub is_in-append :
    (c d : Bytes) (pending : List Bytes)
    → is_in c pending ≡ true
    → is_in c (pending ++ (d ∷ [])) ≡ true
unfolding is_in
is_in-append c d [] e = cc
is_in-append c d (x ∷ pending) e = ground (arith, is_in-append c d pending)

is_in-last : (c : Bytes) (pending : List Bytes) → is_in c (pending ++ (c ∷ [])) ≡ true
unfolding is_in
is_in-last c [] = ground (arith, bytes_equal_self c)
is_in-last c (x ∷ pending) = ground (arith, is_in-last c pending)

pub is_in-put_pending :
    (c d : Bytes) (pending : List Bytes)
    → is_in c pending ≡ true
    → is_in c (put_pending d pending) ≡ true
unfolding put_pending
is_in-put_pending c d pending e = ground (arith, is_in-append c d pending)

pub is_in-put_pending_self :
    (c : Bytes) (pending : List Bytes) → is_in c (put_pending c pending) ≡ true
unfolding put_pending
is_in-put_pending_self c pending = ground (arith, is_in-last c pending)

pub is_in-remove :
    (c d : Bytes) (pending : List Bytes)
    → bytes_equal d c ≡ false
    → is_in c pending ≡ true
    → is_in c (remove d pending) ≡ true
unfolding is_in remove
is_in-remove c d [] differs e = e
is_in-remove c d (x ∷ pending) differs e = elim (Bool-cases (bytes_equal x d)) [
  | inl same ↦
      let not_c : bytes_equal x c ≡ false = rw (bytes_equal→eq x d same) differs in
      rw same (is_in-remove c d pending differs (rw not_c at e))
  | inr other ↦ rw other (ground (arith, is_in-remove c d pending differs))
]

pub is_in-requeue :
    (c : Bytes) (leaves : List (Bytes × ℕ)) (pending : List Bytes)
    → is_in c pending ≡ true
    → is_in c (requeue leaves pending) ≡ true
unfolding requeue
is_in-requeue c [] pending e = e
is_in-requeue c ((d, leaf) ∷ leaves) pending e =
    is_in-requeue c leaves (put_pending d pending) (is_in-put_pending c d pending e)

pub is_in-requeue_leaf :
    (c : Bytes) (leaves : List (Bytes × ℕ)) (pending : List Bytes)
    → has_leaf c leaves ≡ true
    → is_in c (requeue leaves pending) ≡ true
unfolding requeue has_leaf
is_in-requeue_leaf c [] pending e = cc
is_in-requeue_leaf c ((d, leaf) ∷ leaves) pending e = elim (Bool-cases (bytes_equal d c)) [
  | inl same ↦
      is_in-requeue c leaves (put_pending d pending)
        (rw (bytes_equal→eq d c same) (is_in-put_pending_self c pending))
  | inr other ↦ is_in-requeue_leaf c leaves (put_pending d pending) (rw other at e)
]

-- What is taken off the set is one of the leaves.
pub is_in-remove_leaves :
    (c : Bytes) (leaves : List (Bytes × ℕ)) (pending : List Bytes)
    → is_in c pending ≡ true
    → (has_leaf c leaves ≡ true) ⊎ (is_in c (remove_leaves leaves pending) ≡ true)
unfolding remove_leaves has_leaf
is_in-remove_leaves c [] pending e = inr e
is_in-remove_leaves c ((d, leaf) ∷ leaves) pending e = elim (Bool-cases (bytes_equal d c)) [
  | inl same ↦ inl (rw same)
  | inr other ↦
      elim (is_in-remove_leaves c leaves (remove d pending) (is_in-remove c d pending other e)) [
        | inl there ↦ inl (rw other there)
        | inr kept ↦ inr kept
      ]
]

pub in_unconfirmed-append :
    (c : Bytes) (utxs others : List UnconfirmedTx)
    → in_unconfirmed c (utxs ++ others) ≡ (in_unconfirmed c utxs || in_unconfirmed c others)
unfolding in_unconfirmed
in_unconfirmed-append c [] others = refl
in_unconfirmed-append c (utx ∷ utxs) others = ground (arith, in_unconfirmed-append c utxs others)
