-- ===== src/Client/Pool/Answers.antt =====
-- Stamp of the pool (pkg/ots/pool.go) fails only where every calendar failed.
use ots.Prelude.{
  ◌≤◌, ◌≡◌, refl, sym, Bool, true, false, List, [], ◌∷◌, Option, none, some, Bytes, length, ltb,
  le→ltb-false, All, bytes_equal, Bool-cases, ◌⊎◌, inl, inr,
}
use ots.Result.{Result, ok, err, panicked, stuck, calendars_failed}
use ots.Result.Ensures.{Ensures, returns, fails, panics, Ensures-bind, Ensures-if}
use ots.Op.{Op, Hashes, max_msg_length}
use ots.Op.Apply.{apply-Ensures}
use ots.Timestamp.{
  Timestamp, stamp, Ops, no_ops, op_stamp, msg_of, ops_of, attestations_of, find_op, new, add_op,
  child_of, Merging, go_on, merge_child, merge, merge_ops, add_attestations,
}
use ots.Client.Pool.{merge_next, merge_answers, stamped, stamp_all}

-- A call that returns, with a value or an error.
abbrev pub IsSettled {ℓ} : {A : Type ℓ} → Result A → Type 0
IsSettled (ok value) = Unit
IsSettled (err e) = Unit
IsSettled panicked = ⊥
IsSettled stuck = ⊥

Ensures-IsSettled {ℓ} :
    {A : Type ℓ} {P : A → Type 0} {r : Result A} → Ensures false P r → IsSettled r
Ensures-IsSettled (returns v) = tt
Ensures-IsSettled fails = tt
Ensures-IsSettled (panics e) = absurd (cc)

add_op-IsSettled : (h : Hashes) (t : Timestamp) (o : Op) → IsSettled (add_op h t o)
unfolding add_op new
add_op-IsSettled h t o = Ensures-IsSettled {P = λ v. Unit {0}} (
    Ensures-bind (apply-Ensures h o (msg_of t) false) λ result links.
      Ensures-bind {P = λ v. Unit {0}}
        (Ensures-if (ltb max_msg_length (length result)) (λ long. fails) (λ fits. returns tt))
        λ fresh v. returns tt)

child_of-IsSettled :
    (h : Hashes) (t : Timestamp) (o : Op) (found : Option Timestamp)
    → IsSettled (child_of h t o found)
unfolding child_of
child_of-IsSettled h t o none = add_op-IsSettled h t o
child_of-IsSettled h t o (some child) = tt

go_on-IsSettled :
    (rest : Timestamp → Merging) (e : Merging)
    → IsSettled e.1
    → ((t : Timestamp) → IsSettled (rest t).1)
    → IsSettled (go_on rest e).1
unfolding go_on
go_on-IsSettled rest (t, ok u) v w = w t
go_on-IsSettled rest (t, err x) v w = tt
go_on-IsSettled rest (t, panicked) v w = absurd v
go_on-IsSettled rest (t, stuck) v w = absurd v

merge_child-IsSettled :
    (t : Timestamp) (o : Op) (merge_into : Timestamp → Merging) (r : Result (Timestamp × Timestamp))
    → IsSettled r
    → ((child : Timestamp) → IsSettled (merge_into child).1)
    → IsSettled (merge_child t o merge_into r).1
unfolding merge_child
merge_child-IsSettled t o merge_into (ok (t', child)) v w = w child
merge_child-IsSettled t o merge_into (err x) v w = tt
merge_child-IsSettled t o merge_into panicked v w = absurd v
merge_child-IsSettled t o merge_into stuck v w = absurd v

mutual
  unfolding merge merge_ops

  merge_settles : (h : Hashes) (t other : Timestamp) → IsSettled (merge h t other).1
  merge_settles h t (stamp msg atts ops) = elim (Bool-cases (bytes_equal (msg_of t) msg)) [
    | inl same ↦ rw same (
        merge_ops_settles h
          (stamp (msg_of t) (add_attestations (attestations_of t) atts) (ops_of t)) ops)
    | inr other ↦ rw other tt
  ]

  merge_ops_settles : (h : Hashes) (t : Timestamp) (ops : Ops) → IsSettled (merge_ops h t ops).1
  merge_ops_settles h t no_ops = tt
  merge_ops_settles h t (op_stamp o s ops) =
      go_on-IsSettled (λ t'. merge_ops h t' ops) _
        (merge_child-IsSettled t o (λ child. merge h child s) _
          (child_of-IsSettled h t o (find_op o (ops_of t))) (λ child. merge_settles h child s))
        (λ t'. merge_ops_settles h t' ops)

-- Whether some calendar answered with a proof.
abbrev pub any_proof : List (Result Timestamp) → Bool
any_proof [] = false
any_proof (ok proof ∷ answers) = true
any_proof (_ ∷ answers) = any_proof answers

abbrev found : Option Timestamp → Bool
found none = false
found (some t) = true

-- What the loop gives: a tree where there was one, or where a calendar answered with a proof.
abbrev Gives : Bool → Result (Option Timestamp) → Type 0
Gives b r = (merged : Option Timestamp) × (r ≡ ok merged) × (found merged ≡ b)

merge_next-Gives :
    (rest : Option Timestamp → Result (Option Timestamp)) (e : Merging)
    → IsSettled e.1
    → ((t : Timestamp) → Gives true (rest (some t)))
    → Gives true (merge_next rest e)
unfolding merge_next
merge_next-Gives rest (t, ok u) v w = w t
merge_next-Gives rest (t, err x) v w = w t
merge_next-Gives rest (t, panicked) v w = absurd v
merge_next-Gives rest (t, stuck) v w = absurd v

merge_answers-Gives-some :
    (h : Hashes) (root t : Timestamp) (answers : List (Result Timestamp))
    → All IsSettled answers
    → Gives true (merge_answers h root (some t) answers)
unfolding merge_answers
merge_answers-Gives-some h root t [] v = (some t, refl, refl)
merge_answers-Gives-some h root t (ok proof ∷ answers) v =
    merge_next-Gives _ (merge h t proof) (merge_settles h t proof)
      (λ t'. merge_answers-Gives-some h root t' answers v.1)
merge_answers-Gives-some h root t (err e ∷ answers) v =
    merge_answers-Gives-some h root t answers v.1
merge_answers-Gives-some h root t (panicked ∷ answers) v = absurd v.0
merge_answers-Gives-some h root t (stuck ∷ answers) v = absurd v.0

merge_answers-Gives :
    (h : Hashes) (root : Timestamp) (answers : List (Result Timestamp))
    → All IsSettled answers
    → Gives (any_proof answers) (merge_answers h root none answers)
unfolding merge_answers
merge_answers-Gives h root [] v = (none, refl, refl)
merge_answers-Gives h root (ok proof ∷ answers) v =
    merge_next-Gives _ (merge h root proof) (merge_settles h root proof)
      (λ t. merge_answers-Gives-some h root t answers v.1)
merge_answers-Gives h root (err e ∷ answers) v = merge_answers-Gives h root answers v.1
merge_answers-Gives h root (panicked ∷ answers) v = absurd v.0
merge_answers-Gives h root (stuck ∷ answers) v = absurd v.0

stamped-cases :
    (b : Bool) (merged : Option Timestamp)
    → found merged ≡ b
    → ((b ≡ true) × ((t : Timestamp) × (stamped merged ≡ ok t)))
      ⊎ ((b ≡ false) × (stamped merged ≡ err calendars_failed))
unfolding stamped
stamped-cases b none e = inr (sym e, refl)
stamped-cases b (some t) e = inl (sym e, (t, refl))

-- Stamp of a digest of at most 4096 bytes, where no calendar's client panics, gives a tree without an
-- error exactly when some calendar answered with a proof, whatever the Merges make of the answers and
-- in whatever order these arrive, and otherwise gives the error that all calendars failed.
pub stamp_all_lem :
    (h : Hashes) (answers : List (Result Timestamp)) (digest : Bytes)
    → length digest ≤ max_msg_length
    → All IsSettled answers
    → ((any_proof answers ≡ true) × ((t : Timestamp) × (stamp_all h answers digest ≡ ok t)))
      ⊎ ((any_proof answers ≡ false) × (stamp_all h answers digest ≡ err calendars_failed))
unfolding stamp_all new
stamp_all_lem h answers digest fits v =
    let (merged, run, has) = merge_answers-Gives h (stamp digest [] no_ops) answers v in
    rw (le→ltb-false max_msg_length (length digest) fits)
      (rw run (stamped-cases (any_proof answers) merged has))
