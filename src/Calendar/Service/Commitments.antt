-- ===== src/Calendar/Service/Commitments.antt =====
-- The commitment that Submit (internal/calendar/calendar.go) makes.
use ots.Prelude.{
  ℕ, zero, suc, ◌+◌, ◌≤◌, ◌≡◌, refl, ap, ◌∙◌, arith, List, [], ◌∷◌, ◌++◌, Option, none, some, Bytes,
  length, length-append, take, le→ltb-false, Bool-cases, inl, inr,
}
use ots.Result.{ok}
use ots.Op
use ots.Op.{
  Op, Hashes, HashLaws, append, prepend, max_result_length, max_msg_length, new_append, new_prepend,
}
use ots.Op.Apply.{apply→Links, Links→apply, new_append_fits}
use ots.Op.Order.{equal→eq}
use ots.Notary.{Attestation, check_uri, new_pending_attestation, pending}
use ots.Timestamp.{
  Timestamp, stamp, attestations_of, Ops, no_ops, op_stamp, msg_of, ops_of, find_op, new,
  child_or_new, add_op, put_child,
}
use ots.Timestamp.Tree.{IsValid, IsValidOps}
use ots.Timestamp.Codec.{add_attestation}
use ots.Timestamp.Codec.Items.{msg_of-add_attestation}
use ots.Calendar.Service.{hmac_size, serialized_idx, mac_of, below, grow, attest, commit, Growing}

ops-IsValidOps : (h : Hashes) (s : Timestamp) → IsValid h s → IsValidOps h (msg_of s) (ops_of s)
ops-IsValidOps h (stamp msg atts ops) v = v.3

module _ (h : Hashes) (msg : Bytes) (o : Op) where
  -- A stamp that the operation leads to, where there is one.
  abbrev IsChild : Option Timestamp → Type 0
  IsChild none = Unit
  IsChild (some s) = (Op.apply h o msg ≡ ok (msg_of s)) × IsValidOps h (msg_of s) (ops_of s)

  find_op-IsChild : (ops : Ops) → IsValidOps h msg ops → IsChild (find_op o ops)
  unfolding find_op
  find_op-IsChild no_ops v = tt
  find_op-IsChild (op_stamp p s ops) v = elim (Bool-cases (Op.equal p o)) [
    | inl same ↦ rw same (rw (equal→eq p o same) at v.1, ops-IsValidOps h s v.2)
    | inr other ↦ rw other (find_op-IsChild ops v.3)
  ]

  child_or_new-IsChild :
      (t : Timestamp) (r : Bytes) (found : Option Timestamp)
      → IsChild found
      → Op.apply h o msg ≡ ok r
      → (t' child : Timestamp) × (child_or_new t o (stamp r [] no_ops) found ≡ (t', child))
        × (msg_of child ≡ r)
        × IsValidOps h r (ops_of child)
  unfolding child_or_new
  child_or_new-IsChild t r (some s) v image =
      let same : msg_of s ≡ r = cc (v.0) in (t, s, refl, same, rw same at v.1)
  child_or_new-IsChild (stamp m atts ops) r none v image = (_, _, refl, refl, tt)

-- AddOp with an operation whose result is within the limits.
add_op-child :
    (h : Hashes) (t : Timestamp) (o : Op) (r : Bytes)
    → IsValidOps h (msg_of t) (ops_of t)
    → Op.apply h o (msg_of t) ≡ ok r
    → (t' child : Timestamp) × (add_op h t o ≡ ok (t', child))
      × (msg_of child ≡ r)
      × IsValidOps h r (ops_of child)
unfolding add_op new
add_op-child h t o r v image =
    let (t', child, made, same, valid) =
      child_or_new-IsChild h (msg_of t) o t r (find_op o (ops_of t))
        (find_op-IsChild h (msg_of t) o (ops_of t) v) image in
    let fits : length r ≤ max_msg_length = (apply→Links h o (msg_of t) r image).result_fits in
    (
      t',
      child,
      rw image (rw (le→ltb-false max_msg_length (length r) fits) (ap ok made)),
      same,
      valid,
    )

length-take : (n : ℕ) (xs : Bytes) → n ≤ length xs → length (take n xs) ≡ n
length-take zero xs h = refl
length-take (suc n) [] h = absurd (omega arith)
length-take (suc n) (x ∷ xs) h = omega (arith, length-take n xs (omega arith))

length-mac_of :
    (h : Hashes) (key : Bytes) (idx : ℕ) (msg : Bytes)
    → HashLaws h
    → length (mac_of h key idx msg) ≡ hmac_size
unfolding mac_of
length-mac_of h key idx msg laws = length-take hmac_size _ (omega (arith, laws.length_sha256 _))

-- The last attestation of the node is the pending one of this calendar.
abbrev pub IsAttested : Bytes → Timestamp → Type 0
IsAttested uri t = (atts : List Attestation) × (attestations_of t ≡ atts ++ (pending uri ∷ []))

add_attestation-IsAttested :
    (uri : Bytes) (t : Timestamp) → IsAttested uri (add_attestation (pending uri) t)
unfolding add_attestation
add_attestation-IsAttested uri (stamp msg atts ops) = (atts, refl)

module _ (h : Hashes) (uri key : Bytes) (idx : ℕ) where
  -- The second half of Submit's tree, from the node that the time leads to.
  grow-mac :
      (c : Timestamp)
      → HashLaws h
      → check_uri uri ≡ ok tt
      → IsValidOps h (msg_of c) (ops_of c)
      → length (msg_of c) + hmac_size ≤ max_result_length
      → (c' macced : Timestamp) × (grow h c
            (new_append (mac_of h key idx (msg_of c)))
            (λ m. attest m (new_pending_attestation uri))
          ≡ (c', ok macced))
        × (msg_of macced ≡ msg_of c ++ mac_of h key idx (msg_of c))
        × IsAttested uri macced
  unfolding grow below attest new_pending_attestation
  grow-mac c laws good v fits =
      let mac : Bytes = mac_of h key idx (msg_of c) in
      let size : length mac ≡ hmac_size = length-mac_of h key idx (msg_of c) laws in
      let long : length (msg_of c ++ mac) ≡ length (msg_of c) + length mac =
        length-append (msg_of c) mac in
      let image : Op.apply h (append mac) (msg_of c) ≡ ok (msg_of c ++ mac) =
        Links→apply h (append mac) (msg_of c) (msg_of c ++ mac) (record {
          msg_fits = omega (arith, fits);
          image = refl;
          not_empty = omega (arith, size, long);
          result_fits = omega (arith, size, long, fits);
        }) in
      let (c', child, made, same, valid) =
        add_op-child h c (append mac) (msg_of c ++ mac) v image in
      (
        put_child (append mac) (add_attestation (pending uri) child) c',
        add_attestation (pending uri) child,
        rw (new_append_fits mac (omega (arith, size)) (omega (arith, size)))
            (rw made (rw good refl)),
        msg_of-add_attestation (pending uri) child ∙ same,
        add_attestation-IsAttested uri child,
      )

-- On a message of at most 4084 bytes, whose operations so far are valid, with hash functions that
-- give digests of their lengths and a calendar URI that CheckURI accepts, Submit arrives at an
-- node whose last attestation is the pending one with the calendar's URI: its message is the time,
-- the message, and behind them the eight bytes of the MAC of both.
pub commit_lem :
    (h : Hashes) (uri key : Bytes) (idx : ℕ) (submitted : Timestamp)
    → HashLaws h
    → check_uri uri ≡ ok tt
    → IsValidOps h (msg_of submitted) (ops_of submitted)
    → length (msg_of submitted) + 12 ≤ max_result_length
    → (t macced : Timestamp) × (commit h uri key idx submitted ≡ (t, ok macced))
      × (msg_of macced
          ≡ (serialized_idx idx ++ msg_of submitted)
            ++ mac_of h key idx (serialized_idx idx ++ msg_of submitted))
      × (length (msg_of macced) ≡ length (msg_of submitted) + 12)
      × IsAttested uri macced
unfolding commit
commit_lem h uri key idx submitted laws good v fits =
    let timed : Bytes = serialized_idx idx ++ msg_of submitted in
    let image : Op.apply h (prepend (serialized_idx idx)) (msg_of submitted) ≡ ok timed =
      Links→apply h (prepend (serialized_idx idx)) (msg_of submitted) timed (record {
        msg_fits = omega (arith, fits);
        image = refl;
        not_empty = omega arith;
        result_fits = omega (arith, fits);
      }) in
    let (t₁, c, made, same, valid) =
      add_op-child h submitted (prepend (serialized_idx idx)) timed v image in
    let valid_c : IsValidOps h (msg_of c) (ops_of c) = rw same valid in
    let (c', macced, grown, message, attested) =
      grow-mac h uri key idx c laws good valid_c (omega (arith, ap length same, fits)) in
    let size : length (mac_of h key idx timed) ≡ hmac_size = length-mac_of h key idx timed laws in
    let whole : msg_of macced ≡ timed ++ mac_of h key idx timed =
      message ∙ ap (λ m. m ++ mac_of h key idx m) same in
    (
      put_child (prepend (serialized_idx idx)) c' t₁,
      macced,
      unfold grow below new_prepend in
          rw made
            (ap (λ (g : Growing). (put_child (prepend (serialized_idx idx)) g.0 t₁, g.1)) grown),
      whole,
      omega (arith, ap length whole, size, length-append timed (mac_of h key idx timed)),
      attested,
    )
