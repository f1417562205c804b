-- ===== src/Notary/Order.antt =====
-- `Equal` and `Less` of the attestations (internal/core/notary/notary.go). Equality is equality of values. `Less` is a strict total order on the attestations
-- whose unknown tags are really unknown; an unknown attestation that carries the tag of a known one
-- is not comparable with it.
use ots.Prelude.{
  ℕ, ◌≡◌, ◌↔◌, refl, ap, arith, Bool, true, false, [], Bytes, ltb, ◌==◌, ◌&&◌, ◌||◌, bytes_equal,
  bytes_equal→eq, bytes_equal_self, bytes_equal_iff, bytes_less, bytes_less_irrefl,
  bytes_less_trans, bytes_less_total, Bool-cases, inl, inr,
}
use ots.Notary.{
  Attestation, pending, bitcoin, litecoin, unknown, tag, equal, less, less_payload, pending_tag,
  bitcoin_tag, litecoin_tag,
}
use mathlib.Core.Path.{ap₂}

pub equal→eq : (a b : Attestation) → equal a b ≡ true → a ≡ b
unfolding equal
equal→eq (pending u) (pending v) e = ap pending (bytes_equal→eq u v e)
equal→eq (bitcoin m) (bitcoin n) e = ground arith
equal→eq (litecoin m) (litecoin n) e = ground arith
equal→eq (unknown s a) (unknown t b) e = ground (arith, bytes_equal→eq s t, bytes_equal→eq a b)
equal→eq _ _ e = cc

pub equal_self : (a : Attestation) → equal a a ≡ true
unfolding equal
equal_self (pending u) = bytes_equal_self u
equal_self (bitcoin n) = ground arith
equal_self (litecoin n) = ground arith
equal_self (unknown t a) = rw (bytes_equal_self t) (bytes_equal_self a)

-- Equal holds of two attestations exactly when they are of the same type with the same fields.
equal_attestation_iff : (a b : Attestation) → (equal a b ≡ true) ↔ (a ≡ b)
equal_attestation_iff a b = (equal→eq a b, λ e. rw e (equal_self b))

-- An unknown attestation has none of the known tags.
abbrev pub IsProper : Attestation → Type 0
IsProper (unknown t payload) =
    (bytes_equal t pending_tag ≡ false)
    × (bytes_equal t bitcoin_tag ≡ false)
    × (bytes_equal t litecoin_tag ≡ false)
IsProper _ = Unit

unfoldable pub height_of : Attestation → ℕ
height_of (bitcoin n) = n
height_of (litecoin n) = n
height_of a = 0

unfoldable pub text_of : Attestation → Bytes
text_of (pending u) = u
text_of (unknown t payload) = payload
text_of a = []

bytes_equal_swap : (s t : Bytes) → bytes_equal s t ≡ false → bytes_equal t s ≡ false
bytes_equal_swap s t e = elim (Bool-cases (bytes_equal t s)) [
  | inl same ↦ cc (bytes_equal→eq t s same, bytes_equal_self s)
  | inr other ↦ other
]

-- With equal tags, a height is compared as a number and a text byte by byte.
less_payload_lem :
    (a b : Attestation)
    → IsProper a
    → IsProper b
    → bytes_equal (tag a) (tag b) ≡ true
    → less_payload a b ≡ (
        ltb (height_of a) (height_of b)
        || (height_of a == height_of b && bytes_less (text_of a) (text_of b)))
unfolding less_payload height_of text_of bytes_equal
less_payload_lem (pending u) (pending v) p q e = refl
less_payload_lem (bitcoin m) (bitcoin n) p q e = ground (arith, bytes_less_irrefl [])
less_payload_lem (litecoin m) (litecoin n) p q e = ground (arith, bytes_less_irrefl [])
less_payload_lem (unknown s a) (unknown t b) p q e = refl
less_payload_lem (unknown s a) (pending v) p q e = cc (p.0)
less_payload_lem (unknown s a) (bitcoin n) p q e = cc (p.1)
less_payload_lem (unknown s a) (litecoin n) p q e = cc (p.2)
less_payload_lem (pending u) (unknown t b) p q e = cc (bytes_equal_swap t pending_tag q.0)
less_payload_lem (bitcoin m) (unknown t b) p q e = cc (bytes_equal_swap t bitcoin_tag q.1)
less_payload_lem (litecoin m) (unknown t b) p q e = cc (bytes_equal_swap t litecoin_tag q.2)
less_payload_lem (pending u) (bitcoin n) p q e = cc
less_payload_lem (pending u) (litecoin n) p q e = cc
less_payload_lem (bitcoin m) (pending v) p q e = cc
less_payload_lem (bitcoin m) (litecoin n) p q e = cc
less_payload_lem (litecoin m) (pending v) p q e = cc
less_payload_lem (litecoin m) (bitcoin n) p q e = cc

same_parts :
    (a b : Attestation)
    → IsProper a
    → IsProper b
    → tag a ≡ tag b
    → height_of a ≡ height_of b
    → text_of a ≡ text_of b
    → a ≡ b
unfolding height_of text_of
same_parts (pending u) (pending v) p q e d c = ap pending c
same_parts (bitcoin m) (bitcoin n) p q e d c = ap bitcoin d
same_parts (litecoin m) (litecoin n) p q e d c = ap litecoin d
same_parts (unknown s a) (unknown t b) p q e d c = ap₂ unknown e c
same_parts (unknown s a) (pending v) p q e d c = cc (p.0, bytes_equal_self pending_tag)
same_parts (unknown s a) (bitcoin n) p q e d c = cc (p.1, bytes_equal_self bitcoin_tag)
same_parts (unknown s a) (litecoin n) p q e d c = cc (p.2, bytes_equal_self litecoin_tag)
same_parts (pending u) (unknown t b) p q e d c = cc (q.0, bytes_equal_self pending_tag)
same_parts (bitcoin m) (unknown t b) p q e d c = cc (q.1, bytes_equal_self bitcoin_tag)
same_parts (litecoin m) (unknown t b) p q e d c = cc (q.2, bytes_equal_self litecoin_tag)
same_parts (pending u) (bitcoin n) p q e d c = cc
same_parts (pending u) (litecoin n) p q e d c = cc
same_parts (bitcoin m) (pending v) p q e d c = cc
same_parts (bitcoin m) (litecoin n) p q e d c = cc
same_parts (litecoin m) (pending v) p q e d c = cc
same_parts (litecoin m) (bitcoin n) p q e d c = cc

-- On two attestations, unless they are unknown ones with a known tag, Less compares the tags byte
-- by byte, then the heights as numbers, then the texts byte by byte.
pub less_attestation_lexicographic :
    (a b : Attestation)
    → IsProper a
    → IsProper b
    → less a b ≡ (
        bytes_less (tag a) (tag b)
        || (bytes_equal (tag a) (tag b)
            && (ltb (height_of a) (height_of b)
                || (height_of a == height_of b && bytes_less (text_of a) (text_of b)))))
unfolding less
less_attestation_lexicographic a b p q = elim (Bool-cases (bytes_equal (tag a) (tag b))) [
  | inl same ↦
      let no_less : bytes_less (tag a) (tag b) ≡ false =
        rw (bytes_equal→eq _ _ same) (bytes_less_irrefl (tag b)) in
      rw (same, no_less) (less_payload_lem a b p q same)
  | inr other ↦ rw other (unit_right (bytes_less (tag a) (tag b)))
]
  where
    unit_right : (x : Bool) → x ≡ (x || false)
    unit_right true = refl
    unit_right false = refl

pub less_irrefl : (a : Attestation) → IsProper a → less a a ≡ false
less_irrefl a p = ground (
  arith,
  less_attestation_lexicographic a a p p,
  bytes_less_irrefl (tag a),
  bytes_less_irrefl (text_of a),
)

-- On well-formed attestations Less is transitive.
pub less_trans :
    (a b c : Attestation)
    → IsProper a
    → IsProper b
    → IsProper c
    → less a b ≡ true
    → less b c ≡ true
    → less a c ≡ true
less_trans a b c p q r h k = ground (
  arith,
  less_attestation_lexicographic a b p q,
  less_attestation_lexicographic b c q r,
  less_attestation_lexicographic a c p r,
  bytes_less_trans (tag a) (tag b) (tag c),
  bytes_less_trans (text_of a) (text_of b) (text_of c),
  bytes_equal_iff (tag a) (tag b),
  bytes_equal_iff (tag b) (tag c),
  bytes_equal_iff (tag a) (tag c),
)

-- Of two well-formed attestations neither of which is less, the two are equal.
pub less_total :
    (a b : Attestation) → IsProper a → IsProper b → less a b ≡ false → less b a ≡ false → a ≡ b
less_total a b p q h k = ground (
  arith,
  less_attestation_lexicographic a b p q,
  less_attestation_lexicographic b a q p,
  bytes_less_total (tag a) (tag b),
  bytes_less_total (text_of a) (text_of b),
  bytes_equal_iff (tag a) (tag b),
  bytes_equal_iff (tag b) (tag a),
  same_parts a b p q,
)

-- What is not less than something not less than `c` is not less than `c`.
pub not_less_trans :
    (a b c : Attestation)
    → IsProper a
    → IsProper b
    → IsProper c
    → less a b ≡ false
    → less b c ≡ false
    → less a c ≡ false
not_less_trans a b c p q r h k = elim (Bool-cases (less a c)) [
  | inr no_less ↦ no_less
  | inl a_c ↦ elim (Bool-cases (less c b)) [
    | inl c_b ↦ cc (less_trans a c b p r q a_c c_b)
    | inr not_c_b ↦ cc (less_total b c q r k not_c_b)
  ]
]
