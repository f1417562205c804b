-- ===== src/Op/Order.antt =====
-- `Equal` and `Less` of the operations (internal/core/op/op.go): equality is equality of values, and `Less` orders the operations strictly and totally,
-- as the sort of a timestamp's operations needs.
use ots.Prelude.{
  ◌≡◌, ◌↔◌, refl, ap, arith, true, false, ◌==◌, ◌&&◌, ◌||◌, ltb, [], Bytes, bytes_equal→eq,
  bytes_equal_self, bytes_less, bytes_less_irrefl, bytes_less_trans, bytes_less_total,
}
use ots.Op.{Op, append, prepend, sha256, sha1, crypt, ripemd160, keccak256, tag, equal, less}

pub equal→eq : (o p : Op) → equal o p ≡ true → o ≡ p
unfolding equal
equal→eq (append a) (append b) e = ap append (bytes_equal→eq a b e)
equal→eq (prepend a) (prepend b) e = ap prepend (bytes_equal→eq a b e)
equal→eq sha256 sha256 e = refl
equal→eq sha1 sha1 e = refl
equal→eq (crypt ripemd160) (crypt ripemd160) e = refl
equal→eq (crypt keccak256) (crypt keccak256) e = refl
equal→eq _ _ e = cc

pub equal_self : (o : Op) → equal o o ≡ true
unfolding equal
equal_self (append a) = bytes_equal_self a
equal_self (prepend a) = bytes_equal_self a
equal_self sha256 = refl
equal_self sha1 = refl
equal_self (crypt ripemd160) = refl
equal_self (crypt keccak256) = refl

-- Equal holds of two operations exactly when they are the same kind with the same argument.
pub equal_op_iff : (o p : Op) → (equal o p ≡ true) ↔ (o ≡ p)
equal_op_iff o p = (equal→eq o p, λ e. rw e (equal_self p))

unfoldable pub arg_of : Op → Bytes
arg_of (append a) = a
arg_of (prepend a) = a
arg_of sha256 = []
arg_of sha1 = []
arg_of (crypt c) = []

-- Less compares the tags, and with equal tags the arguments byte by byte.
pub less_op_lexicographic :
    (o p : Op)
    → less o p ≡ (ltb (tag o) (tag p) || (tag o == tag p && bytes_less (arg_of o) (arg_of p)))
unfolding less arg_of bytes_less
less_op_lexicographic (append a) (append b) = refl
less_op_lexicographic (prepend a) (prepend b) = refl
less_op_lexicographic (crypt c) (crypt d) = ground arith
less_op_lexicographic _ _ = ground arith

-- Tag and argument tell the operations apart.
tag_arg_injective : (o p : Op) → tag o ≡ tag p → arg_of o ≡ arg_of p → o ≡ p
unfolding arg_of
tag_arg_injective (append a) (append b) e d = ap append d
tag_arg_injective (prepend a) (prepend b) e d = ap prepend d
tag_arg_injective (crypt ripemd160) (crypt ripemd160) e d = refl
tag_arg_injective (crypt keccak256) (crypt keccak256) e d = refl
tag_arg_injective (crypt ripemd160) _ e d = ground arith
tag_arg_injective (crypt keccak256) _ e d = ground arith
tag_arg_injective _ (crypt ripemd160) e d = ground arith
tag_arg_injective _ (crypt keccak256) e d = ground arith
tag_arg_injective sha256 sha256 e d = refl
tag_arg_injective sha1 sha1 e d = refl
tag_arg_injective _ _ e d = ground arith

pub less_irrefl : (o : Op) → less o o ≡ false
less_irrefl o = ground (arith, less_op_lexicographic o o, bytes_less_irrefl (arg_of o))

pub less_total : (o p : Op) → less o p ≡ false → less p o ≡ false → o ≡ p
less_total o p h k = ground (
  arith,
  less_op_lexicographic o p,
  less_op_lexicographic p o,
  bytes_less_total (arg_of o) (arg_of p),
  tag_arg_injective o p,
)

pub less_trans : (o p q : Op) → less o p ≡ true → less p q ≡ true → less o q ≡ true
less_trans o p q h k = ground (
  arith,
  less_op_lexicographic o p,
  less_op_lexicographic p q,
  less_op_lexicographic o q,
  bytes_less_trans (arg_of o) (arg_of p) (arg_of q),
)
