-- ===== src/Serialize/Fields.antt =====
-- The fields of the format (internal/core/serialize/serialize.go): booleans, byte strings
-- with and without a length, and what the reads do on short or hostile input.
use ots.Prelude.{
  ℕ, suc, ◌-◌, ◌≤◌, ◌<◌, ◌≡◌, refl, ap, ◌∙◌, arith, Bool, true, false, ◌||◌, [], ◌∷◌, ◌++◌,
  append_assoc, append-nil, Bytes, IsU64, length, le→ltb-false, take, take-length-append,
  drop-length-append, bytes_equal_self, Bool-cases, inl, inr,
}
use ots.Prelude.Int.{pos, to_int, to_int_small, int_less}
use ots.Result.{ok, ◌>>◌, guard, varbytes_too_long}
use ots.Serialize.{
  write_bool, write_var_bytes, read_bool, max_alloc, read_slice, read_bytes, read_var_uint,
  read_var_bytes, read_var_bytes_min_max, check_magic, assert_magic,
}
use ots.Serialize.VarUint.{base128, write_var_uint-base128, read_var_uint-base128}

-- A byte string behind its length in base 128.
unfoldable pub var_bytes : Bytes → Bytes
var_bytes v = base128 9 (length v) ++ v

pub write_var_bytes-var_bytes :
    (v ctx : Bytes) → IsU64 (length v) → write_var_bytes v ctx ≡ ctx ++ var_bytes v
unfolding write_var_bytes var_bytes
write_var_bytes-var_bytes v ctx fits =
    rw (write_var_uint-base128 (length v) ctx fits) (append_assoc ctx (base128 9 (length v)) v)

take_all : (v : Bytes) → take (length v) v ≡ v
take_all [] = refl
take_all (b ∷ v) = ap (λ t. b ∷ t) (take_all v)

read_slice_exact : (v rest : Bytes) → read_slice (length v) (v ++ rest) ≡ ok (v, rest)
unfolding read_slice
read_slice_exact [] rest = refl
read_slice_exact (b ∷ v) rest =
    let none_missing : suc (length v) - suc (length v) ≡ 0 = omega arith in
    rw (take-length-append v rest, drop-length-append v rest) (rw none_missing (rw append-nil))

pub read_bytes_exact :
    (v rest : Bytes) → length v ≤ max_alloc → read_bytes (pos (length v)) (v ++ rest) ≡ ok (v, rest)
unfolding read_bytes
read_bytes_exact v rest fits = rw (le→ltb-false max_alloc (length v) fits) (read_slice_exact v rest)

-- ReadBool reads back the byte that WriteBool wrote.
pub read_bool-write_bool :
    (b : Bool) (rest : Bytes) → read_bool (write_bool b [] ++ rest) ≡ ok (b, rest)
unfolding read_bool write_bool
read_bool-write_bool true rest = refl
read_bool-write_bool false rest = refl

-- The guard on the length, for a limit that is an int.
limit_kept :
    (l limit : ℕ)
    → l ≤ limit
    → limit < 0x8000_0000_0000_0000
    → int_less (pos limit) (to_int l) ≡ false
unfolding int_less
limit_kept l limit below small = rw (to_int_small l (omega arith)) (ground arith)

least_kept :
    (l least : ℕ) → least ≤ l → l < 0x8000_0000_0000_0000 → int_less (to_int l) (pos least) ≡ false
unfolding int_less
least_kept l least above small = rw (to_int_small l small) (ground arith)

-- What follows once the length is read and lies within the limits.
read_var_bytes_after :
    (l limit : ℕ) (buf rest : Bytes)
    → l ≤ limit
    → limit < 0x8000_0000_0000_0000
    → read_var_uint buf ≡ ok (l, rest)
    → read_var_bytes (pos limit) buf ≡ read_bytes (pos l) rest
unfolding read_var_bytes
read_var_bytes_after l limit buf rest below small e =
    rw e (rw (limit_kept l limit below small, to_int_small l (omega arith)) or_true)
  where
    or_true :
        (guard (int_less (pos limit) (pos 0) || true) varbytes_too_long >> read_bytes (pos l) rest)
        ≡ read_bytes (pos l) rest
    or_true = elim (Bool-cases (int_less (pos limit) (pos 0))) [ inl e ↦ rw e | inr e ↦ rw e ]

read_var_bytes_min_max_after :
    (l least limit : ℕ) (buf rest : Bytes)
    → least ≤ l
    → l ≤ limit
    → limit < 0x8000_0000_0000_0000
    → read_var_uint buf ≡ ok (l, rest)
    → read_var_bytes_min_max (pos least) (pos limit) buf ≡ read_bytes (pos l) rest
unfolding read_var_bytes_min_max
read_var_bytes_min_max_after l least limit buf rest above below small e = rw e (
    rw (limit_kept l limit below small, least_kept l least above (omega arith))
      (rw (to_int_small l (omega arith))))

var_bytes_front :
    (v rest : Bytes)
    → IsU64 (length v)
    → read_var_uint (var_bytes v ++ rest) ≡ ok (length v, v ++ rest)
unfolding var_bytes
var_bytes_front v rest fits =
    rw (append_assoc (base128 9 (length v)) v rest)
      (read_var_uint-base128 (length v) (v ++ rest) fits)

pub read_var_bytes-var_bytes :
    (v rest : Bytes) (limit : ℕ)
    → length v ≤ limit
    → limit ≤ max_alloc
    → read_var_bytes (pos limit) (var_bytes v ++ rest) ≡ ok (v, rest)
read_var_bytes-var_bytes v rest limit below small =
    read_var_bytes_after (length v) limit (var_bytes v ++ rest) (v ++ rest) below
      (omega (arith, small)) (var_bytes_front v rest (omega arith))
    ∙ read_bytes_exact v rest (omega (arith, below, small))

pub read_var_bytes_min_max-var_bytes :
    (v rest : Bytes) (least limit : ℕ)
    → least ≤ length v
    → length v ≤ limit
    → limit ≤ max_alloc
    → read_var_bytes_min_max (pos least) (pos limit) (var_bytes v ++ rest) ≡ ok (v, rest)
read_var_bytes_min_max-var_bytes v rest least limit above below small =
    read_var_bytes_min_max_after (length v) least limit (var_bytes v ++ rest) (v ++ rest) above
      below (omega (arith, small)) (var_bytes_front v rest (omega arith))
    ∙ read_bytes_exact v rest (omega (arith, below, small))

-- AssertMagic accepts a buffer that starts with the expected bytes, and reads just those.
pub assert_magic_exact :
    (magic rest : Bytes)
    → length magic ≤ max_alloc
    → assert_magic magic (magic ++ rest) ≡ ok (tt, rest)
unfolding assert_magic check_magic
assert_magic_exact magic rest fits =
    rw (read_bytes_exact magic rest fits) (rw (bytes_equal_self magic))
