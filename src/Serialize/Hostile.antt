-- ===== src/Serialize/Hostile.antt =====
-- The reads on input that no writer produces: a buffer that ends early, and a length that does
-- not fit an int (internal/core/serialize/serialize.go).
use ots.Prelude.{
  ℕ, zero, suc, ◌-◌, ◌≤◌, ◌<◌, ◌≡◌, refl, arith, [], ◌∷◌, ◌++◌, Bytes, IsU64, length, le→ltb-false,
  take, drop, replicate, ap,
}
use ots.Prelude.Int.{pos, to_int, int_less}
use ots.Result.{ok, panicked}
use ots.Serialize.{max_alloc, read_slice, read_bytes, read_var_bytes, read_var_bytes_min_max}
use ots.Serialize.VarUint.{base128, read_var_uint-base128}
use ots.Result.Ensures.{Ensures-ne-panicked}
use ots.Serialize.Leaves.{read_var_bytes_min_max-Leaves}
use mathlib.Core.Logic.{◌≢◌}

take_short : (n : ℕ) (buf : Bytes) → length buf ≤ n → take n buf ≡ buf
take_short zero [] h = refl
take_short zero (b ∷ buf) h = absurd (omega arith)
take_short (suc n) [] h = refl
take_short (suc n) (b ∷ buf) h = ap (λ t. b ∷ t) (take_short n buf (omega arith))

drop_short : (n : ℕ) (buf : Bytes) → length buf ≤ n → drop n buf ≡ []
drop_short zero [] h = refl
drop_short zero (b ∷ buf) h = absurd (omega arith)
drop_short (suc n) [] h = refl
drop_short (suc n) (b ∷ buf) h = drop_short n buf (omega arith)

read_slice_short :
    (n : ℕ) (buf : Bytes)
    → 0 < length buf
    → length buf < n
    → read_slice n buf ≡ ok (buf ++ replicate (n - length buf) 0, [])
unfolding read_slice
read_slice_short n [] some_left short = absurd (omega arith)
read_slice_short zero (b ∷ buf) some_left short = absurd (omega arith)
read_slice_short (suc n) (b ∷ buf) some_left short =
    rw (take_short n buf (omega arith), drop_short n buf (omega arith)) refl

-- A buffer that is not empty but too short is no error, for a length of at most 2 ^ 48: ReadBytes
-- returns all that is left, filled up with zeros to the length asked for.
pub read_bytes_short :
    (n : ℕ) (buf : Bytes)
    → 0 < length buf
    → length buf < n
    → n ≤ max_alloc
    → read_bytes (pos n) buf ≡ ok (buf ++ replicate (n - length buf) 0, [])
unfolding read_bytes
read_bytes_short n buf some_left short fits =
    rw (le→ltb-false max_alloc n fits) (read_slice_short n buf some_left short)

-- A length of 2 ^ 63 or more is negative as an int: it passes the limit of ReadVarBytes, and the
-- allocation panics.
pub read_var_bytes_negative :
    (l limit : ℕ) (rest : Bytes)
    → 0x8000_0000_0000_0000 ≤ l
    → IsU64 l
    → read_var_bytes (pos limit) (base128 9 l ++ rest) ≡ panicked
unfolding read_var_bytes
read_var_bytes_negative l limit rest big fits =
    rw (read_var_uint-base128 l rest fits) (unfold to_int int_less read_bytes in ground arith)

-- With limits that are not negative and an upper one of at most 2 ^ 48, ReadVarBytesMinMax never panics.
pub read_var_bytes_min_max-ne-panicked :
    (least limit : ℕ) (buf : Bytes)
    → limit ≤ max_alloc
    → read_var_bytes_min_max (pos least) (pos limit) buf ≢ panicked
read_var_bytes_min_max-ne-panicked least limit buf small =
    Ensures-ne-panicked (read_var_bytes_min_max-Leaves least limit buf small)
