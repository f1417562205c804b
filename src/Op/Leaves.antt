-- ===== src/Op/Leaves.antt =====
-- Deserialize of an operation (internal/core/op/op.go) ends on every input, never
-- panics, and leaves no more bytes than it found.
use ots.Prelude.{ℕ, arith, Bool, Bytes, length, ltb, ◌==◌}
use ots.Prelude.Int.{pos}
use ots.Result.{Result}
use ots.Result.Ensures.{Ensures, returns, fails, Ensures-bind, Ensures-if, never_panics}
use ots.Serialize.{read_var_bytes_min_max}
use ots.Serialize.Leaves.{Leaves, read_var_bytes_min_max-Leaves}
use ots.Op.{Op, read_with_arg, new_append, new_prepend, deserialize_from_tag, max_result_length}

-- NewAppend and NewPrepend take an argument or refuse it.
new_append-Ensures : (p : Bool) (arg : Bytes) → Ensures p (λ o. Unit {0}) (new_append arg)
unfolding new_append
new_append-Ensures p arg =
    Ensures-if (length arg == 0) (λ _. fails)
      λ _. Ensures-if (ltb max_result_length (length arg)) (λ _. fails) λ _. returns tt

new_prepend-Ensures : (p : Bool) (arg : Bytes) → Ensures p (λ o. Unit {0}) (new_prepend arg)
unfolding new_prepend
new_prepend-Ensures p arg =
    Ensures-if (length arg == 0) (λ _. fails)
      λ _. Ensures-if (ltb max_result_length (length arg)) (λ _. fails) λ _. returns tt

read_with_arg-Leaves :
    (p : Bool) (new : Bytes → Result Op) (buf : Bytes)
    → ((arg : Bytes) → Ensures p (λ o. Unit {0}) (new arg))
    → Leaves p (length buf) (read_with_arg new buf)
unfolding read_with_arg
read_with_arg-Leaves p new buf made =
    Ensures-bind (read_arg p buf) λ (arg, rest) le. Ensures-bind (made arg) λ o _. returns le
  where
    read_arg :
        (p : Bool) (buf : Bytes)
        → Leaves p (length buf) (read_var_bytes_min_max (pos 1) (pos max_result_length) buf)
    read_arg p buf =
        never_panics (read_var_bytes_min_max-Leaves 1 max_result_length buf (omega arith))

-- Reading an operation never panics, ends on every input, and leaves no more than was there.
pub deserialize_from_tag-Leaves :
    (p : Bool) (t : ℕ) (buf : Bytes) → Leaves p (length buf) (deserialize_from_tag t buf)
unfolding deserialize_from_tag
deserialize_from_tag-Leaves p t buf =
    Ensures-if (t == 0xf0) (λ _. read_with_arg-Leaves p new_append buf (new_append-Ensures p))
      λ _.
        Ensures-if (t == 0xf1) (λ _. read_with_arg-Leaves p new_prepend buf (new_prepend-Ensures p))
          λ _.
            Ensures-if (t == 0x08) (λ _. returns (omega arith))
              λ _.
                Ensures-if (t == 0x02) (λ _. returns (omega arith))
                  λ _.
                    Ensures-if (t == 0x03) (λ _. returns (omega arith))
                      λ _. Ensures-if (t == 0x67) (λ _. returns (omega arith)) λ _. fails
