-- ===== src/Prelude/ByteStrings.antt =====
-- Byte strings: Go's []byte and string are lists of numbers below 256. `bytes_equal` is
-- `bytes.Equal`, and `bytes_less` is `bytes.Compare(a, b) < 0`, which is also `<` on Go strings.
use Prim.Native.Nat.{ℕ, ◌<◌}
use mathlib.Core.Path.{◌≡◌, refl}
use mathlib.Core.Logic.{◌↔◌}
use mathlib.Core.Bool.{Bool, true, false, ◌&&◌, ◌||◌}
use mathlib.Core.List.{List, [], ◌∷◌}
use native.Mathlib.Omega.{arith}
use ots.Prelude.Tests.{ltb, ◌==◌}

abbrev pub Bytes : Type 0
Bytes = List ℕ

abbrev pub IsByte : ℕ → Type 0
IsByte b = b < 256

abbrev pub IsU64 : ℕ → Type 0
IsU64 v = v < 0x1_0000_0000_0000_0000

unfoldable pub bytes_equal : Bytes → Bytes → Bool
bytes_equal [] [] = true
bytes_equal [] (y ∷ ys) = false
bytes_equal (x ∷ xs) [] = false
bytes_equal (x ∷ xs) (y ∷ ys) = x == y && bytes_equal xs ys

pub bytes_equal→eq : (xs ys : Bytes) → bytes_equal xs ys ≡ true → xs ≡ ys
unfolding bytes_equal
bytes_equal→eq [] [] h = refl
bytes_equal→eq [] (y ∷ ys) h = cc
bytes_equal→eq (x ∷ xs) [] h = cc
bytes_equal→eq (x ∷ xs) (y ∷ ys) h = ground (arith, bytes_equal→eq xs ys)

pub bytes_equal_self : (xs : Bytes) → bytes_equal xs xs ≡ true
unfolding bytes_equal
bytes_equal_self [] = refl
bytes_equal_self (x ∷ xs) = ground (arith, bytes_equal_self xs)

pub bytes_equal_iff : (xs ys : Bytes) → (bytes_equal xs ys ≡ true) ↔ (xs ≡ ys)
bytes_equal_iff xs ys = (bytes_equal→eq xs ys, λ e. rw e (bytes_equal_self ys))

unfoldable pub bytes_less : Bytes → Bytes → Bool
bytes_less xs [] = false
bytes_less [] (y ∷ ys) = true
bytes_less (x ∷ xs) (y ∷ ys) = ltb x y || (x == y && bytes_less xs ys)

pub bytes_less_irrefl : (xs : Bytes) → bytes_less xs xs ≡ false
unfolding bytes_less
bytes_less_irrefl [] = refl
bytes_less_irrefl (x ∷ xs) = ground (arith, bytes_less_irrefl xs)

pub bytes_less_trans :
    (xs ys zs : Bytes) → bytes_less xs ys ≡ true → bytes_less ys zs ≡ true → bytes_less xs zs ≡ true
unfolding bytes_less
bytes_less_trans xs [] zs h k = cc
bytes_less_trans [] (y ∷ ys) [] h k = cc
bytes_less_trans [] (y ∷ ys) (z ∷ zs) h k = refl
bytes_less_trans (x ∷ xs) (y ∷ ys) [] h k = cc
bytes_less_trans (x ∷ xs) (y ∷ ys) (z ∷ zs) h k = ground (arith, bytes_less_trans xs ys zs)

-- Of two byte strings neither of which is less, the two are equal.
pub bytes_less_total :
    (xs ys : Bytes) → bytes_less xs ys ≡ false → bytes_less ys xs ≡ false → xs ≡ ys
unfolding bytes_less
bytes_less_total [] [] h k = refl
bytes_less_total [] (y ∷ ys) h k = cc
bytes_less_total (x ∷ xs) [] h k = cc
bytes_less_total (x ∷ xs) (y ∷ ys) h k = ground (arith, bytes_less_total xs ys)
