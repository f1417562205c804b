-- ===== src/Serialize/Leaves.antt =====
-- No read leaves more bytes than it found, and none runs out of fuel: what the termination of the
-- recursive readers rests on. The first argument of `Leaves` says whether a panic is allowed.
use ots.Prelude.{
  ℕ, zero, suc, ◌+◌, ◌≤◌, ◌≡◌, refl, arith, Bool, true, false, not, [], ◌∷◌, Bytes, length,
  length-drop, ltb, le→ltb-false, bit_and, bytes_equal, ◌==◌,
}
use ots.Prelude.Int.{ℤ, pos, negsuc, to_int, int_less}
use ots.Result.{Result, varbytes_too_long, varbytes_too_short}
use ots.Result.Ensures.{
  Ensures, returns, fails, panics, Ensures-bind, Ensures-if, Ensures-weaken, Ensures-guard,
}
use ots.Serialize.{
  read_byte, read_groups, read_var_uint, max_alloc, read_slice, read_bytes, read_var_bytes,
  read_var_bytes_min_max, check_magic, assert_magic,
}

abbrev pub Leaves {ℓ} : {A : Type ℓ} → Bool → ℕ → Result (A × Bytes) → Type ℓ
Leaves p n = Ensures p (λ (a, rest). length rest ≤ n)

pub read_byte-Leaves :
    (p : Bool) (buf : Bytes)
    → Ensures p (λ (b, rest). suc (length rest) ≤ length buf) (read_byte buf)
read_byte-Leaves p [] = fails
read_byte-Leaves p (b ∷ buf) = returns (omega arith)

read_groups-Leaves :
    (p : Bool) (buf : Bytes) (value shift : ℕ) → Leaves p (length buf) (read_groups value shift buf)
unfolding read_groups
read_groups-Leaves p [] value shift = fails
read_groups-Leaves p (b ∷ buf) value shift =
    Ensures-if (bit_and b 0x80 == 0) (λ _. returns (omega arith))
      (λ _. Ensures-weaken (read_groups-Leaves p buf _ (shift + 7)) (λ (v, rest) h. omega arith))

pub read_var_uint-Leaves : (p : Bool) (buf : Bytes) → Leaves p (length buf) (read_var_uint buf)
unfolding read_var_uint
read_var_uint-Leaves p buf = read_groups-Leaves p buf 0 0

read_slice-Leaves : (p : Bool) (n : ℕ) (buf : Bytes) → Leaves p (length buf) (read_slice n buf)
unfolding read_slice
read_slice-Leaves p zero buf = returns (omega arith)
read_slice-Leaves p (suc n) [] = fails
read_slice-Leaves p (suc n) (b ∷ buf) = returns (omega (arith, length-drop n buf))

pub read_bytes-Leaves :
    (p : Bool) (n : ℕ) (buf : Bytes)
    → n ≤ max_alloc
    → Leaves p (length buf) (read_bytes (pos n) buf)
unfolding read_bytes
read_bytes-Leaves p n buf fits = rw (le→ltb-false max_alloc n fits) (read_slice-Leaves p n buf)

read_bytes_int-Leaves : (n : ℤ) (buf : Bytes) → Leaves true (length buf) (read_bytes n buf)
unfolding read_bytes
read_bytes_int-Leaves (pos n) buf =
    Ensures-if (ltb max_alloc n) (λ _. panics refl) (λ _. read_slice-Leaves true n buf)
read_bytes_int-Leaves (negsuc n) buf = panics refl

pub read_var_bytes-Leaves :
    (limit : ℤ) (buf : Bytes) → Leaves true (length buf) (read_var_bytes limit buf)
unfolding read_var_bytes
read_var_bytes-Leaves limit buf = Ensures-bind (read_var_uint-Leaves true buf) λ (l, rest) h.
    Ensures-bind (Ensures-guard _ varbytes_too_long)
      λ _ _. Ensures-weaken (read_bytes_int-Leaves (to_int l) rest) λ (v, after) k. omega arith

-- A length that has passed the limits is no negative int, and not too large.
read_at_least-Leaves :
    (least limit : ℕ) (n : ℤ) (buf : Bytes)
    → limit ≤ max_alloc
    → not (int_less (pos limit) n) ≡ true
    → not (int_less n (pos least)) ≡ true
    → Leaves false (length buf) (read_bytes n buf)
unfolding int_less
read_at_least-Leaves least limit (pos n) buf small below h =
    read_bytes-Leaves false n buf (ground (arith, small, below))
read_at_least-Leaves least limit (negsuc n) buf small below h = cc

pub read_var_bytes_min_max-Leaves :
    (least limit : ℕ) (buf : Bytes)
    → limit ≤ max_alloc
    → Leaves false (length buf) (read_var_bytes_min_max (pos least) (pos limit) buf)
unfolding read_var_bytes_min_max
read_var_bytes_min_max-Leaves least limit buf small =
    Ensures-bind (read_var_uint-Leaves false buf) λ (l, rest) h.
      Ensures-bind (Ensures-guard _ varbytes_too_long) λ _ below.
        Ensures-bind (Ensures-guard _ varbytes_too_short) λ _ above.
          Ensures-weaken (read_at_least-Leaves least limit (to_int l) rest small below above)
            λ (v, after) k. omega arith

pub check_magic-Leaves :
    (n : ℕ) (magic : Bytes) {r : Result (Bytes × Bytes)}
    → Leaves false n r
    → Leaves false n (check_magic magic r)
unfolding check_magic
check_magic-Leaves n magic (returns {a} h) =
    Ensures-if (bytes_equal magic a.0) (λ _. returns h) (λ _. fails)
check_magic-Leaves n magic fails = fails
check_magic-Leaves n magic (panics h) = panics h

pub assert_magic-Leaves :
    (magic buf : Bytes)
    → length magic ≤ max_alloc
    → Leaves false (length buf) (assert_magic magic buf)
unfolding assert_magic
assert_magic-Leaves magic buf fits =
    check_magic-Leaves (length buf) magic (read_bytes-Leaves false (length magic) buf fits)
