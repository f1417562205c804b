-- ===== src/Serialize/VarUint.antt =====
-- WriteVarUint and ReadVarUint (internal/core/serialize/serialize.go) against the plain
-- description of a little-endian base-128 number.
use ots.Prelude.{
  ℕ, zero, suc, ◌+◌, ◌*◌, ◌/◌, ◌%◌, ◌^◌, ◌≤◌, ◌<◌, ◌≡◌, refl, ap, ◌∙◌, arith, bit_and, bit_or, [],
  ◌∷◌, ◌++◌, append_assoc, Bytes, IsByte, IsU64, All, length, ltb, if◌then◌else◌, Bool-cases, inl,
  inr,
}
use ots.Prelude.Bits.{low_seven, high_bit, set_high_bit, or_above}
use ots.Result.{ok}
use ots.Serialize.{write_groups, write_var_uint, read_groups, read_var_uint}
use native.Mathlib.Nat.{pow-suc, div-add-mod}
use native.Mathlib.Numerals.{towards_suc}

-- The number `v` below 128 ^ (k + 1) in groups of seven bits, the lowest first; every byte but the
-- last has its high bit set.
unfoldable pub base128 : ℕ → ℕ → Bytes
base128 zero v = v ∷ []
base128 (suc k) v =
    let higher = base128 k (v / 128) in if ltb v 128 then v ∷ [] else (v % 128 + 128) ∷ higher

write_groups_done : (rounds : ℕ) (ctx : Bytes) → write_groups rounds 0 ctx ≡ ctx
unfolding write_groups
write_groups_done zero ctx = refl
write_groups_done (suc rounds) ctx = refl

write_groups_last :
    (rounds v : ℕ) (ctx : Bytes)
    → 0 < v
    → v < 128
    → write_groups (suc rounds) v ctx ≡ ctx ++ (v ∷ [])
unfolding write_groups
write_groups_last rounds v ctx pos small =
    let none_left : v / 128 ≡ 0 = omega arith in
    ground (arith, low_seven v, none_left, write_groups_done rounds (ctx ++ (v ∷ [])))

write_groups_more :
    (rounds v : ℕ) (ctx : Bytes)
    → 128 ≤ v
    → write_groups (suc rounds) v ctx
      ≡ write_groups rounds (v / 128) (ctx ++ ((v % 128 + 128) ∷ []))
unfolding write_groups
write_groups_more rounds v ctx big =
    ground (arith, low_seven v, set_high_bit (v % 128) (omega arith))

write_groups-base128 :
    (k v : ℕ) (ctx : Bytes)
    → 0 < v
    → v < 128 ^ suc k
    → write_groups (suc k) v ctx ≡ ctx ++ base128 k v
unfolding base128
write_groups-base128 zero v ctx pos small = write_groups_last 0 v ctx pos (omega arith)
write_groups-base128 (suc k) v ctx pos small = elim (Bool-cases (ltb v 128)) [
  | inl last ↦ rw last (write_groups_last (suc k) v ctx pos (ground arith))
  | inr more ↦
      let big : 128 ≤ v = ground arith in
      let fits : v < 128 ^ suc k * 128 = rw pow-suc at small in
      let ctx' : Bytes = ctx ++ ((v % 128 + 128) ∷ []) in
      rw more (
        write_groups_more (suc k) v ctx big
        ∙ write_groups-base128 k (v / 128) ctx' (omega arith) (omega arith)
        ∙ append_assoc ctx ((v % 128 + 128) ∷ []) (base128 k (v / 128)))
]

-- WriteVarUint appends the base-128 form of its number.
pub write_var_uint-base128 :
    (v : ℕ) (ctx : Bytes) → IsU64 v → write_var_uint v ctx ≡ ctx ++ base128 9 v
unfolding write_var_uint
write_var_uint-base128 zero ctx fits = unfold base128 in refl
write_var_uint-base128 (suc v) ctx fits =
    ground (arith, write_groups-base128 9 (suc v) ctx (omega arith) (omega arith))

-- One byte of the loop of ReadVarUint.
group_joined :
    (value shift g : ℕ)
    → value < 2 ^ shift
    → IsU64 (value + g * 2 ^ shift)
    → bit_or value (g * 2 ^ shift % 0x1_0000_0000_0000_0000) ≡ value + g * 2 ^ shift
group_joined value shift g below fits =
    let kept : g * 2 ^ shift % 0x1_0000_0000_0000_0000 ≡ g * 2 ^ shift = omega arith in
    rw kept (or_above shift value g below)

read_groups_last :
    (value shift v : ℕ) (rest : Bytes)
    → v < 128
    → value < 2 ^ shift
    → IsU64 (value + v * 2 ^ shift)
    → read_groups value shift (v ∷ rest) ≡ ok (value + v * 2 ^ shift, rest)
unfolding read_groups
read_groups_last value shift v rest small below fits =
    let low : bit_and v 0x7f ≡ v = omega (arith, low_seven v) in
    let high : bit_and v 0x80 ≡ 0 = omega (arith, high_bit v) in
    rw (low, high) (rw (group_joined value shift v below fits))

read_groups_more :
    (value shift g : ℕ) (rest : Bytes)
    → g < 128
    → value < 2 ^ shift
    → IsU64 (value + g * 2 ^ shift)
    → read_groups value shift ((g + 128) ∷ rest)
      ≡ read_groups (value + g * 2 ^ shift) (shift + 7) rest
unfolding read_groups
read_groups_more value shift g rest small below fits =
    let low : bit_and (g + 128) 0x7f ≡ g = omega (arith, low_seven (g + 128)) in
    let high : bit_and (g + 128) 0x80 ≡ 128 = omega (arith, high_bit (g + 128)) in
    rw (low, high) (rw (group_joined value shift g below fits))

seven_more : (s : ℕ) → 2 ^ (s + 7) ≡ 2 ^ s * 128
seven_more s = simp towards_suc (omega arith)

-- The lowest group of `v` and what is above it, both at their places.
split_at_seven : (v s : ℕ) → v * 2 ^ s ≡ v % 128 * 2 ^ s + v / 128 * 2 ^ (s + 7)
split_at_seven v s =
    rw (seven_more s) (omega (arith, ap (λ (t : ℕ). t * 2 ^ s) (div-add-mod v 128)))

below_next :
    (value shift g : ℕ) → value < 2 ^ shift → g < 128 → value + g * 2 ^ shift < 2 ^ (shift + 7)
below_next value shift g below small = rw (seven_more shift) (grind arith)

read_groups-base128 :
    (k v value shift : ℕ) (rest : Bytes)
    → v < 128 ^ suc k
    → value < 2 ^ shift
    → IsU64 (value + v * 2 ^ shift)
    → read_groups value shift (base128 k v ++ rest) ≡ ok (value + v * 2 ^ shift, rest)
unfolding base128
read_groups-base128 zero v value shift rest small below fits =
    read_groups_last value shift v rest (omega arith) below fits
read_groups-base128 (suc k) v value shift rest small below fits = elim (Bool-cases (ltb v 128)) [
  | inl last ↦ rw last (read_groups_last value shift v rest (ground arith) below fits)
  | inr more ↦
      let g : ℕ = v % 128 in
      let split : v * 2 ^ shift ≡ g * 2 ^ shift + v / 128 * 2 ^ (shift + 7) =
        split_at_seven v shift in
      let value' : ℕ = value + g * 2 ^ shift in
      let fits' : v < 128 ^ suc k * 128 = rw pow-suc at small in
      let below' : value' < 2 ^ (shift + 7) = below_next value shift g below (omega arith) in
      rw more (
        read_groups_more value shift g (base128 k (v / 128) ++ rest) (omega arith) below
          (omega arith)
        ∙ read_groups-base128 k (v / 128) value' (shift + 7) rest (omega arith) below' (omega arith)
        ∙ ap (λ (t : ℕ). ok (t, rest)) (omega arith))
]

-- ReadVarUint reads back every uint64 that WriteVarUint wrote, and leaves what follows it.
pub read_var_uint-base128 :
    (v : ℕ) (rest : Bytes) → IsU64 v → read_var_uint (base128 9 v ++ rest) ≡ ok (v, rest)
unfolding read_var_uint
read_var_uint-base128 v rest fits =
    read_groups-base128 9 v 0 0 rest (omega arith) (omega arith) (omega arith)
    ∙ ap (λ (t : ℕ). ok (t, rest)) (omega arith)

-- Any uint64 that WriteVarUint appends to a buffer is read back by ReadVarUint from where it
-- starts, with whatever bytes follow it left unread.
pub read_var_uint-write_var_uint :
    (v : ℕ) (rest : Bytes) → IsU64 v → read_var_uint (write_var_uint v [] ++ rest) ≡ ok (v, rest)
read_var_uint-write_var_uint v rest fits =
    rw (write_var_uint-base128 v [] fits) (read_var_uint-base128 v rest fits)

base128-IsByte : (k v : ℕ) → v < 128 ^ suc k → All IsByte (base128 k v)
unfolding base128
base128-IsByte zero v small = (omega arith, tt)
base128-IsByte (suc k) v small = elim (Bool-cases (ltb v 128)) [
  | inl last ↦ rw last (ground arith, tt)
  | inr more ↦
      let fits : v < 128 ^ suc k * 128 = rw pow-suc at small in
      rw more (omega arith, base128-IsByte k (v / 128) (omega arith))
]

pub length-base128 : (k v : ℕ) → (1 ≤ length (base128 k v)) × (length (base128 k v) ≤ k + 1)
unfolding base128
length-base128 zero v = omega arith
length-base128 (suc k) v = ground (arith, length-base128 k (v / 128))

-- On a uint64 WriteVarUint keeps the buffer that it is given and appends one to ten bytes to it.
pub write_var_uint_shape :
    (v : ℕ) (ctx : Bytes)
    → IsU64 v
    → (out : Bytes) × (write_var_uint v ctx ≡ ctx ++ out)
      × All IsByte out
      × (1 ≤ length out)
      × (length out ≤ 10)
write_var_uint_shape v ctx fits =
    let (least, most) = length-base128 9 v in
    (base128 9 v, write_var_uint-base128 v ctx fits, base128-IsByte 9 v (omega arith), least, most)
