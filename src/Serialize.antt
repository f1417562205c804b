-- ===== src/Serialize.antt =====
-- internal/core/serialize/serialize.go: the context that reads from and writes to a buffer.
-- A read takes the unread bytes and returns its value with those left; a write takes the bytes
-- written so far and returns them with the new ones behind (bytes.Buffer never fails to write).
pub mod VarUint
pub mod Fields
pub mod Leaves
pub mod Hostile
use ots.Prelude.{
  ℕ, zero, suc, ◌+◌, ◌-◌, ◌*◌, ◌/◌, ◌%◌, ◌^◌, bit_and, bit_or, Bool, true, false, List, [], ◌∷◌,
  ◌++◌, not, ◌||◌, Bytes, bytes_equal, length, take, drop, replicate, if◌then◌else◌, ltb, ◌==◌,
}
use ots.Prelude.Int.{ℤ, pos, negsuc, to_int, int_less}
use ots.Result.{
  Error, Result, ok, err, panicked, Reader, ◌>>=◌, ◌>>◌, guard, truncation, stuck, bad_bool,
  bad_magic, trailing_garbage, varbytes_too_long, varbytes_too_short,
}

abbrev pub write_byte : ℕ → Bytes → Bytes
write_byte b ctx = ctx ++ (b ∷ [])

abbrev pub write_bytes : Bytes → Bytes → Bytes
write_bytes v ctx = ctx ++ v

unfoldable pub write_bool : Bool → Bytes → Bytes
write_bool true ctx = write_byte 0xff ctx
write_bool false ctx = write_byte 0x00 ctx

-- The loop of WriteVarUint over at most `rounds` groups of seven bits: `v` loses seven bits in a
-- round, so ten rounds use up a uint64.
unfoldable pub write_groups : ℕ → ℕ → Bytes → Bytes
write_groups zero v ctx = ctx
write_groups (suc rounds) v ctx =
    let b = bit_and v 0x7f in
    let v' = v / 128 in
    let rest = write_groups rounds v' (write_byte (if v' == 0 then b else bit_or b 0x80) ctx) in
    if v == 0 then ctx else rest

unfoldable pub write_var_uint : ℕ → Bytes → Bytes
write_var_uint v ctx = if v == 0 then write_byte 0x00 ctx else write_groups 10 v ctx

unfoldable pub write_var_bytes : Bytes → Bytes → Bytes
write_var_bytes v ctx = write_bytes v (write_var_uint (length v) ctx)

abbrev pub read_byte : Reader ℕ
read_byte [] = err truncation
read_byte (b ∷ buf) = ok (b, buf)

-- The loop of ReadVarUint. A shift by 64 or more leaves 0, as `% 2 ^ 64` does.
unfoldable pub read_groups : ℕ → ℕ → Reader ℕ
read_groups value shift [] = err truncation
read_groups value shift (b ∷ buf) =
    let value' = bit_or value (bit_and b 0x7f * 2 ^ shift % 0x1_0000_0000_0000_0000) in
    let rest = read_groups value' (shift + 7) buf in
    if bit_and b 0x80 == 0 then ok (value', buf) else rest

unfoldable pub read_var_uint : Reader ℕ
read_var_uint = read_groups 0 0

unfoldable pub read_bool : Reader Bool
read_bool buf = do
  (b, buf₁) ← read_byte buf
  if b == 0xff then ok (true, buf₁) else if b == 0x00 then ok (false, buf₁) else err bad_bool

-- The longest slice of bytes that `make` allocates on a 64-bit machine.
abbrev pub max_alloc : ℕ
max_alloc = 0x1_0000_0000_0000

-- `bytes.Buffer.Read` into a slice of n bytes: it fails only on an empty buffer. Where the buffer
-- holds fewer bytes it fills the front of the slice, and the zeros that `make` put there stay.
unfoldable pub read_slice : ℕ → Reader Bytes
read_slice zero buf = ok ([], buf)
read_slice (suc n) [] = err truncation
read_slice (suc n) (b ∷ buf) =
    let got = take (suc n) (b ∷ buf) in
    ok (got ++ replicate (suc n - length got) 0, drop (suc n) (b ∷ buf))

-- `make` panics on a negative length and on one that is too large. That the memory of the machine
-- suffices for a smaller one is assumed.
unfoldable pub read_bytes : ℤ → Reader Bytes
read_bytes (negsuc n) buf = panicked
read_bytes (pos n) buf = if ltb max_alloc n then panicked else read_slice n buf

unfoldable pub read_var_bytes : ℤ → Reader Bytes
read_var_bytes max_len buf = do
  (l, buf₁) ← read_var_uint buf
  guard (int_less max_len (pos 0) || not (int_less max_len (to_int l))) varbytes_too_long
  read_bytes (to_int l) buf₁

unfoldable pub read_var_bytes_min_max : ℤ → ℤ → Reader Bytes
read_var_bytes_min_max min_len max_len buf = do
  (l, buf₁) ← read_var_uint buf
  guard (not (int_less max_len (to_int l))) varbytes_too_long
  guard (not (int_less (to_int l) min_len)) varbytes_too_short
  read_bytes (to_int l) buf₁

-- An error of ReadBytes becomes a BadMagicError, with nothing read.
unfoldable pub check_magic : Bytes → Result (Bytes × Bytes) → Result (Unit {0} × Bytes)
check_magic expected (ok (actual, buf)) =
    if bytes_equal expected actual then ok (tt, buf) else err (bad_magic expected actual)
check_magic expected (err e) = err (bad_magic expected [])
check_magic expected panicked = panicked
check_magic expected stuck = stuck

unfoldable pub assert_magic : Bytes → Reader (Unit {0})
assert_magic expected buf = check_magic expected (read_bytes (pos (length expected)) buf)

unfoldable pub assert_eof : Bytes → Result (Unit {0})
assert_eof [] = ok tt
assert_eof (b ∷ buf) = err trailing_garbage
