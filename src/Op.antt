-- ===== src/Op.antt =====
-- internal/core/op/op.go: the operations that link a message to the next one.
-- The hash functions come from crypto/sha1, crypto/sha256 and golang.org/x/crypto; they are the
-- parameter `Hashes`, and `HashLaws` is what their documentation promises.
pub mod Apply
pub mod Format
pub mod Leaves
pub mod Order
use ots.Prelude.{
  ℕ, zero, suc, ◌<◌, ◌≤◌, ◌≡◌, Bool, true, false, List, [], ◌∷◌, ◌++◌, Bytes, IsByte, All, length,
  ltb, ◌==◌, bytes_equal, bytes_less, if◌then◌else◌,
}
use ots.Prelude.Int.{ℤ, pos}
use ots.Result.{
  Result, ok, err, Reader, ◌>>=◌, ◌>>◌, guard, msg_too_long, empty_result, result_too_long,
  empty_arg, arg_too_long, read_failed, unknown_op_tag, panicked, stuck,
}
use ots.Serialize.{write_bytes, write_var_bytes, read_byte, read_var_bytes_min_max}
use Prim.Native.String.{String}

abbrev pub max_result_length : ℕ
max_result_length = 4096

abbrev pub max_msg_length : ℕ
max_msg_length = 4096

pub record Hashes : Type 0 where
  pub sha1 : Bytes → Bytes
  pub sha256 : Bytes → Bytes
  pub ripemd160 : Bytes → Bytes
  pub keccak256 : Bytes → Bytes

pub record HashLaws (h : Hashes) : Type 0 where
  pub length_sha1 : (m : Bytes) → length (h.sha1 m) ≡ 20
  pub length_sha256 : (m : Bytes) → length (h.sha256 m) ≡ 32
  pub length_ripemd160 : (m : Bytes) → length (h.ripemd160 m) ≡ 20
  pub length_keccak256 : (m : Bytes) → length (h.keccak256 m) ≡ 32

-- The values that NewRIPEMD160 and NewKeccak256 give a cryptOp.
pub data CryptOp : Type 0 where
  ripemd160 keccak256 : CryptOp

pub data Op : Type 0 where
  append : Bytes → Op
  prepend : Bytes → Op
  sha256 : Op
  sha1 : Op
  crypt : CryptOp → Op

abbrev pub crypt_tag : CryptOp → ℕ
crypt_tag ripemd160 = 0x03
crypt_tag keccak256 = 0x67

abbrev pub tag : Op → ℕ
tag (append arg) = 0xf0
tag (prepend arg) = 0xf1
tag sha256 = 0x08
tag sha1 = 0x02
tag (crypt c) = crypt_tag c

unfoldable pub apply_unary : (Bytes → Bytes) → Bytes → Result Bytes
apply_unary fn msg =
    if ltb max_msg_length (length msg)
    then err msg_too_long
    else let r = fn msg in
      if length r == 0
      then err empty_result
      else if ltb max_result_length (length r)
      then err result_too_long
      else ok r

abbrev pub crypt_hash : Hashes → CryptOp → Bytes → Bytes
crypt_hash h ripemd160 = h.ripemd160
crypt_hash h keccak256 = h.keccak256

-- The function that `Apply` hands to applyUnary.
abbrev pub transform : Hashes → Op → Bytes → Bytes
transform h (append arg) m = m ++ arg
transform h (prepend arg) m = arg ++ m
transform h sha256 m = h.sha256 m
transform h sha1 m = h.sha1 m
transform h (crypt c) m = crypt_hash h c m

unfoldable pub apply : Hashes → Op → Bytes → Result Bytes
apply h o msg = apply_unary (transform h o) msg

unfoldable pub serialize : Op → Bytes → Bytes
serialize (append arg) ctx = write_var_bytes arg (write_bytes (0xf0 ∷ []) ctx)
serialize (prepend arg) ctx = write_var_bytes arg (write_bytes (0xf1 ∷ []) ctx)
serialize sha256 ctx = write_bytes (0x08 ∷ []) ctx
serialize sha1 ctx = write_bytes (0x02 ∷ []) ctx
serialize (crypt c) ctx = write_bytes (crypt_tag c ∷ []) ctx

-- The tags are compared, and with equal tags the arguments of two appends or two prepends; no
-- two kinds of operation share a tag.
unfoldable pub less : Op → Op → Bool
less (append a) (append b) = bytes_less a b
less (prepend a) (prepend b) = bytes_less a b
less o p = ltb (tag o) (tag p)

unfoldable pub equal : Op → Op → Bool
equal (append a) (append b) = bytes_equal a b
equal (prepend a) (prepend b) = bytes_equal a b
equal sha256 sha256 = true
equal sha1 sha1 = true
equal (crypt a) (crypt b) = crypt_tag a == crypt_tag b
equal o p = false

unfoldable pub new_append : Bytes → Result Op
new_append arg =
    if length arg == 0
    then err empty_arg
    else if ltb max_result_length (length arg)
    then err arg_too_long
    else ok (append arg)

unfoldable pub new_prepend : Bytes → Result Op
new_prepend arg =
    if length arg == 0
    then err empty_arg
    else if ltb max_result_length (length arg)
    then err arg_too_long
    else ok (prepend arg)

-- The entry of the tag registry for a tag, as `init` fills it.
read_with_arg : (Bytes → Result Op) → Reader Op
read_with_arg new buf = do
  (arg, buf₁) ← read_var_bytes_min_max (pos 1) (pos max_result_length) buf
  o ← new arg
  ok (o, buf₁)

unfoldable pub deserialize_from_tag : ℕ → Reader Op
unfolding read_with_arg
deserialize_from_tag t buf =
    if t == 0xf0
    then read_with_arg new_append buf
    else if t == 0xf1
    then read_with_arg new_prepend buf
    else if t == 0x08
    then ok (sha256, buf)
    else if t == 0x02
    then ok (sha1, buf)
    else if t == 0x03
    then ok (crypt ripemd160, buf)
    else if t == 0x67
    then ok (crypt keccak256, buf)
    else err unknown_op_tag

unfoldable pub deserialize : Reader Op
deserialize buf = do (t, buf₁) ← read_byte buf; deserialize_from_tag t buf₁

unfoldable pub digest_length : ℕ
digest_length = 32

-- How one call of `Read` ends: with more to come, at the end of the file, or by an error.
pub data ReadEnd : Type 0 where
  more eof failed : ReadEnd

-- HashReader, on the bytes and the end of each call of `Read`. Writing blocks to a hash.Hash one
-- after the other hashes all their bytes. `stuck` is a reader that never ends.
unfoldable pub hash_reader : (Bytes → Bytes) → Bytes → List (Bytes × ReadEnd) → Result Bytes
hash_reader fn written [] = stuck
hash_reader fn written ((block, more) ∷ calls) = hash_reader fn (written ++ block) calls
hash_reader fn written ((block, eof) ∷ calls) = ok (fn (written ++ block))
hash_reader fn written ((block, failed) ∷ calls) = err read_failed
