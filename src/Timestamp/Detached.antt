-- ===== src/Timestamp/Detached.antt =====
-- The .ots file: a proof tree behind a header that names the hash of the file
-- (internal/core/timestamp/timestamp.go). The hash is always SHA-256, so a detached
-- timestamp is the tree alone.
pub mod RoundTrip
use ots.Prelude.{
  ℕ, zero, suc, ◌≤◌, ◌≡◌, refl, sym, ap, ◌∙◌, arith, Bool, true, false, List, [], ◌∷◌, ◌++◌,
  append_assoc, append-nil, Bytes, length, ◌==◌, if◌then◌else◌,
}
use ots.Prelude.Int.{pos}
use ots.Result.{
  Result, ok, err, ◌>>=◌, ◌>>◌, guard, unsupported_major_version, unsupported_file_hash,
  digest_length_differs, trailing_garbage,
}
use ots.Serialize.{write_byte, write_bytes, read_byte, read_bytes, assert_magic, assert_eof}
use ots.Op
use ots.Op.{Op, Hashes, sha256, digest_length, hash_reader, ReadEnd}
use ots.Timestamp.{Timestamp, msg_of, new, equal}
use ots.Timestamp.Codec.{serialize, deserialize, recursion_limit_depth}

-- "\x00OpenTimestamps\x00\x00Proof\x00\xbf\x89\xe2\xe8\x84\xe8\x92\x94"
abbrev pub header_magic : Bytes
header_magic =
    0x00 ∷ b'O' ∷ b'p' ∷ b'e' ∷ b'n' ∷ b'T' ∷ b'i' ∷ b'm' ∷ b'e' ∷ b's' ∷ b't' ∷ b'a' ∷ b'm' ∷ b'p'
    ∷ b's' ∷ 0x00 ∷ 0x00 ∷ b'P' ∷ b'r' ∷ b'o' ∷ b'o' ∷ b'f' ∷ 0x00 ∷ 0xbf ∷ 0x89 ∷ 0xe2 ∷ 0xe8
    ∷ 0x84 ∷ 0xe8 ∷ 0x92 ∷ 0x94 ∷ []

abbrev pub major_version : ℕ
major_version = 1

pub record Detached : Type 0 where
  pub timestamp : Timestamp

unfoldable pub file_digest : Detached → Bytes
file_digest d = msg_of d.timestamp

unfoldable pub new_detached : Timestamp → Result Detached
unfolding digest_length
new_detached t =
    if length (msg_of t) == digest_length
    then ok (record { timestamp = t })
    else err digest_length_differs

unfoldable pub from_reader : Hashes → List (Bytes × ReadEnd) → Result Detached
from_reader h calls = do digest ← hash_reader h.sha256 [] calls; t ← new digest; new_detached t

unfoldable pub serialize_detached : Detached → Bytes → Result Bytes
serialize_detached d ctx = serialize d.timestamp (
    write_bytes (msg_of d.timestamp)
      (Op.serialize sha256 (write_byte major_version (write_bytes header_magic ctx))))

unfoldable pub serialize_detached_bytes : Detached → Result Bytes
serialize_detached_bytes d = serialize_detached d []

unfoldable pub require_sha256 : Op → Result (Unit {0})
require_sha256 sha256 = ok tt
require_sha256 o = err unsupported_file_hash

unfoldable pub deserialize_detached : Hashes → Bytes → Result Detached
deserialize_detached h buf = do
  (u, buf₁) ← assert_magic header_magic buf
  (major, buf₂) ← read_byte buf₁
  guard (major == major_version) (unsupported_major_version major)
  (file_hash_op, buf₃) ← Op.deserialize buf₂
  require_sha256 file_hash_op
  (digest, buf₄) ← read_bytes (pos digest_length) buf₃
  (t, buf₅) ← deserialize h recursion_limit_depth digest buf₄
  assert_eof buf₅
  new_detached t

unfoldable pub equal_detached : Detached → Detached → Bool
equal_detached d e = equal d.timestamp e.timestamp
