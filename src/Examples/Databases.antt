-- ===== src/Examples/Databases.antt =====
-- A bucket that is a list, and a tree stored in it.
use ots.Prelude.{
  ◌≤◌, ◌≡◌, ◌≢◌, refl, arith, true, List, [], ◌∷◌, ◌++◌, Option, none, some, Bytes, bytes_equal,
  bytes_equal_self, bytes_equal→eq, Bool-cases, inl, inr, if◌then◌else◌,
}
use ots.Prelude.Sorting.{sort_slice}
use ots.Result.{ok}
use ots.Serialize.{write_var_bytes, write_var_uint, write_groups}
use ots.Notary
use ots.Notary.{bitcoin, bitcoin_tag, sort_attestations, sort_from, select_least}
use ots.Timestamp.{Timestamp, stamp, no_ops}
use ots.Timestamp.Tree.{IsValid, height}
use ots.Timestamp.Codec.{
  serialize_bytes, serialize, write_items, write_marked, but_last, last?, write_last,
  write_marked_last, write_ops,
}
use ots.Timestamp.Codec.Canonical.{canonical}
use ots.Calendar.Store.Bolt.{Bucket, BucketLaws, put_bolt, get_bolt, has_bolt}
use ots.Calendar.Store.Bolt.Kept.{get_bolt-put_bolt}
use ots.Examples.Data.{toy_hashes, digest}

abbrev Table : Type 0
Table = List (Bytes × Bytes)

abbrev find : Bytes → Table → Option Bytes
find key [] = none
find key ((k, value) ∷ table) = if bytes_equal k key then some value else find key table

abbrev table_bucket : Bucket Table
table_bucket = record { read = find; write = λ key value table. ok ((key, value) ∷ table) }

find_other :
    (key other value : Bytes) (table : Table)
    → key ≢ other
    → find other ((key, value) ∷ table) ≡ find other table
find_other key other value table differs = elim (Bool-cases (bytes_equal key other)) [
  | inl same ↦ absurd (differs (bytes_equal→eq key other same))
  | inr other_key ↦ rw other_key
]

table_laws : BucketLaws table_bucket
table_laws = record {
  stores = λ key value table some_bytes key_fits fits. (
    (key, value) ∷ table,
    refl,
    rw (bytes_equal_self key),
    λ other. find_other key other value table,
  );
}

abbrev small : Timestamp
small = stamp digest (bitcoin 3 ∷ []) no_ops

abbrev small_bytes : Bytes
small_bytes = 0x00 ∷ (bitcoin_tag ++ (1 ∷ 3 ∷ []))

small-IsValid : IsValid toy_hashes small
small-IsValid = (omega arith, omega arith, (omega arith, tt), tt)

small_written : serialize_bytes small ≡ ok small_bytes
unfolding serialize_bytes serialize write_items write_marked but_last last? write_last
    write_marked_last write_ops sort_attestations sort_from select_least sort_slice Notary.serialize
    write_var_bytes write_var_uint write_groups
small_written = refl

small_low : height small ≤ 256
unfolding height
small_low = omega arith

get_bolt-put_bolt_example :
    (table : Table) × (put_bolt toy_hashes table_bucket true digest small [] ≡ ok table)
    × (has_bolt table_bucket digest table ≡ true)
    × (get_bolt toy_hashes table_bucket digest table ≡ ok (canonical small))
    × ((other : Bytes)
        → digest ≢ other
        → get_bolt toy_hashes table_bucket other table ≡ get_bolt toy_hashes table_bucket other [])
get_bolt-put_bolt_example =
    get_bolt-put_bolt toy_hashes table_bucket small small_bytes [] table_laws refl small-IsValid
      small_low (omega arith) (omega arith) small_written (omega arith)
