-- ===== src/Calendar/Store/Bolt.antt =====
-- internal/calendar/store_bolt.go: the store in a bbolt database. The database is not part of the
-- repository: its bucket is an argument, a type of states with the calls that the code makes.
pub mod Kept
use ots.Prelude.{
  ℕ, ◌≤◌, ◌≡◌, ◌≢◌, Bool, true, false, List, Option, none, some, Bytes, length, if◌then◌else◌,
}
use ots.Result.{
  Result, ok, err, panicked, stuck, ◌>>=◌, corrupt_timestamp, commitment_not_found, io_failed,
}
use ots.Op.{Hashes}
use ots.Timestamp.{Timestamp, merge, Merging}
use ots.Timestamp.Codec.{serialize_bytes, deserialize_bytes}
use ots.Calendar.Store.{Storage}

pub record Bucket (B : Type 0) : Type 0 where
  pub read : Bytes → B → Option Bytes
  pub write : Bytes → Bytes → B → Result B

-- MaxKeySize and MaxValueSize of bbolt.
abbrev pub max_key_size : ℕ
max_key_size = 32768

abbrev pub max_value_size : ℕ
max_value_size = 0x7fff_fffe

-- What bbolt documents of a bucket: a key that is not empty is stored within the size limits, and no
-- other key changes.
pub record BucketLaws {B : Type 0} (bucket : Bucket B) : Type 0 where
  pub stores :
      (key value : Bytes) (b : B)
      → 1 ≤ length key
      → length key ≤ max_key_size
      → length value ≤ max_value_size
      → (b' : B) × (bucket.write key value b ≡ ok b')
        × (bucket.read key b' ≡ some value)
        × ((other : Bytes) → key ≢ other → bucket.read other b' ≡ bucket.read other b)

-- `prev` with the tree merged into it, where Merge raises no error.
unfoldable pub merged_with : Merging → Result Timestamp
merged_with (t, ok u) = ok t
merged_with (t, err e) = err e
merged_with (t, panicked) = panicked
merged_with (t, stuck) = stuck

abbrev pub or_corrupt : Result Timestamp → Result Timestamp
or_corrupt (err e) = err (corrupt_timestamp e)
or_corrupt r = r

unfoldable pub merge_existing : Hashes → Bytes → Timestamp → Option Bytes → Result Timestamp
merge_existing h commitment ts none = ok ts
merge_existing h commitment ts (some existing) = do
  prev ← or_corrupt (deserialize_bytes h existing commitment)
  merged_with (merge h prev ts)

-- The end of db.Update: an error rolls the transaction back, so the database is as before.
unfoldable pub update {ℓ} : {B : Type ℓ} → Bool → Result B → Result B
update commits r = do b ← r; if commits then ok b else err io_failed

unfoldable pub put_bolt : {B : Type 0} → Hashes → Bucket B → Bool → Bytes → Timestamp → B → Result B
put_bolt h bucket commits commitment ts b = update commits (do
  merged ← merge_existing h commitment ts (bucket.read commitment b)
  encoded ← serialize_bytes merged
  bucket.write commitment encoded b)

unfoldable pub get_data : Hashes → Bytes → Option Bytes → Result Timestamp
get_data h commitment none = err commitment_not_found
get_data h commitment (some encoded) = deserialize_bytes h encoded commitment

unfoldable pub get_bolt : {B : Type 0} → Hashes → Bucket B → Bytes → B → Result Timestamp
get_bolt h bucket commitment b = get_data h commitment (bucket.read commitment b)

unfoldable pub has_bolt : {B : Type 0} → Bucket B → Bytes → B → Bool
has_bolt bucket commitment b = elim (bucket.read commitment b) [ none ↦ false | some v ↦ true ]

abbrev pub bolt_storage : {B : Type 0} → Hashes → Bucket B → Bool → Storage B
bolt_storage h bucket commits = record {
  put = put_bolt h bucket commits;
  get = get_bolt h bucket;
  has = has_bolt bucket;
}
