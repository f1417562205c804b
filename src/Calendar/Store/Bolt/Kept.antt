-- ===== src/Calendar/Store/Bolt/Kept.antt =====
-- What the store in a bbolt database (internal/calendar/store_bolt.go) keeps.
use ots.Prelude.{◌≤◌, ◌≡◌, ◌≢◌, refl, true, [], append-nil, none, Bytes, length}
use ots.Result.{ok}
use ots.Op.{Hashes}
use ots.Timestamp.{Timestamp, msg_of}
use ots.Timestamp.Tree.{IsValid, height}
use ots.Timestamp.Codec.{serialize_bytes, deserialize_bytes, recursion_limit_depth}
use ots.Timestamp.Codec.Canonical.{canonical}
use ots.Timestamp.Codec.RoundTrip.{deserialize-serialize_tree}
use ots.Calendar.Store.Bolt.{
  Bucket, BucketLaws, max_key_size, max_value_size, merge_existing, update, put_bolt, get_data,
  get_bolt, has_bolt,
}

-- A valid tree of at most 256 levels, put under its message, of 1 to 32768 bytes, where there was
-- nothing and its file form is within the size limit of the database: where the commit goes well Put
-- succeeds, Has finds the message, Get gives the tree with its attestations and operations sorted,
-- and every other commitment has what it had before.
pub get_bolt-put_bolt :
    {B : Type 0} (h : Hashes) (bucket : Bucket B) (t : Timestamp) (out : Bytes) (b : B)
    → BucketLaws bucket
    → bucket.read (msg_of t) b ≡ none
    → IsValid h t
    → height t ≤ recursion_limit_depth
    → 1 ≤ length (msg_of t)
    → length (msg_of t) ≤ max_key_size
    → serialize_bytes t ≡ ok out
    → length out ≤ max_value_size
    → (b' : B) × (put_bolt h bucket true (msg_of t) t b ≡ ok b')
      × (has_bolt bucket (msg_of t) b' ≡ true)
      × (get_bolt h bucket (msg_of t) b' ≡ ok (canonical t))
      × ((other : Bytes)
          → msg_of t ≢ other
          → get_bolt h bucket other b' ≡ get_bolt h bucket other b)
unfolding put_bolt get_bolt has_bolt get_data merge_existing update deserialize_bytes
get_bolt-put_bolt h bucket t out b laws missing v low some_bytes key_fits writes fits =
    let (b', stored, found, others) = laws.stores (msg_of t) out b some_bytes key_fits fits in
    let (out', writes', reads) = deserialize-serialize_tree h t [] v low in
    let same : out' ≡ out = cc (writes, writes') in
    (
      b',
      rw missing (rw writes (rw stored refl)),
      rw (found, has_bolt),
      rw found (rw (← same) (rw (rw append-nil at reads))),
      λ other differs. rw (others other differs),
    )
