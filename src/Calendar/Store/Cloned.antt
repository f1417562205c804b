-- ===== src/Calendar/Store/Cloned.antt =====
-- What the store in memory (internal/calendar/storage.go) gives back.
use ots.Prelude.{◌≤◌, ◌≡◌, true, false, [], ◌∷◌, append-nil, Bytes, bytes_equal, bytes_equal_self}
use ots.Result.{ok}
use ots.Op.{Hashes}
use ots.Timestamp.{Timestamp}
use ots.Timestamp.Tree.{IsValid, height}
use ots.Timestamp.Codec.{deserialize_bytes, recursion_limit_depth}
use ots.Timestamp.Codec.Canonical.{canonical, canonical-IsValid, height-canonical}
use ots.Timestamp.Codec.RoundTrip.{deserialize-serialize_tree}
use ots.Calendar.Store.{MemoryStore, clone_timestamp, lookup, put, get_found, get, has}
use native.Mathlib.Nat.{le_trans}

clone_timestamp-canonical :
    (h : Hashes) (t : Timestamp)
    → IsValid h t
    → height t ≤ recursion_limit_depth
    → clone_timestamp h t ≡ ok (canonical t)
unfolding clone_timestamp deserialize_bytes
clone_timestamp-canonical h t v low =
    let (out, writes, reads) = deserialize-serialize_tree h t [] v low in
    rw writes (rw (rw append-nil at reads))

-- A valid tree of at most 256 levels can be put, and then Has finds its commitment, Get gives the
-- tree with its attestations and operations sorted, by the clone on the way in and again by the one
-- on the way out, and every other commitment has what it had before.
pub get-put :
    (h : Hashes) (commitment : Bytes) (t : Timestamp) (store : MemoryStore)
    → IsValid h t
    → height t ≤ recursion_limit_depth
    → (store' : MemoryStore) × (put h commitment t store ≡ ok store')
      × (has commitment store' ≡ true)
      × (get h commitment store' ≡ ok (canonical (canonical t)))
      × ((other : Bytes)
          → bytes_equal commitment other ≡ false
          → get h other store' ≡ get h other store)
unfolding put get has lookup get_found
get-put h commitment t store v low = (
  (commitment, canonical t) ∷ store,
  rw (clone_timestamp-canonical h t v low),
  rw (bytes_equal_self commitment, has),
  rw (bytes_equal_self commitment) (
      clone_timestamp-canonical h (canonical t) (canonical-IsValid h t v)
        (le_trans (height-canonical t) low)),
  λ other differs. rw differs,
)
