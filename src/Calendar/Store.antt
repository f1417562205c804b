-- ===== src/Calendar/Store.antt =====
-- internal/calendar/storage.go: the interface of a store of proof trees, and the store in memory.
-- The map is the list of what was put, the latest first; the lock makes every method one step.
pub mod Cloned
pub mod Bolt
use ots.Prelude.{
  Bool, true, false, List, ◌∷◌, [], Option, none, some, Bytes, bytes_equal, if◌then◌else◌,
}
use ots.Result.{Result, ok, err, panicked, stuck, ◌>>=◌, commitment_not_found}
use ots.Op.{Hashes}
use ots.Timestamp.{Timestamp, msg_of}
use ots.Timestamp.Codec.{serialize_bytes, deserialize_bytes}

-- Put gives the store as it leaves it, where it succeeds.
pub record Storage {ℓ} (S : Type ℓ) : Type ℓ where
  pub put : Bytes → Timestamp → S → Result S
  pub get : Bytes → S → Result Timestamp
  pub has : Bytes → S → Bool

abbrev pub MemoryStore : Type 0
MemoryStore = List (Bytes × Timestamp)

abbrev pub new_memory_store : MemoryStore
new_memory_store = []

-- `if err != nil { panic(err) }`
abbrev pub or_panic {ℓ} : {A : Type ℓ} → Result A → Result A
or_panic (err e) = panicked
or_panic r = r

unfoldable pub clone_timestamp : Hashes → Timestamp → Result Timestamp
clone_timestamp h ts = do
  encoded ← or_panic (serialize_bytes ts)
  or_panic (deserialize_bytes h encoded (msg_of ts))

unfoldable pub lookup : Bytes → MemoryStore → Option Timestamp
lookup commitment [] = none
lookup commitment ((key, ts) ∷ store) =
    if bytes_equal key commitment then some ts else lookup commitment store

unfoldable pub put : Hashes → Bytes → Timestamp → MemoryStore → Result MemoryStore
put h commitment ts store = do clone ← clone_timestamp h ts; ok ((commitment, clone) ∷ store)

unfoldable pub get_found : Hashes → Option Timestamp → Result Timestamp
get_found h none = err commitment_not_found
get_found h (some ts) = clone_timestamp h ts

unfoldable pub get : Hashes → Bytes → MemoryStore → Result Timestamp
get h commitment store = get_found h (lookup commitment store)

unfoldable pub has : Bytes → MemoryStore → Bool
has commitment store = elim (lookup commitment store) [ none ↦ false | some ts ↦ true ]

abbrev pub memory_storage : Hashes → Storage MemoryStore
memory_storage h = record { put = put h; get = get h; has = has }
