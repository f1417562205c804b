-- ===== src/Examples/Stores.antt =====
-- A store and a service at concrete inputs.
use ots.Prelude.{
  ◌+◌, ◌≡◌, refl, arith, true, false, [], ◌∷◌, ◌++◌, some, Bytes, length, bytes_equal, ◌%◌, ◌^◌,
}
use ots.Result.{ok}
use ots.Notary.{check_uri, check_chars}
use ots.Timestamp.{Timestamp, stamp, no_ops, msg_of}
use ots.Timestamp.Codec.Canonical.{canonical}
use ots.Calendar.Journal.{Journal, all_written}
use ots.Calendar.Journal.Records.{Holds}
use ots.Calendar.Store.{MemoryStore, new_memory_store, memory_storage, put, get, has}
use ots.Calendar.Store.Cloned.{get-put}
use ots.Calendar.Service.{Service, serialized_idx, mac_of, commit, put_macced, submit}
use ots.Calendar.Service.Commitments.{commit_lem, IsAttested}
use ots.Calendar.Service.Submitted.{submit-Holds}
use ots.Examples.Data.{toy_hashes, toy_laws, uri, digest, tree}
use ots.Examples.Trees.{tree-IsValid, tree-low}

get-put_example :
    (store : MemoryStore) × (put toy_hashes digest tree new_memory_store ≡ ok store)
    × (has digest store ≡ true)
    × (get toy_hashes digest store ≡ ok (canonical (canonical tree)))
    × ((other : Bytes)
        → bytes_equal digest other ≡ false
        → get toy_hashes other store ≡ get toy_hashes other new_memory_store)
get-put_example = get-put toy_hashes digest tree new_memory_store tree-IsValid tree-low

good_uri : check_uri uri ≡ ok tt
unfolding check_uri check_chars
good_uri = refl

abbrev fresh_tree : Timestamp
fresh_tree = stamp digest [] no_ops

commit_lem_example :
    (t macced : Timestamp) × (commit toy_hashes uri (1 ∷ []) 5 fresh_tree ≡ (t, ok macced))
    × (msg_of macced
        ≡ (serialized_idx 5 ++ digest) ++ mac_of toy_hashes (1 ∷ []) 5 (serialized_idx 5 ++ digest))
    × (length (msg_of macced) ≡ length digest + 12)
    × IsAttested uri macced
commit_lem_example =
    commit_lem toy_hashes uri (1 ∷ []) 5 fresh_tree toy_laws good_uri tt (omega arith)

abbrev empty_journal : Journal
empty_journal = record { content = []; offset = 0; count = 0 }

empty_journal-Holds : Holds empty_journal []
empty_journal-Holds = record { sizes = tt; in_file = refl; at_end = refl; counted = refl }

abbrev service : Service MemoryStore
service = record {
  uri = uri;
  hmac_key = 1 ∷ [];
  store = new_memory_store;
  journal = some empty_journal;
  idx = 0;
}

submit-Holds_example :
    (t macced : Timestamp) × (j : Journal) × Holds j (msg_of macced ∷ [])
    × (msg_of macced
        ≡ (serialized_idx 5 ++ digest) ++ mac_of toy_hashes (1 ∷ []) 5 (serialized_idx 5 ++ digest))
    × IsAttested uri macced
    × (submit toy_hashes (memory_storage toy_hashes) all_written true 5 service fresh_tree ≡ (
      t,
      put_macced
          (record service { journal = some j; idx = 5 % 2 ^ 32 })
          macced
          (put toy_hashes (msg_of macced) macced new_memory_store),
    ))
submit-Holds_example =
    submit-Holds toy_hashes (memory_storage toy_hashes) 5 service empty_journal [] fresh_tree
      toy_laws good_uri tt refl refl empty_journal-Holds (omega arith)
