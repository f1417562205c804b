-- ===== src/Calendar/Service/Submitted.antt =====
-- Submit (internal/calendar/calendar.go) with a journal: the commitment is in the journal before it
-- goes to the store.
use ots.Prelude.{
  ℕ, ◌+◌, ◌%◌, ◌^◌, ◌<◌, ◌≡◌, refl, arith, true, List, [], ◌∷◌, ◌++◌, some, Bytes, length,
}
use ots.Result.{ok}
use ots.Op.{Hashes, HashLaws}
use ots.Notary.{check_uri}
use ots.Timestamp.{Timestamp, msg_of, ops_of}
use ots.Timestamp.Tree.{IsValidOps}
use ots.Calendar.Journal.{Journal, all_written}
use ots.Calendar.Journal.Records.{Holds}
use ots.Calendar.Journal.Growth.{append-Holds}
use ots.Calendar.Store.{Storage}
use ots.Calendar.Service.{
  Service, serialized_idx, mac_of, put_macced, journaled, keep, keep_committed, submit,
}
use ots.Calendar.Service.Commitments.{commit_lem, IsAttested}

-- A 32-byte message whose operations so far are valid, submitted to a service with a URI that
-- CheckURI accepts and a journal in order, where the write and the sync go well, the count stays
-- below 2 ^ 64 and the hash functions give digests of their lengths: the commitment,
-- which is the time, the message and the MAC of both, is the last record of the journal, which is in
-- order again, and the store and the answer are what the store's Put makes of the node with that
-- message, whose last attestation is the pending one with the service's URI.
pub submit-Holds :
    {S : Type 0} (h : Hashes) (storage : Storage S) (now : ℕ) (s : Service S) (j : Journal)
    (rs : List Bytes) (submitted : Timestamp)
    → HashLaws h
    → check_uri s.uri ≡ ok tt
    → IsValidOps h (msg_of submitted) (ops_of submitted)
    → length (msg_of submitted) ≡ 32
    → s.journal ≡ some j
    → Holds j rs
    → length rs + 1 < 0x1_0000_0000_0000_0000
    → (t macced : Timestamp) × (j' : Journal) × Holds j' (rs ++ (msg_of macced ∷ []))
      × (msg_of macced
          ≡ (serialized_idx (now % 2 ^ 32) ++ msg_of submitted)
            ++ mac_of h s.hmac_key
                (now % 2 ^ 32)
                (serialized_idx (now % 2 ^ 32) ++ msg_of submitted))
      × IsAttested s.uri macced
      × (submit h storage all_written true now s submitted ≡ (
        t,
        put_macced
            (record s { journal = some j'; idx = now % 2 ^ 32 })
            macced
            (storage.put (msg_of macced) macced s.store),
      ))
unfolding submit keep_committed keep journaled
submit-Holds h storage now s j rs submitted laws good v size has_journal holds fits =
    let idx : ℕ = now % 2 ^ 32 in
    let (t, macced, commits, message, long, attested) =
      commit_lem h s.uri s.hmac_key idx submitted laws good v (omega (arith, size)) in
    let (j', appends, holds') =
      append-Holds j rs (msg_of macced) holds (omega (arith, long, size)) fits in
    (t, macced, j', holds', message, attested, rw commits (rw has_journal (rw appends refl)))
