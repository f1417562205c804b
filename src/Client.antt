-- ===== src/Client.antt =====
-- pkg/ots/stamp.go and pkg/ots/upgrade.go: stamping by a calendar client, and the wait for a Bitcoin
-- attestation. The client's calls over HTTP are functions; what a calendar answers may differ from
-- poll to poll.
pub mod Waiting
pub mod Pool
use ots.Prelude.{ℕ, Bool, true, false, List, [], ◌∷◌, Bytes, if◌then◌else◌}
use ots.Result.{Result, ok, err, panicked, stuck, ◌>>=◌, context_done}
use ots.Op.{Hashes, ReadEnd}
use ots.Timestamp.{Timestamp, new, merge, Merging}
use ots.Timestamp.Detached.{Detached, new_detached, from_reader, file_digest}
use ots.Verify.{Upgrader}
use ots.Verify.Upgrade.{upgrade, is_complete}

abbrev pub Submitter : Type 0
Submitter = Bytes → Result Timestamp

-- The file with the tree as Merge leaves it.
unfoldable pub with_merged : Merging → Result Detached
with_merged (t, ok u) = ok (record { timestamp = t })
with_merged (t, err e) = err e
with_merged (t, panicked) = panicked
with_merged (t, stuck) = stuck

unfoldable pub stamp_digest : Hashes → Submitter → Bytes → Result Detached
stamp_digest h submit digest = do
  root ← new digest
  det ← new_detached root
  proof ← submit digest
  with_merged (merge h det.timestamp proof)

unfoldable pub stamp_file : Hashes → Submitter → List (Bytes × ReadEnd) → Result Detached
stamp_file h submit file = do
  det ← from_reader h file
  proof ← submit (file_digest det)
  with_merged (merge h det.timestamp proof)

-- One round of the loop behind Upgrade: `wait` is the rest of the loop.
unfoldable pub after_upgrade : Timestamp × Result Bool → (Timestamp → Merging) → Merging
after_upgrade (t, ok gained) wait = let rest = wait t in if is_complete t then (t, ok tt) else rest
after_upgrade (t, err e) wait = (t, err e)
after_upgrade (t, panicked) wait = (t, panicked)
after_upgrade (t, stuck) wait = (t, stuck)

-- The calendars as they answer at the first poll and at each later one; behind the last of them the
-- context is done.
unfoldable pub upgrade_until_confirmed : Hashes → Upgrader → List Upgrader → Timestamp → Merging
upgrade_until_confirmed h up [] t = after_upgrade (upgrade h up t) λ t'. (t', err context_done)
upgrade_until_confirmed h up (next ∷ ups) t =
    after_upgrade (upgrade h up t) λ t'. upgrade_until_confirmed h next ups t'
