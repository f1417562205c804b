-- ===== src/Examples/Journals.antt =====
-- A journal with one record.
use ots.Prelude.{ℕ, ◌≡◌, refl, arith, true, false, [], ◌∷◌, ◌++◌, some, Bytes, replicate}
use ots.Result.{ok, err, io_failed}
use ots.Calendar.Journal.{Journal, all_written, write_failed, open_journal, append, read}
use ots.Calendar.Journal.Records.{Holds, flat, read-Holds}
use ots.Calendar.Journal.Recovery.{open_journal-Holds, append-crash}
use ots.Calendar.Journal.Growth.{append-Holds, append-failed_sync}

abbrev commitment : ℕ → Bytes
commitment b = replicate 44 b

abbrev journal : Journal
journal = record { content = commitment 1; offset = 44; count = 1 }

journal-Holds : Holds journal (commitment 1 ∷ [])
journal-Holds = record { sizes = (refl, tt); in_file = refl; at_end = refl; counted = refl }

open_journal-Holds_example :
    (j : Journal) × (open_journal (some (flat (commitment 1 ∷ []) ++ (7 ∷ 7 ∷ []))) true true
      ≡ ok j)
    × Holds j (commitment 1 ∷ [])
open_journal-Holds_example =
    open_journal-Holds (commitment 1 ∷ []) (7 ∷ 7 ∷ []) (refl, tt) (omega arith)

append-Holds_example :
    (j : Journal) × (append all_written true journal (commitment 2) ≡ (j, ok 1))
    × Holds j (commitment 1 ∷ commitment 2 ∷ [])
append-Holds_example =
    append-Holds journal (commitment 1 ∷ []) (commitment 2) journal-Holds refl (omega arith)

read-Holds_example : read false journal 0 ≡ err io_failed
read-Holds_example = read-Holds false journal (commitment 1 ∷ []) 0 journal-Holds (omega arith)

append-crash_example :
    (j : Journal) × (open_journal
        (some ((append (write_failed 5) false journal (commitment 2)).0.content))
        true
        true
      ≡ ok j)
    × Holds j (commitment 1 ∷ [])
append-crash_example =
    append-crash journal (commitment 1 ∷ []) (commitment 2) 5 false journal-Holds refl (omega arith)

append-failed_sync_example :
    (j : Journal) × (append all_written true
        (append all_written false journal (commitment 2)).0
        (commitment 3)
      ≡ (j, ok 1))
    × (read true j 1 ≡ ok (commitment 2))
append-failed_sync_example =
    append-failed_sync journal (commitment 1 ∷ []) (commitment 2) (commitment 3) journal-Holds refl
      refl (omega arith)
