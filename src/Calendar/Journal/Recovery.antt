-- ===== src/Calendar/Journal/Recovery.antt =====
-- OpenJournal (internal/calendar/journal.go) after a crash.
use ots.Prelude.{
  ℕ, zero, suc, ◌+◌, ◌-◌, ◌*◌, ◌≤◌, ◌<◌, ◌≡◌, refl, arith, Bool, true, false, List, [], ◌∷◌, ◌++◌,
  append-nil, some, Bytes, All, length, length-append, take, take-length-append, ◌==◌, ◌/◌, ◌%◌,
}
use ots.Result.{ok}
use ots.Calendar.Journal.{
  record_size, Journal, write_failed, opened, open_journal, write_record, append,
}
use ots.Calendar.Journal.Records.{flat, HasRecordSize, Holds, length-flat, content-write_file}

is_multiple : (n : ℕ) → n ≡ 0 → (n == 0) ≡ true
is_multiple n e = ground arith

no_multiple : (n : ℕ) → 1 ≤ n → (n == 0) ≡ false
no_multiple n e = ground arith

open_whole :
    (rs : List Bytes)
    → All HasRecordSize rs
    → (j : Journal) × (open_journal (some (flat rs)) true true ≡ ok j) × Holds j rs
unfolding open_journal opened
open_whole rs v =
    let size : length (flat rs) ≡ length rs * record_size = length-flat rs v in
    (
      record {
        content = flat rs;
        offset = length (flat rs);
        count = length (flat rs) / record_size;
      },
      rw (is_multiple (length (flat rs) % record_size) (omega arith)) refl,
      record { sizes = v; in_file = refl; at_end = refl; counted = omega arith },
    )

open_cut :
    (rs : List Bytes) (partial : Bytes)
    → All HasRecordSize rs
    → 1 ≤ length partial
    → length partial < record_size
    → (j : Journal) × (open_journal (some (flat rs ++ partial)) true true ≡ ok j) × Holds j rs
unfolding open_journal opened
open_cut rs partial v some_bytes short =
    let size : length (flat rs) ≡ length rs * record_size = length-flat rs v in
    let whole : length (flat rs ++ partial) ≡ length (flat rs) + length partial =
      length-append (flat rs) partial in
    let kept : length (flat rs ++ partial) - length (flat rs ++ partial) % record_size
        ≡ length (flat rs) =
      omega arith in
    let front : take (length (flat rs)) (flat rs ++ partial) ≡ flat rs =
      take-length-append (flat rs) partial in
    (
      record {
        content = flat rs;
        offset = length (flat rs);
        count = length (flat rs) / record_size;
      },
      rw (no_multiple (length (flat rs ++ partial) % record_size) (omega arith)) (rw (kept, front)),
      record { sizes = v; in_file = refl; at_end = refl; counted = omega arith },
    )

-- OpenJournal, where the calls of os.File go well, on a file of whole records and a part of one:
-- it gives a journal in order that holds the whole records.
pub open_journal-Holds :
    (rs : List Bytes) (partial : Bytes)
    → All HasRecordSize rs
    → length partial < record_size
    → (j : Journal) × (open_journal (some (flat rs ++ partial)) true true ≡ ok j) × Holds j rs
open_journal-Holds rs [] v short = rw (append-nil (flat rs)) (open_whole rs v)
open_journal-Holds rs (b ∷ partial) v short = open_cut rs (b ∷ partial) v (omega arith) short

length-take : (n : ℕ) (xs : Bytes) → length (take n xs) ≤ n
length-take zero xs = omega arith
length-take (suc n) [] = omega arith
length-take (suc n) (x ∷ xs) = omega (arith, length-take n xs)

-- A crash in the middle of Append, that leaves fewer than 44 bytes of the commitment in the file of
-- a journal in order: OpenJournal, where the calls of os.File go well, gives a journal in order
-- with the records from before.
pub append-crash :
    (j : Journal) (rs : List Bytes) (commitment : Bytes) (written : ℕ) (synced : Bool)
    → Holds j rs
    → length commitment ≡ record_size
    → written < record_size
    → (j' : Journal) × (open_journal
          (some ((append (write_failed written) synced j commitment).0.content))
          true
          true
        ≡ ok j')
      × Holds j' rs
unfolding append write_record
append-crash j rs commitment written synced v size short =
    let fine : (length commitment == record_size) ≡ true = ground arith in
    rw fine (
      rw (content-write_file j (take written commitment) v.at_end, v.in_file)
        (open_journal-Holds rs (take written commitment) v.sizes
          (omega (arith, length-take written commitment))))
