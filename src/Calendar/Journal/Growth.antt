-- ===== src/Calendar/Journal/Growth.antt =====
-- Append (internal/calendar/journal.go) on a journal in order, and behind a failed Sync.
use ots.Prelude.{
  ◌+◌, ◌*◌, ◌<◌, ◌≡◌, refl, sym, ap, ◌∙◌, arith, true, false, List, [], ◌∷◌, ◌++◌, append-nil,
  append_assoc, Bytes, All-append, length, length-append, ◌==◌, ◌%◌,
}
use ots.Result.{ok}
use ots.Calendar.Journal.{record_size, Journal, all_written, write_file, write_record, append, read}
use ots.Calendar.Journal.Records.{
  flat, HasRecordSize, Holds, record_at, flat-append, flat-append-one, content-write_file,
  offset-write_file, read-slot,
}

-- Append of 44 bytes to a journal in order gives the number of records as the index, and leaves a
-- journal in order with the new record as its last one, where the write and the sync go well and
-- the count stays below 2 ^ 64.
pub append-Holds :
    (j : Journal) (rs : List Bytes) (commitment : Bytes)
    → Holds j rs
    → length commitment ≡ record_size
    → length rs + 1 < 0x1_0000_0000_0000_0000
    → (j' : Journal) × (append all_written true j commitment ≡ (j', ok (length rs)))
      × Holds j' (rs ++ (commitment ∷ []))
unfolding append write_record
append-Holds j rs commitment v size fits =
    let fine : (length commitment == record_size) ≡ true = ground arith in
    let j' : Journal = record (write_file commitment j) {
      count = ((write_file commitment j).count + 1) % 0x1_0000_0000_0000_0000;
    } in
    (
      j',
      rw fine (unfold write_file in ap (λ n. (j', ok n)) v.counted),
      record {
        sizes = All-append HasRecordSize rs (commitment ∷ []) v.sizes (size, tt);
        in_file =
            content-write_file j commitment v.at_end
            ∙ ap (λ x. x ++ commitment) v.in_file
            ∙ sym (flat-append-one rs commitment);
        at_end = offset-write_file j commitment v.at_end;
        counted = unfold write_file in omega (arith, length-append rs (commitment ∷ []), v.counted);
      },
    )

flat-append-two : (rs : List Bytes) (r s : Bytes) → (flat rs ++ r) ++ s ≡ flat (rs ++ (r ∷ s ∷ []))
flat-append-two rs r s =
    append_assoc (flat rs) r s
    ∙ ap (λ x. flat rs ++ (r ++ x)) (sym (append-nil s))
    ∙ sym (flat-append rs (r ∷ s ∷ []))

record_at-length : (rs ss : List Bytes) (r : Bytes) → record_at (rs ++ (r ∷ ss)) (length rs) ≡ ok r
record_at-length [] ss r = refl
record_at-length (s ∷ rs) ss r = record_at-length rs ss r

-- Where Sync fails behind a full write, on a journal in order, the commitment stays in the file but
-- is not counted: for the next commitment, which is written and synced, Append answers with the
-- index at which Read then gives, where ReadAt goes well, the one that failed. The file is to stay below 2 ^ 63 bytes.
pub append-failed_sync :
    (j : Journal) (rs : List Bytes) (failed commitment : Bytes)
    → Holds j rs
    → length failed ≡ record_size
    → length commitment ≡ record_size
    → (length rs + 2) * record_size < 0x8000_0000_0000_0000
    → (j' : Journal) × (append all_written true (append all_written false j failed).0 commitment
        ≡ (j', ok (length rs)))
      × (read true j' (length rs) ≡ ok failed)
unfolding append write_record
append-failed_sync j rs failed commitment v size size' fits =
    let fine : (length failed == record_size) ≡ true = ground arith in
    let fine' : (length commitment == record_size) ≡ true = ground arith in
    let j₁ : Journal = write_file failed j in
    let j₂ : Journal = write_file commitment j₁ in
    let all : List Bytes = rs ++ (failed ∷ commitment ∷ []) in
    let counted : j₂.count ≡ length rs = unfold write_file in v.counted in
    let j' : Journal = record j₂ { count = (j₂.count + 1) % 0x1_0000_0000_0000_0000 } in
    let in_file : j₂.content ≡ flat all =
      content-write_file j₁ commitment (offset-write_file j failed v.at_end)
      ∙ ap (λ x. x ++ commitment) (content-write_file j failed v.at_end)
      ∙ ap (λ x. (x ++ failed) ++ commitment) v.in_file
      ∙ flat-append-two rs failed commitment in
    (
      j',
      rw (fine, fine') (ap (λ n. (j', ok n)) counted),
      read-slot j' all (length rs) (All-append HasRecordSize rs _ v.sizes (size, (size', tt)))
            in_file (omega (arith, length-append rs (failed ∷ commitment ∷ [])))
            (omega (arith, counted)) (omega (arith, length-append rs (failed ∷ commitment ∷ [])))
          ∙ record_at-length rs (commitment ∷ []) failed,
    )
