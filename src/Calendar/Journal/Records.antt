-- ===== src/Calendar/Journal/Records.antt =====
-- The journal (internal/calendar/journal.go) as a list of records.
use ots.Prelude.{
  Bool, true, false, if◌then◌else◌, ℕ, zero, suc, ◌+◌, ◌-◌, ◌*◌, ◌≤◌, ◌<◌, ◌≡◌, refl, sym, ap, ◌∙◌,
  arith, List, [], ◌∷◌, ◌++◌, append-nil, append_assoc, Bytes, All, length, length-append, take,
  drop, take-length-append, ltb, lt→ltb, ltb→lt, Bool-cases, inl, inr, ◌%◌,
}
use ots.Result.{Result, ok, err, index_out_of_range, io_failed}
use ots.Calendar.Journal.{record_size, Journal, write_at, write_file, read_at, read}

abbrev pub flat : List Bytes → Bytes
flat [] = []
flat (r ∷ rs) = r ++ flat rs

abbrev pub HasRecordSize : Bytes → Type 0
HasRecordSize r = length r ≡ record_size

-- The journal is in order and holds these records.
pub record Holds (j : Journal) (rs : List Bytes) : Type 0 where
  pub sizes : All HasRecordSize rs
  pub in_file : j.content ≡ flat rs
  pub at_end : j.offset ≡ length j.content
  pub counted : j.count ≡ length rs

-- The record at an index, or the error of Read.
abbrev pub record_at : List Bytes → ℕ → Result Bytes
record_at [] idx = err index_out_of_range
record_at (r ∷ rs) zero = ok r
record_at (r ∷ rs) (suc idx) = record_at rs idx

pub length-flat :
    (rs : List Bytes) → All HasRecordSize rs → length (flat rs) ≡ length rs * record_size
length-flat [] v = refl
length-flat (r ∷ rs) v = omega (arith, length-append r (flat rs), length-flat rs v.1, v.0)

pub flat-append : (rs ss : List Bytes) → flat (rs ++ ss) ≡ flat rs ++ flat ss
flat-append [] ss = refl
flat-append (r ∷ rs) ss =
    ap (λ x. r ++ x) (flat-append rs ss) ∙ sym (append_assoc r (flat rs) (flat ss))

drop_all : (n : ℕ) (xs : Bytes) → length xs ≤ n → drop n xs ≡ []
drop_all zero [] h = refl
drop_all zero (x ∷ xs) h = absurd (omega arith)
drop_all (suc n) [] h = refl
drop_all (suc n) (x ∷ xs) h = drop_all n xs (omega arith)

drop-past : (xs ys : Bytes) (n : ℕ) → drop (length xs + n) (xs ++ ys) ≡ drop n ys
drop-past [] ys n = let e : 0 + n ≡ n = omega arith in rw e
drop-past (x ∷ xs) ys n =
    let e : suc (length xs) + n ≡ suc (length xs + n) = omega arith in rw e (drop-past xs ys n)

-- A write at the end of the file appends.
write_at_end : (content buf : Bytes) → write_at (length content) buf content ≡ content ++ buf
unfolding write_at
write_at_end content buf =
    let no_gap : length content - length content ≡ 0 = omega arith in
    rw (no_gap, drop_all (length content + length buf) content (omega arith))
      (rw (take-length-append content [], append-nil buf))

-- The file behind a write at the end.
pub content-write_file :
    (j : Journal) (buf : Bytes)
    → j.offset ≡ length j.content
    → (write_file buf j).content ≡ j.content ++ buf
unfolding write_file
content-write_file j buf at_end = rw at_end (write_at_end j.content buf)

pub offset-write_file :
    (j : Journal) (buf : Bytes)
    → j.offset ≡ length j.content
    → (write_file buf j).offset ≡ length (write_file buf j).content
offset-write_file j buf at_end =
    let moved : (write_file buf j).offset ≡ j.offset + length buf = unfold write_file in refl in
    omega (
      arith,
      moved,
      at_end,
      ap length (content-write_file j buf at_end),
      length-append j.content buf,
    )

pub flat-append-one : (rs : List Bytes) (r : Bytes) → flat (rs ++ (r ∷ [])) ≡ flat rs ++ r
flat-append-one rs r = flat-append rs (r ∷ []) ∙ ap (λ x. flat rs ++ x) (append-nil r)

-- The slot of a record in the file.
slot :
    (rs : List Bytes) (idx : ℕ)
    → All HasRecordSize rs
    → idx < length rs
    → (r : Bytes) × (record_at rs idx ≡ ok r)
      × (length r ≡ record_size)
      × (take record_size (drop (idx * record_size) (flat rs)) ≡ r)
slot [] idx v inside = absurd (omega arith)
slot (r ∷ rs) zero v inside = (r, refl, v.0, rw v.0 at (take-length-append r (flat rs)))
slot (r ∷ rs) (suc idx) v inside =
    let (s, found, size, there) = slot rs idx v.1 (omega arith) in
    let start : suc idx * record_size ≡ length r + idx * record_size = omega (arith, v.0) in
    (s, found, size, rw start (rw (drop-past r (flat rs) (idx * record_size)) there))

record_at_out :
    (rs : List Bytes) (idx : ℕ) → length rs ≤ idx → record_at rs idx ≡ err index_out_of_range
record_at_out [] idx h = refl
record_at_out (r ∷ rs) zero h = absurd (omega arith)
record_at_out (r ∷ rs) (suc idx) h = record_at_out rs idx (omega arith)

-- Read where the file holds these records, whatever the count is.
pub read-slot :
    (j : Journal) (rs : List Bytes) (idx : ℕ)
    → All HasRecordSize rs
    → j.content ≡ flat rs
    → idx < length rs
    → idx < j.count
    → length rs * record_size < 0x8000_0000_0000_0000
    → read true j idx ≡ record_at rs idx
unfolding read read_at
read-slot j rs idx sizes in_file below inside fits =
    let (r, found, size, there) = slot rs idx sizes below in
    let low : idx * record_size < 0x8000_0000_0000_0000 = omega (arith, below, fits) in
    let small : idx * record_size % 0x1_0000_0000_0000_0000 ≡ idx * record_size =
      omega (arith, low) in
    rw (lt→ltb idx j.count inside, small, lt→ltb (idx * record_size) 0x8000_0000_0000_0000 low)
      (rw (in_file, there, size, found))

-- The record at an index, where its read goes well, or the error of Read.
abbrev pub read_record : Bool → List Bytes → ℕ → Result Bytes
read_record reads [] idx = err index_out_of_range
read_record reads (r ∷ rs) zero = if reads then ok r else err io_failed
read_record reads (r ∷ rs) (suc idx) = read_record reads rs idx

read_record-reads : (rs : List Bytes) (idx : ℕ) → record_at rs idx ≡ read_record true rs idx
read_record-reads [] idx = refl
read_record-reads (r ∷ rs) zero = refl
read_record-reads (r ∷ rs) (suc idx) = read_record-reads rs idx

read_record_out :
    (reads : Bool) (rs : List Bytes) (idx : ℕ)
    → length rs ≤ idx
    → read_record reads rs idx ≡ err index_out_of_range
read_record_out reads [] idx h = refl
read_record_out reads (r ∷ rs) zero h = absurd (omega arith)
read_record_out reads (r ∷ rs) (suc idx) h = read_record_out reads rs idx (omega arith)

read_record_failed :
    (rs : List Bytes) (idx : ℕ) → idx < length rs → read_record false rs idx ≡ err io_failed
read_record_failed [] idx inside = absurd (omega arith)
read_record_failed (r ∷ rs) zero inside = refl
read_record_failed (r ∷ rs) (suc idx) inside = read_record_failed rs idx (omega arith)

-- Read of any index on a journal in order, of fewer than 2 ^ 63 bytes, gives the record at that index
-- where ReadAt goes well, the error of ReadAt where it fails, and the error for an index out of range
-- where there is no record, without a ReadAt.
pub read-Holds :
    (reads : Bool) (j : Journal) (rs : List Bytes) (idx : ℕ)
    → Holds j rs
    → length rs * record_size < 0x8000_0000_0000_0000
    → read reads j idx ≡ read_record reads rs idx
read-Holds reads j rs idx v fits = elim (Bool-cases (ltb idx j.count)) [
  | inr out ↦ unfold read in rw out (sym (read_record_out reads rs idx (ground (arith, v.counted))))
  | inl inside ↦
      let below : idx < j.count = ltb→lt idx j.count inside in inside_read reads below inside
]
  where
    inside_read :
        (b : Bool) → idx < j.count → ltb idx j.count ≡ true → read b j idx ≡ read_record b rs idx
    inside_read true below inside =
        read-slot j rs idx v.sizes v.in_file (omega (arith, v.counted, below)) below fits
        ∙ read_record-reads rs idx
    inside_read false below inside =
        let low : idx * record_size < 0x8000_0000_0000_0000 =
          omega (arith, below, v.counted, fits) in
        let small : idx * record_size % 0x1_0000_0000_0000_0000 ≡ idx * record_size =
          omega (arith, low) in
        let there : idx < length rs = omega (arith, v.counted, below) in
        unfold read read_at in
        rw (inside, small, lt→ltb (idx * record_size) 0x8000_0000_0000_0000 low)
          (sym (read_record_failed rs idx there))
