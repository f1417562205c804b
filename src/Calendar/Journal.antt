-- ===== src/Calendar/Journal.antt =====
-- internal/calendar/journal.go: the append-only file of commitments. The model holds the bytes of
-- the file and the offset at which the next write goes; how a call of os.File ends is an argument.
-- The mutex makes every method one step.
pub mod Records
pub mod Recovery
pub mod Growth
use ots.Prelude.{
  ℕ, ◌+◌, ◌-◌, ◌*◌, ◌/◌, ◌%◌, ◌^◌, Bool, true, false, not, List, [], ◌∷◌, ◌++◌, Option, none, some,
  Bytes, length, take, drop, replicate, ltb, ◌==◌, if◌then◌else◌,
}
use ots.Result.{Result, ok, err, panicked, stuck, io_failed, bad_record_size, index_out_of_range}

abbrev pub record_size : ℕ
record_size = 44

pub record Journal : Type 0 where
  pub content : Bytes
  pub offset : ℕ
  pub count : ℕ

-- All bytes are written, or an error comes behind the first `n`.
pub data WriteEnd : Type 0 where
  all_written : WriteEnd
  write_failed : ℕ → WriteEnd

-- The file with `buf` written at `offset`; beyond the end of the file there are zeros.
unfoldable pub write_at : ℕ → Bytes → Bytes → Bytes
write_at offset buf content =
    take offset (content ++ replicate (offset - length content) 0)
    ++ (buf ++ drop (offset + length buf) content)

unfoldable pub write_file : Bytes → Journal → Journal
write_file buf j = record j {
  content = write_at j.offset buf j.content;
  offset = j.offset + length buf;
}

-- Seek, where the file now has `size` bytes.
unfoldable pub opened : Bool → ℕ → Bytes → Result Journal
opened seeks size content =
    if seeks
    then ok (record { content = content; offset = size; count = size / record_size })
    else err io_failed

-- `none` where the file cannot be opened.
unfoldable pub open_journal : Option Bytes → Bool → Bool → Result Journal
open_journal none truncates seeks = err io_failed
open_journal (some content) truncates seeks =
    let rem = length content % record_size in
    if rem == 0
    then opened seeks (length content) content
    else if truncates
    then opened seeks (length content - rem) (take (length content - rem) content)
    else err io_failed

-- The calls of os.File in Append, and the count.
unfoldable pub write_record : WriteEnd → Bool → Journal → Bytes → Journal × Result ℕ
write_record (write_failed n) synced j commitment =
    (write_file (take n commitment) j, err io_failed)
write_record all_written synced j commitment =
    let written = write_file commitment j in
    if synced
    then (
      record written { count = (written.count + 1) % 0x1_0000_0000_0000_0000 },
      ok written.count,
    )
    else (written, err io_failed)

unfoldable pub append : WriteEnd → Bool → Journal → Bytes → Journal × Result ℕ
append ends synced j commitment =
    if not (length commitment == record_size)
    then (j, err bad_record_size)
    else write_record ends synced j commitment

-- ReadAt of one record, at an offset that is computed in 64 bits and read as a signed number, with
-- whether the read itself goes well.
unfoldable pub read_at : Bool → ℕ → Bytes → Result Bytes
read_at reads start content =
    let buf = take record_size (drop start content) in
    if not (ltb start 0x8000_0000_0000_0000)
    then err io_failed
    else if not reads
    then err io_failed
    else if length buf == record_size
    then ok buf
    else err io_failed

unfoldable pub read : Bool → Journal → ℕ → Result Bytes
read reads j idx =
    if not (ltb idx j.count)
    then err index_out_of_range
    else read_at reads (idx * record_size % 0x1_0000_0000_0000_0000) j.content

abbrev pub len : Journal → ℕ
len j = j.count
