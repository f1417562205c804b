-- ===== src/Stamper/Tracked.antt =====
-- step (internal/stamper/stamper.go) on a journal in order: what the stamper has read from the journal is
-- never lost.
pub mod Anchored
pub mod Recovered
pub mod History
use ots.Prelude.{
  zero, suc, ◌*◌, ◌+◌, ◌<◌, All, ◌≢◌, ap, ◌∙◌, true, false, not, ◌∷◌, ◌++◌, ◌||◌, ltb, ◌==◌,
  bytes_equal, le→ltb-false, if◌then◌else◌, Bool-cases, Option, none, some,
}
use ots.Prelude.Int.{int_less, pos}
use ots.Result.{Result}
use ots.Op.{sha256}
use ots.Calendar.Journal
use ots.Calendar.Journal.{Journal, record_size}
use ots.Calendar.Journal.Records.{Holds, HasRecordSize, record_at, read_record, read-Holds}
use ots.Stamper.{UnconfirmedTx, Stamper, is_in, put_pending, ingest_next, ingest, is_pending}
use ots.Stamper.Queue.{is_in-put_pending, is_in-put_pending_self}
