-- ===== src/Stamper/Tracked/History.antt =====
-- The stamper (internal/stamper/stamper.go) along with the journal it reads (internal/calendar/journal.go)
-- and the store it shares with the calendar service: ticks, records that are appended and trees that are
-- stored meanwhile, and restarts, in any order.
use ots.Prelude.{ℕ, ◌*◌, ◌+◌, ◌<◌, ◌≡◌, Bool, true, List, [], ◌∷◌, ◌++◌, Bytes, length, some, ◌⊎◌}
use ots.Result.{ok}
use ots.Op.{Hashes}
use ots.Timestamp.{Timestamp}
use ots.Timestamp.Shared.{Heap}
use ots.Calendar.Journal.{Journal, record_size, all_written, write_failed, append, open_journal}
use ots.Calendar.Store.{Storage}
use ots.Stamper.{Config, Backend, Stamper, recover, new_stamper}
use ots.Stamper.Step.{step}
use ots.Stamper.Safe.{AnyFinal}
use ots.Stamper.Tracked.Anchored.{IsAnchoredIn}

-- What happens to the journal's records and the stamper: a tick, with any answers of the Bitcoin node
-- and of the reads of the journal, and at any time; an Append that succeeds; a Put that succeeds, of any
-- tree under any key; a crash in the middle of an Append, that leaves a part of the commitment in the
-- file, and a start with a new stamper over the same file and store, whose Recover succeeds.
pub data History {ℓ} {S : Type ℓ} (h : Hashes) (storage : Storage S) (rs : List Bytes)
    (s : Stamper S) : List Bytes → Stamper S → Type ℓ where
  start : History h storage rs s rs s
  ticked :
      {rs' : List Bytes} {s' : Stamper S} (btc : Backend) (cfg : Config) (now : ℕ)
      (reads : ℕ → Bool)
      → History h storage rs s rs' s'
      → History h storage rs s rs' (step h storage btc cfg now reads s').0
  appended :
      {rs' : List Bytes} {s' : Stamper S} (commitment : Bytes)
      → length commitment ≡ record_size
      → (length rs' + 1) * record_size < 0x8000_0000_0000_0000
      → History h storage rs s rs' s'
      → History h storage rs s
          (rs' ++ (commitment ∷ []))
          (record s' { journal = (append all_written true s'.journal commitment).0 })
  stored :
      {rs' : List Bytes} {s' : Stamper S} (key : Bytes) (t : Timestamp) (store' : S)
      → storage.put key t s'.store ≡ ok store'
      → History h storage rs s rs' s'
      → History h storage rs s rs' (record s' { store = store' })
  restarted :
      {rs' : List Bytes} {s' s'' : Stamper S} (commitment : Bytes) (written : ℕ) (j : Journal)
      (heap : Heap) (reads : ℕ → Bool)
      → length commitment ≡ record_size
      → written < record_size
      → open_journal
          (some (append (write_failed written) true s'.journal commitment).0.content)
          true
          true
        ≡ ok j
      → recover storage reads (new_stamper j s'.store heap) ≡ (s'', ok tt)
      → History h storage rs s rs' s'
      → History h storage rs s rs' s''

pub data Never {ℓ} : Type ℓ where

module _ {ℓ} {S : Type ℓ} (h : Hashes) (storage : Storage S) where
  -- Since the last restart, some tick made the commitment final, or else the store had a tree with a
  -- Bitcoin attestation for it at that restart.
  unfoldable pub WasSettled :
      {rs : List Bytes} {s : Stamper S} {rs' : List Bytes} {s' : Stamper S}
      → History h storage rs s rs' s'
      → Bytes
      → Type ℓ
  WasSettled start c = Never
  WasSettled (ticked {s'} btc cfg now reads before) c =
      WasSettled before c
      ⊎ AnyFinal h storage btc cfg c (step h storage btc cfg now reads s').0.store s'.unconfirmed
  WasSettled (appended d size fits before) c = WasSettled before c
  WasSettled (stored key t store' put_lem before) c = WasSettled before c
  WasSettled (restarted {s'} d written j heap reads size part opens run before) c =
      IsAnchoredIn storage s'.store c
