-- ===== src/Stamper/Step.antt =====
-- step (internal/stamper/stamper.go): one tick of the stamper.
use ots.Prelude.{ℕ, Bool}
use ots.Result.{Result, ok, err, panicked, stuck}
use ots.Op.{Hashes}
use ots.Calendar.Store.{Storage}
use ots.Stamper.{Config, Backend, Stamper, ingest_journal}
use ots.Stamper.Confirm.{track_confirmations}
use ots.Stamper.Send.{maybe_send_tx}

-- A panic in the second part ends the program before the third.
unfoldable pub send_next {ℓ} :
    {S : Type ℓ}
    → Hashes
    → Backend
    → Config
    → ℕ
    → Stamper S × Result (Unit {0})
    → Stamper S × Result (Unit {0})
send_next h btc cfg now (s, ok u) = (maybe_send_tx h btc cfg now s, ok tt)
send_next h btc cfg now (s, err e) = (s, err e)
send_next h btc cfg now (s, panicked) = (s, panicked)
send_next h btc cfg now (s, stuck) = (s, stuck)

-- `reads` tells whether the ReadAt of a journal record goes well.
unfoldable pub step {ℓ} :
    {S : Type ℓ}
    → Hashes
    → Storage S
    → Backend
    → Config
    → ℕ
    → (ℕ → Bool)
    → Stamper S
    → Stamper S × Result (Unit {0})
step h storage btc cfg now reads s =
    send_next h btc cfg now (track_confirmations h storage btc cfg (ingest_journal cfg reads s))
