-- ===== src/Examples/Stamping.antt =====
-- A stamper over a journal to which a record is appended, and that is started again after a crash.
use ots.Prelude.{
  ℕ, ◌*◌, ◌<◌, ◌≡◌, refl, arith, Bool, true, false, [], ◌∷◌, some, none, List, Bytes, replicate,
  length, Option, ◌⊎◌,
}
use ots.Prelude.Int.{pos}
use ots.Result.{Result, ok, err, io_failed, commitment_not_found}
use ots.Notary.{pending}
use ots.Timestamp.{Timestamp, stamp, no_ops}
use ots.Timestamp.Shared.{Heap, fresh}
use ots.Calendar.Journal.{Journal, record_size, all_written, write_failed, append, open_journal}
use ots.Calendar.Journal.Records.{Holds}
use ots.Calendar.Store.{MemoryStore, Storage, lookup, has}
use ots.Stamper.{Config, Backend, Stamper, new_stamper, recover, is_pending, ingest_journal}
use ots.Stamper.Step.{step}
use ots.Stamper.Kept.{IsTracking}
use ots.Stamper.Tracked.Anchored.{IsAnchoredIn, HasReturned}
use ots.Stamper.Tracked.Recovered.{recover-IsTracking}
use ots.Stamper.Tracked.History.{History, start, appended, stored, ticked, restarted}
use ots.Examples.Data.{toy_hashes, uri}

abbrev commitment : Bytes
commitment = replicate 44 1

abbrev found : Option Timestamp → Result Timestamp
found none = err commitment_not_found
found (some t) = ok t

-- A store that keeps trees as they are.
abbrev storage : Storage MemoryStore
storage = record {
  put = λ c t store. ok ((c, t) ∷ store);
  get = λ c store. found (lookup c store);
  has = has;
}

found-HasReturned : (o : Option Timestamp) → HasReturned (found o)
found-HasReturned none = tt
found-HasReturned (some t) = tt

-- What Submit stores: a tree that is only pending.
abbrev submitted : MemoryStore
submitted = (commitment, stamp commitment (pending uri ∷ []) no_ops) ∷ []

abbrev nodes : Heap
nodes = record { next = 0; node = λ t. fresh [] }

abbrev all_read : ℕ → Bool
all_read i = true

abbrev journal : Journal
journal = record { content = commitment; offset = 44; count = 1 }

journal-Holds : Holds journal (commitment ∷ [])
journal-Holds = record { sizes = (refl, tt); in_file = refl; at_end = refl; counted = refl }

abbrev stamper : Stamper MemoryStore
stamper = new_stamper journal submitted nodes

abbrev config : Config
config = record {
  min_confirmations = pos 6;
  min_tx_interval = 60;
  max_fee = 1000;
  max_pending = pos 10;
}

-- A node that sends every transaction, and knows no block yet.
abbrev node : Backend
node = record {
  tx_status = λ txid. some (record { confirmations = pos 0; block_hash = none });
  block_tx_ids = λ block_hash. none;
  block_header = λ height. none;
  send_op_return = λ message fee. some (replicate 32 9, message);
  strip_witness = λ raw. some raw;
}

recover-IsTracking_example :
    ((s : Stamper MemoryStore) × (recover storage all_read stamper ≡ (s, ok tt))
      × (s.cursor ≡ 1)
      × IsTracking (λ c. IsAnchoredIn storage submitted c) (commitment ∷ []) s)
    ⊎ ((s : Stamper MemoryStore) × (i : ℕ) × (recover storage all_read stamper ≡ (s, err io_failed))
        × (i < 1)
        × (all_read i ≡ false))
recover-IsTracking_example =
    recover-IsTracking storage all_read (commitment ∷ []) stamper journal-Holds (omega arith)
      (λ i c there. found-HasReturned (lookup c submitted))

-- The stamper at the start, and after each event.
abbrev at_start : Stamper MemoryStore
at_start = new_stamper (record { content = []; offset = 0; count = 0 }) [] nodes

abbrev with_record : Stamper MemoryStore
with_record = record at_start { journal = (append all_written true at_start.journal commitment).0 }

abbrev with_tree : Stamper MemoryStore
with_tree = record with_record { store = submitted }

abbrev ticked_once : Stamper MemoryStore
ticked_once = (step toy_hashes storage node config 5 all_read with_tree).0

abbrev started_again : Stamper MemoryStore
started_again = record {
  journal = journal;
  store = submitted;
  pending = commitment ∷ [];
  unconfirmed = [];
  cursor = 1;
  last_tx_time = none;
  heap = nodes;
}

opened_again :
    open_journal
      (some (append (write_failed 20) true ticked_once.journal commitment).0.content)
      true
      true
    ≡ ok journal
unfolding step ingest_journal ots.Stamper.Step.send_next ots.Stamper.Confirm.track_confirmations
    ots.Stamper.Confirm.track_all ots.Stamper.ingest ots.Prelude.Int.int_less
    ots.Stamper.ingest_next ots.Calendar.Journal.read ots.Calendar.Journal.read_at
    ots.Stamper.Send.maybe_send_tx ots.Stamper.put_pending ots.Stamper.is_in
    ots.Stamper.Send.send_batch ots.Stamper.Send.gather_leaves ots.Stamper.Send.start_leaf
    ots.Timestamp.Shared.new ots.Stamper.Send.add_leaf ots.Timestamp.Shared.add_op ots.Op.apply
    ots.Op.apply_unary ots.Timestamp.Shared.child_or_new ots.Timestamp.Shared.append_op
    ots.Timestamp.Shared.find_op ots.Op.equal ots.Timestamp.Shared.make_merkle_tree
    ots.Timestamp.Shared.join_levels ots.Timestamp.Shared.join_level ots.Timestamp.Shared.next_level
    ots.Stamper.Send.with_tip ots.Stamper.Send.send_tip ots.Stamper.Send.sent append
    ots.Calendar.Journal.write_record ots.Calendar.Journal.write_file ots.Calendar.Journal.write_at
    open_journal ots.Calendar.Journal.opened
opened_again = refl

recovered_again :
    recover storage all_read (new_stamper journal ticked_once.store nodes) ≡ (started_again, ok tt)
unfolding step ingest_journal ots.Stamper.Step.send_next ots.Stamper.Confirm.track_confirmations
    ots.Stamper.Confirm.track_all ots.Stamper.ingest ots.Prelude.Int.int_less
    ots.Stamper.ingest_next ots.Calendar.Journal.read ots.Calendar.Journal.read_at
    ots.Stamper.Send.maybe_send_tx ots.Stamper.put_pending ots.Stamper.is_in
    ots.Stamper.Send.send_batch ots.Stamper.Send.gather_leaves ots.Stamper.Send.start_leaf
    ots.Timestamp.Shared.new ots.Stamper.Send.add_leaf ots.Timestamp.Shared.add_op ots.Op.apply
    ots.Op.apply_unary ots.Timestamp.Shared.child_or_new ots.Timestamp.Shared.append_op
    ots.Timestamp.Shared.find_op ots.Op.equal ots.Timestamp.Shared.make_merkle_tree
    ots.Timestamp.Shared.join_levels ots.Timestamp.Shared.join_level ots.Timestamp.Shared.next_level
    ots.Stamper.Send.with_tip ots.Stamper.Send.send_tip ots.Stamper.Send.sent append
    ots.Calendar.Journal.write_record ots.Calendar.Journal.write_file ots.Calendar.Journal.write_at
    recover ots.Stamper.recover_from ots.Stamper.recover_next ots.Stamper.recover_with
    ots.Stamper.is_confirmed lookup ots.Verify.Upgrade.has_bitcoin ots.Timestamp.all_attestations
    ots.Prelude.bytes_equal
recovered_again = refl

abbrev history : History toy_hashes storage [] at_start (commitment ∷ []) started_again
history =
    restarted commitment 20 journal nodes all_read refl (omega arith) opened_again recovered_again (
      ticked node config 5 all_read (
        stored commitment (stamp commitment (pending uri ∷ []) no_ops) submitted refl
          (appended commitment refl (omega arith) start)))
