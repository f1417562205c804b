-- ===== src/Examples/Aggregating.antt =====
-- An aggregator with one request, over a store that only lists the commitments put into it.
use ots.Prelude.{◌≡◌, refl, ap, true, false, List, [], ◌∷◌, ◌++◌, none, Bytes, replicate}
use ots.Result.{ok, err, commitment_not_found}
use ots.Timestamp.Shared.{Heap, fresh}
use ots.Calendar.Journal.{all_written}
use ots.Calendar.Store.{Storage}
use ots.Calendar.Service.{Service}
use ots.Calendar.Aggregator.{
  SubmitRequest, Aggregator, new_aggregator, dones, flush, flush_batch, receive, receive_from, send,
  send_to,
}
use ots.Calendar.Aggregator.Answered.{Work, begun, sent_to_queue, received, answered_in_order}
use ots.Examples.Data.{toy_hashes, uri}

abbrev listing : Storage (List Bytes)
listing = record {
  put = λ c t keys. ok (c ∷ keys);
  get = λ c keys. err commitment_not_found;
  has = λ c keys. false;
}

abbrev calendar : Service (List Bytes)
calendar = record { uri = uri; hmac_key = 1 ∷ []; store = []; journal = none; idx = 0 }

abbrev nodes : Heap
nodes = record { next = 1; node = λ t. fresh (replicate 32 6) }

abbrev idle : Aggregator (List Bytes)
idle = new_aggregator calendar nodes

abbrev request : SubmitRequest
request = record { digest = 0; done = 9 }

abbrev queued : Aggregator (List Bytes)
queued = record idle { queue = request ∷ [] }

abbrev batched : Aggregator (List Bytes)
batched = record idle { batch = request ∷ [] }

work : Work toy_hashes listing idle (9 ∷ []) batched
unfolding send send_to receive_from
work = received all_written true true 5 refl (sent_to_queue request refl begun)

abbrev flushed : Aggregator (List Bytes)
flushed = (flush toy_hashes listing all_written true 5 batched).0

no_panic : (flush toy_hashes listing all_written true 5 batched).1 ≡ ok tt
unfolding flush_batch ots.Calendar.Aggregator.close_all ots.Calendar.Aggregator.submit_tip
    ots.Calendar.Aggregator.submit_tree ots.Calendar.Aggregator.submitted
    ots.Timestamp.Shared.make_merkle_tree ots.Timestamp.Shared.join_levels
    ots.Timestamp.Shared.join_level ots.Timestamp.Shared.next_level
    ots.Timestamp.Shared.Unrolled.unroll ots.Timestamp.Shared.Unrolled.unroll_ops
    ots.Calendar.Service.submit ots.Calendar.Service.commit ots.Calendar.Service.grow
    ots.Calendar.Service.below ots.Calendar.Service.attest ots.Calendar.Service.mac_of
    ots.Calendar.Service.keep_committed ots.Calendar.Service.keep ots.Calendar.Service.put_macced
    ots.Op.new_append ots.Op.new_prepend ots.Op.apply ots.Op.apply_unary ots.Op.equal
    ots.Timestamp.add_op ots.Timestamp.new ots.Timestamp.child_or_new ots.Timestamp.find_op
    ots.Timestamp.put_child ots.Timestamp.Codec.add_attestation ots.Notary.new_pending_attestation
    ots.Notary.check_uri ots.Notary.check_chars ots.Calendar.Service.derive_key_for_idx
no_panic = refl

answered_in_order_example :
    (batched.closed ++ (dones batched.batch ++ dones batched.queue) ≡ 9 ∷ [])
    × (flushed.batch ≡ [])
    × (flushed.closed ++ dones flushed.queue ≡ 9 ∷ [])
answered_in_order_example =
    answered_in_order toy_hashes listing calendar nodes (9 ∷ []) batched flushed all_written true 5
      work (ap (λ r. (flushed, r)) no_panic)
