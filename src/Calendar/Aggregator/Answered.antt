-- ===== src/Calendar/Aggregator/Answered.antt =====
-- The aggregator (internal/calendar/aggregator.go) at work: callers of Submit, the loop and Close take
-- their steps in any order.
use ots.Prelude.{
  ℕ, ◌≡◌, refl, sym, ap, ◌∙◌, Bool, true, false, List, [], ◌∷◌, ◌++◌, some, Bytes, length, ltb,
}
use ots.Result.{Result, ok}
use ots.Op.{Hashes}
use ots.Timestamp.Shared.{Heap}
use ots.Calendar.Journal.{WriteEnd}
use ots.Calendar.Store.{Storage}
use ots.Calendar.Service.{Service}
use ots.Calendar.Aggregator.{
  SubmitRequest, Aggregator, new_aggregator, dones, flush, receive, with_heap, queue_size, send,
  close_queue, close,
}
use ots.Calendar.Aggregator.Order.{in_order, flush-in_order, receive-in_order, send_to-in_order}

-- The requests that were sent so far, and the aggregator. A step that panics ends the program.
pub data Work {ℓ} {S : Type ℓ} (h : Hashes) (storage : Storage S) (start : Aggregator S)
    : List ℕ → Aggregator S → Type ℓ where
  begun : Work h storage start [] start
  prepared :
      {sent : List ℕ} {a : Aggregator S} (nonce : Result Bytes) (msg : Bytes)
      → Work h storage start sent a
      → Work h storage start sent (with_heap h nonce msg a).0
  sent_to_queue :
      {sent : List ℕ} {a a' : Aggregator S} (req : SubmitRequest)
      → send false req a ≡ some (a', ok tt)
      → Work h storage start sent a
      → Work h storage start (sent ++ (req.done ∷ [])) a'
  received :
      {sent : List ℕ} {a a' : Aggregator S} (ends : WriteEnd) (synced more : Bool) (now : ℕ)
      → receive h storage ends synced now a ≡ some ((a', ok tt), more)
      → Work h storage start sent a
      → Work h storage start sent a'
  ticked :
      {sent : List ℕ} {a a' : Aggregator S} (ends : WriteEnd) (synced : Bool) (now : ℕ)
      → flush h storage ends synced now a ≡ (a', ok tt)
      → Work h storage start sent a
      → Work h storage start sent a'
  shut :
      {sent : List ℕ} {a a' : Aggregator S}
      → close a ≡ (a', ok tt)
      → Work h storage start sent a
      → Work h storage start sent a'

module _ {ℓ} {S : Type ℓ} (h : Hashes) (storage : Storage S) where
  close_queue-in_order :
      (a a' : Aggregator S) (is_open : Bool)
      → close_queue a is_open ≡ (a', ok tt)
      → in_order a' ≡ in_order a
  unfolding close_queue
  close_queue-in_order a a' true run =
      sym (ap in_order (ap (λ (x : Aggregator S × Result (Unit {0})). x.0) run))
  close_queue-in_order a a' false run = cc

  with_heap-in_order :
      (nonce : Result Bytes) (msg : Bytes) (a : Aggregator S)
      → in_order (with_heap h nonce msg a).0 ≡ in_order a
  unfolding with_heap
  with_heap-in_order nonce msg a = refl

  send-in_order :
      (req : SubmitRequest) (a a' : Aggregator S)
      → send false req a ≡ some (a', ok tt)
      → in_order a' ≡ in_order a ++ (req.done ∷ [])
  unfolding send
  send-in_order req a a' run =
      send_to-in_order h storage req a a' a.is_open (ltb (length a.queue) queue_size) run

  Work-in_order :
      (calendar : Service S) (heap : Heap) {sent : List ℕ} {a : Aggregator S}
      → Work h storage (new_aggregator calendar heap) sent a
      → in_order a ≡ sent
  Work-in_order calendar heap begun = refl
  Work-in_order calendar heap (prepared {a = a} nonce msg before) =
      with_heap-in_order nonce msg a ∙ Work-in_order calendar heap before
  Work-in_order calendar heap (sent_to_queue {a = a} {a' = a'} req run before) =
      send-in_order req a a' run
      ∙ ap (λ ds. ds ++ (req.done ∷ [])) (Work-in_order calendar heap before)
  Work-in_order calendar heap (received {a = a} {a' = a'} ends synced more now run before) =
      receive-in_order h storage ends synced more a.is_open now a a' a.queue refl run
      ∙ Work-in_order calendar heap before
  Work-in_order calendar heap (ticked {a = a} {a' = a'} ends synced now run before) =
      (flush-in_order h storage ends synced now a a' run).0 ∙ Work-in_order calendar heap before
  Work-in_order calendar heap (shut {a = a} {a' = a'} run before) =
      close_queue-in_order a a' a.is_open run ∙ Work-in_order calendar heap before

  -- However the callers of Submit, the loop and Close of a new aggregator take turns, as long as no step
  -- panics, and behind a last flush that does not panic either: before it, the requests whose done
  -- channel is closed, those in the batch and those in the queue are together the requests that were
  -- sent, in the order in which they were sent; after it, the whole batch is answered as well.
  pub answered_in_order :
      (calendar : Service S) (heap : Heap) (sent : List ℕ) (a a' : Aggregator S) (ends : WriteEnd)
      (synced : Bool) (now : ℕ)
      → Work h storage (new_aggregator calendar heap) sent a
      → flush h storage ends synced now a ≡ (a', ok tt)
      → (a.closed ++ (dones a.batch ++ dones a.queue) ≡ sent)
        × (a'.batch ≡ [])
        × (a'.closed ++ dones a'.queue ≡ sent)
  answered_in_order calendar heap sent a a' ends synced now work run =
      let (same, empty) = flush-in_order h storage ends synced now a a' run in
      (
        Work-in_order calendar heap work,
        empty,
        ap (λ b. a'.closed ++ (dones b ++ dones a'.queue)) (sym empty)
            ∙ same
            ∙ Work-in_order calendar heap work,
      )
