-- ===== src/Calendar/Aggregator/Order.antt =====
-- What one step of the aggregator (internal/calendar/aggregator.go) does to the requests that are
-- answered, in the batch and in the queue.
use ots.Prelude.{
  ℕ, ◌≡◌, refl, sym, ap, ◌∙◌, Bool, true, false, List, [], ◌∷◌, ◌++◌, append_assoc, Option, none,
  some,
}
use ots.Result.{Result, ok, err, panicked, stuck}
use ots.Op.{Hashes}
use ots.Timestamp.{Timestamp}
use ots.Timestamp.Shared.{Heap}
use ots.Timestamp.Shared.Unrolled.{unroll}
use ots.Calendar.Journal.{WriteEnd}
use ots.Calendar.Store.{Storage}
use ots.Calendar.Aggregator.{
  SubmitRequest, Aggregator, dones, submitted, submit_tree, submit_tip, close_all, flush_batch,
  flush, receive_from, send_to,
}

-- The requests in the order in which they are answered.
abbrev pub in_order {ℓ} : {S : Type ℓ} → Aggregator S → List ℕ
in_order a = a.closed ++ (dones a.batch ++ dones a.queue)

dones-append : (xs ys : List SubmitRequest) → dones (xs ++ ys) ≡ dones xs ++ dones ys
dones-append [] ys = refl
dones-append (x ∷ xs) ys = ap (λ ds. x.done ∷ ds) (dones-append xs ys)

-- The same requests in the same places.
record IsSameWork {ℓ} {S : Type ℓ} (a a' : Aggregator S) : Type ℓ where
  same_queue : a'.queue ≡ a.queue
  same_batch : a'.batch ≡ a.batch
  same_closed : a'.closed ≡ a.closed

module _ {ℓ} {S : Type ℓ} (h : Hashes) (storage : Storage S) where
  submit_tree-IsSameWork :
      (ends : WriteEnd) (synced : Bool) (now tip : ℕ) (a : Aggregator S) (r : Result Timestamp)
      → IsSameWork a (submit_tree h storage ends synced now tip a r).0
  unfolding submit_tree submitted
  submit_tree-IsSameWork ends synced now tip a (ok t) = record {
    same_queue = refl;
    same_batch = refl;
    same_closed = refl;
  }
  submit_tree-IsSameWork ends synced now tip a (err e) = record {
    same_queue = refl;
    same_batch = refl;
    same_closed = refl;
  }
  submit_tree-IsSameWork ends synced now tip a panicked = record {
    same_queue = refl;
    same_batch = refl;
    same_closed = refl;
  }
  submit_tree-IsSameWork ends synced now tip a stuck = record {
    same_queue = refl;
    same_batch = refl;
    same_closed = refl;
  }

  submit_tip-IsSameWork :
      (ends : WriteEnd) (synced : Bool) (now : ℕ) (a : Aggregator S) (e : Heap × Result (Option ℕ))
      → IsSameWork a (submit_tip h storage ends synced now a e).0
  unfolding submit_tip
  submit_tip-IsSameWork ends synced now a (heap, ok (some tip)) =
      let v =
        submit_tree-IsSameWork ends synced now tip (record a { heap = heap })
          (unroll heap.next heap tip) in
      record { same_queue = v.same_queue; same_batch = v.same_batch; same_closed = v.same_closed }
  submit_tip-IsSameWork ends synced now a (heap, ok none) = record {
    same_queue = refl;
    same_batch = refl;
    same_closed = refl;
  }
  submit_tip-IsSameWork ends synced now a (heap, err e) = record {
    same_queue = refl;
    same_batch = refl;
    same_closed = refl;
  }
  submit_tip-IsSameWork ends synced now a (heap, panicked) = record {
    same_queue = refl;
    same_batch = refl;
    same_closed = refl;
  }
  submit_tip-IsSameWork ends synced now a (heap, stuck) = record {
    same_queue = refl;
    same_batch = refl;
    same_closed = refl;
  }

  close_all-in_order :
      (a a' : Aggregator S) (e : Aggregator S × Result (Unit {0}))
      → IsSameWork a e.0
      → close_all e ≡ (a', ok tt)
      → (in_order a' ≡ in_order a) × (a'.batch ≡ [])
  unfolding close_all
  close_all-in_order a a' (b, ok u) v e =
      let done : record b { closed = b.closed ++ dones b.batch; batch = [] } ≡ a' =
        ap (λ (x : Aggregator S × Result (Unit {0})). x.0) e in
      (
        sym (ap in_order done)
            ∙ append_assoc b.closed (dones b.batch) (dones b.queue)
            ∙ rw (v.same_closed, v.same_batch, v.same_queue),
        sym (ap (λ (x : Aggregator S). x.batch) done),
      )
  close_all-in_order a a' (b, err x) v e = cc
  close_all-in_order a a' (b, panicked) v e = cc
  close_all-in_order a a' (b, stuck) v e = cc

  flush_batch-in_order :
      (ends : WriteEnd) (synced : Bool) (now : ℕ) (a a' : Aggregator S) (batch : List SubmitRequest)
      → a.batch ≡ batch
      → flush_batch h storage ends synced now a batch ≡ (a', ok tt)
      → (in_order a' ≡ in_order a) × (a'.batch ≡ [])
  unfolding flush_batch
  flush_batch-in_order ends synced now a a' [] empty run =
      let same : a ≡ a' = ap (λ (x : Aggregator S × Result (Unit {0})). x.0) run in
      (sym (ap in_order same), sym (ap (λ (x : Aggregator S). x.batch) same) ∙ empty)
  flush_batch-in_order ends synced now a a' (req ∷ rest) full run =
      close_all-in_order a a' _ (submit_tip-IsSameWork ends synced now a _) run

  pub flush-in_order :
      (ends : WriteEnd) (synced : Bool) (now : ℕ) (a a' : Aggregator S)
      → flush h storage ends synced now a ≡ (a', ok tt)
      → (in_order a' ≡ in_order a) × (a'.batch ≡ [])
  flush-in_order ends synced now a a' run =
      flush_batch-in_order ends synced now a a' a.batch refl run

  pub receive-in_order :
      (ends : WriteEnd) (synced more is_open : Bool) (now : ℕ) (a a' : Aggregator S)
      (queue : List SubmitRequest)
      → a.queue ≡ queue
      → receive_from h storage ends synced now a queue is_open ≡ some ((a', ok tt), more)
      → in_order a' ≡ in_order a
  unfolding receive_from
  receive-in_order ends synced more true now a a' [] empty run = cc
  receive-in_order ends synced more false now a a' [] empty run =
      let flushed : flush h storage ends synced now a ≡ (a', ok tt) = cc run in
      (flush-in_order ends synced now a a' flushed).0
  receive-in_order ends synced more is_open now a a' (req ∷ rest) full run =
      let next : Aggregator S = record a { queue = rest; batch = a.batch ++ (req ∷ []) } in
      let ran : (next, ok tt) ≡ (a', ok tt) = cc run in
      let same : next ≡ a' = ap (λ (x : Aggregator S × Result (Unit {0})). x.0) ran in
      sym (ap in_order same)
      ∙ ap (λ ds. a.closed ++ (ds ++ dones rest)) (dones-append a.batch (req ∷ []))
      ∙ ap (λ ds. a.closed ++ ds) (append_assoc (dones a.batch) (req.done ∷ []) (dones rest))
      ∙ ap (λ q. a.closed ++ (dones a.batch ++ dones q)) (sym full)

  pub send_to-in_order :
      (req : SubmitRequest) (a a' : Aggregator S) (is_open has_room : Bool)
      → send_to req a is_open has_room ≡ some (a', ok tt)
      → in_order a' ≡ in_order a ++ (req.done ∷ [])
  unfolding send_to
  send_to-in_order req a a' false has_room run = cc
  send_to-in_order req a a' true false run = cc
  send_to-in_order req a a' true true run =
      let next : Aggregator S = record a { queue = a.queue ++ (req ∷ []) } in
      let ran : (next, ok tt) ≡ (a', ok tt) = cc run in
      let same : next ≡ a' = ap (λ (x : Aggregator S × Result (Unit {0})). x.0) ran in
      sym (ap in_order same)
      ∙ ap (λ ds. a.closed ++ (dones a.batch ++ ds)) (dones-append a.queue (req ∷ []))
      ∙ ap (λ ds. a.closed ++ ds)
          (sym (append_assoc (dones a.batch) (dones a.queue) (req.done ∷ [])))
      ∙ sym (append_assoc a.closed (dones a.batch ++ dones a.queue) (req.done ∷ []))
