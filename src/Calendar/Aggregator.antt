-- ===== src/Calendar/Aggregator.antt =====
-- internal/calendar/aggregator.go: requests wait in a queue and then in a batch, until the batch is
-- joined at one merkle tip, which is submitted for all of them. The loop and the callers of Submit
-- are functions that each make one step; a done channel is a number.
pub mod Order
pub mod Answered
use ots.Prelude.{
  ℕ, suc, Bool, true, false, List, [], ◌∷◌, ◌++◌, Option, none, some, Bytes, length, ltb, ◌==◌,
  ◌||◌, if◌then◌else◌,
}
use ots.Result.{Result, ok, err, panicked, stuck, context_done}
use ots.Op.{Op, Hashes}
use ots.Timestamp.{Timestamp, stamp, Ops, no_ops, op_stamp}
use ots.Timestamp.Shared.{
  Node, Heap, Action, ◌>>=◌, pure, put_node, new, nonce_timestamp, make_merkle_tree,
}
use ots.Timestamp.Shared.Unrolled.{unroll}
use ots.Calendar.Journal.{WriteEnd}
use ots.Calendar.Store.{Storage}
use ots.Calendar.Service.{Service, submit}

pub record SubmitRequest : Type 0 where
  pub digest : ℕ
  pub done : ℕ

-- `closed` has the done channels that are closed, the first one first; `is_open` tells whether the
-- queue is.
pub record Aggregator {ℓ} (S : Type ℓ) : Type ℓ where
  pub calendar : Service S
  pub queue : List SubmitRequest
  pub is_open : Bool
  pub batch : List SubmitRequest
  pub closed : List ℕ
  pub heap : Heap

abbrev pub queue_size : ℕ
queue_size = 1024

-- NewAggregator; the interval only sets when the ticker ticks.
abbrev pub new_aggregator {ℓ} : {S : Type ℓ} → Service S → Heap → Aggregator S
new_aggregator calendar heap = record {
  calendar = calendar;
  queue = [];
  is_open = true;
  batch = [];
  closed = [];
  heap = heap;
}

abbrev pub digests : List SubmitRequest → List ℕ
digests [] = []
digests (req ∷ batch) = req.digest ∷ digests batch

abbrev pub dones : List SubmitRequest → List ℕ
dones [] = []
dones (req ∷ batch) = req.done ∷ dones batch

-- The node with the tree that Submit left there. No operation leaves the tip before, so the nodes
-- below it are new.
unfoldable mutual
  pub graft : ℕ → Timestamp → Heap → Heap
  graft t (stamp msg atts ops) s =
      let (s', children) = graft_ops ops s in
      put_node t (record { msg = msg; attestations = atts; ops = children }) s'

  pub graft_ops : Ops → Heap → Heap × List (Op × ℕ)
  graft_ops no_ops s = (s, [])
  graft_ops (op_stamp o below ops) s =
      let s₁ : Heap = graft s.next below (record s { next = suc s.next }) in
      let (s₂, children) = graft_ops ops s₁ in (s₂, (o, s.next) ∷ children)

-- `_, _ = a.calendar.Submit(commitment)`: an error is dropped, a panic is not.
abbrev pub unless_panicked {ℓ} : {A : Type ℓ} → Result A → Result (Unit {0})
unless_panicked (ok value) = ok tt
unless_panicked (err e) = ok tt
unless_panicked panicked = panicked
unless_panicked stuck = stuck

unfoldable pub submitted {ℓ} :
    {S : Type ℓ}
    → ℕ
    → Aggregator S
    → Timestamp × (Service S × Result Timestamp)
    → Aggregator S × Result (Unit {0})
submitted tip a (t, (calendar, r)) =
    (record a { calendar = calendar; heap = graft tip t a.heap }, unless_panicked r)

unfoldable pub submit_tree {ℓ} :
    {S : Type ℓ}
    → Hashes
    → Storage S
    → WriteEnd
    → Bool
    → ℕ
    → ℕ
    → Aggregator S
    → Result Timestamp
    → Aggregator S × Result (Unit {0})
submit_tree h storage ends synced now tip a (ok t) =
    submitted tip a (submit h storage ends synced now a.calendar t)
submit_tree h storage ends synced now tip a (err e) = (a, ok tt)
submit_tree h storage ends synced now tip a panicked = (a, panicked)
submit_tree h storage ends synced now tip a stuck = (a, stuck)

-- flush behind MakeMerkleTree; Submit of a nil tip is a nil dereference.
unfoldable pub submit_tip {ℓ} :
    {S : Type ℓ}
    → Hashes
    → Storage S
    → WriteEnd
    → Bool
    → ℕ
    → Aggregator S
    → Heap × Result (Option ℕ)
    → Aggregator S × Result (Unit {0})
submit_tip h storage ends synced now a (heap, ok (some tip)) =
    submit_tree h storage ends synced now tip (record a { heap = heap }) (unroll heap.next heap tip)
submit_tip h storage ends synced now a (heap, ok none) = (record a { heap = heap }, panicked)
submit_tip h storage ends synced now a (heap, err e) = (record a { heap = heap }, ok tt)
submit_tip h storage ends synced now a (heap, panicked) = (record a { heap = heap }, panicked)
submit_tip h storage ends synced now a (heap, stuck) = (record a { heap = heap }, stuck)

-- The end of flush.
unfoldable pub close_all {ℓ} :
    {S : Type ℓ} → Aggregator S × Result (Unit {0}) → Aggregator S × Result (Unit {0})
close_all (a, ok u) = (record a { closed = a.closed ++ dones a.batch; batch = [] }, ok u)
close_all (a, err e) = (a, err e)
close_all (a, panicked) = (a, panicked)
close_all (a, stuck) = (a, stuck)

unfoldable pub flush_batch {ℓ} :
    {S : Type ℓ}
    → Hashes
    → Storage S
    → WriteEnd
    → Bool
    → ℕ
    → Aggregator S
    → List SubmitRequest
    → Aggregator S × Result (Unit {0})
flush_batch h storage ends synced now a [] = (a, ok tt)
flush_batch h storage ends synced now a (req ∷ batch) = close_all (
    submit_tip h storage ends synced now a (make_merkle_tree h (req.digest ∷ digests batch) a.heap))

abbrev pub flush {ℓ} :
    {S : Type ℓ}
    → Hashes
    → Storage S
    → WriteEnd
    → Bool
    → ℕ
    → Aggregator S
    → Aggregator S × Result (Unit {0})
flush h storage ends synced now a = flush_batch h storage ends synced now a a.batch

-- One receive of the loop from this queue, which waits, `none`, while the queue is open and empty, and
-- ends behind a last flush once it is closed and empty: the Bool tells whether the loop goes on.
unfoldable pub receive_from {ℓ} :
    {S : Type ℓ}
    → Hashes
    → Storage S
    → WriteEnd
    → Bool
    → ℕ
    → Aggregator S
    → List SubmitRequest
    → Bool
    → Option ((Aggregator S × Result (Unit {0})) × Bool)
receive_from h storage ends synced now a (req ∷ queue) is_open =
    some ((record a { queue = queue; batch = a.batch ++ (req ∷ []) }, ok tt), true)
receive_from h storage ends synced now a [] true = none
receive_from h storage ends synced now a [] false = some (flush h storage ends synced now a, false)

abbrev pub receive {ℓ} :
    {S : Type ℓ}
    → Hashes
    → Storage S
    → WriteEnd
    → Bool
    → ℕ
    → Aggregator S
    → Option ((Aggregator S × Result (Unit {0})) × Bool)
receive h storage ends synced now a = receive_from h storage ends synced now a a.queue a.is_open

-- The first half of (*Aggregator).Submit: the node of the message, and the one to be submitted.
unfoldable pub prepare : Hashes → Result Bytes → Bytes → Action (ℕ × ℕ)
prepare h nonce msg = do ts ← new msg; nonced ← nonce_timestamp h nonce ts; pure (ok (ts, nonced))

unfoldable pub with_heap {ℓ} :
    {S : Type ℓ} → Hashes → Result Bytes → Bytes → Aggregator S → Aggregator S × Result (ℕ × ℕ)
with_heap h nonce msg a =
    let (heap, r) = prepare h nonce msg a.heap in (record a { heap = heap }, r)

-- The first select of Submit, with whether it takes ctx.Done. `a.queue <- req` waits, `none`, while the
-- queue is full, and is a panic on a closed queue.
unfoldable pub send_to {ℓ} :
    {S : Type ℓ}
    → SubmitRequest
    → Aggregator S
    → Bool
    → Bool
    → Option (Aggregator S × Result (Unit {0}))
send_to req a false has_room = some (a, panicked)
send_to req a true true = some (record a { queue = a.queue ++ (req ∷ []) }, ok tt)
send_to req a true false = none

unfoldable pub send {ℓ} :
    {S : Type ℓ} → Bool → SubmitRequest → Aggregator S → Option (Aggregator S × Result (Unit {0}))
send true req a = some (a, err context_done)
send false req a = send_to req a a.is_open (ltb (length a.queue) queue_size)

unfoldable pub is_closed : ℕ → List ℕ → Bool
is_closed done [] = false
is_closed done (d ∷ closed) = d == done || is_closed done closed

-- The last select of Submit, with whether it takes ctx.Done; `none` waits for the done channel.
unfoldable pub await {ℓ} : {S : Type ℓ} → ℕ → ℕ → Bool → Aggregator S → Option (Result ℕ)
await ts done true a = some (err context_done)
await ts done false a = if is_closed done a.closed then some (ok ts) else none

-- Close, but for the wait for the loop.
unfoldable pub close_queue {ℓ} :
    {S : Type ℓ} → Aggregator S → Bool → Aggregator S × Result (Unit {0})
close_queue a true = (record a { is_open = false }, ok tt)
close_queue a false = (a, panicked)

abbrev pub close {ℓ} : {S : Type ℓ} → Aggregator S → Aggregator S × Result (Unit {0})
close a = close_queue a a.is_open
