-- ===== src/Calendar/Service.antt =====
-- internal/calendar/calendar.go: the service that turns a message into a commitment, with a
-- journal and a store. The time is an argument, and how the calls of the journal's file end.
pub mod Commitments
pub mod Submitted
use ots.Prelude.{
  ℕ, zero, suc, ◌+◌, ◌*◌, ◌/◌, ◌%◌, ◌^◌, Bool, true, false, List, [], ◌∷◌, ◌++◌, Option, none, some,
  Bytes, take, length, ◌==◌, if◌then◌else◌,
}
use ots.Result.{Result, ok, err, panicked, stuck, ◌>>=◌}
use ots.Op.{Op, Hashes, new_append, new_prepend}
use ots.Notary.{Attestation, new_pending_attestation}
use ots.Timestamp.{Timestamp, stamp, msg_of, add_op, put_child}
use ots.Timestamp.Codec.{add_attestation}
use ots.Calendar.Journal
use ots.Calendar.Journal.{Journal, WriteEnd}
use ots.Calendar.Store.{Storage}

abbrev pub hmac_size : ℕ
hmac_size = 8

pub record Service {ℓ} (S : Type ℓ) : Type ℓ where
  pub uri : Bytes
  pub hmac_key : Bytes
  pub store : S
  pub journal : Option Journal
  pub idx : ℕ

unfoldable pub new_service {ℓ} : {S : Type ℓ} → Bytes → Bytes → S → Result (Service S)
new_service uri hmac_key store =
    if length hmac_key == 0
    then panicked
    else ok (record { uri = uri; hmac_key = hmac_key; store = store; journal = none; idx = 0 })

abbrev pub with_journal {ℓ} : {S : Type ℓ} → Service S → Journal → Service S
with_journal s j = record s { journal = some j }

unfoldable pub derive_key_for_idx : Hashes → Bytes → ℕ → ℕ → Bytes
derive_key_for_idx h key idx zero = key
derive_key_for_idx h key idx (suc bits) =
    let suffix : ℕ = if idx / 2 ^ bits % 2 == 0 then 0x00 else 0xff in
    derive_key_for_idx h (h.sha256 (key ++ (suffix ∷ []))) idx bits

-- binary.BigEndian.PutUint32
abbrev pub serialized_idx : ℕ → Bytes
serialized_idx idx = idx / 2 ^ 24 % 256 ∷ idx / 2 ^ 16 % 256 ∷ idx / 2 ^ 8 % 256 ∷ idx % 256 ∷ []

unfoldable pub mac_of : Hashes → Bytes → ℕ → Bytes → Bytes
mac_of h hmac_key idx commitment =
    take hmac_size (h.sha256 (commitment ++ derive_key_for_idx h hmac_key idx 32))

-- A tree as a call leaves it, and the node below that the call ends at.
abbrev pub Growing : Type 0
Growing = Timestamp × Result Timestamp

-- What is done with the child that AddOp gave, in its place below `t`.
unfoldable pub below :
    (Timestamp → Growing) → Op → Timestamp → Result (Timestamp × Timestamp) → Growing
below next o t (ok (t', child)) = let (child', r) = next child in (put_child o child' t', r)
below next o t (err e) = (t, err e)
below next o t panicked = (t, panicked)
below next o t stuck = (t, stuck)

unfoldable pub grow : Hashes → Timestamp → Result Op → (Timestamp → Growing) → Growing
grow h t (ok o) next = below next o t (add_op h t o)
grow h t (err e) next = (t, err e)
grow h t panicked next = (t, panicked)
grow h t stuck next = (t, stuck)

unfoldable pub attest : Timestamp → Result Attestation → Growing
attest macced (ok att) = let t = add_attestation att macced in (t, ok t)
attest macced (err e) = (macced, err e)
attest macced panicked = (macced, panicked)
attest macced stuck = (macced, stuck)

-- Submit up to the attestation.
unfoldable pub commit : Hashes → Bytes → Bytes → ℕ → Timestamp → Growing
commit h uri hmac_key idx submitted =
    grow h submitted (new_prepend (serialized_idx idx)) λ commitment.
      grow h commitment (new_append (mac_of h hmac_key idx (msg_of commitment)))
        λ macced. attest macced (new_pending_attestation uri)

-- The store, and the service behind it.
unfoldable pub put_macced {ℓ} :
    {S : Type ℓ} → Service S → Timestamp → Result S → Service S × Result Timestamp
put_macced s macced (ok store) = (record s { store = store }, ok macced)
put_macced s macced (err e) = (s, err e)
put_macced s macced panicked = (s, panicked)
put_macced s macced stuck = (s, stuck)

unfoldable pub journaled {ℓ} :
    {S : Type ℓ}
    → Service S
    → Journal × Result ℕ
    → (Service S → Service S × Result Timestamp)
    → Service S × Result Timestamp
journaled s (j, ok n) next = next (record s { journal = some j })
journaled s (j, err e) next = (record s { journal = some j }, err e)
journaled s (j, panicked) next = (record s { journal = some j }, panicked)
journaled s (j, stuck) next = (record s { journal = some j }, stuck)

unfoldable pub keep {ℓ} :
    {S : Type ℓ}
    → Storage S
    → WriteEnd
    → Bool
    → Service S
    → Option Journal
    → Timestamp
    → Service S × Result Timestamp
keep storage ends synced s none macced =
    put_macced s macced (storage.put (msg_of macced) macced s.store)
keep storage ends synced s (some j) macced =
    journaled s (Journal.append ends synced j (msg_of macced))
      λ s'. put_macced s' macced (storage.put (msg_of macced) macced s'.store)

unfoldable pub keep_committed {ℓ} :
    {S : Type ℓ}
    → Storage S
    → WriteEnd
    → Bool
    → Service S
    → Result Timestamp
    → Service S × Result Timestamp
keep_committed storage ends synced s (ok macced) = keep storage ends synced s s.journal macced
keep_committed storage ends synced s (err e) = (s, err e)
keep_committed storage ends synced s panicked = (s, panicked)
keep_committed storage ends synced s stuck = (s, stuck)

-- The submitted tree as Submit leaves it, the service, and the answer.
unfoldable pub submit {ℓ} :
    {S : Type ℓ}
    → Hashes
    → Storage S
    → WriteEnd
    → Bool
    → ℕ
    → Service S
    → Timestamp
    → Timestamp × (Service S × Result Timestamp)
submit h storage ends synced now s submitted =
    let idx : ℕ = now % 2 ^ 32 in
    let (t, r) = commit h s.uri s.hmac_key idx submitted in
    (t, keep_committed storage ends synced (record s { idx = idx }) r)
