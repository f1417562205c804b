-- ===== src/Stamper/Kept.antt =====
-- ingestJournal (internal/stamper/stamper.go) on a journal in order: what the stamper has read from the
-- journal is queued, waits for confirmations, or is settled.
use ots.Prelude.{
  ℕ, zero, suc, ◌*◌, ◌≤◌, ◌<◌, All, ◌≡◌, refl, sym, subst, ◌∙◌, arith, Bool, true, false, List, [],
  ◌∷◌, Bytes, length, ◌==◌, Bool-cases, ◌⊎◌, inl, inr,
}
use ots.Prelude.Int.{int_less, pos}
use ots.Result.{Result, ok, err, panicked, stuck}
use ots.Op.{max_msg_length}
use ots.Calendar.Journal
use ots.Calendar.Journal.{Journal, record_size}
use ots.Calendar.Journal.Records.{Holds, HasRecordSize, record_at, read_record, read-Holds}
use ots.Stamper.{Config, Stamper, put_pending, ingest_next, ingest, is_pending}
use ots.Stamper.Queue.{is_in-put_pending, is_in-put_pending_self}

-- The stamper knows the commitment, in its queue or in a transaction waiting for confirmations, or the
-- commitment is settled, in the sense of `P`.
abbrev pub IsKept {ℓ} : {S : Type ℓ} → (Bytes → Type ℓ) → Bytes → Stamper S → Type ℓ
IsKept P c s = (is_pending s c ≡ true) ⊎ P c

-- The journal is in order and holds these records, in less than 2 ^ 63 bytes, and each of the first
-- `n` is kept.
pub record AreKept {ℓ} {S : Type ℓ} (P : Bytes → Type ℓ) (rs : List Bytes) (n : ℕ) (s : Stamper S)
    : Type ℓ where
  pub holds : Holds s.journal rs
  pub fits : length rs * record_size < 0x8000_0000_0000_0000
  pub in_journal : n ≤ length rs
  pub kept : (i : ℕ) (c : Bytes) → i < n → record_at rs i ≡ ok c → IsKept P c s

-- What the stamper has read from the journal is kept.
abbrev pub IsTracking {ℓ} : {S : Type ℓ} → (Bytes → Type ℓ) → List Bytes → Stamper S → Type ℓ
IsTracking P rs s = AreKept P rs s.cursor s

put_pending-IsKept {ℓ} :
    {S : Type ℓ} (P : Bytes → Type ℓ) (c d : Bytes) (n : ℕ) (s : Stamper S)
    → IsKept P c s
    → IsKept P c (record s { pending = put_pending d s.pending; cursor = n })
unfolding is_pending
put_pending-IsKept P c d n s (inl there) =
    inl (ground (arith, there, is_in-put_pending c d s.pending))
put_pending-IsKept P c d n s (inr settled) = inr settled

queued-IsKept {ℓ} :
    {S : Type ℓ} (P : Bytes → Type ℓ) (c : Bytes) (n : ℕ) (s : Stamper S)
    → IsKept P c (record s { pending = put_pending c s.pending; cursor = n })
unfolding is_pending
queued-IsKept P c n s = inl (ground (arith, is_in-put_pending_self c s.pending))

record_at-inside : (rs : List Bytes) (i : ℕ) (c : Bytes) → record_at rs i ≡ ok c → i < length rs
record_at-inside [] i c e = cc
record_at-inside (r ∷ rs) zero c e = omega arith
record_at-inside (r ∷ rs) (suc i) c e = omega (arith, record_at-inside rs i c e)

record_at-size :
    (rs : List Bytes) (i : ℕ) (c : Bytes)
    → All HasRecordSize rs
    → record_at rs i ≡ ok c
    → length c ≡ record_size
record_at-size [] i c v e = cc
record_at-size (r ∷ rs) zero c v e = subst (λ x. length x ≡ record_size) (cc) v.0
record_at-size (r ∷ rs) (suc i) c v e = record_at-size rs i c v.1 e

read_record-ok :
    (reads : Bool) (rs : List Bytes) (i : ℕ) (c : Bytes)
    → read_record reads rs i ≡ ok c
    → record_at rs i ≡ ok c
read_record-ok reads [] i c e = e
read_record-ok true (r ∷ rs) zero c e = e
read_record-ok false (r ∷ rs) zero c e = cc
read_record-ok reads (r ∷ rs) (suc i) c e = read_record-ok reads rs i c e

module _ {ℓ} {S : Type ℓ} (P : Bytes → Type ℓ) (rs : List Bytes) where
  pub moved-AreKept :
      (Q : Bytes → Type ℓ) (n : ℕ) (s s' : Stamper S)
      → AreKept P rs n s
      → s'.journal ≡ s.journal
      → ((c : Bytes) → length c ≤ max_msg_length → IsKept P c s → IsKept Q c s')
      → AreKept Q rs n s'
  moved-AreKept Q n s s' v same keeps = record {
    holds = subst (λ j. Holds j rs) (sym same) v.holds;
    fits = v.fits;
    in_journal = v.in_journal;
    kept = λ i c inside there.
        keeps c (omega (arith, record_at-size rs i c v.holds.sizes there))
          (v.kept i c inside there);
  }

  pub newest-AreKept :
      (n : ℕ) (d : Bytes) (s : Stamper S)
      → AreKept P rs n s
      → record_at rs n ≡ ok d
      → IsKept P d s
      → AreKept P rs (suc n) s
  newest-AreKept n d s v newest kept_d = record {
    holds = v.holds;
    fits = v.fits;
    in_journal = record_at-inside rs n d newest;
    kept = λ i c inside there. elim (Bool-cases (i == n)) [
      | inl last ↦
          let same : i ≡ n = ground (arith, last) in
          let same_record : d ≡ c = cc (newest, rw same at there) in
          subst (λ x. IsKept P x s) same_record kept_d
      | inr other ↦ v.kept i c (ground (arith, inside, other)) there
    ];
  }

  pub queued-AreKept :
      (n m : ℕ) (d : Bytes) (s : Stamper S)
      → AreKept P rs n s
      → record_at rs n ≡ ok d
      → AreKept P rs (suc n) (record s { pending = put_pending d s.pending; cursor = m })
  queued-AreKept n m d s v newest =
      let s' : Stamper S = record s { pending = put_pending d s.pending; cursor = m } in
      newest-AreKept n d s' (moved-AreKept P n s s' v refl (λ c size. put_pending-IsKept P c d m s))
        newest (queued-IsKept P d m s)

  -- What ingestJournal leaves: the tracking, and the transactions that wait.
  abbrev pub IsIngested : Stamper S → Stamper S → Type ℓ
  IsIngested s s' = IsTracking P rs s' × (s'.unconfirmed ≡ s.unconfirmed)

  ingest_next-IsIngested :
      (rest : Stamper S → Stamper S) (s : Stamper S) (r : Result Bytes)
      → ((s' : Stamper S) → IsTracking P rs s' → IsIngested s' (rest s'))
      → ((c : Bytes) → r ≡ ok c → record_at rs s.cursor ≡ ok c)
      → IsTracking P rs s
      → IsIngested s (ingest_next rest s r)
  unfolding ingest_next
  ingest_next-IsIngested rest s (ok d) below newest v =
      below (record s { pending = put_pending d s.pending; cursor = suc s.cursor })
        (queued-AreKept s.cursor (suc s.cursor) d s v (newest d refl))
  ingest_next-IsIngested rest s (err x) below newest v = (v, refl)
  ingest_next-IsIngested rest s panicked below newest v = (v, refl)
  ingest_next-IsIngested rest s stuck below newest v = (v, refl)

  pub ingest-IsIngested :
      (cfg : Config) (reads : ℕ → Bool) (n : ℕ) (s : Stamper S)
      → IsTracking P rs s
      → IsIngested s (ingest cfg reads n s)
  unfolding ingest
  ingest-IsIngested cfg reads zero s v = (v, refl)
  ingest-IsIngested cfg reads (suc n) s v =
      elim (Bool-cases (int_less (pos (length s.pending)) cfg.max_pending)) [
        | inl room ↦ rw room (
            ingest_next-IsIngested (ingest cfg reads n) s
              (Journal.read (reads s.cursor) s.journal s.cursor) (ingest-IsIngested cfg reads n)
              (λ c e.
                read_record-ok (reads s.cursor) rs s.cursor c
                  (sym (read-Holds (reads s.cursor) s.journal rs s.cursor v.holds v.fits) ∙ e))
              v)
        | inr full ↦ rw full (v, refl)
      ]
