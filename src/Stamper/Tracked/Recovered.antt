-- ===== src/Stamper/Tracked/Recovered.antt =====
-- Recover (internal/stamper/stamper.go) on a journal in order.
use ots.Prelude.{
  ℕ, zero, suc, ◌*◌, ◌+◌, ◌≤◌, ◌<◌, ◌≡◌, ◌≢◌, refl, sym, ap, subst, ◌∙◌, arith, Bool, true, false,
  List, [], ◌∷◌, Bytes, length, Bool-cases, inl, inr, ◌⊎◌,
}
use ots.Result.{Result, ok, err, panicked, stuck, io_failed}
use ots.Timestamp.{Timestamp, all_attestations}
use ots.Verify.Upgrade.{has_bitcoin}
use ots.Calendar.Journal
use ots.Calendar.Journal.{Journal, record_size}
use ots.Calendar.Journal.Records.{Holds, record_at, read_record, read-Holds}
use ots.Calendar.Store.{Storage}
use ots.Stamper.{
  Stamper, put_pending, is_pending, confirmed_tree, is_confirmed, recover_with, recover_next,
  recover_from, set_cursor, recover,
}
use ots.Stamper.Tracked.Anchored.{IsAnchored, IsAnchoredIn, HasReturned, has_bitcoin-IsAnchored}
use ots.Stamper.Kept.{AreKept, IsTracking, moved-AreKept, newest-AreKept, queued-AreKept}

read_record-cases :
    (reads : Bool) (rs : List Bytes) (i : ℕ)
    → i < length rs
    → ((c : Bytes) × (record_at rs i ≡ ok c) × (read_record reads rs i ≡ ok c))
      ⊎ ((reads ≡ false) × (read_record reads rs i ≡ err io_failed))
read_record-cases reads [] i inside = absurd (omega (arith, inside))
read_record-cases true (r ∷ rs) zero inside = inl (r, refl, refl)
read_record-cases false (r ∷ rs) zero inside = inr (refl, refl)
read_record-cases reads (r ∷ rs) (suc i) inside =
    read_record-cases reads rs i (omega (arith, inside))

-- How Recover may end from here: at the end of the journal with the first `n` records kept, at a record
-- whose read fails, or in a Get that does not return.
data IsRecovery {ℓ} {S : Type ℓ} (storage : Storage S) (reads : ℕ → Bool) (store : S)
    (P : Bytes → Type ℓ) (rs : List Bytes) (n : ℕ) (e : Stamper S × Result (Unit {0}))
    : Type ℓ where
  finished :
      (s' : Stamper S)
      → e ≡ (s', ok tt)
      → AreKept P rs n s'
      → IsRecovery storage reads store P rs n e
  unread :
      (s' : Stamper S) (i : ℕ)
      → e ≡ (s', err io_failed)
      → i < length rs
      → reads i ≡ false
      → IsRecovery storage reads store P rs n e
  crashed :
      (i : ℕ) (c : Bytes)
      → e.1 ≢ ok tt
      → record_at rs i ≡ ok c
      → (HasReturned (storage.get c store) → ⊥)
      → IsRecovery storage reads store P rs n e

module _ {ℓ} {S : Type ℓ} (storage : Storage S) (reads : ℕ → Bool) (store : S)
    (rs : List Bytes) where
  abbrev Anchored : Bytes → Type ℓ
  Anchored c = IsAnchoredIn storage store c

  confirmed_tree-cases :
      (r : Result Timestamp)
      → ((confirmed_tree r ≡ ok true) × (t : Timestamp) × (r ≡ ok t) × IsAnchored t)
        ⊎ (confirmed_tree r ≡ ok false)
        ⊎ ((HasReturned r → ⊥) × ((confirmed_tree r ≡ panicked) ⊎ (confirmed_tree r ≡ stuck)))
  confirmed_tree-cases (ok t) = elim (Bool-cases (has_bitcoin (all_attestations t))) [
    | inl there ↦ inl (ap ok there, t, refl, has_bitcoin-IsAnchored t there)
    | inr other ↦ inr (inl (ap ok other))
  ]
  confirmed_tree-cases (err e) = inr (inl refl)
  confirmed_tree-cases panicked = inr (inr (λ v. v, inl refl))
  confirmed_tree-cases stuck = inr (inr (λ v. v, inr refl))

  abbrev IsEnd : ℕ → Stamper S × Result (Unit {0}) → Type ℓ
  IsEnd n e = IsRecovery storage reads store Anchored rs n e

  is_confirmed_at :
      (c : Bytes) (s : Stamper S)
      → s.store ≡ store
      → is_confirmed storage s c ≡ confirmed_tree (storage.get c store)
  unfolding is_confirmed
  is_confirmed_at c s same = ap (λ x. confirmed_tree (storage.get c x)) same

  recover_with-IsEnd :
      (rest : Stamper S → Stamper S × Result (Unit {0})) (i n : ℕ) (c : Bytes) (s : Stamper S)
      → ((s' : Stamper S)
          → s'.store ≡ store
          → s'.journal ≡ s.journal
          → AreKept Anchored rs (suc i) s'
          → IsEnd n (rest s'))
      → AreKept Anchored rs i s
      → s.store ≡ store
      → record_at rs i ≡ ok c
      → IsEnd n (recover_with rest c s (is_confirmed storage s c))
  unfolding recover_with
  recover_with-IsEnd rest i n c s below v same newest =
      let found = confirmed_tree-cases (storage.get c store) in
      rw (is_confirmed_at c s same) (elim found [
        | inl (confirmed, t, got, anchored) ↦ rw confirmed (
            below s same refl (
              newest-AreKept Anchored rs i c s v newest
                (inr (record { tree = t; got = got; anchored = anchored }))))
        | inr (inl other) ↦ rw other (
            below (record s { pending = put_pending c s.pending }) same refl
              (queued-AreKept Anchored rs i s.cursor c s v newest))
        | inr (inr (lost, inl ended)) ↦ rw ended (crashed i c (λ e. absurd (cc)) newest lost)
        | inr (inr (lost, inr ended)) ↦ rw ended (crashed i c (λ e. absurd (cc)) newest lost)
      ])

  recover_from-IsEnd :
      (n i : ℕ) (s : Stamper S)
      → AreKept Anchored rs i s
      → s.store ≡ store
      → i + n ≤ length rs
      → IsEnd (i + n) (recover_from storage reads n i s)
  unfolding recover_from recover_next
  recover_from-IsEnd zero i s v same enough =
      let e : i + 0 ≡ i = omega arith in finished s refl (rw e v)
  recover_from-IsEnd (suc n) i s v same enough =
      let inside : i < length rs = omega (arith, enough) in
      let shift : i + suc n ≡ suc i + n = omega arith in
      let found : Journal.read (reads i) s.journal i ≡ read_record (reads i) rs i =
        read-Holds (reads i) s.journal rs i v.holds v.fits in
      elim (read_record-cases (reads i) rs i inside) [
        | inl (c, there, read) ↦
            rw (found, read, shift)
              (recover_with-IsEnd (recover_from storage reads n (suc i)) i (suc i + n) c s
                (λ s' kept_store kept_journal w.
                  recover_from-IsEnd n (suc i) s' w kept_store (omega (arith, enough)))
                v same there)
        | inr (failed, read) ↦ rw (found, read) (unread s i refl inside failed)
      ]

  -- How Recover may end, with the cursor.
  abbrev IsRecovered : ℕ → Stamper S × Result (Unit {0}) → Type ℓ
  IsRecovered n e =
      ((s' : Stamper S) × (e ≡ (s', ok tt)) × (s'.cursor ≡ n) × IsTracking Anchored rs s')
      ⊎ ((s' : Stamper S) × (i : ℕ) × (e ≡ (s', err io_failed))
          × (i < length rs)
          × (reads i ≡ false))
      ⊎ ((i : ℕ) × (c : Bytes) × (e.1 ≢ ok tt)
          × (record_at rs i ≡ ok c)
          × (HasReturned (storage.get c store) → ⊥))

  at_end-AreKept :
      (n : ℕ) (s : Stamper S)
      → AreKept Anchored rs n s
      → AreKept Anchored rs n (record s { cursor = n })
  unfolding is_pending
  at_end-AreKept n s v =
      moved-AreKept Anchored rs Anchored n s (record s { cursor = n }) v refl (λ c size kept. kept)

  set_cursor-IsRecovered :
      (n : ℕ) (e : Stamper S × Result (Unit {0})) → IsEnd n e → IsRecovered n (set_cursor n e)
  set_cursor-IsRecovered n e (finished s' run v) =
      inl (record s' { cursor = n }, ap (set_cursor n) run, refl, at_end-AreKept n s' v)
  set_cursor-IsRecovered n e (unread s' i run inside failed) =
      inr (inl (s', i, ap (set_cursor n) run, inside, failed))
  set_cursor-IsRecovered n (s', ok u) (crashed i c other there lost) = absurd (other refl)
  set_cursor-IsRecovered n (s', err x) (crashed i c other there lost) =
      inr (inr (i, c, other, there, lost))
  set_cursor-IsRecovered n (s', panicked) (crashed i c other there lost) =
      inr (inr (i, c, other, there, lost))
  set_cursor-IsRecovered n (s', stuck) (crashed i c other there lost) =
      inr (inr (i, c, other, there, lost))

  recover-IsRecovered :
      (s : Stamper S)
      → Holds s.journal rs
      → length rs * record_size < 0x8000_0000_0000_0000
      → s.store ≡ store
      → IsRecovered (length rs) (recover storage reads s)
  unfolding recover
  recover-IsRecovered s holds fits same =
      let none_kept : AreKept Anchored rs 0 s = record {
        holds = holds;
        fits = fits;
        in_journal = omega arith;
        kept = λ i c inside there. absurd (omega (arith, inside));
      } in
      let n : ℕ = s.journal.count in
      let e : 0 + n ≡ n = omega arith in
      let ended : IsEnd n (recover_from storage reads n 0 s) =
        rw e at (recover_from-IsEnd n 0 s none_kept same (omega (arith, holds.counted))) in
      subst (λ m. IsRecovered m (set_cursor n (recover_from storage reads n 0 s))) holds.counted
        (set_cursor-IsRecovered n (recover_from storage reads n 0 s) ended)

module _ {ℓ} {S : Type ℓ} (storage : Storage S) where
  -- Recover, on a journal in order and shorter than 2 ^ 63 bytes, where the store's Get of each record of
  -- the journal returns a tree or an error: either it succeeds, the cursor is at the end of the journal,
  -- and each of the journal's records is queued, in a transaction waiting for confirmations, or has a tree
  -- in the store with a Bitcoin attestation at one of its nodes; or it ends with the error of ReadAt, and
  -- the ReadAt of one of the records fails. So it succeeds where every read goes well.
  pub recover-IsTracking :
      (reads : ℕ → Bool) (rs : List Bytes) (s : Stamper S)
      → Holds s.journal rs
      → length rs * record_size < 0x8000_0000_0000_0000
      → ((i : ℕ) (c : Bytes) → record_at rs i ≡ ok c → HasReturned (storage.get c s.store))
      → ((s' : Stamper S) × (recover storage reads s ≡ (s', ok tt))
          × (s'.cursor ≡ length rs)
          × IsTracking (λ c. IsAnchoredIn storage s.store c) rs s')
        ⊎ ((s' : Stamper S) × (i : ℕ) × (recover storage reads s ≡ (s', err io_failed))
            × (i < length rs)
            × (reads i ≡ false))
  recover-IsTracking reads rs s holds fits returns =
      elim (recover-IsRecovered storage reads s.store rs s holds fits refl) [
        | inl (s', run, whole, v) ↦ inl (s', run, whole, v)
        | inr (inl failed) ↦ inr failed
        | inr (inr (i, c, other, there, lost)) ↦ absurd (lost (returns i c there))
      ]

  -- A Recover that succeeds, whatever Get does.
  pub recovered-IsTracking :
      (reads : ℕ → Bool) (rs : List Bytes) (s s' : Stamper S)
      → Holds s.journal rs
      → length rs * record_size < 0x8000_0000_0000_0000
      → recover storage reads s ≡ (s', ok tt)
      → IsTracking (λ c. IsAnchoredIn storage s.store c) rs s'
  recovered-IsTracking reads rs s s' holds fits run =
      elim (recover-IsRecovered storage reads s.store rs s holds fits refl) [
        | inl (s'', run', whole, v) ↦
            let same : s'' ≡ s' =
              ap (λ (e : Stamper S × Result (Unit {0})). e.0) (sym run' ∙ run) in
            subst (λ x. IsTracking (λ c. IsAnchoredIn storage s.store c) rs x) same v
        | inr (inl (s'', i, run', inside, failed)) ↦
            let other : err io_failed ≡ ok tt =
              ap (λ (e : Stamper S × Result (Unit {0})). e.1) (sym run' ∙ run) in
            absurd (cc)
        | inr (inr (i, c, other, there, lost)) ↦
            absurd (other (ap (λ (e : Stamper S × Result (Unit {0})). e.1) run))
      ]
