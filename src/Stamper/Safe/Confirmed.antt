-- ===== src/Stamper/Safe/Confirmed.antt =====
-- trackConfirmations (internal/stamper/stamper.go) keeps every commitment, but for those that it makes
-- final.
use ots.Prelude.{
  ◌≡◌, refl, ◌∙◌, arith, Bool, true, false, List, [], ◌∷◌, ◌++◌, ◌||◌, Bytes, Bool-cases,
  if◌then◌else◌, ◌⊎◌, inl, inr,
}
use ots.Result.{Result, ok, err, panicked, stuck}
use ots.Op.{Hashes}
use ots.Calendar.Store.{Storage}
use ots.Stamper.{
  Config, Backend, UnconfirmedTx, Stamper, is_in, has_leaf, in_unconfirmed, is_pending,
}
use ots.Stamper.Confirm.{Tracking, track_next, track_all, track_confirmations}
use ots.Stamper.Queue.{in_unconfirmed-append}
use ots.Stamper.Safe.{IsLater, at_once, IsFinal, AnyFinal}
use ots.Stamper.Safe.Stored.{IsLater-trans}
use ots.Stamper.Safe.Finalized.{IsRound, track_tx-IsRound}

module _ {ℓ} {S : Type ℓ} (h : Hashes) (storage : Storage S) (btc : Backend) (cfg : Config)
    (c : Bytes) where
  -- What the loop has looked at and what it has not, and the queue, hold the commitment together.
  abbrev IsHeld : List UnconfirmedTx → List UnconfirmedTx → Stamper S → Type 0
  IsHeld remaining utxs s =
      (is_in c s.pending || (in_unconfirmed c remaining || in_unconfirmed c utxs)) ≡ true

  round-IsHeld :
      (remaining : List UnconfirmedTx) (s : Stamper S) (keep : Bool) (utx : UnconfirmedTx)
      (utxs : List UnconfirmedTx) (s' : Stamper S)
      → IsRound h storage btc cfg c utx s (s', ok keep)
      → IsHeld remaining (utx ∷ utxs) s
      → IsHeld (if keep then remaining ++ (utx ∷ []) else remaining) utxs s'
        ⊎ ((w : IsFinal h storage btc cfg c utx) × IsLater storage w.put_lem.store' s'.store)
  unfolding in_unconfirmed
  round-IsHeld remaining s true utx utxs s' v e =
      inl (rw (in_unconfirmed-append c remaining (utx ∷ [])) (ground (arith, v.tracked.kept)))
  round-IsHeld remaining s false utx utxs s' v e = elim (Bool-cases (has_leaf c utx.leaves)) [
    | inr other ↦ inl (ground (arith, v.tracked.kept, other, e))
    | inl there ↦ elim (v.dropped refl there) [
      | inl queued ↦ inl (ground (arith, queued))
      | inr final ↦ inr final
    ]
  ]

  -- A panic leaves the transactions of before.
  round-pending :
      (utx : UnconfirmedTx) (s : Stamper S) (e : Tracking S)
      → IsRound h storage btc cfg c utx s e
      → is_pending s c ≡ true
      → is_pending e.0 c ≡ true
  unfolding is_pending
  round-pending utx s e v there =
      let kept : is_in c s.pending ≡ true → is_in c e.0.pending ≡ true = v.tracked.kept in
      rw v.tracked.same_unconfirmed (ground (arith, kept, there))

  -- The journal and the cursor are not touched, and the store takes further trees only.
  abbrev IsSamePlace : Stamper S → Stamper S → Type ℓ
  IsSamePlace s s' =
      (s'.journal ≡ s.journal) × (s'.cursor ≡ s.cursor) × IsLater storage s.store s'.store

  track_next-IsSamePlace :
      (rest : Bool → Stamper S → Stamper S × Result (Unit {0})) (utx : UnconfirmedTx)
      (s : Stamper S) (e : Tracking S)
      → ((keep : Bool) (s' : Stamper S) → IsSamePlace s' (rest keep s').0)
      → IsRound h storage btc cfg c utx s e
      → IsSamePlace s (track_next rest e).0
  unfolding track_next
  track_next-IsSamePlace rest utx s (s', ok keep) below v =
      let (same_journal, same_cursor, later) = below keep s' in
      (
        same_journal ∙ v.tracked.same_journal,
        same_cursor ∙ v.tracked.same_cursor,
        IsLater-trans storage v.tracked.later later,
      )
  track_next-IsSamePlace rest utx s (s', err x) below v =
      (v.tracked.same_journal, v.tracked.same_cursor, v.tracked.later)
  track_next-IsSamePlace rest utx s (s', panicked) below v =
      (v.tracked.same_journal, v.tracked.same_cursor, v.tracked.later)
  track_next-IsSamePlace rest utx s (s', stuck) below v =
      (v.tracked.same_journal, v.tracked.same_cursor, v.tracked.later)

  track_all-IsSamePlace :
      (remaining utxs : List UnconfirmedTx) (s : Stamper S)
      → IsSamePlace s (track_all h storage btc cfg remaining utxs s).0
  unfolding track_all
  track_all-IsSamePlace remaining [] s = (refl, refl, at_once)
  track_all-IsSamePlace remaining (utx ∷ utxs) s =
      track_next-IsSamePlace _ utx s _ (λ keep. track_all-IsSamePlace _ utxs)
        (track_tx-IsRound h storage btc cfg c s utx (btc.tx_status utx.txid) refl)

  pub track_confirmations-IsSamePlace :
      (s : Stamper S) → IsSamePlace s (track_confirmations h storage btc cfg s).0
  unfolding track_confirmations
  track_confirmations-IsSamePlace s = track_all-IsSamePlace [] s.unconfirmed s

  later :
      (utx : UnconfirmedTx) (utxs : List UnconfirmedTx) (last : S)
      → AnyFinal h storage btc cfg c last utxs
      → AnyFinal h storage btc cfg c last (utx ∷ utxs)
  later utx utxs last (final, among, v, kept) = (final, inr among, v, kept)

  -- One round of the loop, with the others after it.
  track_next-pending :
      (rest : Bool → Stamper S → Stamper S × Result (Unit {0}))
      (remaining utxs : List UnconfirmedTx) (utx : UnconfirmedTx) (s : Stamper S) (e : Tracking S)
      → ((keep : Bool) (s' : Stamper S)
          → IsHeld (if keep then remaining ++ (utx ∷ []) else remaining) utxs s'
          → is_pending s' c ≡ true
          → (is_pending (rest keep s').0 c ≡ true)
            ⊎ AnyFinal h storage btc cfg c (rest keep s').0.store utxs)
      → ((keep : Bool) (s' : Stamper S) → IsLater storage s'.store (rest keep s').0.store)
      → IsRound h storage btc cfg c utx s e
      → IsHeld remaining (utx ∷ utxs) s
      → is_pending s c ≡ true
      → (is_pending (track_next rest e).0 c ≡ true)
        ⊎ AnyFinal h storage btc cfg c (track_next rest e).0.store (utx ∷ utxs)
  unfolding track_next
  track_next-pending rest remaining utxs utx s (s', ok keep) below after v held there =
      elim (round-IsHeld remaining s keep utx utxs s' v held) [
        | inr (final, kept) ↦ inr (utx, inl refl, final, IsLater-trans storage kept (after keep s'))
        | inl still ↦ elim (below keep s' still (round-pending utx s (s', ok keep) v there)) [
          | inl pending ↦ inl pending
          | inr final ↦ inr (later utx utxs (rest keep s').0.store final)
        ]
      ]
  track_next-pending rest remaining utxs utx s (s', err x) below after v held there =
      inl (round-pending utx s (s', err x) v there)
  track_next-pending rest remaining utxs utx s (s', panicked) below after v held there =
      inl (round-pending utx s (s', panicked) v there)
  track_next-pending rest remaining utxs utx s (s', stuck) below after v held there =
      inl (round-pending utx s (s', stuck) v there)

  track_all-pending :
      (remaining utxs : List UnconfirmedTx) (s : Stamper S)
      → IsHeld remaining utxs s
      → is_pending s c ≡ true
      → (is_pending (track_all h storage btc cfg remaining utxs s).0 c ≡ true)
        ⊎ AnyFinal h storage btc cfg c (track_all h storage btc cfg remaining utxs s).0.store utxs
  unfolding track_all is_pending in_unconfirmed
  track_all-pending remaining [] s held there = inl (ground (arith, held))
  track_all-pending remaining (utx ∷ utxs) s held there =
      track_next-pending _ remaining utxs utx s _ (λ keep. track_all-pending _ utxs)
        (λ keep s'. (track_all-IsSamePlace _ utxs s').2)
        (track_tx-IsRound h storage btc cfg c s utx (btc.tx_status utx.txid) refl) held there

  pub track_confirmations-pending :
      (s : Stamper S)
      → is_pending s c ≡ true
      → (is_pending (track_confirmations h storage btc cfg s).0 c ≡ true)
        ⊎ AnyFinal h storage btc cfg c
            (track_confirmations h storage btc cfg s).0.store
            s.unconfirmed
  unfolding track_confirmations is_pending in_unconfirmed
  track_confirmations-pending s there =
      track_all-pending [] s.unconfirmed s (ground (arith, there)) there
