-- ===== src/Stamper/Tracked/Anchored.antt =====
-- The commitments of the store's trees that carry a Bitcoin attestation (internal/stamper/stamper.go:
-- isConfirmed), told by the nodes of a tree.
use ots.Prelude.{ℕ, ◌≡◌, refl, true, List, [], ◌∷◌, ◌++◌, Bytes, inl, inr, ◌⊎◌}
use mathlib.Core.List.{map}
use ots.Result.{Result, ok, err, panicked, stuck}
use ots.Notary.{Attestation, pending, bitcoin, litecoin, unknown}
use ots.Timestamp.{Timestamp, stamp, Ops, no_ops, op_stamp, all_attestations, all_attestations_ops}
use ots.Verify.Upgrade.{has_bitcoin}
use ots.Calendar.Store.{Storage}

abbrev pub HasBitcoin : List Attestation → Type 0
HasBitcoin [] = ⊥
HasBitcoin (att ∷ atts) = ((height : ℕ) × (att ≡ bitcoin height)) ⊎ HasBitcoin atts

-- A Bitcoin attestation stands at the node or at one below it.
unfoldable mutual
  pub IsAnchored : Timestamp → Type 0
  IsAnchored (stamp msg atts ops) = HasBitcoin atts ⊎ AnyAnchored ops

  pub AnyAnchored : Ops → Type 0
  AnyAnchored no_ops = ⊥
  AnyAnchored (op_stamp o s ops) = IsAnchored s ⊎ AnyAnchored ops

-- The store gives a tree with a Bitcoin attestation for the commitment.
pub record IsAnchoredIn {ℓ} {S : Type ℓ} (storage : Storage S) (store : S) (c : Bytes)
    : Type ℓ where
  pub tree : Timestamp
  pub got : storage.get c store ≡ ok tree
  pub anchored : IsAnchored tree

-- A call that ends in a value or an error.
abbrev pub HasReturned {ℓ} : {A : Type ℓ} → Result A → Type 0
HasReturned (ok x) = Unit
HasReturned (err e) = Unit
HasReturned panicked = ⊥
HasReturned stuck = ⊥

has_bitcoin-append :
    (msg : Bytes) (atts : List Attestation) (items : List (Bytes × Attestation))
    → has_bitcoin (map (λ att. (msg, att)) atts ++ items) ≡ true
    → HasBitcoin atts ⊎ (has_bitcoin items ≡ true)
unfolding has_bitcoin
has_bitcoin-append msg [] items e = inr e
has_bitcoin-append msg (bitcoin height ∷ atts) items e = inl (inl (height, refl))
has_bitcoin-append msg (pending uri ∷ atts) items e = elim (has_bitcoin-append msg atts items e) [
  | inl there ↦ inl (inr there)
  | inr behind ↦ inr behind
]
has_bitcoin-append msg (litecoin height ∷ atts) items e =
    elim (has_bitcoin-append msg atts items e) [
      | inl there ↦ inl (inr there)
      | inr behind ↦ inr behind
    ]
has_bitcoin-append msg (unknown tag_bytes payload ∷ atts) items e =
    elim (has_bitcoin-append msg atts items e) [
      | inl there ↦ inl (inr there)
      | inr behind ↦ inr behind
    ]

has_bitcoin_split :
    (xs ys : List (Bytes × Attestation))
    → has_bitcoin (xs ++ ys) ≡ true
    → (has_bitcoin xs ≡ true) ⊎ (has_bitcoin ys ≡ true)
unfolding has_bitcoin
has_bitcoin_split [] ys e = inr e
has_bitcoin_split ((msg, bitcoin height) ∷ xs) ys e = inl refl
has_bitcoin_split ((msg, pending uri) ∷ xs) ys e = has_bitcoin_split xs ys e
has_bitcoin_split ((msg, litecoin height) ∷ xs) ys e = has_bitcoin_split xs ys e
has_bitcoin_split ((msg, unknown tag_bytes payload) ∷ xs) ys e = has_bitcoin_split xs ys e

mutual
  unfolding IsAnchored AnyAnchored all_attestations all_attestations_ops has_bitcoin

  pub has_bitcoin-IsAnchored :
      (t : Timestamp) → has_bitcoin (all_attestations t) ≡ true → IsAnchored t
  has_bitcoin-IsAnchored (stamp msg atts ops) e =
      elim (has_bitcoin-append msg atts (all_attestations_ops ops) e) [
        | inl here ↦ inl here
        | inr below ↦ inr (has_bitcoin-AnyAnchored ops below)
      ]

  has_bitcoin-AnyAnchored :
      (ops : Ops) → has_bitcoin (all_attestations_ops ops) ≡ true → AnyAnchored ops
  has_bitcoin-AnyAnchored no_ops e = absurd (cc)
  has_bitcoin-AnyAnchored (op_stamp o s ops) e =
      elim (has_bitcoin_split (all_attestations s) (all_attestations_ops ops) e) [
        | inl here ↦ inl (has_bitcoin-IsAnchored s here)
        | inr later ↦ inr (has_bitcoin-AnyAnchored ops later)
      ]
