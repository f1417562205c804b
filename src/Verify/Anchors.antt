-- ===== src/Verify/Anchors.antt =====
-- What confirms a proof, stated without the code, and the loop of VerifyProof
-- (internal/verify/verify.go) against it: the earliest confirming block wins.
use ots.Prelude.{
  ℕ, ◌≤◌, ◌≡◌, refl, ap, ◌∙◌, arith, true, false, List, [], ◌∷◌, Option, none, some, Bytes, All,
  length, bytes_equal_iff, ◌⊎◌, inl, inr, Bool-cases, Option-cases,
}
use ots.Notary.{Attestation, pending, bitcoin, litecoin, unknown}
use ots.Verify.{
  BlockHeader, HeaderSource, Status, confirmed, invalid, BitcoinVerifyInfo, check_header,
  verify_bitcoin, Progress, is_earlier, note_confirmed, note_status, check_attestation, check_all,
  add_info,
}

-- The item is a Bitcoin attestation at height `n`, the header source has the block `hdr` there, and
-- the attested message is the 32 bytes of that block's merkle root.
abbrev pub IsAnchor : Option HeaderSource → Bytes × Attestation → ℕ → BlockHeader → Type 0
IsAnchor (some source) (msg, bitcoin m) n hdr =
    (m ≡ n) × (source m ≡ some hdr) × (msg ≡ hdr.merkle_root) × (length msg ≡ 32)
IsAnchor headers item n hdr = ⊥

-- One of the items is.
abbrev pub AnyAnchor : Option HeaderSource → List (Bytes × Attestation) → ℕ → BlockHeader → Type 0
AnyAnchor headers [] n hdr = ⊥
AnyAnchor headers (item ∷ items) n hdr = IsAnchor headers item n hdr ⊎ AnyAnchor headers items n hdr

-- A time is there and not later than the other, if that is there.
abbrev pub NoLater : Option ℕ → Option ℕ → Type 0
NoLater a none = Unit
NoLater none (some u) = ⊥
NoLater (some t) (some u) = t ≤ u

-- The time is not later than that of any block that anchors the item.
abbrev pub IsBound : Option HeaderSource → Option ℕ → Bytes × Attestation → Type 0
IsBound headers time item =
    (n : ℕ) (hdr : BlockHeader) → IsAnchor headers item n hdr → NoLater time (some hdr.time)

NoLater-refl : (a : Option ℕ) → NoLater a a
NoLater-refl none = tt
NoLater-refl (some t) = omega arith

NoLater-trans : (a b c : Option ℕ) → NoLater a b → NoLater b c → NoLater a c
NoLater-trans a b none h k = tt
NoLater-trans a none (some u) h k = absurd k
NoLater-trans none (some t) (some u) h k = absurd h
NoLater-trans (some s) (some t) (some u) h k = omega arith

-- The time, height and hash that are noted.
abbrev pub Noted : Progress → Option ℕ → ℕ → Bytes → Type 0
Noted p time height hash =
    (p.verified_at ≡ time) × (p.block_height ≡ height) × (p.block_hash ≡ hash)

verify_bitcoin_anchor :
    (source : HeaderSource) (msg : Bytes) (n : ℕ) (hdr : BlockHeader)
    → IsAnchor (some source) (msg, bitcoin n) n hdr
    → ((verify_bitcoin (some source) n msg).info.status ≡ confirmed)
      × ((verify_bitcoin (some source) n msg).block_time ≡ hdr.time)
unfolding verify_bitcoin check_header
verify_bitcoin_anchor source msg n hdr (same, found, root, size) =
    ground (arith, bytes_equal_iff msg hdr.merkle_root)

verify_bitcoin_confirmed :
    (headers : Option HeaderSource) (msg : Bytes) (n : ℕ)
    → (verify_bitcoin headers n msg).info.status ≡ confirmed
    → (hdr : BlockHeader) × IsAnchor headers (msg, bitcoin n) n hdr
      × ((verify_bitcoin headers n msg).block_time ≡ hdr.time)
      × ((verify_bitcoin headers n msg).block_hash ≡ hdr.hash)
unfolding verify_bitcoin check_header
verify_bitcoin_confirmed none msg n e = cc
verify_bitcoin_confirmed (some source) msg n e = elim (Option-cases (source n)) [
  | inl missing ↦ absurd (ground arith)
  | inr (hdr, found) ↦ (
    hdr,
    (refl, found, ground (arith, bytes_equal_iff msg hdr.merkle_root), ground arith),
    ground arith,
    ground arith,
  )
]

-- One attestation: the noted time gets no later, and is not later than that of an anchor.
note_confirmed_earlier :
    (height : ℕ) (i : BitcoinVerifyInfo) (p : Progress)
    → NoLater (note_confirmed height i p).verified_at p.verified_at
      × NoLater (note_confirmed height i p).verified_at (some i.block_time)
unfolding note_confirmed
note_confirmed_earlier height i p = elim (Bool-cases (is_earlier i.block_time p.verified_at)) [
  | inl e ↦ rw e (earlier i.block_time p.verified_at e, omega arith)
  | inr e ↦ rw e (NoLater-refl p.verified_at, not_earlier i.block_time p.verified_at e)
]
  where
    earlier : (t : ℕ) (a : Option ℕ) → is_earlier t a ≡ true → NoLater (some t) a
    earlier t none e = tt
    earlier t (some u) e = ground arith

    not_earlier : (t : ℕ) (a : Option ℕ) → is_earlier t a ≡ false → NoLater a (some t)
    not_earlier t none e = cc
    not_earlier t (some u) e = ground arith

note_status_earlier :
    (height : ℕ) (i : BitcoinVerifyInfo) (s : Status) (p : Progress)
    → NoLater (note_status height i s p).verified_at p.verified_at
      × (s ≡ confirmed → NoLater (note_status height i s p).verified_at (some i.block_time))
unfolding note_status
note_status_earlier height i confirmed p =
    let (le, bound) = note_confirmed_earlier height i p in (le, λ _. bound)
note_status_earlier height i invalid p = (NoLater-refl p.verified_at, λ e. absurd (ground arith))
note_status_earlier height i _ p = (NoLater-refl p.verified_at, λ e. absurd (ground arith))

check_attestation_earlier :
    (headers : Option HeaderSource) (msg : Bytes) (att : Attestation) (p : Progress)
    → NoLater (check_attestation headers msg att p).verified_at p.verified_at
      × IsBound headers (check_attestation headers msg att p).verified_at (msg, att)
unfolding check_attestation
check_attestation_earlier none msg (bitcoin m) p =
    ((note_status_earlier m _ _ _).0, λ n hdr a. absurd a)
check_attestation_earlier (some source) msg (bitcoin m) p =
    let (le, bound) =
      note_status_earlier m (verify_bitcoin (some source) m msg)
        (verify_bitcoin (some source) m msg).info.status _ in
    (
      le,
      λ n hdr a.
          let (conf, time) = verify_bitcoin_anchor source msg m hdr (refl, a.1, a.2, a.3) in
          rw (← time) (bound conf),
    )
check_attestation_earlier none msg (pending uri) p =
    (NoLater-refl p.verified_at, λ n hdr a. absurd a)
check_attestation_earlier (some source) msg (pending uri) p =
    (NoLater-refl p.verified_at, λ n hdr a. absurd a)
check_attestation_earlier none msg (litecoin m) p =
    (NoLater-refl p.verified_at, λ n hdr a. absurd a)
check_attestation_earlier (some source) msg (litecoin m) p =
    (NoLater-refl p.verified_at, λ n hdr a. absurd a)
check_attestation_earlier none msg (unknown t payload) p =
    (NoLater-refl p.verified_at, λ n hdr a. absurd a)
check_attestation_earlier (some source) msg (unknown t payload) p =
    (NoLater-refl p.verified_at, λ n hdr a. absurd a)

-- What an attestation notes is what was noted before, or its own block.
abbrev NotedBy : Option HeaderSource → Bytes × Attestation → Progress → Progress → Type 0
NotedBy headers item p q =
    Noted q p.verified_at p.block_height p.block_hash
    ⊎ ((n : ℕ) × (hdr : BlockHeader) × IsAnchor headers item n hdr
        × Noted q (some hdr.time) n hdr.hash)

note_status-Noted :
    (height : ℕ) (i : BitcoinVerifyInfo) (s : Status) (p : Progress)
    → Noted (note_status height i s p) p.verified_at p.block_height p.block_hash
      ⊎ ((s ≡ confirmed) × Noted (note_status height i s p) (some i.block_time) height i.block_hash)
unfolding note_status note_confirmed
note_status-Noted height i confirmed p = elim (Bool-cases (is_earlier i.block_time p.verified_at)) [
  | inl e ↦ rw e (inr (refl, (refl, refl, refl)))
  | inr e ↦ rw e (inl (refl, refl, refl))
]
note_status-Noted height i invalid p = inl (refl, refl, refl)
note_status-Noted height i _ p = inl (refl, refl, refl)

check_attestation-Noted :
    (headers : Option HeaderSource) (msg : Bytes) (att : Attestation) (p : Progress)
    → NotedBy headers (msg, att) p (check_attestation headers msg att p)
unfolding check_attestation
check_attestation-Noted headers msg (bitcoin m) p =
    let i = verify_bitcoin headers m msg in
    elim (note_status-Noted m i i.info.status (add_info p i.info)) [
      | inl kept ↦ inl kept
      | inr (conf, noted) ↦
          let (hdr, anchor, time, hash) = verify_bitcoin_confirmed headers msg m conf in
          inr (m, hdr, anchor, (noted.0 ∙ ap some time, noted.1, noted.2 ∙ hash))
    ]
check_attestation-Noted headers msg (pending uri) p = inl (refl, refl, refl)
check_attestation-Noted headers msg (litecoin m) p = inl (refl, refl, refl)
check_attestation-Noted headers msg (unknown t payload) p = inl (refl, refl, refl)

abbrev AllBound : Option HeaderSource → Option ℕ → List (Bytes × Attestation) → Type 0
AllBound headers time items = All (IsBound headers time) items

NoLater-IsBound :
    (headers : Option HeaderSource) (a b : Option ℕ) (item : Bytes × Attestation)
    → NoLater a b
    → IsBound headers b item
    → IsBound headers a item
NoLater-IsBound headers a b item le bound =
    λ n hdr anchor. NoLater-trans a b (some hdr.time) le (bound n hdr anchor)

-- After the loop the noted time is not later than before, nor than that of any anchor.
pub check_all_earliest :
    (headers : Option HeaderSource) (items : List (Bytes × Attestation)) (p : Progress)
    → NoLater (check_all headers items p).verified_at p.verified_at
      × All (IsBound headers (check_all headers items p).verified_at) items
unfolding check_all
check_all_earliest headers [] p = (NoLater-refl p.verified_at, tt)
check_all_earliest headers ((msg, att) ∷ items) p =
    let q = check_attestation headers msg att p in
    let last = (check_all headers items q).verified_at in
    let (le₁, bound₁) = check_attestation_earlier headers msg att p in
    let (le₂, bounds) = check_all_earliest headers items q in
    (
      NoLater-trans last q.verified_at p.verified_at le₂ le₁,
      (NoLater-IsBound headers last q.verified_at (msg, att) le₂ bound₁, bounds),
    )

-- After the loop the noted block is the one of before, or that of an anchor.
pub check_all-Noted :
    (headers : Option HeaderSource) (items : List (Bytes × Attestation)) (p : Progress)
    → Noted (check_all headers items p) p.verified_at p.block_height p.block_hash
      ⊎ ((n : ℕ) × (hdr : BlockHeader) × AnyAnchor headers items n hdr
          × Noted (check_all headers items p) (some hdr.time) n hdr.hash)
unfolding check_all
check_all-Noted headers [] p = inl (refl, refl, refl)
check_all-Noted headers ((msg, att) ∷ items) p =
    elim (check_all-Noted headers items (check_attestation headers msg att p)) [
      | inr (n, hdr, any, noted) ↦ inr (n, hdr, inr any, noted)
      | inl kept ↦ elim (check_attestation-Noted headers msg att p) [
        | inl before ↦ inl (kept.0 ∙ before.0, kept.1 ∙ before.1, kept.2 ∙ before.2)
        | inr (n, hdr, anchor, noted) ↦
            inr (n, hdr, inl anchor, (kept.0 ∙ noted.0, kept.1 ∙ noted.1, kept.2 ∙ noted.2))
      ]
    ]
