-- ===== src/Verify/Sound.antt =====
-- VerifyProof (internal/verify/verify.go) fails closed: a proof is valid exactly when a block
-- header confirms one of its Bitcoin attestations, and the result names the earliest such block.
use ots.Prelude.{
  ℕ, ◌+◌, ◌≤◌, ◌≡◌, ◌≢◌, refl, subst, ◌∙◌, arith, true, false, List, [], ◌∷◌, Option, none, some,
  Bytes, All, length, length-append, bytes_equal, bytes_equal_self, inl, inr, Bool-cases,
  Option-cases, bytes_equal→eq,
}
use ots.Result.{Result, ok, err, panicked, stuck}
use ots.Op.{Hashes}
use ots.Notary.{Attestation, pending, bitcoin, litecoin, unknown}
use ots.Timestamp.{Timestamp, msg_of, Merging, all_attestations}
use ots.Verify.{
  BlockHeader, HeaderSource, Options, VerifyResult, Progress, start, check_attestation, check_all,
  conclude, note_status, note_confirmed, refused, root_differs, verify_digest, Status, confirmed,
  BitcoinVerifyInfo,
}
use ots.Verify.Upgrade.{upgrade_pending}
use ots.Verify.Proof.{judge, verify_proof}
use ots.Verify.Anchors.{AnyAnchor, IsBound, NoLater, check_all_earliest, check_all-Noted}

-- The result's block anchors one of the items, and no block that does is earlier.
pub record IsConfirmedBy (headers : Option HeaderSource) (items : List (Bytes × Attestation))
    (r : VerifyResult) (n : ℕ) (hdr : BlockHeader) : Type 0 where
  pub anchors : AnyAnchor headers items n hdr
  pub at_time : r.verified_at ≡ some hdr.time
  pub at_block : r.block_height ≡ n
  pub with_hash : r.block_hash ≡ hdr.hash
  pub is_earliest : All (IsBound headers (some hdr.time)) items

conclude_fields :
    (p : Progress)
    → ((conclude p).verified_at ≡ p.verified_at)
      × ((conclude p).block_height ≡ p.block_height)
      × ((conclude p).block_hash ≡ p.block_hash)
unfolding conclude
conclude_fields p = (ground arith, ground arith, ground arith)

conclude_valid : (p : Progress) → (conclude p).valid ≡ true → p.verified_at ≢ none
unfolding conclude
conclude_valid p e = λ missing. ground arith

conclude-is_valid :
    (p : Progress) (t : ℕ)
    → p.verified_at ≡ some t
    → length p.infos ≢ 0
    → ((conclude p).valid ≡ true) × ((conclude p).status ≡ confirmed)
unfolding conclude
conclude-is_valid p t found some_info = (ground arith, ground arith)

note_status_infos :
    (height : ℕ) (i : BitcoinVerifyInfo) (s : Status) (p : Progress)
    → (note_status height i s p).infos ≡ p.infos
unfolding note_status note_confirmed
note_status_infos height i confirmed p = ground arith
note_status_infos height i _ p = refl

length_after_one :
    (headers : Option HeaderSource) (msg : Bytes) (att : Attestation) (p : Progress)
    → length (check_attestation headers msg att p).infos ≡ length p.infos + 1
unfolding check_attestation
length_after_one headers msg (bitcoin n) p = rw note_status_infos (length-append p.infos _)
length_after_one headers msg (pending uri) p = length-append p.infos _
length_after_one headers msg (litecoin n) p = length-append p.infos _
length_after_one headers msg (unknown t payload) p = length-append p.infos _

length_infos :
    (headers : Option HeaderSource) (items : List (Bytes × Attestation)) (p : Progress)
    → length (check_all headers items p).infos ≡ length p.infos + length items
unfolding check_all
length_infos headers [] p = omega arith
length_infos headers ((msg, att) ∷ items) p = omega (
  arith,
  length_infos headers items (check_attestation headers msg att p),
  length_after_one headers msg att p,
)

-- The loop and the switch: valid only by a block.
conclude_sound :
    (headers : Option HeaderSource) (items : List (Bytes × Attestation))
    → (conclude (check_all headers items start)).valid ≡ true
    → (n : ℕ) × (hdr : BlockHeader) × IsConfirmedBy headers items
        (conclude (check_all headers items start))
        n
        hdr
conclude_sound headers items e =
    let p = check_all headers items start in
    let (time, height, hash) = conclude_fields p in
    elim (check_all-Noted headers items start) [
      | inl kept ↦ absurd (conclude_valid p e kept.0)
      | inr (n, hdr, any, noted) ↦ (
        n,
        hdr,
        record {
          anchors = any;
          at_time = time ∙ noted.0;
          at_block = height ∙ noted.1;
          with_hash = hash ∙ noted.2;
          is_earliest = rw noted.0 at ((check_all_earliest headers items start).1);
        },
      )
    ]

anchor_time :
    (headers : Option HeaderSource) (time : Option ℕ) (items : List (Bytes × Attestation)) (n : ℕ)
    (hdr : BlockHeader)
    → AnyAnchor headers items n hdr
    → All (IsBound headers time) items
    → NoLater time (some hdr.time) × (1 ≤ length items)
anchor_time headers time [] n hdr any bounds = absurd any
anchor_time headers time (item ∷ items) n hdr (inl anchor) bounds =
    (bounds.0 n hdr anchor, omega arith)
anchor_time headers time (item ∷ items) n hdr (inr any) bounds =
    ((anchor_time headers time items n hdr any bounds.1).0, omega arith)

conclude_complete :
    (headers : Option HeaderSource) (items : List (Bytes × Attestation)) (n : ℕ) (hdr : BlockHeader)
    → AnyAnchor headers items n hdr
    → ((conclude (check_all headers items start)).valid ≡ true)
      × ((conclude (check_all headers items start)).status ≡ confirmed)
conclude_complete headers items n hdr any =
    let p = check_all headers items start in
    let (bound, some_item) =
      anchor_time headers p.verified_at items n hdr any
        (check_all_earliest headers items start).1 in
    elim (Option-cases p.verified_at) [
      | inl missing ↦ absurd (rw missing at bound)
      | inr (t, found) ↦
          conclude-is_valid p t found (omega (arith, length_infos headers items start))
    ]

-- What a run of VerifyProof may answer for a proof with the given message.
abbrev IsSound : Options → Bytes → Bytes → Timestamp × Result VerifyResult → Type 0
IsSound opts msg digest (t, ok r) =
    r.valid ≡ true
    → (msg ≡ digest)
      × ((n : ℕ) × (hdr : BlockHeader) × IsConfirmedBy opts.headers (all_attestations t) r n hdr)
IsSound opts msg digest (t, err e) = Unit
IsSound opts msg digest (t, panicked) = Unit
IsSound opts msg digest (t, stuck) = Unit

judge-IsSound :
    (opts : Options) (msg digest : Bytes) (m : Merging)
    → msg ≡ digest
    → IsSound opts msg digest (judge opts m)
unfolding judge
judge-IsSound opts msg digest (t, ok u) same =
    λ valid. (same, conclude_sound opts.headers (all_attestations t) valid)
judge-IsSound opts msg digest (t, err e) same = λ valid. cc
judge-IsSound opts msg digest (t, panicked) same = tt
judge-IsSound opts msg digest (t, stuck) same = tt

verify_proof_bound :
    (h : Hashes) (opts : Options) (proof : Timestamp) (digest : Bytes)
    → bytes_equal (msg_of proof) digest ≡ true
    → verify_proof h opts proof digest ≡ judge opts (upgrade_pending h opts.upgrader proof)
unfolding verify_proof verify_digest
verify_proof_bound h opts proof digest e = rw (e, verify_proof, verify_digest)

verify_proof_other :
    (h : Hashes) (opts : Options) (proof : Timestamp) (digest : Bytes)
    → bytes_equal (msg_of proof) digest ≡ false
    → verify_proof h opts proof digest ≡ (proof, ok (refused root_differs))
unfolding verify_proof verify_digest
verify_proof_other h opts proof digest e = rw (e, verify_proof, verify_digest)

verify_proof-IsSound :
    (h : Hashes) (opts : Options) (proof : Timestamp) (digest : Bytes)
    → IsSound opts (msg_of proof) digest (verify_proof h opts proof digest)
verify_proof-IsSound h opts proof digest = elim (Bool-cases (bytes_equal (msg_of proof) digest)) [
  | inl e ↦
      rw (verify_proof_bound h opts proof digest e)
        (judge-IsSound opts (msg_of proof) digest _ (bytes_equal→eq _ _ e))
  | inr e ↦ rw (verify_proof_other h opts proof digest e) (λ valid. cc)
]

-- A proof that VerifyProof calls valid has the digest as its message, and in the tree that the
-- upgrade left a Bitcoin attestation whose message is the 32-byte merkle root of the block at its
-- height; the result names such a block, and none is earlier.
pub verify_proof_sound :
    (h : Hashes) (opts : Options) (proof t : Timestamp) (digest : Bytes) (r : VerifyResult)
    → verify_proof h opts proof digest ≡ (t, ok r)
    → r.valid ≡ true
    → (msg_of proof ≡ digest)
      × ((n : ℕ) × (hdr : BlockHeader) × IsConfirmedBy opts.headers (all_attestations t) r n hdr)
verify_proof_sound h opts proof t digest r e valid =
    subst (IsSound opts (msg_of proof) digest) e (verify_proof-IsSound h opts proof digest) valid

-- Where the message is the digest and the upgrade goes well, a Bitcoin attestation whose message is
-- the 32-byte merkle root of the block at its height makes the proof valid and confirmed.
pub verify_proof_complete :
    (h : Hashes) (opts : Options) (proof t : Timestamp) (n : ℕ) (hdr : BlockHeader)
    → upgrade_pending h opts.upgrader proof ≡ (t, ok tt)
    → AnyAnchor opts.headers (all_attestations t) n hdr
    → (r : VerifyResult) × (verify_proof h opts proof (msg_of proof) ≡ (t, ok r))
      × (r.valid ≡ true)
      × (r.status ≡ confirmed)
verify_proof_complete h opts proof t n hdr upgraded any =
    let (valid, status) = conclude_complete opts.headers (all_attestations t) n hdr any in
    (
      conclude (check_all opts.headers (all_attestations t) start),
      verify_proof_bound h opts proof (msg_of proof) (bytes_equal_self (msg_of proof))
          ∙ rw upgraded (unfold judge in refl),
      valid,
      status,
    )
