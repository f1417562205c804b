-- ===== src/Examples/Verified.antt =====
-- VerifyProof and ParseProof on a proof tree, with a header source that knows every block.
use ots.Prelude.{ℕ, ◌+◌, ◌≡◌, ◌≢◌, refl, true, [], ◌∷◌, ◌⊎◌, inl, inr, none, some, bytes_equal}
use ots.Result.{ok, err, digest_mismatch}
use ots.Timestamp.{msg_of, all_attestations}
use ots.Verify.{
  BlockHeader, HeaderSource, Options, VerifyResult, verify_digest, check_header, verify_bitcoin,
  note_confirmed, note_status, check_attestation, check_all, start, concluded, conclude_items,
  conclude, confirmed,
}
use ots.Verify.Upgrade.{upgrade_pending}
use ots.Verify.Proof.{verify_proof, judge}
use ots.Verify.Anchors.{AnyAnchor}
use ots.Verify.Sound.{IsConfirmedBy, verify_proof_sound, verify_proof_complete}
use ots.Verify.Parse.{ParseResult, IsReport, parse_proof, parse_proof-IsReport}
use ots.Examples.Data.{toy_hashes, digest, tree}

-- Every block has the digest as its merkle root; the times ascend with the height.
abbrev block : ℕ → BlockHeader
block n = record { hash = n ∷ []; merkle_root = digest; time = 1000 + n }

abbrev source : HeaderSource
source n = some (block n)

abbrev options : Options
options = record { upgrader = none; headers = some source }

-- VerifyResult of the run.
abbrev result : VerifyResult
result = conclude (check_all (some source) (all_attestations tree) start)

tree_anchored : AnyAnchor (some source) (all_attestations tree) 300 (block 300)
unfolding all_attestations
tree_anchored = inr (inl (refl, refl, refl, refl))

not_upgraded : upgrade_pending toy_hashes none tree ≡ (tree, ok tt)
unfolding upgrade_pending
not_upgraded = refl

tree_judged : verify_proof toy_hashes options tree digest ≡ (tree, ok result)
unfolding verify_proof verify_digest judge upgrade_pending bytes_equal
tree_judged = refl

tree_valid : result.valid ≡ true
unfolding conclude conclude_items concluded check_all check_attestation verify_bitcoin check_header
    note_status note_confirmed all_attestations bytes_equal
tree_valid = refl

verify_proof_sound_example :
    (msg_of tree ≡ digest)
    × ((n : ℕ) × (hdr : BlockHeader) × IsConfirmedBy
          (some source)
          (all_attestations tree)
          result
          n
          hdr)
verify_proof_sound_example =
    verify_proof_sound toy_hashes options tree tree digest result tree_judged tree_valid

verify_proof_complete_example :
    (r : VerifyResult) × (verify_proof toy_hashes options tree (msg_of tree) ≡ (tree, ok r))
    × (r.valid ≡ true)
    × (r.status ≡ confirmed)
verify_proof_complete_example =
    verify_proof_complete toy_hashes options tree tree 300 (block 300) not_upgraded tree_anchored

parse_proof-IsReport_example :
    ((msg_of tree ≡ digest)
      × (r : ParseResult) × (parse_proof tree digest ≡ ok r)
      × IsReport (all_attestations tree) r)
    ⊎ ((msg_of tree ≢ digest) × (parse_proof tree digest ≡ err digest_mismatch))
parse_proof-IsReport_example = parse_proof-IsReport tree digest
