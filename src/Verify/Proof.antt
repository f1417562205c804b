-- ===== src/Verify/Proof.antt =====
-- VerifyProof and VerifyDetached (internal/verify/verify.go), put together from the upgrade and
-- the check of the attestations.
use ots.Prelude.{List, [], Bytes, bytes_equal, not, if◌then◌else◌}
use ots.Result.{Result, ok, err, panicked, stuck}
use ots.Op.{Hashes, ReadEnd, hash_reader}
use ots.Timestamp.{Timestamp, msg_of, Merging, all_attestations}
use ots.Verify.{
  Options, VerifyResult, refused, upgrade_failed, root_differs, file_differs, verify_digest,
  check_all, conclude, start,
}
use ots.Verify.Upgrade.{upgrade_pending}

unfoldable pub judge : Options → Merging → Timestamp × Result VerifyResult
judge opts (t, ok u) = (t, ok (conclude (check_all opts.headers (all_attestations t) start)))
judge opts (t, err e) = (t, ok (refused (upgrade_failed e)))
judge opts (t, panicked) = (t, panicked)
judge opts (t, stuck) = (t, stuck)

-- VerifyProof: the proof as the call leaves it, and the result.
unfoldable pub verify_proof : Hashes → Options → Timestamp → Bytes → Timestamp × Result VerifyResult
verify_proof h opts proof digest = elim (verify_digest proof digest) [
  | ok u ↦ judge opts (upgrade_pending h opts.upgrader proof)
  | _ ↦ (proof, ok (refused root_differs))
]

unfoldable pub verify_computed :
    Hashes → Options → Timestamp → Result Bytes → Timestamp × Result VerifyResult
verify_computed h opts det (ok computed) =
    if not (bytes_equal computed (msg_of det))
    then (det, ok (refused file_differs))
    else verify_proof h opts det computed
verify_computed h opts det (err e) = (det, err e)
verify_computed h opts det panicked = (det, panicked)
verify_computed h opts det stuck = (det, stuck)

unfoldable pub verify_detached :
    Hashes → Options → List (Bytes × ReadEnd) → Timestamp → Timestamp × Result VerifyResult
verify_detached h opts file det = verify_computed h opts det (hash_reader h.sha256 [] file)
