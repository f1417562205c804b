-- ===== src/Timestamp/Codec/Layout.antt =====
-- The bytes of a proof tree as a plain description, in the order in which its attestations and
-- operations stand, and the loops of Serialize over the attestations
-- (internal/core/timestamp/timestamp.go) against it.
use ots.Prelude.{◌≡◌, refl, sym, ap, ◌∙◌, List, [], ◌∷◌, ◌++◌, append_assoc, append-nil, Bytes, All}
use ots.Result.{ok}
use ots.Op
use ots.Op.{Op, Hashes}
use ots.Op.Format.{argument}
use ots.Notary
use ots.Notary.{Attestation}
use ots.Notary.Format.{IsValid as IsValidAttestation, attestation_bytes}
use ots.Timestamp.{Timestamp, stamp, Ops, no_ops, op_stamp}
use ots.Timestamp.Codec.{write_marked, but_last, last?, write_last, write_marked_last}

unfoldable pub marked_bytes : List Attestation → Bytes
marked_bytes [] = []
marked_bytes (a ∷ atts) = 0xff ∷ 0x00 ∷ (attestation_bytes a ++ marked_bytes atts)

-- The items of a node without operations: all but the last are marked by 0xff.
unfoldable pub last_bytes : List Attestation → Bytes
last_bytes [] = []
last_bytes (a ∷ []) = 0x00 ∷ attestation_bytes a
last_bytes (a ∷ b ∷ atts) = 0xff ∷ 0x00 ∷ (attestation_bytes a ++ last_bytes (b ∷ atts))

unfoldable pub attestations_bytes : List Attestation → Ops → Bytes
attestations_bytes atts no_ops = last_bytes atts
attestations_bytes atts (op_stamp o s ops) = marked_bytes atts

abbrev pub separator : Ops → Bytes
separator no_ops = []
separator (op_stamp o s ops) = 0xff ∷ []

abbrev pub op_bytes : Op → Bytes
op_bytes o = Op.tag o ∷ argument o

unfoldable mutual
  pub tree_bytes : Timestamp → Bytes
  tree_bytes (stamp msg atts ops) = attestations_bytes atts ops ++ ops_bytes ops

  pub ops_bytes : Ops → Bytes
  ops_bytes no_ops = []
  ops_bytes (op_stamp o s ops) = separator ops ++ (op_bytes o ++ (tree_bytes s ++ ops_bytes ops))

marked_one :
    (a : Attestation) (ctx : Bytes)
    → IsValidAttestation a
    → Notary.serialize a (ctx ++ (0xff ∷ 0x00 ∷ [])) ≡ ctx ++ (0xff ∷ 0x00 ∷ attestation_bytes a)
marked_one a ctx v =
    Notary.Format.serialize_lem a _ v ∙ append_assoc ctx (0xff ∷ 0x00 ∷ []) (attestation_bytes a)

-- The loop over all but the last attestation, and then the last one, is the loop over all.
pub marked_front-last :
    (atts : List Attestation) (ctx : Bytes)
    → write_marked_last (last? atts) (write_marked (but_last atts) ctx) ≡ write_marked atts ctx
unfolding write_marked_last last? but_last write_marked
marked_front-last [] ctx = refl
marked_front-last (a ∷ []) ctx = refl
marked_front-last (a ∷ b ∷ atts) ctx = marked_front-last (b ∷ atts) _

pub write_marked-marked_bytes :
    (atts : List Attestation) (ctx : Bytes)
    → All IsValidAttestation atts
    → write_marked atts ctx ≡ ctx ++ marked_bytes atts
unfolding write_marked marked_bytes
write_marked-marked_bytes [] ctx v = sym (append-nil ctx)
write_marked-marked_bytes (a ∷ atts) ctx v = rw (marked_one a ctx v.0) (
    write_marked-marked_bytes atts _ v.1
    ∙ append_assoc ctx (0xff ∷ 0x00 ∷ attestation_bytes a) (marked_bytes atts))

pub write_last-last_bytes :
    (a : Attestation) (atts : List Attestation) (ctx : Bytes)
    → IsValidAttestation a
    → All IsValidAttestation atts
    → write_last (last? (a ∷ atts)) (write_marked (but_last (a ∷ atts)) ctx)
      ≡ ok (ctx ++ last_bytes (a ∷ atts))
unfolding write_last last? write_marked but_last last_bytes
write_last-last_bytes a [] ctx v vs =
    ap ok (Notary.Format.serialize_lem a _ v ∙ append_assoc ctx (0x00 ∷ []) (attestation_bytes a))
write_last-last_bytes a (b ∷ atts) ctx v vs =
    rw (marked_one a ctx v, write_marked)
      (write_last-last_bytes b atts _ vs.0 vs.1
        ∙ ap ok (append_assoc ctx (0xff ∷ 0x00 ∷ attestation_bytes a) (last_bytes (b ∷ atts))))
