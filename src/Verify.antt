-- ===== src/Verify.antt =====
-- internal/verify/verify.go: the verification of a proof against a digest, calendars and Bitcoin
-- block headers. A calendar client and a header source are functions, `none` where the call
-- fails; times are seconds since 1970. A formatted detail or reason is a value of a type with a
-- constructor for each format.
pub mod Upgrade
pub mod Proof
pub mod Parse
pub mod Sound
pub mod Anchors
use ots.Prelude.{
  ℕ, zero, suc, Bool, true, false, List, [], ◌∷◌, ◌++◌, Option, none, some, not, Bytes, length, ltb,
  ◌==◌, bytes_equal, if◌then◌else◌,
}
use ots.Result.{Error, Result, ok, err, panicked, stuck, ◌>>=◌, digest_mismatch}
use ots.Op.{Op, Hashes, ReadEnd, hash_reader}
use ots.Notary.{Attestation, pending, bitcoin, litecoin, unknown}
use ots.Timestamp.{
  Timestamp, stamp, Ops, no_ops, op_stamp, msg_of, Merging, merge, go_on, all_attestations,
}

pub record BlockHeader : Type 0 where
  pub hash : Bytes
  pub merkle_root : Bytes
  pub time : ℕ

abbrev pub HeaderSource : Type 0
HeaderSource = ℕ → Option BlockHeader

abbrev pub Upgrader : Type 0
Upgrader = Bytes → Bytes → Option Timestamp

pub record Options : Type 0 where
  pub upgrader : Option Upgrader
  pub headers : Option HeaderSource

pub data Status : Type 0 where
  confirmed still_pending invalid unverified not_known : Status

pub data Kind : Type 0 where
  of_pending of_bitcoin of_litecoin of_unknown : Kind

pub data Detail : Type 0 where
  at_calendar : Bytes → Detail
  at_height no_32_bytes fetch_failed root_mismatch : ℕ → Detail
  in_block : ℕ → BlockHeader → Detail
  unknown_attestation : Detail

pub record AttestationInfo : Type 0 where
  pub kind : Kind
  pub detail : Detail
  pub status : Status

pub data Reason : Type 0 where
  no_reason root_differs file_differs no_attestations header_differs receipt_only no_source : Reason
  upgrade_failed : Error → Reason

pub record VerifyResult : Type 0 where
  pub valid : Bool
  pub status : Status
  pub reason : Reason
  pub verified_at : Option ℕ
  pub block_height : ℕ
  pub block_hash : Bytes
  pub attestations : List AttestationInfo

-- &Result{Valid: false, Status: StatusInvalid, Reason: r}
abbrev pub refused : Reason → VerifyResult
refused r = record {
  valid = false;
  status = invalid;
  reason = r;
  verified_at = none;
  block_height = 0;
  block_hash = [];
  attestations = [];
}

unfoldable pub verify_digest : Timestamp → Bytes → Result (Unit {0})
verify_digest proof digest =
    if not (bytes_equal (msg_of proof) digest) then err digest_mismatch else ok tt

pub record BitcoinVerifyInfo : Type 0 where
  pub info : AttestationInfo
  pub block_time : ℕ
  pub block_hash : Bytes

abbrev pub unconfirmed : Detail → Status → BitcoinVerifyInfo
unconfirmed d s = record {
  info = record { kind = of_bitcoin; detail = d; status = s };
  block_time = 0;
  block_hash = [];
}

unfoldable pub check_header : ℕ → Bytes → Option BlockHeader → BitcoinVerifyInfo
check_header height msg none = unconfirmed (fetch_failed height) unverified
check_header height msg (some header) =
    if not (bytes_equal msg header.merkle_root)
    then unconfirmed (root_mismatch height) invalid
    else record {
      info = record { kind = of_bitcoin; detail = in_block height header; status = confirmed };
      block_time = header.time;
      block_hash = header.hash;
    }

unfoldable pub verify_bitcoin : Option HeaderSource → ℕ → Bytes → BitcoinVerifyInfo
verify_bitcoin none height msg = unconfirmed (at_height height) unverified
verify_bitcoin (some headers) height msg =
    if not (length msg == 32)
    then unconfirmed (no_32_bytes height) invalid
    else check_header height msg (headers height)

-- The variables of the loop of VerifyProof.
pub record Progress : Type 0 where
  pub infos : List AttestationInfo
  pub verified_at : Option ℕ
  pub block_height : ℕ
  pub block_hash : Bytes
  pub saw_pending : Bool
  pub saw_invalid : Bool

-- `result.VerifiedAt == nil || blockTime.Before(*result.VerifiedAt)`
abbrev pub is_earlier : ℕ → Option ℕ → Bool
is_earlier time none = true
is_earlier time (some t) = ltb time t

unfoldable pub note_confirmed : ℕ → BitcoinVerifyInfo → Progress → Progress
note_confirmed height i p =
    if is_earlier i.block_time p.verified_at
    then record p {
      verified_at = some i.block_time;
      block_height = height;
      block_hash = i.block_hash;
    }
    else p

unfoldable pub note_status : ℕ → BitcoinVerifyInfo → Status → Progress → Progress
note_status height i confirmed p = note_confirmed height i p
note_status height i invalid p = record p { saw_invalid = true }
note_status height i _ p = p

abbrev pub add_info : Progress → AttestationInfo → Progress
add_info p i = record p { infos = p.infos ++ (i ∷ []) }

unfoldable pub check_attestation : Option HeaderSource → Bytes → Attestation → Progress → Progress
check_attestation headers msg (pending uri) p =
    record (add_info p
      (record { kind = of_pending; detail = at_calendar uri; status = still_pending })) {
        saw_pending = true;
      }
check_attestation headers msg (bitcoin height) p =
    let i = verify_bitcoin headers height msg in
    note_status height i i.info.status (add_info p i.info)
check_attestation headers msg (litecoin height) p =
    add_info p (record { kind = of_litecoin; detail = at_height height; status = unverified })
check_attestation headers msg (unknown t payload) p =
    add_info p (record { kind = of_unknown; detail = unknown_attestation; status = not_known })

unfoldable pub check_all : Option HeaderSource → List (Bytes × Attestation) → Progress → Progress
check_all headers [] p = p
check_all headers ((msg, att) ∷ items) p =
    check_all headers items (check_attestation headers msg att p)

abbrev pub start : Progress
start = record {
  infos = [];
  verified_at = none;
  block_height = 0;
  block_hash = [];
  saw_pending = false;
  saw_invalid = false;
}

unfoldable pub concluded : Progress → Bool → Status → Reason → VerifyResult
concluded p v s r = record {
  valid = v;
  status = s;
  reason = r;
  verified_at = p.verified_at;
  block_height = p.block_height;
  block_hash = p.block_hash;
  attestations = p.infos;
}

-- The switch at the end of VerifyProof, from its second case on.
unfoldable pub conclude_items : Progress → Option ℕ → VerifyResult
unfolding concluded
conclude_items p (some t) = concluded p true confirmed no_reason
conclude_items p none =
    if p.saw_invalid
    then concluded p false invalid header_differs
    else if p.saw_pending
    then concluded p false still_pending receipt_only
    else concluded p false unverified no_source

unfoldable pub conclude : Progress → VerifyResult
unfolding conclude_items
conclude p =
    if length p.infos == 0
    then concluded p false invalid no_attestations
    else conclude_items p p.verified_at
