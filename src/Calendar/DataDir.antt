-- ===== src/Calendar/DataDir.antt =====
-- internal/calendar/datadir.go: the file of the HMAC key. What it holds, and how the calls of the
-- file system and of the random source end, are arguments.
use ots.Prelude.{
  ◌≡◌, refl, arith, Bool, not, ◌&&◌, Bytes, take, length, ◌==◌, if◌then◌else◌, Bool-cases, inl, inr,
  subst,
}
use ots.Result.{Result, ok, err, panicked, stuck, io_failed, bad_key_size}
use ots.Calendar.Journal.{WriteEnd, all_written, write_failed}

pub data KeyFile : Type 0 where
  contents : Bytes → KeyFile
  missing : KeyFile

-- Whether a file that is there can be read, whether one can be created, how Write ends, and whether Sync and Close go well.
pub record Calls : Type 0 where
  pub reads : Bool
  pub creates : Bool
  pub ends : WriteEnd
  pub syncs : Bool
  pub closes : Bool

unfoldable pub written : Calls → WriteEnd → Bytes → KeyFile × Result (Unit {0})
written calls (write_failed n) buf = (contents (take n buf), err io_failed)
written calls all_written buf =
    (contents buf, if calls.syncs && calls.closes then ok tt else err io_failed)

-- A file that is there is not opened: os.O_EXCL.
unfoldable pub write_file_sync : Calls → Bytes → KeyFile → KeyFile × Result (Unit {0})
write_file_sync calls buf missing =
    if not calls.creates then (missing, err io_failed) else written calls calls.ends buf
write_file_sync calls buf file = (file, err io_failed)

unfoldable pub created : Bytes → KeyFile × Result (Unit {0}) → KeyFile × Result Bytes
created key (file, ok u) = (file, ok key)
created key (file, err e) = (file, err e)
created key (file, panicked) = (file, panicked)
created key (file, stuck) = (file, stuck)

unfoldable pub create_key : Calls → Result Bytes → KeyFile × Result Bytes
create_key calls (ok key) = created key (write_file_sync calls key missing)
create_key calls (err e) = (missing, err e)
create_key calls panicked = (missing, panicked)
create_key calls stuck = (missing, stuck)

unfoldable pub load_or_create_hmac_key : Calls → Result Bytes → KeyFile → KeyFile × Result Bytes
load_or_create_hmac_key calls random (contents key) = (
  contents key,
  if not calls.reads
      then err io_failed
      else if not (length key == 32)
      then err bad_key_size
      else ok key,
)
load_or_create_hmac_key calls random missing = create_key calls random

-- What an answer of a key says of the file.
abbrev IsKept : KeyFile × Result Bytes → Type 0
IsKept (file, ok key) = (file ≡ contents key) × (length key ≡ 32)
IsKept (file, err e) = Unit
IsKept (file, panicked) = Unit
IsKept (file, stuck) = Unit

written-IsKept :
    (calls : Calls) (ends : WriteEnd) (key : Bytes)
    → length key ≡ 32
    → IsKept (created key (written calls ends key))
unfolding created written
written-IsKept calls (write_failed n) key size = tt
written-IsKept calls all_written key size = elim (Bool-cases (calls.syncs && calls.closes)) [
  | inl kept ↦ rw kept (refl, size)
  | inr failed ↦ rw failed tt
]

created-IsKept :
    (calls : Calls) (key : Bytes)
    → length key ≡ 32
    → IsKept (created key (write_file_sync calls key missing))
unfolding write_file_sync written
created-IsKept calls key size = elim (Bool-cases calls.creates) [
  | inl creates ↦ rw creates (written-IsKept calls calls.ends key size)
  | inr failed ↦ rw failed (unfold created in tt)
]

load-IsKept :
    (calls : Calls) (key : Bytes) (file : KeyFile)
    → length key ≡ 32
    → IsKept (load_or_create_hmac_key calls (ok key) file)
unfolding load_or_create_hmac_key create_key
load-IsKept calls key (contents k) size = elim (Bool-cases calls.reads) [
  | inr failed ↦ rw failed tt
  | inl reads ↦ rw reads (elim (Bool-cases (length k == 32)) [
    | inl whole ↦ rw whole (refl, ground arith)
    | inr other ↦ rw other tt
  ])
]
load-IsKept calls key missing size = created-IsKept calls key size

-- A key that was loaded or created, from 32 random bytes, is the one that every later load gives
-- where its ReadFile goes well; where that fails the load gives the error and makes no new key. In
-- both cases the file stays as it is.
pub load_or_create_hmac_key_again :
    (calls later : Calls) (random key : Bytes) (unused : Result Bytes) (file file' : KeyFile)
    → length random ≡ 32
    → load_or_create_hmac_key calls (ok random) file ≡ (file', ok key)
    → load_or_create_hmac_key later unused file'
      ≡ (file', if later.reads then ok key else err io_failed)
unfolding load_or_create_hmac_key
load_or_create_hmac_key_again calls later random key unused file file' size e =
    let kept : (file' ≡ contents key) × (length key ≡ 32) =
      subst IsKept e (load-IsKept calls random file size) in
    rw kept.0 (elim (Bool-cases later.reads) [
      | inl reads ↦ rw reads (rw kept.1 refl)
      | inr failed ↦ rw failed refl
    ])
