-- ===== src/Examples/Keys.antt =====
-- The HMAC key of a calendar that starts for the first time.
use ots.Prelude.{◌≡◌, refl, true, false, Bytes, replicate}
use ots.Result.{ok, err, io_failed}
use ots.Calendar.Journal.{all_written}
use ots.Calendar.DataDir.{
  contents, missing, Calls, written, write_file_sync, created, create_key, load_or_create_hmac_key,
  load_or_create_hmac_key_again,
}

abbrev key : Bytes
key = replicate 32 5

abbrev fine : Calls
fine = record { reads = true; creates = true; ends = all_written; syncs = true; closes = true }

-- ReadFile fails.
abbrev unreadable : Calls
unreadable = record {
  reads = false;
  creates = true;
  ends = all_written;
  syncs = true;
  closes = true;
}

key_created : load_or_create_hmac_key fine (ok key) missing ≡ (contents key, ok key)
unfolding load_or_create_hmac_key create_key created write_file_sync written
key_created = refl

key_read_again :
    load_or_create_hmac_key fine (err io_failed) (contents key) ≡ (contents key, ok key)
key_read_again =
    load_or_create_hmac_key_again fine fine key key (err io_failed) missing (contents key) refl
      key_created

load_or_create_hmac_key_again_example :
    load_or_create_hmac_key unreadable (ok (replicate 32 6)) (contents key)
    ≡ (contents key, err io_failed)
load_or_create_hmac_key_again_example =
    load_or_create_hmac_key_again fine unreadable key key (ok (replicate 32 6)) missing
      (contents key) refl key_created
