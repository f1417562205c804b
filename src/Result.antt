-- ===== src/Result.antt =====
-- The outcome of a Go call that returns (value, error), and the reader that runs on a buffer:
-- internal/core/serialize/serialize.go and the error values of the packages above it.
-- An error is told apart by its Go type or its message; the numbers formatted into a message are
-- left out, except where a field of the error's type holds them.
pub mod Ensures
use ots.Prelude.{ℕ, Bytes, Bool, true, false}

-- `panicked` is a run-time panic of Go. `stuck` has no counterpart in Go: a loop of the model ran
-- out of fuel.
pub data Error : Type 0 where
  bad_bool varbytes_too_long varbytes_too_short invalid_uri unknown_op_tag : Error
  unsupported_file_hash : Error
  invalid_for_op corrupt_timestamp : Error → Error
  bad_magic : Bytes → Bytes → Error
  unsupported_major_version : ℕ → Error
  truncation trailing_garbage recursion_limit : Error
  msg_too_long empty_result result_too_long : Error
  empty_arg arg_too_long : Error
  uri_too_long uri_bad_char : Error
  message_exceeds_limit empty_timestamp different_messages digest_length_differs : Error
  digest_mismatch node_not_found op_not_found read_failed : Error
  no_calendars no_valid_urls calendars_failed not_on_any_calendar unknown_calendar : Error
  tip_not_found tip_repeated tx_out_of_range txid_differs root_differs tx_not_in_block : Error
  paths_diverged no_timestamps bad_key_size context_done io_failed bad_record_size
        index_out_of_range commitment_not_found :
      Error

pub data Result {ℓ} (A : Type ℓ) : Type ℓ where
  ok : A → Result A
  err : Error → Result A
  panicked : Result A
  stuck : Result A

-- `if !holds { return e }`
abbrev pub guard : Bool → Error → Result (Unit {0})
guard false e = err e
guard true e = ok tt

infixl 5 ◌>>=◌ ◌>>◌
abbrev pub ◌>>=◌ {ℓ κ} : {A : Type ℓ} {B : Type κ} → Result A → (A → Result B) → Result B
stuck >>= rest = stuck
panicked >>= rest = panicked
err e >>= rest = err e
ok value >>= rest = rest value

-- A call whose value is not used.
abbrev pub ◌>>◌ {ℓ κ} : {A : Type ℓ} {B : Type κ} → Result A → Result B → Result B
first >> second = first >>= λ value. second

-- What is left of a run: a value with the bytes of the buffer that are still unread.
abbrev pub Reader {ℓ} : Type ℓ → Type ℓ
Reader A = Bytes → Result (A × Bytes)
