-- ===== src/Client/Pool.antt =====
-- pkg/ots/pool.go: several calendars that are asked at the same time. What the calendars answer is a
-- list, in the order in which the answers arrive; the HTTP clients are functions.
pub mod Answers
use ots.Prelude.{
  ℕ, Bool, true, false, List, [], ◌∷◌, ◌++◌, Option, none, some, Bytes, bytes_equal, length, ◌==◌,
  ◌||◌, if◌then◌else◌,
}
use ots.Result.{
  Result, ok, err, panicked, stuck, ◌>>=◌, no_calendars, no_valid_urls, calendars_failed,
  not_on_any_calendar, unknown_calendar,
}
use ots.Op.{Hashes}
use ots.Timestamp.{Timestamp, new, merge, Merging}

unfoldable pub is_known : Bytes → List Bytes → Bool
is_known u [] = false
is_known u (v ∷ urls) = bytes_equal v u || is_known u urls

unfoldable pub add_url : Bytes → List Bytes → List Bytes
add_url u urls = if length u == 0 then urls else if is_known u urls then urls else urls ++ (u ∷ [])

-- The loop of NewPool. `trimmed` is strings.TrimRight(strings.TrimSpace(raw), "/").
unfoldable pub add_urls : (Bytes → Bytes) → List Bytes → List Bytes → List Bytes
add_urls trimmed urls [] = urls
add_urls trimmed urls (raw ∷ raws) = add_urls trimmed (add_url (trimmed raw) urls) raws

-- The URLs of the pool, each with a client of its own.
unfoldable pub new_pool : (Bytes → Bytes) → List Bytes → Result (List Bytes)
new_pool trimmed [] = err no_calendars
new_pool trimmed (raw ∷ raws) =
    let urls : List Bytes = add_urls trimmed [] (raw ∷ raws) in
    if length urls == 0 then err no_valid_urls else ok urls

-- GetTimestamp, with the client of each URL.
unfoldable pub get_timestamp :
    (Bytes → Bytes)
    → List Bytes
    → (Bytes → Bytes → Result Timestamp)
    → Bytes
    → Bytes
    → Result Timestamp
get_timestamp trimmed urls client uri commitment =
    if is_known (trimmed uri) urls then client (trimmed uri) commitment else err unknown_calendar

-- `if merged == nil { merged = root }`
abbrev pub or_root : Timestamp → Option Timestamp → Timestamp
or_root root none = root
or_root root (some t) = t

-- What a Merge leaves, with the rest of the loop: an error is put on the list of errors only.
unfoldable pub merge_next :
    (Option Timestamp → Result (Option Timestamp)) → Merging → Result (Option Timestamp)
merge_next rest (t, ok u) = rest (some t)
merge_next rest (t, err e) = rest (some t)
merge_next rest (t, panicked) = panicked
merge_next rest (t, stuck) = stuck

-- The loop over the answers in Stamp.
unfoldable pub merge_answers :
    Hashes → Timestamp → Option Timestamp → List (Result Timestamp) → Result (Option Timestamp)
merge_answers h root merged [] = ok merged
merge_answers h root merged (ok proof ∷ answers) =
    merge_next (λ merged'. merge_answers h root merged' answers)
      (merge h (or_root root merged) proof)
merge_answers h root merged (err e ∷ answers) = merge_answers h root merged answers
merge_answers h root merged (panicked ∷ answers) = panicked
merge_answers h root merged (stuck ∷ answers) = stuck

unfoldable pub stamped : Option Timestamp → Result Timestamp
stamped none = err calendars_failed
stamped (some t) = ok t

unfoldable pub stamp_all : Hashes → List (Result Timestamp) → Bytes → Result Timestamp
stamp_all h answers digest = do
  root ← new digest
  merged ← merge_answers h root none answers
  stamped merged

-- GetTimestampAny
unfoldable pub get_timestamp_any : List (Result Timestamp) → Result Timestamp
get_timestamp_any [] = err not_on_any_calendar
get_timestamp_any (ok proof ∷ answers) = ok proof
get_timestamp_any (err e ∷ answers) = get_timestamp_any answers
get_timestamp_any (panicked ∷ answers) = panicked
get_timestamp_any (stuck ∷ answers) = stuck
