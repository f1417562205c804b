-- ===== src/Notary.antt =====
-- internal/core/notary/notary.go: attestations, their byte format, their order and their sort.
-- A URI is a Go string, so its bytes.
pub mod Format
pub mod Leaves
pub mod Order
pub mod Sorted
use ots.Prelude.{
  ℕ, zero, suc, ◌+◌, ◌≤◌, ◌≡◌, Bool, true, false, List, [], ◌∷◌, ◌&&◌, ◌||◌, Bytes, length, ltb,
  leb, ◌==◌, bytes_equal, bytes_less, if◌then◌else◌,
}
use ots.Prelude.Int.{pos}
use ots.Result.{
  Error, Result, ok, err, panicked, stuck, Reader, ◌>>=◌, ◌>>◌, guard, uri_too_long, uri_bad_char,
  invalid_uri,
}
use ots.Serialize.{
  write_bytes, write_var_bytes, write_var_uint, read_bytes, read_var_bytes, read_var_uint,
  assert_eof,
}

abbrev pub tag_size : ℕ
tag_size = 8

abbrev pub max_payload_size : ℕ
max_payload_size = 8192

abbrev pub max_uri_length : ℕ
max_uri_length = 1000

-- A-Z, a-z, 0-9 and the characters of "-._/:".
abbrev pub is_allowed_uri_char : ℕ → Bool
is_allowed_uri_char c =
    (leb b'A' c && leb c b'Z')
    || (leb b'a' c && leb c b'z')
    || (leb b'0' c && leb c b'9')
    || c == b'-'
    || c == b'.'
    || c == b'_'
    || c == b'/'
    || c == b':'

abbrev pub pending_tag : Bytes
pending_tag = 0x83 ∷ 0xdf ∷ 0xe3 ∷ 0x0d ∷ 0x2e ∷ 0xf9 ∷ 0x0c ∷ 0x8e ∷ []

abbrev pub bitcoin_tag : Bytes
bitcoin_tag = 0x05 ∷ 0x88 ∷ 0x96 ∷ 0x0d ∷ 0x73 ∷ 0xd7 ∷ 0x19 ∷ 0x01 ∷ []

abbrev pub litecoin_tag : Bytes
litecoin_tag = 0x06 ∷ 0x86 ∷ 0x9a ∷ 0x0d ∷ 0x73 ∷ 0xd7 ∷ 0x1b ∷ 0x45 ∷ []

pub data Attestation : Type 0 where
  pending : Bytes → Attestation
  bitcoin : ℕ → Attestation
  litecoin : ℕ → Attestation
  unknown : Bytes → Bytes → Attestation

abbrev pub tag : Attestation → Bytes
tag (pending uri) = pending_tag
tag (bitcoin height) = bitcoin_tag
tag (litecoin height) = litecoin_tag
tag (unknown tag_bytes payload) = tag_bytes

unfoldable pub check_chars : Bytes → Result (Unit {0})
check_chars [] = ok tt
check_chars (c ∷ uri) = if is_allowed_uri_char c then check_chars uri else err uri_bad_char

unfoldable pub check_uri : Bytes → Result (Unit {0})
check_uri uri = if ltb max_uri_length (length uri) then err uri_too_long else check_chars uri

unfoldable pub new_pending_attestation : Bytes → Result Attestation
new_pending_attestation uri = do check_uri uri; ok (pending uri)

unfoldable pub serialize : Attestation → Bytes → Bytes
serialize (pending uri) ctx = write_var_bytes (write_var_bytes uri []) (write_bytes pending_tag ctx)
serialize (bitcoin height) ctx =
    write_var_bytes (write_var_uint height []) (write_bytes bitcoin_tag ctx)
serialize (litecoin height) ctx =
    write_var_bytes (write_var_uint height []) (write_bytes litecoin_tag ctx)
serialize (unknown tag_bytes payload) ctx = write_var_bytes payload (write_bytes tag_bytes ctx)

-- Of two attestations of one kind.
unfoldable pub less_payload : Attestation → Attestation → Bool
less_payload (pending a) (pending b) = bytes_less a b
less_payload (bitcoin a) (bitcoin b) = ltb a b
less_payload (litecoin a) (litecoin b) = ltb a b
less_payload (unknown s a) (unknown t b) = bytes_less a b
less_payload a b = bytes_less (tag a) (tag b)

unfoldable pub less : Attestation → Attestation → Bool
less a b = if bytes_equal (tag a) (tag b) then less_payload a b else bytes_less (tag a) (tag b)

unfoldable pub equal : Attestation → Attestation → Bool
equal (pending a) (pending b) = bytes_equal a b
equal (bitcoin a) (bitcoin b) = a == b
equal (litecoin a) (litecoin b) = a == b
equal (unknown s a) (unknown t b) = bytes_equal s t && bytes_equal a b
equal a b = false

-- An error of CheckURI becomes a DeserializationError.
unfoldable pub uri_checked : Bytes → Bytes → Result (Unit {0}) → Result (Attestation × Bytes)
uri_checked uri buf (ok u) = ok (pending uri, buf)
uri_checked uri buf (err e) = err invalid_uri
uri_checked uri buf panicked = panicked
uri_checked uri buf stuck = stuck

unfoldable pub deserialize_pending : Reader Attestation
deserialize_pending buf = do
  (uri, buf₁) ← read_var_bytes (pos max_uri_length) buf
  uri_checked uri buf₁ (check_uri uri)

unfoldable pub deserialize_bitcoin : Reader Attestation
deserialize_bitcoin buf = do (height, buf₁) ← read_var_uint buf; ok (bitcoin height, buf₁)

unfoldable pub deserialize_litecoin : Reader Attestation
deserialize_litecoin buf = do (height, buf₁) ← read_var_uint buf; ok (litecoin height, buf₁)

-- The reader of a payload for its tag. An unknown payload is kept, and stays unread.
unfoldable pub read_payload : Bytes → Reader Attestation
read_payload t payload =
    if bytes_equal t pending_tag
    then deserialize_pending payload
    else if bytes_equal t bitcoin_tag
    then deserialize_bitcoin payload
    else if bytes_equal t litecoin_tag
    then deserialize_litecoin payload
    else ok (unknown t payload, payload)

unfoldable pub deserialize : Reader Attestation
deserialize buf = do
  (t, buf₁) ← read_bytes (pos tag_size) buf
  (payload, buf₂) ← read_var_bytes (pos max_payload_size) buf₁
  (att, unread) ← read_payload t payload
  assert_eof unread
  ok (att, buf₂)

-- One round of the outer loop of SortAttestations: the inner loop runs `j` over what stands behind
-- position `i`, and swaps where atts[j] is less than atts[i]. The result is what stands at `i`
-- after it, and what stands behind.
unfoldable pub select_least : Attestation → List Attestation → Attestation × List Attestation
select_least a [] = (a, [])
select_least a (b ∷ atts) =
    let swap = less b a in
    let (least, rest) = select_least (if swap then b else a) atts in
    (least, (if swap then a else b) ∷ rest)

-- The outer loop, over the positions left.
unfoldable pub sort_from : ℕ → List Attestation → List Attestation
sort_from zero atts = atts
sort_from (suc n) [] = []
sort_from (suc n) (a ∷ atts) = let (least, rest) = select_least a atts in least ∷ sort_from n rest

unfoldable pub sort_attestations : List Attestation → List Attestation
sort_attestations atts = sort_from (length atts) atts
