-- ===== src/Notary/Leaves.antt =====
-- Deserialize of an attestation (internal/core/notary/notary.go)
-- ends on every input and leaves no more bytes than it found.
use ots.Prelude.{arith, true, [], ◌∷◌, Bytes, length, ltb, bytes_equal}
use ots.Prelude.Int.{pos}
use ots.Result.{Result}
use ots.Result.Ensures.{Ensures, returns, fails, panics, Ensures-bind, Ensures-if, Ensures-weaken}
use ots.Serialize.{assert_eof}
use ots.Serialize.Leaves.{Leaves, read_bytes-Leaves, read_var_bytes-Leaves, read_var_uint-Leaves}
use ots.Notary.{
  check_chars, check_uri, uri_checked, deserialize_pending, deserialize_bitcoin,
  deserialize_litecoin, read_payload, deserialize, is_allowed_uri_char, tag_size, max_payload_size,
  max_uri_length, pending_tag, bitcoin_tag, litecoin_tag,
}

check_chars-Ensures : (uri : Bytes) → Ensures true (λ u. Unit {0}) (check_chars uri)
unfolding check_chars
check_chars-Ensures [] = returns tt
check_chars-Ensures (c ∷ uri) =
    Ensures-if (is_allowed_uri_char c) (λ _. check_chars-Ensures uri) (λ _. fails)

check_uri-Ensures : (uri : Bytes) → Ensures true (λ u. Unit {0}) (check_uri uri)
unfolding check_uri
check_uri-Ensures uri =
    Ensures-if (ltb max_uri_length (length uri)) (λ _. fails) (λ _. check_chars-Ensures uri)

uri_checked-Leaves :
    (uri buf : Bytes) {r : Result (Unit {0})}
    → Ensures true (λ u. Unit {0}) r
    → Leaves true (length buf) (uri_checked uri buf r)
unfolding uri_checked
uri_checked-Leaves uri buf (returns u) = returns (omega arith)
uri_checked-Leaves uri buf fails = fails
uri_checked-Leaves uri buf (panics e) = panics e

read_payload-Leaves : (t payload : Bytes) → Leaves true (length payload) (read_payload t payload)
unfolding read_payload deserialize_pending deserialize_bitcoin deserialize_litecoin
read_payload-Leaves t payload =
    Ensures-if (bytes_equal t pending_tag)
      (λ _. Ensures-bind (read_var_bytes-Leaves (pos max_uri_length) payload) λ (uri, rest) le.
        Ensures-weaken (uri_checked-Leaves uri rest (check_uri-Ensures uri))
          λ (a, after) le'. omega arith)
      (λ _.
        Ensures-if (bytes_equal t bitcoin_tag) (λ _. height_read)
          (λ _.
            Ensures-if (bytes_equal t litecoin_tag) (λ _. height_read')
              (λ _. returns (omega arith))))
  where
    height_read : Leaves true (length payload) (deserialize_bitcoin payload)
    height_read = Ensures-bind (read_var_uint-Leaves true payload) λ (n, rest) le. returns le

    height_read' : Leaves true (length payload) (deserialize_litecoin payload)
    height_read' = Ensures-bind (read_var_uint-Leaves true payload) λ (n, rest) le. returns le

assert_eof-Ensures : (buf : Bytes) → Ensures true (λ u. Unit {0}) (assert_eof buf)
unfolding assert_eof
assert_eof-Ensures [] = returns tt
assert_eof-Ensures (b ∷ buf) = fails

pub deserialize-Leaves : (buf : Bytes) → Leaves true (length buf) (deserialize buf)
unfolding deserialize
deserialize-Leaves buf =
    Ensures-bind (read_bytes-Leaves true tag_size buf (omega arith)) λ (t, buf₁) le₁.
      Ensures-bind (read_var_bytes-Leaves (pos max_payload_size) buf₁) λ (payload, buf₂) le₂.
        Ensures-bind (read_payload-Leaves t payload)
          λ (att, unread) _. Ensures-bind (assert_eof-Ensures unread) λ _ _. returns (omega arith)
