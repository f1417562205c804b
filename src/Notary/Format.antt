-- ===== src/Notary/Format.antt =====
-- The byte format of the attestations (internal/core/notary/notary.go): what is written is read back, and what becomes of the
-- payload of an unknown attestation.
use ots.Prelude.{
  ℕ, ◌+◌, ◌≤◌, ◌<◌, ◌≡◌, refl, ap, ◌∙◌, arith, false, [], ◌∷◌, ◌++◌, append_assoc, append-nil,
  Bytes, IsU64, length, length-append, bytes_equal,
}
use ots.Prelude.Int.{pos}
use ots.Result.{ok, err, panicked, ◌>>=◌, ◌>>◌, trailing_garbage}
use ots.Serialize.{read_bytes, read_var_uint, read_var_bytes, assert_eof}
use ots.Serialize.VarUint.{base128, length-base128, write_var_uint-base128, read_var_uint-base128}
use ots.Serialize.Fields.{
  var_bytes, write_var_bytes-var_bytes, read_bytes_exact, read_var_bytes-var_bytes,
}
use ots.Serialize.Hostile.{read_var_bytes_negative}
use ots.Notary.{
  Attestation, pending, bitcoin, litecoin, unknown, tag, tag_size, max_payload_size, max_uri_length,
  pending_tag, bitcoin_tag, litecoin_tag, check_uri, serialize, deserialize, deserialize_pending,
  deserialize_bitcoin, deserialize_litecoin, read_payload, uri_checked,
}

-- A tag of eight bytes that is none of the three known ones.
pub record IsUnknownTag (t : Bytes) : Type 0 where
  pub size : length t ≡ tag_size
  pub not_pending : bytes_equal t pending_tag ≡ false
  pub not_bitcoin : bytes_equal t bitcoin_tag ≡ false
  pub not_litecoin : bytes_equal t litecoin_tag ≡ false

-- An attestation that Deserialize can give: a URI that CheckURI passes, a height that is a uint64,
-- or an unknown tag with no payload.
abbrev pub IsValid : Attestation → Type 0
IsValid (pending uri) = check_uri uri ≡ ok tt
IsValid (bitcoin height) = IsU64 height
IsValid (litecoin height) = IsU64 height
IsValid (unknown t payload) = IsUnknownTag t × (payload ≡ [])

unfoldable pub payload_of : Attestation → Bytes
payload_of (pending uri) = var_bytes uri
payload_of (bitcoin height) = base128 9 height
payload_of (litecoin height) = base128 9 height
payload_of (unknown t payload) = payload

-- The tag and the payload behind its length.
unfoldable pub attestation_bytes : Attestation → Bytes
attestation_bytes a = tag a ++ var_bytes (payload_of a)

pub length_of_checked : (uri : Bytes) → check_uri uri ≡ ok tt → length uri ≤ max_uri_length
unfolding check_uri
length_of_checked uri e = ground arith

length-var_bytes : (v : Bytes) → length (var_bytes v) ≤ length v + 10
unfolding var_bytes
length-var_bytes v =
    omega (arith, length-append (base128 9 (length v)) v, length-base128 9 (length v))

length-payload_of : (a : Attestation) → IsValid a → length (payload_of a) ≤ 1010
unfolding payload_of
length-payload_of (pending uri) v = omega (arith, length-var_bytes uri, length_of_checked uri v)
length-payload_of (bitcoin height) v = omega (arith, length-base128 9 height)
length-payload_of (litecoin height) v = omega (arith, length-base128 9 height)
length-payload_of (unknown t payload) v = omega (arith, ap length v.1)

pub serialize_lem :
    (a : Attestation) (ctx : Bytes) → IsValid a → serialize a ctx ≡ ctx ++ attestation_bytes a
unfolding serialize attestation_bytes payload_of
serialize_lem (pending uri) ctx v =
    let whole : IsU64 (length (var_bytes uri)) =
      omega (arith, length-var_bytes uri, length_of_checked uri v) in
    rw (write_var_bytes-var_bytes uri [] (omega (arith, length_of_checked uri v))) (
      write_var_bytes-var_bytes (var_bytes uri) _ whole
      ∙ append_assoc ctx pending_tag (var_bytes (var_bytes uri)))
serialize_lem (bitcoin height) ctx v = rw (write_var_uint-base128 height [] v) (
    write_var_bytes-var_bytes (base128 9 height) _ (omega (arith, length-base128 9 height))
    ∙ append_assoc ctx bitcoin_tag (var_bytes (base128 9 height)))
serialize_lem (litecoin height) ctx v = rw (write_var_uint-base128 height [] v) (
    write_var_bytes-var_bytes (base128 9 height) _ (omega (arith, length-base128 9 height))
    ∙ append_assoc ctx litecoin_tag (var_bytes (base128 9 height)))
serialize_lem (unknown t payload) ctx v =
    write_var_bytes-var_bytes payload _ (omega (arith, ap length v.1))
    ∙ append_assoc ctx t (var_bytes payload)

-- With the tag and the payload read, what is left is the payload's own reader.
deserialize_front :
    (t payload rest : Bytes)
    → length t ≡ tag_size
    → length payload ≤ max_payload_size
    → deserialize (t ++ (var_bytes payload ++ rest))
      ≡ (do (att, unread) ← read_payload t payload; assert_eof unread; ok (att, rest))
unfolding deserialize
deserialize_front t payload rest size fits =
    let front : read_bytes (pos tag_size) (t ++ (var_bytes payload ++ rest))
        ≡ ok (t, var_bytes payload ++ rest) =
      rw size at (read_bytes_exact t (var_bytes payload ++ rest) (omega (arith, size))) in
    rw front (rw (read_var_bytes-var_bytes payload rest max_payload_size fits (omega arith)) refl)

uint_exact : (v : ℕ) → IsU64 v → read_var_uint (base128 9 v) ≡ ok (v, [])
uint_exact v fits = rw append-nil at (read_var_uint-base128 v [] fits)

uri_exact :
    (uri : Bytes)
    → length uri ≤ max_uri_length
    → read_var_bytes (pos max_uri_length) (var_bytes uri) ≡ ok (uri, [])
uri_exact uri fits =
    rw append-nil at (read_var_bytes-var_bytes uri [] max_uri_length fits (omega arith))

read_payload-payload_of :
    (a : Attestation) → IsValid a → read_payload (tag a) (payload_of a) ≡ ok (a, [])
unfolding read_payload bytes_equal payload_of
read_payload-payload_of (pending uri) v =
    unfold deserialize_pending in
    rw (uri_exact uri (length_of_checked uri v)) (rw v (unfold uri_checked in refl))
read_payload-payload_of (bitcoin height) v = unfold deserialize_bitcoin in rw (uint_exact height v)
read_payload-payload_of (litecoin height) v =
    unfold deserialize_litecoin in rw (uint_exact height v)
read_payload-payload_of (unknown t payload) v =
    rw (v.0.not_pending, v.0.not_bitcoin) (rw v.0.not_litecoin (rw v.1))

size-tag : (a : Attestation) → IsValid a → length (tag a) ≡ tag_size
size-tag (pending uri) v = refl
size-tag (bitcoin height) v = refl
size-tag (litecoin height) v = refl
size-tag (unknown t payload) v = v.0.size

pub deserialize-attestation_bytes :
    (a : Attestation) (rest : Bytes)
    → IsValid a
    → deserialize (attestation_bytes a ++ rest) ≡ ok (a, rest)
unfolding attestation_bytes
deserialize-attestation_bytes a rest v = rw (append_assoc (tag a) (var_bytes (payload_of a)) rest) (
    deserialize_front (tag a) (payload_of a) rest (size-tag a v)
      (omega (arith, length-payload_of a v))
    ∙ rw (read_payload-payload_of a v) (unfold assert_eof in refl))

-- Every attestation that is valid is read back by Deserialize from what Serialize wrote, with the
-- bytes behind it left unread. An attestation of an unknown type is valid with no payload only.
pub deserialize-serialize_attestation :
    (a : Attestation) (rest : Bytes)
    → IsValid a
    → deserialize (serialize a [] ++ rest) ≡ ok (a, rest)
deserialize-serialize_attestation a rest v =
    rw (serialize_lem a [] v) (deserialize-attestation_bytes a rest v)

-- An attestation of an unknown type with a payload of 1 to 8192 bytes is written, and then refused
-- as trailing garbage: Deserialize leaves the payload unread and then asserts that it is used up.
pub deserialize_unknown :
    (t payload rest : Bytes)
    → IsUnknownTag t
    → 0 < length payload
    → length payload ≤ max_payload_size
    → deserialize (serialize (unknown t payload) [] ++ rest) ≡ err trailing_garbage
unfolding serialize
deserialize_unknown t [] rest u some_bytes fits = absurd (omega arith)
deserialize_unknown t (b ∷ payload) rest u some_bytes fits =
    rw (write_var_bytes-var_bytes (b ∷ payload) t (omega arith)) (
      rw (append_assoc t (var_bytes (b ∷ payload)) rest) (
        deserialize_front t (b ∷ payload) rest u.size fits
        ∙ unfold read_payload assert_eof in rw (u.not_pending, u.not_bitcoin) (rw u.not_litecoin)))

-- Eight bytes of tag, whichever they are, and a uint64 payload length of 2 ^ 63 or more, encoded in
-- base 128, make Deserialize panic.
pub deserialize_negative_length :
    (t rest : Bytes) (l : ℕ)
    → length t ≡ tag_size
    → 0x8000_0000_0000_0000 ≤ l
    → IsU64 l
    → deserialize (t ++ (base128 9 l ++ rest)) ≡ panicked
unfolding deserialize
deserialize_negative_length t rest l size big fits =
    let front : read_bytes (pos tag_size) (t ++ (base128 9 l ++ rest))
        ≡ ok (t, base128 9 l ++ rest) =
      rw size at (read_bytes_exact t (base128 9 l ++ rest) (omega (arith, size))) in
    rw front (rw (read_var_bytes_negative l max_payload_size rest big fits) refl)
