-- ===== src/Examples/Formats.antt =====
-- Serialize, Op and Notary at concrete inputs.
use ots.Prelude.{
  ◌≤◌, ◌≡◌, ◌≢◌, ◌↔◌, true, refl, arith, [], ◌∷◌, ◌++◌, Bytes, IsByte, All, length, replicate,
  bytes_equal, bytes_less, ltb, ◌==◌, ◌&&◌, ◌||◌,
}
use ots.Prelude.Int.{pos}
use ots.Result.{ok, err, panicked, trailing_garbage}
use ots.Serialize.{
  write_var_uint, write_groups, read_var_uint, read_groups, read_bytes, read_var_bytes_min_max,
}
use ots.Serialize.VarUint.{base128, read_var_uint-write_var_uint, write_var_uint_shape}
use ots.Serialize.Hostile.{read_bytes_short, read_var_bytes_min_max-ne-panicked}
use ots.Op
use ots.Op.{append, sha256, ripemd160, crypt, sha1, transform, HashLaws}
use ots.Op.Apply.{Links, apply_iff, apply_hash}
use ots.Op.Format.{deserialize-serialize_op}
use ots.Notary
use ots.Notary.{
  Attestation, pending, bitcoin, unknown, pending_tag, bitcoin_tag, litecoin_tag, check_uri,
  check_chars,
}
use ots.Notary.Format.{
  IsUnknownTag, deserialize-serialize_attestation, deserialize_unknown, deserialize_negative_length,
}
use ots.Notary.Order.{less_attestation_lexicographic, height_of, text_of}
use ots.Notary.Sorted.{sort_attestations_sorts, IsSorted}
use ots.Op.Order.{arg_of, equal_op_iff, less_op_lexicographic}
use ots.Examples.Data.{toy_hashes, toy_laws, uri}
use mathlib.Core.List.{Perm}

write_var_uint_300 : write_var_uint 300 (9 ∷ []) ≡ 9 ∷ 0xac ∷ 0x02 ∷ []
unfolding write_var_uint write_groups
write_var_uint_300 = refl

read_var_uint_padded : read_var_uint (0x80 ∷ 0x00 ∷ 7 ∷ []) ≡ ok (0, 7 ∷ [])
unfolding read_var_uint read_groups
read_var_uint_padded = refl

read_bytes_padded : read_bytes (pos 4) (1 ∷ 2 ∷ []) ≡ ok (1 ∷ 2 ∷ 0 ∷ 0 ∷ [], [])
unfolding read_bytes ots.Serialize.read_slice
read_bytes_padded = refl

read_var_uint-write_var_uint_example :
    read_var_uint (write_var_uint 300 [] ++ (7 ∷ [])) ≡ ok (300, 7 ∷ [])
read_var_uint-write_var_uint_example = read_var_uint-write_var_uint 300 (7 ∷ []) (omega arith)

write_var_uint_shape_example :
    (out : Bytes) × (write_var_uint 300 (9 ∷ []) ≡ 9 ∷ out)
    × All IsByte out
    × (1 ≤ length out)
    × (length out ≤ 10)
write_var_uint_shape_example = write_var_uint_shape 300 (9 ∷ []) (omega arith)

read_bytes_short_example : read_bytes (pos 4) (1 ∷ 2 ∷ []) ≡ ok (1 ∷ 2 ∷ 0 ∷ 0 ∷ [], [])
read_bytes_short_example = read_bytes_short 4 (1 ∷ 2 ∷ []) (omega arith) (omega arith) (omega arith)

deserialize-serialize_op_example :
    Op.deserialize (Op.serialize (append (5 ∷ 6 ∷ [])) [] ++ (9 ∷ []))
    ≡ ok (append (5 ∷ 6 ∷ []), 9 ∷ [])
deserialize-serialize_op_example =
    deserialize-serialize_op (append (5 ∷ 6 ∷ [])) (9 ∷ []) (omega arith)

apply_hash_example :
    (Op.apply toy_hashes sha256 (1 ∷ []) ≡ ok (toy_hashes.sha256 (1 ∷ [])))
    × (Op.apply toy_hashes sha1 (1 ∷ []) ≡ ok (toy_hashes.sha1 (1 ∷ [])))
    × (Op.apply toy_hashes (crypt ripemd160) (1 ∷ []) ≡ ok (toy_hashes.ripemd160 (1 ∷ [])))
apply_hash_example = apply_hash toy_hashes ripemd160 (1 ∷ []) toy_laws (omega arith)

uri_checked : check_uri uri ≡ ok tt
unfolding check_uri check_chars
uri_checked = refl

deserialize-serialize_attestation_example :
    Notary.deserialize (Notary.serialize (pending uri) [] ++ (9 ∷ [])) ≡ ok (pending uri, 9 ∷ [])
deserialize-serialize_attestation_example =
    deserialize-serialize_attestation (pending uri) (9 ∷ []) uri_checked

other_tag : IsUnknownTag (replicate 8 1)
unfolding bytes_equal
other_tag = record { size = refl; not_pending = refl; not_bitcoin = refl; not_litecoin = refl }

deserialize_unknown_example :
    Notary.deserialize (Notary.serialize (unknown (replicate 8 1) (4 ∷ [])) [] ++ [])
    ≡ err trailing_garbage
deserialize_unknown_example =
    deserialize_unknown (replicate 8 1) (4 ∷ []) [] other_tag (omega arith) (omega arith)

deserialize_negative_length_example :
    Notary.deserialize (replicate 8 1 ++ (base128 9 0x8000_0000_0000_0000 ++ [])) ≡ panicked
deserialize_negative_length_example =
    deserialize_negative_length (replicate 8 1) [] 0x8000_0000_0000_0000 refl (omega arith)
      (omega arith)

less_attestation_lexicographic_example : Notary.less (bitcoin 3) (bitcoin 4) ≡ (
    bytes_less bitcoin_tag bitcoin_tag
    || (bytes_equal bitcoin_tag bitcoin_tag
        && (ltb (height_of (bitcoin 3)) (height_of (bitcoin 4))
            || (height_of (bitcoin 3) == height_of (bitcoin 4)
                && bytes_less (text_of (bitcoin 3)) (text_of (bitcoin 4))))))
less_attestation_lexicographic_example =
    less_attestation_lexicographic (bitcoin 3) (bitcoin 4) tt tt

sort_attestations_sorts_example :
    Perm
      (Notary.sort_attestations (pending uri ∷ bitcoin 4 ∷ bitcoin 3 ∷ []))
      (pending uri ∷ bitcoin 4 ∷ bitcoin 3 ∷ [])
    × IsSorted (Notary.sort_attestations (pending uri ∷ bitcoin 4 ∷ bitcoin 3 ∷ []))
sort_attestations_sorts_example =
    sort_attestations_sorts (pending uri ∷ bitcoin 4 ∷ bitcoin 3 ∷ []) (tt, (tt, (tt, tt)))

read_var_bytes_min_max-ne-panicked_example :
    read_var_bytes_min_max (pos 1) (pos 4096) (0x80 ∷ 0x80 ∷ 0x01 ∷ []) ≢ panicked
read_var_bytes_min_max-ne-panicked_example =
    read_var_bytes_min_max-ne-panicked 1 4096 (0x80 ∷ 0x80 ∷ 0x01 ∷ []) (omega arith)

apply_iff_example :
    (Op.apply toy_hashes (append (2 ∷ [])) (1 ∷ []) ≡ ok (1 ∷ 2 ∷ []))
    ↔ Links toy_hashes (append (2 ∷ [])) (1 ∷ []) (1 ∷ 2 ∷ [])
apply_iff_example = apply_iff toy_hashes (append (2 ∷ [])) (1 ∷ []) (1 ∷ 2 ∷ [])

less_op_lexicographic_example : Op.less (append (1 ∷ [])) (append (2 ∷ [])) ≡ (
    ltb (Op.tag (append (1 ∷ []))) (Op.tag (append (2 ∷ [])))
    || (Op.tag (append (1 ∷ [])) == Op.tag (append (2 ∷ []))
        && bytes_less (arg_of (append (1 ∷ []))) (arg_of (append (2 ∷ [])))))
less_op_lexicographic_example = less_op_lexicographic (append (1 ∷ [])) (append (2 ∷ []))

equal_op_iff_example :
    (Op.equal (append (1 ∷ [])) (append (2 ∷ [])) ≡ true) ↔ (append (1 ∷ []) ≡ append (2 ∷ []))
equal_op_iff_example = equal_op_iff (append (1 ∷ [])) (append (2 ∷ []))
