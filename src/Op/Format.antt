-- ===== src/Op/Format.antt =====
-- The byte format of the operations (internal/core/op/op.go): what is written is read back.
use ots.Prelude.{◌≤◌, ◌≡◌, refl, ◌∙◌, arith, [], ◌∷◌, ◌++◌, append_assoc, Bytes, length}
use ots.Result.{Result, ok}
use ots.Serialize.Fields.{var_bytes, write_var_bytes-var_bytes, read_var_bytes_min_max-var_bytes}
use ots.Op.{
  Op, append, prepend, sha256, sha1, crypt, ripemd160, keccak256, tag, serialize, deserialize,
  deserialize_from_tag, read_with_arg, new_append, new_prepend, max_result_length,
}

-- NewAppend and NewPrepend build operations with an argument of 1 to 4096 bytes.
abbrev pub ArgFits : Bytes → Type 0
ArgFits arg = (1 ≤ length arg) × (length arg ≤ max_result_length)

abbrev pub IsValid : Op → Type 0
IsValid (append arg) = ArgFits arg
IsValid (prepend arg) = ArgFits arg
IsValid _ = Unit

-- What follows the tag.
unfoldable pub argument : Op → Bytes
argument (append arg) = var_bytes arg
argument (prepend arg) = var_bytes arg
argument sha256 = []
argument sha1 = []
argument (crypt c) = []

pub serialize_lem :
    (o : Op) (ctx : Bytes) → IsValid o → serialize o ctx ≡ ctx ++ (tag o ∷ argument o)
unfolding serialize argument
serialize_lem (append arg) ctx v =
    write_var_bytes-var_bytes arg _ (omega arith) ∙ append_assoc ctx (0xf0 ∷ []) (var_bytes arg)
serialize_lem (prepend arg) ctx v =
    write_var_bytes-var_bytes arg _ (omega arith) ∙ append_assoc ctx (0xf1 ∷ []) (var_bytes arg)
serialize_lem sha256 ctx v = refl
serialize_lem sha1 ctx v = refl
serialize_lem (crypt c) ctx v = refl

new_append_valid : (arg : Bytes) → ArgFits arg → new_append arg ≡ ok (append arg)
unfolding new_append
new_append_valid arg v = ground arith

new_prepend_valid : (arg : Bytes) → ArgFits arg → new_prepend arg ≡ ok (prepend arg)
unfolding new_prepend
new_prepend_valid arg v = ground arith

read_with_arg-var_bytes :
    (new : Bytes → Result Op) (o : Op) (arg rest : Bytes)
    → ArgFits arg
    → new arg ≡ ok o
    → read_with_arg new (var_bytes arg ++ rest) ≡ ok (o, rest)
unfolding read_with_arg
read_with_arg-var_bytes new o arg rest v made =
    rw (read_var_bytes_min_max-var_bytes arg rest 1 max_result_length v.0 v.1 (omega arith))
      (rw made)

-- An operation is read back from its tag and what follows it.
pub deserialize_from_tag-argument :
    (o : Op) (rest : Bytes)
    → IsValid o
    → deserialize_from_tag (tag o) (argument o ++ rest) ≡ ok (o, rest)
unfolding deserialize_from_tag argument
deserialize_from_tag-argument (append arg) rest v =
    read_with_arg-var_bytes new_append (append arg) arg rest v (new_append_valid arg v)
deserialize_from_tag-argument (prepend arg) rest v =
    read_with_arg-var_bytes new_prepend (prepend arg) arg rest v (new_prepend_valid arg v)
deserialize_from_tag-argument sha256 rest v = refl
deserialize_from_tag-argument sha1 rest v = refl
deserialize_from_tag-argument (crypt ripemd160) rest v = refl
deserialize_from_tag-argument (crypt keccak256) rest v = refl

-- Every operation that the constructors NewAppend, NewPrepend, NewSHA256, NewRIPEMD160 and
-- NewKeccak256 can build, or SHA-1, is read back by Deserialize from what Serialize wrote, with
-- the bytes behind it left unread.
pub deserialize-serialize_op :
    (o : Op) (rest : Bytes) → IsValid o → deserialize (serialize o [] ++ rest) ≡ ok (o, rest)
unfolding deserialize
deserialize-serialize_op o rest v =
    rw (serialize_lem o [] v) (deserialize_from_tag-argument o rest v)
