-- ===== src/Examples/Data.antt =====
-- The data of the runs.
use ots.Prelude.{ℕ, zero, suc, ◌≡◌, refl, arith, [], ◌∷◌, ◌++◌, Bytes, length, replicate}
use ots.Op.{Hashes, HashLaws, append, sha256}
use ots.Notary.{pending, bitcoin, litecoin}
use ots.Timestamp.{Timestamp, stamp, no_ops, op_stamp}
use ots.Timestamp.Detached.{Detached}

-- The first n bytes, filled up with zeros.
abbrev pub cut : ℕ → Bytes → Bytes
cut zero m = []
cut (suc n) [] = 0 ∷ cut n []
cut (suc n) (b ∷ m) = b ∷ cut n m

abbrev pub toy_hashes : Hashes
toy_hashes = record { sha1 = cut 20; sha256 = cut 32; ripemd160 = cut 20; keccak256 = cut 32 }

length-cut : (n : ℕ) (m : Bytes) → length (cut n m) ≡ n
length-cut zero m = refl
length-cut (suc n) [] = omega (arith, length-cut n [])
length-cut (suc n) (b ∷ m) = omega (arith, length-cut n m)

pub toy_laws : HashLaws toy_hashes
toy_laws = record {
  length_sha1 = length-cut 20;
  length_sha256 = length-cut 32;
  length_ripemd160 = length-cut 20;
  length_keccak256 = length-cut 32;
}

abbrev pub uri : Bytes
uri = b'h' ∷ b't' ∷ b't' ∷ b'p' ∷ b':' ∷ b'/' ∷ b'/' ∷ b'a' ∷ []

abbrev pub digest : Bytes
digest = replicate 32 7

abbrev pub leaf : Timestamp
leaf = stamp (replicate 32 7 ++ (1 ∷ 2 ∷ [])) (pending uri ∷ bitcoin 800 ∷ []) no_ops

-- A root with two attestations out of order, and two operations.
abbrev pub tree : Timestamp
tree = stamp digest (pending uri ∷ bitcoin 300 ∷ []) (
    op_stamp (append (1 ∷ 2 ∷ [])) leaf
      (op_stamp sha256 (stamp digest (litecoin 5 ∷ []) no_ops) no_ops))

abbrev pub file : Detached
file = record { timestamp = tree }
