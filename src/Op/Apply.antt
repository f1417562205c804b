-- ===== src/Op/Apply.antt =====
-- `Apply` of the operations (internal/core/op/op.go): when it gives a result, and which.
use ots.Prelude.{
  ℕ, ◌≤◌, ◌≡◌, ◌↔◌, refl, arith, Bool, false, Bytes, length, ltb, ltb-false→le, le→ltb-false, ◌==◌,
}
use ots.Result.{ok}
use ots.Result.Ensures.{Ensures, returns, fails, Ensures-if, Ensures-value}
use ots.Op.{
  Hashes, HashLaws, Op, sha256, sha1, crypt, ripemd160, keccak256, apply, apply_unary, transform,
  CryptOp, crypt_hash, max_msg_length, max_result_length, append, prepend, new_append, new_prepend,
}

-- What a message and its image under an operation have to be.
pub record Links (h : Hashes) (o : Op) (msg result : Bytes) : Type 0 where
  pub msg_fits : length msg ≤ max_msg_length
  pub image : result ≡ transform h o msg
  pub not_empty : 1 ≤ length result
  pub result_fits : length result ≤ max_result_length

-- Apply never panics, and its result is linked to its message.
pub apply-Ensures :
    (h : Hashes) (o : Op) (msg : Bytes) (p : Bool)
    → Ensures p (λ r. Links h o msg r) (apply h o msg)
unfolding apply apply_unary
apply-Ensures h o msg p =
    let r : Bytes = transform h o msg in
    Ensures-if (ltb max_msg_length (length msg)) (λ _. fails)
      λ fits.
        Ensures-if (length r == 0) (λ _. fails)
          λ some_bytes.
            Ensures-if (ltb max_result_length (length r)) (λ _. fails)
              λ result_fits. returns (record {
                msg_fits = ltb-false→le _ _ fits;
                image = refl;
                not_empty = ground arith;
                result_fits = ltb-false→le _ _ result_fits;
              })

pub apply→Links :
    (h : Hashes) (o : Op) (msg result : Bytes) → apply h o msg ≡ ok result → Links h o msg result
apply→Links h o msg result e = Ensures-value (apply-Ensures h o msg false) e

pub Links→apply :
    (h : Hashes) (o : Op) (msg result : Bytes) → Links h o msg result → apply h o msg ≡ ok result
unfolding apply apply_unary
Links→apply h o msg result l =
    let not_empty : 1 ≤ length (transform h o msg) = rw l.image at l.not_empty in
    let result_fits : length (transform h o msg) ≤ max_result_length =
      rw l.image at l.result_fits in
    rw (le→ltb-false _ _ l.msg_fits) (
      rw (le→ltb-false _ _ result_fits, nonzero (length (transform h o msg)) not_empty)
        (rw l.image))
  where
    nonzero : (n : ℕ) → 1 ≤ n → (n == 0) ≡ false
    nonzero n some_bytes = ground arith

-- Apply gives a result exactly when the message has at most 4096 bytes and its image under the
-- operation has 1 to 4096 bytes, and then the result is that image.
pub apply_iff :
    (h : Hashes) (o : Op) (msg result : Bytes) → (apply h o msg ≡ ok result) ↔ Links h o msg result
apply_iff h o msg result = (apply→Links h o msg result, Links→apply h o msg result)

-- Where the hash functions give digests of their lengths (20 or 32 bytes), every hash operation gives
-- the digest on every message of at most 4096 bytes.
pub apply_hash :
    (h : Hashes) (c : CryptOp) (msg : Bytes)
    → HashLaws h
    → length msg ≤ max_msg_length
    → (apply h sha256 msg ≡ ok (h.sha256 msg))
      × (apply h sha1 msg ≡ ok (h.sha1 msg))
      × (apply h (crypt c) msg ≡ ok (crypt_hash h c msg))
apply_hash h c msg laws fits = (
  Links→apply h sha256 msg _ (linked sha256 (omega (arith, laws.length_sha256 msg))),
  Links→apply h sha1 msg _ (linked sha1 (omega (arith, laws.length_sha1 msg))),
  Links→apply h (crypt c) msg _ (linked (crypt c) (crypt_length c)),
)
  where
    linked :
        (o : Op)
        → (1 ≤ length (transform h o msg)) × (length (transform h o msg) ≤ max_result_length)
        → Links h o msg (transform h o msg)
    linked o b = record { msg_fits = fits; image = refl; not_empty = b.0; result_fits = b.1 }

    crypt_length :
        (d : CryptOp)
        → (1 ≤ length (crypt_hash h d msg)) × (length (crypt_hash h d msg) ≤ max_result_length)
    crypt_length ripemd160 = omega (arith, laws.length_ripemd160 msg)
    crypt_length keccak256 = omega (arith, laws.length_keccak256 msg)

-- An argument of 1 to 4096 bytes is accepted.
pub new_append_fits :
    (arg : Bytes)
    → 1 ≤ length arg
    → length arg ≤ max_result_length
    → new_append arg ≡ ok (append arg)
unfolding new_append
new_append_fits arg some_bytes fits = ground arith

pub new_prepend_fits :
    (arg : Bytes)
    → 1 ≤ length arg
    → length arg ≤ max_result_length
    → new_prepend arg ≡ ok (prepend arg)
unfolding new_prepend
new_prepend_fits arg some_bytes fits = ground arith
