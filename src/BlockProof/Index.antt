-- ===== src/BlockProof/Index.antt =====
-- bytes.Index and the search for the message in the transaction, in MakeTimestampFromBlock
-- (internal/bitcoin/blockproof.go).
use ots.Prelude.{
  ℕ, zero, suc, ◌+◌, ◌≡◌, refl, ap, ◌∙◌, arith, true, Bool-cases, ◌==◌, ==→eq, Option, none, some,
  Option-cases, [], ◌∷◌, ◌++◌, Bytes, length, take, drop, ltb, inl, inr,
}
use ots.Result.{ok, err, tip_repeated}
use ots.BlockProof.{has_prefix, index, only_index}

has_prefix-append : (xs p : Bytes) → has_prefix xs p ≡ true → p ++ drop (length p) xs ≡ xs
unfolding has_prefix
has_prefix-append xs [] e = refl
has_prefix-append [] (b ∷ p) e = cc
has_prefix-append (a ∷ xs) (b ∷ p) e = elim (Bool-cases (a == b)) [
  | inl same ↦
      let same_byte : a ≡ b = ==→eq a b same in
      rw same_byte (ap (λ rest. b ∷ rest) (has_prefix-append xs p (rw same at e)))
  | inr other ↦ cc (rw other at e)
]

at_front :
    (raw p : Bytes) (i : ℕ)
    → has_prefix raw p ≡ true
    → some 0 ≡ some i
    → take i raw ++ (p ++ drop (i + length p) raw) ≡ raw
at_front raw p zero front e =
    let same : 0 + length p ≡ length p = omega arith in
    ap (λ n. p ++ drop n raw) same ∙ has_prefix-append raw p front
at_front raw p (suc i) front e = cc

-- The transaction around the place where the message was found.
pub index-append :
    (raw p : Bytes) (i : ℕ)
    → index raw p ≡ some i
    → take i raw ++ (p ++ drop (i + length p) raw) ≡ raw
unfolding index
index-append [] p i e = elim (Bool-cases (has_prefix [] p)) [
  | inl front ↦ at_front [] p i front (rw front at e)
  | inr other ↦ cc (rw other at e)
]
index-append (a ∷ raw) p i e = elim (Bool-cases (has_prefix (a ∷ raw) p)) [
  | inl front ↦ at_front (a ∷ raw) p i front (rw front at e)
  | inr other ↦ elim (Option-cases (index raw p)) [
    | inl missing ↦ cc (rw missing at rw other at e)
    | inr (j, found) ↦
        let later : some (suc j) ≡ some i = rw found at rw other at e in
        let same : i ≡ suc j = cc later in
        let far : suc j + length p ≡ suc (j + length p) = omega arith in
        rw (same, far) (ap (λ xs. a ∷ xs) (index-append raw p j found))
  ]
]

pub only_index-found :
    (raw msg : Bytes) (i : ℕ) (found : Option ℕ) → only_index raw msg found ≡ ok i → found ≡ some i
unfolding only_index
only_index-found raw msg i none e = cc
only_index-found raw msg i (some j) e = elim (Bool-cases (ltb (length raw) (j + 1))) [
  | inl out ↦ cc (rw out at e)
  | inr inside ↦ last (index (drop (j + 1) raw) msg) (rw inside at e)
]
  where
    last :
        (again : Option ℕ)
        → elim again [ none ↦ ok j | some k ↦ err tip_repeated ] ≡ ok i
        → some j ≡ some i
    last none e' = cc
    last (some k) e' = cc
