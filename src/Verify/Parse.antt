-- ===== src/Verify/Parse.antt =====
-- internal/verify/parse.go: the facts that a proof holds, with no calendar and no header source.
use ots.Prelude.{
  ℕ, ◌≤◌, ◌≡◌, refl, ap, ◌∙◌, Bool, true, false, List, [], ◌∷◌, ◌++◌, append-nil, append_assoc,
  Bytes, All, ltb, bytes_equal, bytes_equal→eq, bytes_equal_self, length, arith, sym, ◌⊎◌, ◌≢◌,
  Bool-cases, inl, inr, subst,
}
use ots.Prelude.Sorting.{
  sort_slice, sort_slice-perm, sort_slice-IsAscending, length-sort_slice, IsAscending,
}
use ots.Result.{Result, ok, err, ◌>>◌, digest_mismatch}
use ots.Notary.{Attestation, pending, bitcoin, litecoin, unknown}
use ots.Timestamp.{Timestamp, msg_of, all_attestations}
use ots.Verify.{verify_digest}
use ots.Verify.Upgrade.{has_bitcoin}
use mathlib.Core.List.{Perm}

pub record ParseResult : Type 0 where
  pub complete : Bool
  pub block_height : ℕ
  pub block_heights : List ℕ
  pub pending_uris : List Bytes

-- The loop over the attestations, with the URIs and the heights gathered so far.
unfoldable pub gather : List (Bytes × Attestation) → List Bytes → List ℕ → List Bytes × List ℕ
gather [] uris heights = (uris, heights)
gather ((msg, pending uri) ∷ items) uris heights = gather items (uris ++ (uri ∷ [])) heights
gather ((msg, bitcoin height) ∷ items) uris heights = gather items uris (heights ++ (height ∷ []))
gather ((msg, litecoin height) ∷ items) uris heights = gather items uris heights
gather ((msg, unknown tag_bytes payload) ∷ items) uris heights = gather items uris heights

-- The sorted heights, and the first of them, where there is one.
unfoldable pub with_heights : List Bytes → List ℕ → ParseResult
with_heights uris [] = record {
  complete = false;
  block_height = 0;
  block_heights = [];
  pending_uris = uris;
}
with_heights uris (height ∷ heights) = record {
  complete = true;
  block_height = height;
  block_heights = height ∷ heights;
  pending_uris = uris;
}

unfoldable pub parse_proof : Timestamp → Bytes → Result ParseResult
parse_proof proof digest = do
  verify_digest proof digest
  let (uris, heights) = gather (all_attestations proof) [] []
  ok (with_heights uris (sort_slice ltb heights))

-- The heights of the Bitcoin attestations and the URIs of the pending ones, in the tree's order.
abbrev pub heights_of : List (Bytes × Attestation) → List ℕ
heights_of [] = []
heights_of ((msg, bitcoin height) ∷ items) = height ∷ heights_of items
heights_of ((msg, pending uri) ∷ items) = heights_of items
heights_of ((msg, litecoin height) ∷ items) = heights_of items
heights_of ((msg, unknown tag_bytes payload) ∷ items) = heights_of items

abbrev pub uris_of : List (Bytes × Attestation) → List Bytes
uris_of [] = []
uris_of ((msg, pending uri) ∷ items) = uri ∷ uris_of items
uris_of ((msg, bitcoin height) ∷ items) = uris_of items
uris_of ((msg, litecoin height) ∷ items) = uris_of items
uris_of ((msg, unknown tag_bytes payload) ∷ items) = uris_of items

gather_lem :
    (items : List (Bytes × Attestation)) (uris : List Bytes) (heights : List ℕ)
    → gather items uris heights ≡ (uris ++ uris_of items, heights ++ heights_of items)
unfolding gather
gather_lem [] uris heights = rw (append-nil uris, append-nil heights)
gather_lem ((msg, pending uri) ∷ items) uris heights =
    gather_lem items _ heights
    ∙ ap (λ (u : List Bytes). (u, heights ++ heights_of items)) (append_assoc uris (uri ∷ []) _)
gather_lem ((msg, bitcoin n) ∷ items) uris heights =
    gather_lem items uris _
    ∙ ap (λ (u : List ℕ). (uris ++ uris_of items, u)) (append_assoc heights (n ∷ []) _)
gather_lem ((msg, litecoin n) ∷ items) uris heights = gather_lem items uris heights
gather_lem ((msg, unknown t payload) ∷ items) uris heights = gather_lem items uris heights

abbrev pub first_or_zero : List ℕ → ℕ
first_or_zero [] = 0
first_or_zero (n ∷ heights) = n

-- The result tells whether there is a Bitcoin attestation, gives all their heights in ascending
-- order with the first, which is the least, as the block height (0 where there is none), and all
-- the URIs.
pub record IsReport (items : List (Bytes × Attestation)) (r : ParseResult) : Type 0 where
  pub complete_lem : r.complete ≡ has_bitcoin items
  pub same_heights : Perm r.block_heights (heights_of items)
  pub ascending : IsAscending r.block_heights
  pub first : r.block_height ≡ first_or_zero r.block_heights
  pub least : All (λ n. r.block_height ≤ n) r.block_heights
  pub all_uris : r.pending_uris ≡ uris_of items

abbrev some_height : List ℕ → Bool
some_height [] = false
some_height (n ∷ heights) = true

some_height_lem :
    (items : List (Bytes × Attestation)) → has_bitcoin items ≡ some_height (heights_of items)
unfolding has_bitcoin
some_height_lem [] = refl
some_height_lem ((msg, bitcoin n) ∷ items) = refl
some_height_lem ((msg, pending uri) ∷ items) = some_height_lem items
some_height_lem ((msg, litecoin n) ∷ items) = some_height_lem items
some_height_lem ((msg, unknown t payload) ∷ items) = some_height_lem items

some_height-length : (ms ns : List ℕ) → length ms ≡ length ns → some_height ms ≡ some_height ns
some_height-length [] [] e = refl
some_height-length [] (n ∷ ns) e = absurd (omega arith)
some_height-length (m ∷ ms) [] e = absurd (omega arith)
some_height-length (m ∷ ms) (n ∷ ns) e = refl

with_heights_lem :
    (items : List (Bytes × Attestation)) (sorted : List ℕ)
    → Perm sorted (heights_of items)
    → length sorted ≡ length (heights_of items)
    → IsAscending sorted
    → IsReport items (with_heights (uris_of items) sorted)
unfolding with_heights
with_heights_lem items [] same size ascends = record {
  complete_lem = sym (some_height_lem items ∙ some_height-length (heights_of items) [] (sym size));
  same_heights = same;
  ascending = ascends;
  first = refl;
  least = tt;
  all_uris = refl;
}
with_heights_lem items (n ∷ heights) same size ascends = record {
  complete_lem =
      sym (some_height_lem items ∙ some_height-length (heights_of items) (n ∷ heights) (sym size));
  same_heights = same;
  ascending = ascends;
  first = refl;
  least = (omega arith, ascends.0);
  all_uris = refl;
}

-- ParseProof refuses a digest that is not the proof's message; for any other proof it reports
-- whether there is a Bitcoin attestation, the heights of all of them in ascending order, each as
-- often as the tree has it, the first and least of them as the block height (0 where there is
-- none), and the URIs of all pending ones.
pub parse_proof-IsReport :
    (proof : Timestamp) (digest : Bytes)
    → ((msg_of proof ≡ digest)
        × (r : ParseResult) × (parse_proof proof digest ≡ ok r)
        × IsReport (all_attestations proof) r)
      ⊎ ((msg_of proof ≢ digest) × (parse_proof proof digest ≡ err digest_mismatch))
unfolding parse_proof verify_digest
parse_proof-IsReport proof digest = elim (Bool-cases (bytes_equal (msg_of proof) digest)) [
  | inr other ↦ inr (
    λ same. ground (
      arith,
      subst (λ d. bytes_equal (msg_of proof) d ≡ true) same (bytes_equal_self (msg_of proof)),
    ),
    rw (other, parse_proof, verify_digest),
  )
  | inl same ↦
      let items = all_attestations proof in
      inl (
        bytes_equal→eq _ _ same,
        with_heights (uris_of items) (sort_slice ltb (heights_of items)),
        rw (same, parse_proof, verify_digest, gather_lem items [] []),
        with_heights_lem items (sort_slice ltb (heights_of items)) (sort_slice-perm ltb _)
            (length-sort_slice ltb _) (sort_slice-IsAscending _),
      )
]
