-- ===== src/Timestamp/Shared/Level.antt =====
-- One level of MakeMerkleTree (internal/core/timestamp/timestamp.go): the inner loop joins the
-- nodes two by two, and every node reaches one of the next level.
use ots.Prelude.{
  ℕ, ◌+◌, ◌≤◌, ◌<◌, ◌≡◌, ◌≢◌, refl, ap, ◌∙◌, arith, List, [], ◌∷◌, ◌++◌, Bytes, length,
  length-append, All, All-append, ◌⊎◌, inl, inr,
}
use ots.Result.{ok}
use ots.Op.{Hashes, HashLaws, append, prepend, sha256}
use ots.Op.Apply.{Links→apply}
use ots.Timestamp.Shared.{Node, Heap, find_op, cat_sha256}
use ots.Timestamp.Shared.Paths.{Reaches, here, Reaches-trans}
use ots.Timestamp.Shared.Joined.{IsJoined, cat_then_unary_op-IsJoined}

-- A node that a merkle tree can be put on: no operation leaves it, and its message has 1 to 2048
-- bytes.
pub record IsReady (s : Heap) (t : ℕ) : Type 0 where
  pub allocated : t < s.next
  pub no_op : (s.node t).ops ≡ []
  pub some_bytes : 1 ≤ length (s.node t).msg
  pub fits : length (s.node t).msg ≤ 2048

abbrev pub IsDistinct : List ℕ → Type 0
IsDistinct [] = Unit
IsDistinct (t ∷ ts) = All (λ u. t ≢ u) ts × IsDistinct ts

-- The node reaches one of these.
abbrev pub ReachesOne : Hashes → Heap → List ℕ → ℕ → Type 0
ReachesOne h s [] t = ⊥
ReachesOne h s (u ∷ us) t = Reaches h s t u ⊎ ReachesOne h s us t

pub All-map {ℓ κ} :
    {A : Type 0} (P : A → Type ℓ) (Q : A → Type κ) (xs : List A)
    → ((x : A) → P x → Q x)
    → All P xs
    → All Q xs
All-map P Q [] f v = tt
All-map P Q (x ∷ xs) f v = (f x v.0, All-map P Q xs f v.1)

pub ReachesOne-left :
    (h : Hashes) (s : Heap) (us vs : List ℕ) (t : ℕ)
    → ReachesOne h s us t
    → ReachesOne h s (us ++ vs) t
ReachesOne-left h s [] vs t p = absurd p
ReachesOne-left h s (u ∷ us) vs t (inl p) = inl p
ReachesOne-left h s (u ∷ us) vs t (inr p) = inr (ReachesOne-left h s us vs t p)

pub ReachesOne-right :
    (h : Hashes) (s : Heap) (us vs : List ℕ) (t : ℕ)
    → ReachesOne h s vs t
    → ReachesOne h s (us ++ vs) t
ReachesOne-right h s [] vs t p = p
ReachesOne-right h s (u ∷ us) vs t p = inr (ReachesOne-right h s us vs t p)

pub ReachesOne-self : (h : Hashes) (s : Heap) (us : List ℕ) → All (ReachesOne h s us) us
ReachesOne-self h s [] = tt
ReachesOne-self h s (u ∷ us) = (
  inl here,
  All-map (ReachesOne h s us) (ReachesOne h s (u ∷ us)) us (λ t p. inr p) (ReachesOne-self h s us),
)

pub ReachesOne-before :
    (h : Hashes) (s : Heap) (us : List ℕ) (t u : ℕ)
    → Reaches h s t u
    → ReachesOne h s us u
    → ReachesOne h s us t
ReachesOne-before h s [] t u p q = absurd q
ReachesOne-before h s (v ∷ us) t u p (inl q) = inl (Reaches-trans p q)
ReachesOne-before h s (v ∷ us) t u p (inr q) = inr (ReachesOne-before h s us t u p q)

pub IsDistinct-snoc :
    (ts : List ℕ) (u : ℕ) → IsDistinct ts → All (λ t. t ≢ u) ts → IsDistinct (ts ++ (u ∷ []))
IsDistinct-snoc [] u v w = (tt, tt)
IsDistinct-snoc (t ∷ ts) u v w =
    (All-append (λ x. t ≢ x) ts (u ∷ []) v.0 (w.0, tt), IsDistinct-snoc ts u v.1 w.1)

pub All-prefix {ℓ} : {A : Type 0} (P : A → Type ℓ) (xs ys : List A) → All P (xs ++ ys) → All P xs
All-prefix P [] ys v = tt
All-prefix P (x ∷ xs) ys v = (v.0, All-prefix P xs ys v.1)

pub All-suffix {ℓ} : {A : Type 0} (P : A → Type ℓ) (xs ys : List A) → All P (xs ++ ys) → All P ys
All-suffix P [] ys v = v
All-suffix P (x ∷ xs) ys v = All-suffix P xs ys v.1

pub All-last {ℓ} :
    {A : Type 0} (P : A → Type ℓ) (xs : List A) (y : A) → All P (xs ++ (y ∷ [])) → P y
All-last P [] y v = v.0
All-last P (x ∷ xs) y v = All-last P xs y v.1

-- What one joining of two ready nodes gives.
pub join_ready :
    (h : Hashes) (l r : ℕ) (s : Heap)
    → HashLaws h
    → IsReady s l
    → IsReady s r
    → (s' : Heap) × (p : ℕ) × (cat_sha256 h l r s ≡ (s', ok p))
      × IsJoined h l r (h.sha256 ((s.node l).msg ++ (s.node r).msg)) s s' p
unfolding cat_sha256 find_op
join_ready h l r s laws v w =
    let both : Bytes = (s.node l).msg ++ (s.node r).msg in
    let long : length both ≡ length (s.node l).msg + length (s.node r).msg =
      length-append (s.node l).msg (s.node r).msg in
    let size : length (h.sha256 both) ≡ 32 = laws.length_sha256 both in
    cat_then_unary_op-IsJoined h sha256 l r (h.sha256 both) s (record {
      l_allocated = v.allocated;
      r_allocated = w.allocated;
      l_free = ap (find_op (append (s.node r).msg)) v.no_op;
      r_free = ap (find_op (prepend (s.node l).msg)) w.no_op;
      l_some = v.some_bytes;
      r_some = w.some_bytes;
      fits = omega (arith, v.fits, w.fits);
      gives = Links→apply h sha256 both (h.sha256 both) (record {
        msg_fits = omega (arith, long, v.fits, w.fits);
        image = refl;
        not_empty = omega (arith, size);
        result_fits = omega (arith, size);
      });
    })

module _ {h : Hashes} {l r p : ℕ} {result : Bytes} {s s' : Heap}
    (j : IsJoined h l r result s s' p) where
  -- A ready node that is none of the two stays ready.
  pub IsJoined-ready : (t : ℕ) → t ≢ l → t ≢ r → IsReady s t → IsReady s' t
  IsJoined-ready t not_l not_r v =
      let same : s'.node t ≡ s.node t = j.others t v.allocated not_l not_r in
      record {
        allocated = omega (arith, v.allocated, j.extends.longer);
        no_op = ap (λ (n : Node). n.ops) same ∙ v.no_op;
        some_bytes = omega (arith, v.some_bytes, ap (λ (n : Node). length n.msg) same);
        fits = omega (arith, v.fits, ap (λ (n : Node). length n.msg) same);
      }

  -- The new node is ready.
  pub IsJoined-new_ready : length result ≡ 32 → IsReady s' p
  IsJoined-new_ready digest =
      let size : length (s'.node p).msg ≡ 32 =
        ap (λ (n : Node). length n.msg) j.node_lem ∙ digest in
      record {
        allocated = j.allocated;
        no_op = ap (λ (n : Node). n.ops) j.node_lem;
        some_bytes = omega (arith, size);
        fits = omega (arith, size);
      }
