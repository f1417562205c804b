-- ===== src/Result/Ensures.antt =====
-- Postconditions on the outcome of a run. `Ensures p P r`: the run is not stuck, its value has the
-- property if it has one, and it panics only if `p` allows it.
use ots.Prelude.{◌≡◌, ◌≢◌, refl, subst, Bool, true, false, if◌then◌else◌}
use ots.Result.{Result, Error, ok, err, panicked, stuck, ◌>>=◌, guard}

pub data Ensures {ℓ κ} {A : Type ℓ} (p : Bool) (P : A → Type κ) : Result A → Type (ℓ ⊔ κ) where
  returns : {a : A} → P a → Ensures p P (ok a)
  fails : {e : Error} → Ensures p P (err e)
  panics : p ≡ true → Ensures p P panicked

module _ {ℓ κ} {A : Type ℓ} {p : Bool} {P : A → Type κ} where
  pub Ensures-value : {r : Result A} {a : A} → Ensures p P r → r ≡ ok a → P a
  Ensures-value (returns h) e = subst P (cc) h
  Ensures-value fails e = cc
  Ensures-value (panics h) e = cc

  pub Ensures-ne-stuck : {r : Result A} → Ensures p P r → r ≢ stuck
  Ensures-ne-stuck (returns h) = cc
  Ensures-ne-stuck fails = cc
  Ensures-ne-stuck (panics h) = cc

  pub Ensures-bind {ℓ' κ'} :
      {B : Type ℓ'} {Q : B → Type κ'} {r : Result A} {f : A → Result B}
      → Ensures p P r
      → ((a : A) → P a → Ensures p Q (f a))
      → Ensures p Q (r >>= f)
  Ensures-bind (returns {a} h) k = k a h
  Ensures-bind fails k = fails
  Ensures-bind (panics h) k = panics h

  pub Ensures-if :
      (b : Bool) {x y : Result A}
      → (b ≡ true → Ensures p P x)
      → (b ≡ false → Ensures p P y)
      → Ensures p P (if b then x else y)
  Ensures-if true hx hy = hx refl
  Ensures-if false hx hy = hy refl

  pub Ensures-weaken {κ'} :
      {Q : A → Type κ'} {r : Result A} → Ensures p P r → ((a : A) → P a → Q a) → Ensures p Q r
  Ensures-weaken (returns {a} h) k = returns (k a h)
  Ensures-weaken fails k = fails
  Ensures-weaken (panics h) k = panics h

pub Ensures-guard :
    {p : Bool} (b : Bool) (e : Error) → Ensures p (λ (u : Unit {0}). b ≡ true) (guard b e)
Ensures-guard true e = returns refl
Ensures-guard false e = fails

-- A run that may not panic does not.
pub Ensures-ne-panicked {ℓ κ} :
    {A : Type ℓ} {P : A → Type κ} {r : Result A} → Ensures false P r → r ≢ panicked
Ensures-ne-panicked (returns h) = cc
Ensures-ne-panicked fails = cc
Ensures-ne-panicked (panics h) = absurd (cc)

pub never_panics {ℓ κ} :
    {A : Type ℓ} {P : A → Type κ} {p : Bool} {r : Result A} → Ensures false P r → Ensures p P r
never_panics (returns h) = returns h
never_panics fails = fails
never_panics (panics h) = absurd (cc)
