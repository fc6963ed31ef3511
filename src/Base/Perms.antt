-- ===== src/Base/Perms.antt =====
-- Sums and `retain` do not depend on the order of a list.
use mathlib.Core.List.Perm
use mathlib.Core.List.{Permᴰ, filter}
use mathlib.Core.Logic.{∥∥₁_elim}
use mathlib.Core.Bool.{Bool-discrete}
use native.Mathlib.Nat.{ℕ_set}
use Prim.Native.Nat.{ℕ, ◌+◌}
use mathlib.Core.Path.{◌≡◌, refl, ◌∙◌}
use mathlib.Core.Bool.{Bool, true, false, not}
use mathlib.Core.List.{List, [], ◌∷◌, ◌++◌, Perm}
use native.Mathlib.Omega.{arith}
use atomic_mint_swap.Base.Lists.{length, sum_by, retain, All}

module _ {ℓ} {A : Type ℓ} where
  sum_by-permᴰ : (f : A → ℕ) {xs ys : List A} → Permᴰ xs ys → sum_by f xs ≡ sum_by f ys
  sum_by-permᴰ f Permᴰ.nil = refl
  sum_by-permᴰ f (Permᴰ.cons e p) = ground (arith, sum_by-permᴰ f p)
  sum_by-permᴰ f (Permᴰ.swap d e) = ground arith
  sum_by-permᴰ f (Permᴰ.trans p q) = sum_by-permᴰ f p ∙ sum_by-permᴰ f q

  pub sum_by-perm : (f : A → ℕ) {xs ys : List A} → Perm xs ys → sum_by f xs ≡ sum_by f ys
  sum_by-perm f p = ∥∥₁_elim p (ℕ_set _ _) (λ q. sum_by-permᴰ f q)

  length-eq-sum : (xs : List A) → length xs ≡ sum_by (λ x. 1) xs
  length-eq-sum [] = refl
  length-eq-sum (x ∷ xs) = omega (arith, length-eq-sum xs)

  pub length-perm : {xs ys : List A} → Perm xs ys → length xs ≡ length ys
  length-perm {xs} {ys} p =
      omega (arith, length-eq-sum xs, length-eq-sum ys, sum_by-perm (λ x. 1) p)

  retain-eq-filter :
      (p : A → Bool) (xs : List A) → retain p xs ≡ filter (λ x. Bool-discrete (p x) true) xs
  retain-eq-filter p [] = refl
  retain-eq-filter p (x ∷ xs) = ground (arith, retain-eq-filter p xs)

  pub retain-perm : (p : A → Bool) {xs ys : List A} → Perm xs ys → Perm (retain p xs) (retain p ys)
  retain-perm p {xs} {ys} h = rw (retain-eq-filter p xs, retain-eq-filter p ys) (Perm.filter _ h)

  pub retain-append :
      (p : A → Bool) (xs ys : List A) → retain p (xs ++ ys) ≡ retain p xs ++ retain p ys
  retain-append p [] ys = refl
  retain-append p (x ∷ xs) ys = ground (arith, retain-append p xs ys)

  pub retain-none : (p : A → Bool) (xs : List A) → All (λ x. p x ≡ false) xs → retain p xs ≡ []
  retain-none p [] h = refl
  retain-none p (x ∷ xs) h = ground (arith, retain-none p xs h.1)

  pub retain-All : (p : A → Bool) (xs : List A) → All (λ x. p x ≡ true) xs → retain p xs ≡ xs
  retain-All p [] h = refl
  retain-All p (x ∷ xs) h = ground (arith, retain-All p xs h.1)

  -- What is kept and what is dropped make up the list.
  pub sum_by-retain-not :
      (f : A → ℕ) (p : A → Bool) (xs : List A)
      → sum_by f (retain p xs) + sum_by f (retain (λ x. not (p x)) xs) ≡ sum_by f xs
  sum_by-retain-not f p [] = omega arith
  sum_by-retain-not f p (x ∷ xs) = ground (arith, sum_by-retain-not f p xs)
