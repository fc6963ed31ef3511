-- ===== src/Database/Columns.antt =====
-- Lemmas on the values of a column: membership, and that no value stands twice.
use atomic_mint_swap.Base.{
  String, ◌≡◌, refl, Bool, Bool-cases, inl, inr, true, false, ◌||◌, List, [], ◌∷◌, ◌++◌, map,
  retain, All, arith, eq_iff, ◌==◌,
}
use atomic_mint_swap.Database.Rows.{has}

-- No value stands twice.
abbrev pub AreDistinct : List String → Type 0
AreDistinct [] = Unit
AreDistinct (x ∷ xs) = (has x xs ≡ false) × AreDistinct xs

pub has-append : (x y : String) (ys : List String) → has x (ys ++ y ∷ []) ≡ (has x ys || y == x)
unfolding has
has-append x y [] = ground arith
has-append x y (z ∷ zs) = ground (arith, has-append x y zs)

pub AreDistinct-append :
    (xs : List String) (y : String) → AreDistinct xs → has y xs ≡ false → AreDistinct (xs ++ y ∷ [])
unfolding has
AreDistinct-append [] y d h = (refl, tt)
AreDistinct-append (x ∷ xs) y d h = (
  ground (arith, has-append x y xs, eq_iff x y, eq_iff y x),
  AreDistinct-append xs y d.1 (ground arith),
)

module _ {A : Type 0} (key : A → String) where
  pub map-append_one : (xs : List A) (y : A) → map key (xs ++ y ∷ []) ≡ map key xs ++ key y ∷ []
  map-append_one [] y = refl
  map-append_one (x ∷ xs) y = ground (arith, map-append_one xs y)

  pub has-retain :
      (p : A → Bool) (k : String) (xs : List A)
      → has k (map key xs) ≡ false
      → has k (map key (retain p xs)) ≡ false
  unfolding has
  has-retain p k [] h = refl
  has-retain p k (x ∷ xs) h = ground (arith, has-retain p k xs)

  pub AreDistinct-retain :
      (p : A → Bool) (xs : List A) → AreDistinct (map key xs) → AreDistinct (map key (retain p xs))
  AreDistinct-retain p [] d = tt
  AreDistinct-retain p (x ∷ xs) d =
      ground (arith, AreDistinct-retain p xs d.1, has-retain p (key x) xs d.0)

module _ {A : Type 0} (P : A → Type 0) where
  pub All-append_one : (xs : List A) (y : A) → All P xs → P y → All P (xs ++ y ∷ [])
  All-append_one [] y h k = (k, tt)
  All-append_one (x ∷ xs) y h k = (h.0, All-append_one xs y h.1 k)

-- What `retain` keeps passes its test.
pub All-retain : {A : Type 0} (p : A → Bool) (xs : List A) → All (λ x. p x ≡ true) (retain p xs)
All-retain p [] = tt
All-retain p (x ∷ xs) = ground (arith, All-retain p xs)

pub All-retained :
    {A : Type 0} (P : A → Type 0) (p : A → Bool) (xs : List A) → All P xs → All P (retain p xs)
All-retained P p [] h = tt
All-retained P p (x ∷ xs) h = elim (Bool-cases (p x)) [
  | inl e ↦ rw e (h.0, All-retained P p xs h.1)
  | inr e ↦ rw e (All-retained P p xs h.1)
]

pub All-map :
    {A B : Type 0} (P : B → Type 0) (f : A → B) (xs : List A)
    → ((x : A) → P (f x))
    → All P (map f xs)
All-map P f [] h = tt
All-map P f (x ∷ xs) h = (h x, All-map P f xs h)
