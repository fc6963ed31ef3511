-- ===== src/Effect/Frame.antt =====
-- Rules for `do` blocks: what an action leaves alone, and that it changes nothing where it fails.
use atomic_mint_swap.Base.{◌≡◌, refl, ap, subst, ◌∙◌, Bool, Option, arith}
use atomic_mint_swap.Effect.{
  Outcome, ok, err, panic, Attempt, Action, pure, raise, or_panic, or_raise, perform, gets, lift,
  modify, raise_if, ◌>>=◌, or_fail, attempt, proceed, zoom,
}

-- However the action ends, the part `f` of the state is what it was.
pub record Keeps {W S T E A : Type 0} (f : S → T) (m : Action W S E A) : Type 0 where
  pub at : (s : S) (w : W) → f (m s w).1 ≡ f s

-- An action that raises or panics leaves the state as it was.
abbrev pub Unchanged : {W S E A : Type 0} → S → Outcome E A × S × W → Type 0
Unchanged s (ok a, s', w) = Unit
Unchanged s (err e, s', w) = s' ≡ s
Unchanged s (panic, s', w) = s' ≡ s

pub record IsAtomic {W S E A : Type 0} (m : Action W S E A) : Type 0 where
  pub at : (s : S) (w : W) → Unchanged s (m s w)

-- An action that always returns a value.
abbrev pub Returns : {W S E A : Type 0} → Outcome E A × S × W → Type 0
Returns (ok a, s, w) = Unit
Returns (err e, s, w) = ⊥
Returns (panic, s, w) = ⊥

pub record Total {W S E A : Type 0} (m : Action W S E A) : Type 0 where
  pub at : (s : S) (w : W) → Returns (m s w)

module _ {W S T E A : Type 0} (f : S → T) where
  pub Keeps-pure : (a : A) → Keeps {W = W} {E = E} f (pure a)
  Keeps-pure a = record { at = λ s w. refl }

  pub Keeps-raise : (e : E) → Keeps {W = W} {A = A} f (raise e)
  Keeps-raise e = record { at = λ s w. refl }

  pub Keeps-or_panic : (o : Option A) → Keeps {W = W} {E = E} f (or_panic o)
  Keeps-or_panic o = record { at = λ s w. ground arith }

  pub Keeps-or_raise : (o : Option A) (e : E) → Keeps {W = W} f (or_raise o e)
  Keeps-or_raise o e = record { at = λ s w. ground arith }

  pub Keeps-perform : (call : W → A × W) → Keeps {E = E} f (perform call)
  Keeps-perform call = record { at = λ s w. refl }

  pub Keeps-gets : (g : S → A) → Keeps {W = W} {E = E} f (gets g)
  Keeps-gets g = record { at = λ s w. refl }

  pub Keeps-lift : (o : Outcome E A) → Keeps {W = W} f (lift o)
  Keeps-lift o = record { at = λ s w. refl }

module _ {W S T E : Type 0} (f : S → T) where
  pub Keeps-raise_if : (b : Bool) (e : E) → Keeps {W = W} f (raise_if b e)
  Keeps-raise_if b e = record { at = λ s w. ground arith }

  pub Keeps-modify : (g : S → S) → ((s : S) → f (g s) ≡ f s) → Keeps {W = W} {E = E} f (modify g)
  Keeps-modify g h = record { at = λ s w. h s }

module _ {W S T E K A : Type 0} (f : S → T) where
  pub Keeps-or_fail : (g : K → E) (r : Attempt K A) → Keeps {W = W} f (or_fail g r)
  Keeps-or_fail g r = record { at = λ s w. ground arith }

  pub Keeps-attempt : (g : K → E) (call : W → Attempt K A × W) → Keeps f (attempt g call)
  Keeps-attempt g call = record { at = λ s w. ground arith }

module _ {W S T E A B : Type 0} (f : S → T) where
  pub Keeps-bind :
      (m : Action W S E A) (k : A → Action W S E B)
      → Keeps f m
      → ((a : A) → Keeps f (k a))
      → Keeps f (m >>= k)
  Keeps-bind m k hm hk = record { at = λ s w. go s (m s w) (hm.at s w) }
    where
      go : (s : S) (r : Outcome E A × S × W) → f r.1 ≡ f s → f (proceed k r).1 ≡ f s
      go s (ok a, s', w') h = (hk a).at s' w' ∙ h
      go s (err e, s', w') h = h
      go s (panic, s', w') h = h

-- An action that always returns is atomic, and so is one that first only reads.
module _ {W S E A : Type 0} where
  pub IsAtomic-Total : (m : Action W S E A) → Total m → IsAtomic m
  IsAtomic-Total m t = record { at = λ s w. go s (m s w) (t.at s w) }
    where
      go : (s : S) (r : Outcome E A × S × W) → Returns r → Unchanged s r
      go s (ok a, s', w') h = tt
      go s (err e, s', w') h = absurd h
      go s (panic, s', w') h = absurd h

  pub IsAtomic-reads : (m : Action W S E A) → Keeps (λ s. s) m → IsAtomic m
  IsAtomic-reads m k = record { at = λ s w. go s (m s w) (k.at s w) }
    where
      go : (s : S) (r : Outcome E A × S × W) → r.1 ≡ s → Unchanged s r
      go s (ok a, s', w') h = tt
      go s (err e, s', w') h = h
      go s (panic, s', w') h = h

  pub Total-pure : (a : A) → Total {W = W} {S = S} {E = E} (pure a)
  Total-pure a = record { at = λ s w. tt }

  pub Total-perform : (call : W → A × W) → Total {S = S} {E = E} (perform call)
  Total-perform call = record { at = λ s w. tt }

module _ {W S E : Type 0} where
  pub Total-modify : (g : S → S) → Total {W = W} {E = E} (modify g)
  Total-modify g = record { at = λ s w. tt }

module _ {W S E A B : Type 0} (m : Action W S E A) (k : A → Action W S E B) where
  pub Total-bind : Total m → ((a : A) → Total (k a)) → Total (m >>= k)
  Total-bind hm hk = record { at = λ s w. go (m s w) (hm.at s w) }
    where
      go : (r : Outcome E A × S × W) → Returns r → Returns (proceed k r)
      go (ok a, s', w') h = (hk a).at s' w'
      go (err e, s', w') h = h
      go (panic, s', w') h = h

  pub IsAtomic-bind : Keeps (λ s. s) m → ((a : A) → IsAtomic (k a)) → IsAtomic (m >>= k)
  IsAtomic-bind hm hk = record { at = λ s w. go s (m s w) (hm.at s w) }
    where
      go : (s : S) (r : Outcome E A × S × W) → r.1 ≡ s → Unchanged s (proceed k r)
      go s (ok a, s', w') h = subst (λ x. Unchanged x (k a s' w')) h ((hk a).at s' w')
      go s (err e, s', w') h = h
      go s (panic, s', w') h = h

pub ruleset keeps_rules = (
  Keeps-pure, Keeps-raise, Keeps-or_panic, Keeps-or_raise, Keeps-perform, Keeps-gets, Keeps-lift,
  Keeps-raise_if, Keeps-modify, Keeps-or_fail, Keeps-attempt, Keeps-bind,
)

pub ruleset total_rules = (Total-pure, Total-perform, Total-modify, Total-bind)

-- Inversion of a bind that returned a value.
pub >>=-eq-ok :
    {W S E A B : Type 0} (m : Action W S E A) (k : A → Action W S E B) (s : S) (w : W) {b : B}
    → ((m >>= k) s w).0 ≡ ok b
    → (a : A) × (s' : S) × (w' : W) × (m s w ≡ (ok a, s', w')) × ((m >>= k) s w ≡ k a s' w')
>>=-eq-ok {W} {S} {E} {A} {B} m k s w {b} h = go (m s w) refl h
  where
    go :
        (r : Outcome E A × S × W)
        → m s w ≡ r
        → (proceed k r).0 ≡ ok b
        → (a : A) × (s' : S) × (w' : W) × (m s w ≡ (ok a, s', w')) × ((m >>= k) s w ≡ k a s' w')
    go (ok a, s', w') e h = (a, s', w', e, ap (proceed k) e)
    go (err x, s', w') e h = absurd (cc)
    go (panic, s', w') e h = absurd (cc)

-- What cannot fail may follow an atomic action, and an action of a part of the state is atomic if it
-- is so on the part.
module _ {W S E A B : Type 0} where
  pub IsAtomic-bind-Total :
      (m : Action W S E A) (k : A → Action W S E B)
      → IsAtomic m
      → ((a : A) → Total (k a))
      → IsAtomic (m >>= k)
  IsAtomic-bind-Total m k hm hk = record { at = λ s w. go s (m s w) (hm.at s w) }
    where
      returned : (s : S) (r : Outcome E B × S × W) → Returns r → Unchanged s r
      returned s (ok b, s', w') h = tt
      returned s (err e, s', w') h = absurd h
      returned s (panic, s', w') h = absurd h

      go : (s : S) (r : Outcome E A × S × W) → Unchanged s r → Unchanged s (proceed k r)
      go s (ok a, s', w') h = returned s (k a s' w') ((hk a).at s' w')
      go s (err e, s', w') h = h
      go s (panic, s', w') h = h

module _ {W S T E A : Type 0} (get : S → T) (put : S → T → S) where
  pub IsAtomic-zoom :
      (m : Action W T E A) → ((s : S) → put s (get s) ≡ s) → IsAtomic m → IsAtomic (zoom get put m)
  IsAtomic-zoom m law h = record { at = λ s w. go s (m (get s) w) (h.at (get s) w) }
    where
      go :
          (s : S) (r : Outcome E A × T × W)
          → Unchanged (get s) r
          → Unchanged s (r.0, put s r.1, r.2)
      go s (ok a, t, w') k = tt
      go s (err e, t, w') k = ap (put s) k ∙ law s
      go s (panic, t, w') k = ap (put s) k ∙ law s
