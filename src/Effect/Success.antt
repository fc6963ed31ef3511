-- ===== src/Effect/Success.antt =====
-- What holds of an action that returns a value: rules that follow a `do` block step by step.
use atomic_mint_swap.Base.{◌≡◌, refl, sym, subst}
use atomic_mint_swap.Effect.{Outcome, ok, err, panic, Action, proceed, convert}

-- `Q` holds of the value, the state and the world, if there is a value.
abbrev pub Post : {W S E A : Type 0} → (A → S → W → Type 0) → Outcome E A × S × W → Type 0
Post Q (ok a, s, w) = Q a s w
Post Q (err e, s, w) = Unit
Post Q (panic, s, w) = Unit

pub Post-ok :
    {W S E A : Type 0} (P : S → Type 0) (r : Outcome E A × S × W) (a : A)
    → Post (λ b s w. P s) r
    → r.0 ≡ ok a
    → P r.1
Post-ok P (ok b, s, w) a h e = h
Post-ok P (err x, s, w) a h e = absurd (cc)
Post-ok P (panic, s, w) a h e = absurd (cc)

module _ {W S E A B : Type 0} (Q : B → S → W → Type 0) (k : A → Action W S E B) where
  -- After a step that returned, what follows starts from its value and state.
  pub Post-proceed :
      (r : Outcome E A × S × W)
      → ((a : A) (s' : S) (w' : W) → r ≡ (ok a, s', w') → Post Q (k a s' w'))
      → Post Q (proceed k r)
  Post-proceed (ok a, s', w') h = h a s' w' refl
  Post-proceed (err x, s', w') h = tt
  Post-proceed (panic, s', w') h = tt

  -- A step that only reads leaves the state to what follows.
  pub Post-reads :
      (s : S) (r : Outcome E A × S × W)
      → r.1 ≡ s
      → ((a : A) (w' : W) → r.0 ≡ ok a → Post Q (k a s w'))
      → Post Q (proceed k r)
  Post-reads s (ok a, s', w') same h = subst (λ x. Post Q (k a x w')) (sym same) (h a w' refl)
  Post-reads s (err x, s', w') same h = tt
  Post-reads s (panic, s', w') same h = tt

-- A call that returned, with its error converted.
pub convert-eq-ok :
    {W S E F A : Type 0} (f : E → F) (r : Outcome E A × S × W) (a : A) (s : S) (w : W)
    → convert f r ≡ (ok a, s, w)
    → r ≡ (ok a, s, w)
convert-eq-ok f (ok b, s', w') a s w h = cc
convert-eq-ok f (err x, s', w') a s w h = cc
convert-eq-ok f (panic, s', w') a s w h = cc

pub Post-mono :
    {W S E A : Type 0} (P Q : A → S → W → Type 0) (r : Outcome E A × S × W)
    → ((a : A) (s : S) (w : W) → P a s w → Q a s w)
    → Post P r
    → Post Q r
Post-mono P Q (ok a, s, w) f h = f a s w h
Post-mono P Q (err e, s, w) f h = tt
Post-mono P Q (panic, s, w) f h = tt

pub Post-value :
    {W S E A : Type 0} (Q : A → S → W → Type 0) (r : Outcome E A × S × W) (a : A)
    → Post Q r
    → r.0 ≡ ok a
    → Q a r.1 r.2
Post-value Q (ok b, s, w) a h e = let same : b ≡ a = cc in subst (λ x. Q x s w) same h
Post-value Q (err x, s, w) a h e = absurd (cc)
Post-value Q (panic, s, w) a h e = absurd (cc)

-- What is known of the state holds after a step that leaves the state alone.
pub Post-state :
    {W S E A : Type 0} (P : S → Type 0) (s : S) (r : Outcome E A × S × W)
    → r.1 ≡ s
    → P s
    → Post (λ a s w. P s) r
Post-state P s (ok a, s', w') same h = subst P (sym same) h
Post-state P s (err e, s', w') same h = tt
Post-state P s (panic, s', w') same h = tt
