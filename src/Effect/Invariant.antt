-- ===== src/Effect/Invariant.antt =====
-- Rules for what holds of the state however an action ends.
use atomic_mint_swap.Base.{◌≡◌, refl, sym, subst}
use atomic_mint_swap.Effect.{Outcome, ok, err, panic, Action, proceed, convert}

module _ {W S E A B : Type 0} (P : S → Type 0) (k : A → Action W S E B) where
  pub Inv-proceed :
      (r : Outcome E A × S × W)
      → P r.1
      → ((a : A) (s' : S) (w' : W) → r ≡ (ok a, s', w') → P s' → P (k a s' w').1)
      → P (proceed k r).1
  Inv-proceed (ok a, s', w') p h = h a s' w' refl p
  Inv-proceed (err e, s', w') p h = p
  Inv-proceed (panic, s', w') p h = p

  pub Inv-reads :
      (s : S) (r : Outcome E A × S × W)
      → r.1 ≡ s
      → P s
      → ((a : A) (w' : W) → r.0 ≡ ok a → P (k a s w').1)
      → P (proceed k r).1
  Inv-reads s (ok a, s', w') same p h = subst (λ x. P (k a x w').1) (sym same) (h a w' refl)
  Inv-reads s (err e, s', w') same p h = subst P (sym same) p
  Inv-reads s (panic, s', w') same p h = subst P (sym same) p

pub convert-state :
    {W S E F A : Type 0} (f : E → F) (r : Outcome E A × S × W) → (convert f r).1 ≡ r.1
convert-state f (ok a, s, w) = refl
convert-state f (err e, s, w) = refl
convert-state f (panic, s, w) = refl
