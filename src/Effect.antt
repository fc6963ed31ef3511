-- ===== src/Effect.antt =====
-- Effects: an action reads and changes the state `S` of its component and the world `W` outside
-- the program, and ends with a value, an error of type `E` or a panic. What it changed before it
-- failed stays changed.
pub mod Frame
pub mod Success
pub mod Invariant
use atomic_mint_swap.Base.{
  ◌≡◌, refl, ◌⊎◌, inl, inr, Bool, true, false, Option, none, some, List, [], ◌∷◌,
}

pub data Outcome (E A : Type 0) : Type 0 where
  ok : A → Outcome E A
  err : E → Outcome E A
  panic : Outcome E A

-- What a call of code outside the repository gives back: a value, or the text of its error.
pub data Attempt (T A : Type 0) : Type 0 where
  done : A → Attempt T A
  refused : T → Attempt T A

pub Attempt-cases :
    {T A : Type 0} (r : Attempt T A) → ((e : T) × (r ≡ refused e)) ⊎ ((a : A) × (r ≡ done a))
Attempt-cases (done a) = inr (a, refl)
Attempt-cases (refused e) = inl (e, refl)

abbrev pub Action : Type 0 → Type 0 → Type 0 → Type 0 → Type 0
Action W S E A = S → W → Outcome E A × S × W

module _ {W S E A : Type 0} where
  abbrev pub pure : A → Action W S E A
  pure a s w = (ok a, s, w)

  abbrev pub raise : E → Action W S E A
  raise e s w = (err e, s, w)

  -- `expect` and `unwrap` of a missing value
  abbrev pub or_panic : Option A → Action W S E A
  or_panic none s w = (panic, s, w)
  or_panic (some a) s w = (ok a, s, w)

  -- `ok_or_else`
  abbrev pub or_raise : Option A → E → Action W S E A
  or_raise none e s w = (err e, s, w)
  or_raise (some a) e s w = (ok a, s, w)

  -- A call of the outside world.
  abbrev pub perform : (W → A × W) → Action W S E A
  perform f s w = let (a, w') = f w in (ok a, s, w')

  abbrev pub gets : (S → A) → Action W S E A
  gets f s w = (ok (f s), s, w)

  -- A pure computation that can fail.
  abbrev pub lift : Outcome E A → Action W S E A
  lift o s w = (o, s, w)

module _ {W S E : Type 0} where
  abbrev pub modify : (S → S) → Action W S E (Unit {0})
  modify f s w = (ok tt, f s, w)

  -- `if test { return Err(e) }`
  abbrev pub raise_if : Bool → E → Action W S E (Unit {0})
  raise_if true e s w = (err e, s, w)
  raise_if false e s w = (ok tt, s, w)

-- What follows a value, and the end of what failed.
abbrev pub proceed :
    {W S E A B : Type 0} → (A → Action W S E B) → Outcome E A × S × W → Outcome E B × S × W
proceed k (ok a, s, w) = k a s w
proceed k (err e, s, w) = (err e, s, w)
proceed k (panic, s, w) = (panic, s, w)

infixl 5 ◌>>=◌ ◌>>◌
abbrev pub ◌>>=◌ : {W S E A B : Type 0} → Action W S E A → (A → Action W S E B) → Action W S E B
◌>>=◌ m k s w = proceed k (m s w)

abbrev pub ◌>>◌ : {W S E B : Type 0} → Action W S E (Unit {0}) → Action W S E B → Action W S E B
m >> k = m >>= λ _. k

-- `map_err` on the result of a call.
abbrev pub or_fail : {W S E T A : Type 0} → (T → E) → Attempt T A → Action W S E A
or_fail f (done a) s w = (ok a, s, w)
or_fail f (refused t) s w = (err (f t), s, w)

abbrev pub attempt : {W S E T A : Type 0} → (T → E) → (W → Attempt T A × W) → Action W S E A
attempt f call s w = let (r, w') = call w in or_fail f r s w'

-- An action of a part of the state.
abbrev pub zoom : {W S T E A : Type 0} → (S → T) → (S → T → S) → Action W T E A → Action W S E A
zoom get put m s w = let (r, t, w') = m (get s) w in (r, put s t, w')

abbrev pub convert : {W S E F A : Type 0} → (E → F) → Outcome E A × S × W → Outcome F A × S × W
convert f (ok a, s, w) = (ok a, s, w)
convert f (err e, s, w) = (err (f e), s, w)
convert f (panic, s, w) = (panic, s, w)

-- `.await.map_err(f)?`
abbrev pub rethrow : {W S E F A : Type 0} → (E → F) → Action W S E A → Action W S F A
rethrow f m s w = convert f (m s w)

-- `match m.await { Ok(a) => k(a), Err(e) => h(e) }`
abbrev pub settle :
    {W S E F A B : Type 0}
    → (A → Action W S F B)
    → (E → Action W S F B)
    → Outcome E A × S × W
    → Outcome F B × S × W
settle k h (ok a, s, w) = k a s w
settle k h (err e, s, w) = h e s w
settle k h (panic, s, w) = (panic, s, w)
