-- ===== src/Config/Load.antt =====
-- What `Config::from_env` of cashu-broker/src/config.rs gives, whatever the variables hold.
use Prim.Native.String.{◌++◌}
use mathlib.Core.List.{cons-ne-nil}
use atomic_mint_swap.Base.{
  ℕ, ◌-◌, ◌^◌, ◌+◌, ◌*◌, ◌≤◌, ◌<◌, String, ◌≡◌, ◌≢◌, refl, Option, none, some, List, [], ◌∷◌, arith,
}
use atomic_mint_swap.Base.Word.{u64_mod}
use atomic_mint_swap.Types.Status.{codes}
use atomic_mint_swap.Error.{BrokerError, other}
use atomic_mint_swap.Effect.{
  Outcome, ok, err, panic, Attempt, done, refused, pure, or_raise, raise_if, or_fail, ◌>>◌, proceed,
}
use atomic_mint_swap.Config.{
  Vars, Reader, Config, MintConfig, Loading, var_or, number_or, is_empty, fee_rate_or,
  required_mints, from_env,
}
use atomic_mint_swap.Config.Text.{parse_unsigned, parse_codes, parse_digits}

parse_digits-bound :
    (max acc : ℕ) (cs : List ℕ) (n : ℕ) → acc ≤ max → parse_digits max acc cs ≡ done n → n ≤ max
unfolding parse_digits
parse_digits-bound max acc [] n h e = ground arith
parse_digits-bound max acc (c ∷ cs) n h e =
    ground (arith, parse_digits-bound max (acc * 10 + (c - 48)) cs n)

parse_codes-bound : (max : ℕ) (cs : List ℕ) (n : ℕ) → parse_codes max cs ≡ done n → n ≤ max
unfolding parse_codes
parse_codes-bound max [] n e = ground arith
parse_codes-bound max (c ∷ []) n e = parse_digits-bound max 0 (c ∷ []) n (omega arith) e
parse_codes-bound max (c ∷ d ∷ cs) n e =
    ground (arith, parse_digits-bound max 0 (d ∷ cs) n, parse_digits-bound max 0 (c ∷ d ∷ cs) n)

parse_unsigned-bound : (max : ℕ) (s : String) (n : ℕ) → parse_unsigned max s ≡ done n → n ≤ max
unfolding parse_unsigned
parse_unsigned-bound max s n e = parse_codes-bound max (codes s) n e

-- The action returns a value with `Q` or raises `Other`; it does not panic.
abbrev pub Loads : {W A : Type 0} → (A → Type 0) → Outcome BrokerError A × Vars × W → Type 0
Loads Q (ok a, vars, w) = Q a
Loads Q (err e, vars, w) = (text : String) × (e ≡ other text)
Loads Q (panic, vars, w) = ⊥

module _ {W A B : Type 0} (P : A → Type 0) (Q : B → Type 0) (k : A → Loading W B) where
  Loads-proceed :
      (r : Outcome BrokerError A × Vars × W)
      → Loads P r
      → ((a : A) (vars : Vars) (w : W) → P a → Loads Q (k a vars w))
      → Loads Q (proceed k r)
  Loads-proceed (ok a, vars, w) h next = next a vars w h
  Loads-proceed (err e, vars, w) h next = h
  Loads-proceed (panic, vars, w) h next = absurd h

Loads-or_fail :
    {W A : Type 0} (Q : A → Type 0) (f : String → String) (r : Attempt String A) (vars : Vars)
    (w : W)
    → ((a : A) → r ≡ done a → Q a)
    → Loads Q (or_fail (λ e. other (f e)) r vars w)
Loads-or_fail Q f (done a) vars w h = h a refl
Loads-or_fail Q f (refused e) vars w h = (f e, refl)

number_or-Loads :
    {W : Type 0} (max : ℕ) (name default : String) (vars : Vars) (w : W)
    → Loads (λ n. n ≤ max) (number_or max name default vars w)
unfolding number_or
number_or-Loads max name default vars w =
    Loads-or_fail (λ n. n ≤ max) (λ e. "Invalid " ++ (name ++ (": " ++ e)))
      (parse_unsigned max (var_or name default vars)) vars w
      λ n e. parse_unsigned-bound max (var_or name default vars) n e

-- What the code relies on of a loaded configuration: the ranges of its numbers, and a mint.
pub record IsLoaded {F64 : Type 0} (config : Config F64) : Type 0 where
  pub port : config.port < 2 ^ 16
  pub min_swap_amount : config.min_swap_amount < u64_mod
  pub max_swap_amount : config.max_swap_amount < u64_mod
  pub quote_expiry_seconds : config.quote_expiry_seconds < u64_mod
  pub mints : config.mints ≢ []

-- The list that was read, once it is checked.
some_mint-Loads :
    {W : Type 0} (mints : List MintConfig) (vars : Vars) (w : W)
    → Loads
        (λ ms. ms ≢ [])
        ((raise_if (is_empty mints) (other "At least one mint must be configured") >> pure mints)
          vars w)
unfolding is_empty
some_mint-Loads [] vars w = (_, refl)
some_mint-Loads (m ∷ ms) vars w = cons-ne-nil m ms

or_raise-Loads :
    {W A : Type 0} (o : Option A) (text : String) (vars : Vars) (w : W)
    → Loads (λ a. Unit {0}) (or_raise o (other text) vars w)
or_raise-Loads none text vars w = (text, refl)
or_raise-Loads (some a) text vars w = tt

module _ {W F64 : Type 0} (reader : Reader F64) where
  fee_rate_or-Loads :
      (name default : String) (vars : Vars) (w : W)
      → Loads (λ x. Unit {0}) (fee_rate_or {W = W} reader name default vars w)
  unfolding fee_rate_or
  fee_rate_or-Loads name default vars w =
      Loads-or_fail (λ x. Unit) (λ e. "Invalid " ++ (name ++ (": " ++ e)))
        (reader.parse_f64 (var_or name default vars)) vars w λ x e. tt

  required_mints-Loads :
      (vars : Vars) (w : W) → Loads (λ mints. mints ≢ []) (required_mints {W = W} reader vars w)
  unfolding required_mints
  required_mints-Loads vars w =
      Loads-proceed (λ a. Unit {0}) (λ ms. ms ≢ []) _ (or_raise (vars "MINTS") _ vars w)
        (or_raise-Loads (vars "MINTS") _ vars w)
        λ json vars w t.
          Loads-proceed (λ a. Unit {0}) (λ ms. ms ≢ []) _ _
            (Loads-or_fail (λ a. Unit {0}) (λ e. "Invalid MINTS JSON: " ++ e)
              (reader.mints_from_json json) vars w λ a e. tt)
            λ mints vars w t. some_mint-Loads mints vars w

  -- However the variables are set, `from_env` does not panic, and an error of it is `Other`; a
  -- configuration that it loads has numbers in the ranges of `u16` and `u64`, and at least one mint.
  pub from_env-Loads : (vars : Vars) (w : W) → Loads IsLoaded (from_env {W = W} reader vars w)
  unfolding from_env
  from_env-Loads vars w =
      let number : (max : ℕ) (name default : String) (vars : Vars) (w : W)
          → Loads (λ n. n ≤ max) (number_or max name default vars w) =
        number_or-Loads in
      Loads-proceed (λ n. n ≤ 2 ^ 16 - 1) IsLoaded _ _ (number _ "PORT" "3000" vars w)
        λ port vars w p.
          Loads-proceed (λ x. Unit {0}) IsLoaded _ _ (fee_rate_or-Loads "FEE_RATE" "0.005" vars w)
            λ fee vars w t.
              Loads-proceed (λ n. n ≤ u64_mod - 1) IsLoaded _ _
                (number _ "MIN_SWAP_AMOUNT" "1" vars w)
                λ least vars w l.
                  Loads-proceed (λ n. n ≤ u64_mod - 1) IsLoaded _ _
                    (number _ "MAX_SWAP_AMOUNT" "10000" vars w)
                    λ most vars w m.
                      Loads-proceed (λ n. n ≤ u64_mod - 1) IsLoaded _ _
                        (number _ "QUOTE_EXPIRY_SECONDS" "300" vars w)
                        λ expiry vars w x.
                          Loads-proceed (λ ms. ms ≢ []) IsLoaded _ _ (required_mints-Loads vars w)
                            λ mints vars w some_mint. record {
                              port = omega arith;
                              min_swap_amount = omega arith;
                              max_swap_amount = omega arith;
                              quote_expiry_seconds = omega arith;
                              mints = some_mint;
                            }
