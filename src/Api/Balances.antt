-- ===== src/Api/Balances.antt =====
-- `get_liquidity` of cashu-broker/src/api.rs: the balances that it reports, and their total.
use atomic_mint_swap.Base.{
  ℕ, ◌+◌, ◌%◌, ◌<◌, ◌≡◌, refl, ap, ◌∙◌, List, [], ◌∷◌, map, arith, sum_by, map-map,
}
use atomic_mint_swap.Base.Word.{u64_mod, add_u64}
use atomic_mint_swap.Effect.{ok}
use atomic_mint_swap.Env.{Env}
use atomic_mint_swap.Types.{MintConfig}
use atomic_mint_swap.Liquidity.{get_balance}
use atomic_mint_swap.Broker.{MintBalance, get_liquidity_status}
use atomic_mint_swap.Api.Types.{AppState}
use atomic_mint_swap.Api.Reads.{MintLiquidity, LiquidityResponse, sum_mints, get_liquidity}

-- The left-to-right sum that wraps is the sum, wrapped.
sum_mints-eq-sum :
    (acc : ℕ) (ms : List MintLiquidity)
    → acc < u64_mod
    → sum_mints acc ms ≡ (acc + sum_by (λ m. m.balance) ms) % u64_mod
unfolding sum_mints
sum_mints-eq-sum acc [] h = omega arith
sum_mints-eq-sum acc (m ∷ ms) h =
    sum_mints-eq-sum (add_u64 acc m.balance) ms (omega arith) ∙ omega arith

sum_by-map :
    {A B : Type 0} (f : B → ℕ) (g : A → B) (xs : List A)
    → sum_by f (map g xs) ≡ sum_by (λ x. f (g x)) xs
sum_by-map f g [] = refl
sum_by-map f g (x ∷ xs) = omega (arith, sum_by-map f g xs)

abbrev listed : MintBalance → MintLiquidity
listed m = record { mint_url = m.mint_url; name = m.name; balance = m.balance; unit = "sat" }

module _ (env : Env) where
  -- `get_liquidity` always answers and changes nothing: it lists every configured mint in order,
  -- with the balance that the liquidity manager reports, and the total is their sum modulo 2^64.
  pub get_liquidity-total :
      (s : AppState env) (w : env.World)
      → let mints = s.service.config.mints in
        let balance : MintConfig → ℕ =
          λ m. get_balance env m.mint_url s.service.coordinator.manager in
        (response : LiquidityResponse) × (get_liquidity env s w ≡ (ok response, s, w))
        × (map (λ m. m.mint_url) response.mints ≡ map (λ m. m.mint_url) mints)
        × (map (λ m. m.balance) response.mints ≡ map balance mints)
        × (response.total_balance ≡ sum_by balance mints % u64_mod)
  unfolding get_liquidity get_liquidity_status
  get_liquidity-total s w =
      let mints = s.service.config.mints in
      let balance : MintConfig → ℕ =
        λ m. get_balance env m.mint_url s.service.coordinator.manager in
      let status = get_liquidity_status env s.service in
      let rows = map listed status.mints in
      let sums : sum_by (λ m. m.balance) rows ≡ sum_by balance mints =
        sum_by-map (λ m. m.balance) listed status.mints ∙ sum_by-map (λ m. m.balance) _ mints in
      (
        record { mints = rows; total_balance = sum_mints 0 rows },
        refl,
        map-map (λ m. m.mint_url) listed status.mints ∙ map-map (λ m. m.mint_url) _ mints,
        map-map (λ m. m.balance) listed status.mints ∙ map-map (λ m. m.balance) _ mints,
        sum_mints-eq-sum 0 rows (omega arith) ∙ ap (λ n. (0 + n) % u64_mod) sums ∙ omega arith,
      )
