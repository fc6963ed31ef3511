-- ===== src/Broker/Status.antt =====
-- The liquidity status, and a new broker.
use atomic_mint_swap.Base.{ℕ, ◌+◌, ◌<◌, ◌≡◌, List, [], ◌∷◌, map, arith, sum_by, map-map}
use atomic_mint_swap.Base.Word.{u64_mod, add_u64}
use atomic_mint_swap.Env.{Env}
use atomic_mint_swap.Liquidity.{get_balance}
use atomic_mint_swap.Broker.{Broker, MintBalance, sum_balances, get_liquidity_status}

-- With no overflow the left-to-right sum is the sum.
pub sum_balances-eq-sum :
    (acc : ℕ) (bs : List MintBalance)
    → acc + sum_by (λ b. b.balance) bs < u64_mod
    → sum_balances acc bs ≡ acc + sum_by (λ b. b.balance) bs
unfolding sum_balances
sum_balances-eq-sum acc [] h = omega arith
sum_balances-eq-sum acc (b ∷ bs) h =
    let step : add_u64 acc b.balance ≡ acc + b.balance = ground arith in
    ground (arith, step, sum_balances-eq-sum (add_u64 acc b.balance) bs)

module _ (env : Env) where
  -- The status lists every configured mint in order with the balance that the liquidity manager
  -- reports; and its total is the sum of those balances, if that is a `u64`.
  pub get_liquidity_status-total :
      (b : Broker env)
      → sum_by (λ m. m.balance) (get_liquidity_status env b).mints < u64_mod
      → let status = get_liquidity_status env b in
        (map (λ m. m.mint_url) status.mints ≡ map (λ m. m.mint_url) b.config.mints)
        × (map (λ m. m.balance) status.mints
            ≡ map (λ m. get_balance env m.mint_url b.coordinator.manager) b.config.mints)
        × (status.total_balance ≡ sum_by (λ m. m.balance) status.mints)
  unfolding get_liquidity_status
  get_liquidity_status-total b h = (
    map-map (λ m. m.mint_url) _ b.config.mints,
    map-map (λ m. m.balance) _ b.config.mints,
    omega (arith, sum_balances-eq-sum 0 (get_liquidity_status env b).mints (omega arith)),
  )
