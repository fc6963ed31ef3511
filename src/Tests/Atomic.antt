-- ===== src/Tests/Atomic.antt =====
-- What the operations leave alone, applied to the swap of Tests/Scenario.antt, and its broker.
use atomic_mint_swap.Base.{◌%◌, ℕ, ◌≡◌, [], ◌∷◌, map, sum_by}
use atomic_mint_swap.Base.Word.{u64_mod}
use atomic_mint_swap.Effect.Frame.{Keeps, IsAtomic}
use atomic_mint_swap.Liquidity.{get_balance}
use atomic_mint_swap.Swap.Execute.{prepare_swap}
use atomic_mint_swap.Swap.Execute.Atomic.{prepare_swap-manager}
use atomic_mint_swap.Broker.Atomic.{broker-IsAtomic}
use atomic_mint_swap.Broker.{request_quote, accept_quote, complete_swap}
use atomic_mint_swap.Types.{MintConfig}
use atomic_mint_swap.Effect.{ok}
use atomic_mint_swap.Api.Types.{AppState}
use atomic_mint_swap.Api.Reads.{LiquidityResponse, get_liquidity}
use atomic_mint_swap.Api.Balances.{get_liquidity-total}
use atomic_mint_swap.Tests.Database.{empty}
use atomic_mint_swap.Tests.Sample.{sample}
use atomic_mint_swap.Tests.Scenario.{config, request, idle, client_key}

prepare_swap-manager_example : Keeps (λ s. s.manager) (prepare_swap sample "id" client_key)
prepare_swap-manager_example = prepare_swap-manager sample "id" client_key

broker-IsAtomic_example :
    IsAtomic (request_quote sample request)
    × IsAtomic (accept_quote sample "id" client_key)
    × IsAtomic (complete_swap sample "id" ((1000, 5) ∷ []))
broker-IsAtomic_example = broker-IsAtomic sample request "id" client_key ((1000, 5) ∷ [])

abbrev app : AppState sample
app = record { service = record { config = config; coordinator = idle }; db = empty }

abbrev balance : MintConfig → ℕ
balance m = get_balance sample m.mint_url idle.manager

get_liquidity-total_example :
    (response : LiquidityResponse) × (get_liquidity sample app 4 ≡ (ok response, app, 4))
    × (map (λ m. m.mint_url) response.mints ≡ map (λ m. m.mint_url) config.mints)
    × (map (λ m. m.balance) response.mints ≡ map balance config.mints)
    × (response.total_balance ≡ sum_by balance config.mints % u64_mod)
get_liquidity-total_example = get_liquidity-total sample app 4
