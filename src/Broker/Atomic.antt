-- ===== src/Broker/Atomic.antt =====
-- The broker's operations on a swap change nothing of the broker where they fail.
use atomic_mint_swap.Base.{String, refl, List}
use atomic_mint_swap.Effect.Frame.{IsAtomic, IsAtomic-zoom}
use atomic_mint_swap.Env.{Env, Bytes}
use atomic_mint_swap.Types.{SwapRequest}
use atomic_mint_swap.Swap.Quote.{create_quote}
use atomic_mint_swap.Swap.Quote.Atomic.{create_quote-IsAtomic}
use atomic_mint_swap.Swap.Execute.{prepare_swap}
use atomic_mint_swap.Swap.Execute
use atomic_mint_swap.Swap.Execute.Atomic.{prepare_swap-IsAtomic, complete_swap-IsAtomic}
use atomic_mint_swap.Broker.{with_coordinator, request_quote, accept_quote, complete_swap}

module _ (env : Env) where
  -- Where the broker's `request_quote`, `accept_quote` or `complete_swap` returns an error or panics,
  -- the broker's quotes, executions and liquidity are what they were.
  pub broker-IsAtomic :
      (request : SwapRequest) (id : String) (pk : Bytes) (ps : List env.cdk.Proof)
      → IsAtomic (request_quote env request)
        × IsAtomic (accept_quote env id pk)
        × IsAtomic (complete_swap env id ps)
  unfolding request_quote accept_quote complete_swap
  broker-IsAtomic request id pk ps = (
    record {
      at = λ b.
          (IsAtomic-zoom (λ b. b.coordinator) (with_coordinator env)
              (create_quote env b.config request) (λ s. refl)
              (create_quote-IsAtomic env b.config request)).at
            b;
    },
    IsAtomic-zoom (λ b. b.coordinator) (with_coordinator env) (prepare_swap env id pk) (λ s. refl)
        (prepare_swap-IsAtomic env id pk),
    IsAtomic-zoom (λ b. b.coordinator) (with_coordinator env) (Execute.complete_swap env id ps)
        (λ s. refl) (complete_swap-IsAtomic env id ps),
  )
