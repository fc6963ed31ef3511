-- ===== src/Api/Behind/Handlers.antt =====
-- `accept_quote` and `complete_quote` keep the database behind the coordinator, however they end.
use mathlib.Core.Option
use atomic_mint_swap.Base.{String, inl}
use atomic_mint_swap.Env.{Env}
use atomic_mint_swap.Types.Status.{accepted, completed, to_string}
use atomic_mint_swap.Broker
use atomic_mint_swap.Api.Types.{AppState, AcceptQuoteRequest, CompleteQuoteRequest}
use atomic_mint_swap.Api.Handlers.{accept_quote, complete_quote}
use atomic_mint_swap.Api.Invariant.{accept_quote-Inv, complete_quote-Inv}
use atomic_mint_swap.Api.Behind.{
  Agrees-accepted, Agrees-completed, IsBehind, IsBehind-keeps, on_broker-IsBehind,
  update_quote_status-IsBehind, accept_quote-Agrees, complete_swap-Agrees,
}

module _ (env : Env) where
  pub accept_quote-IsBehind :
      (id : String) (req : AcceptQuoteRequest) (s : AppState env) (w : env.World)
      → IsBehind env s
      → IsBehind env (accept_quote env id req s w).1
  accept_quote-IsBehind id req s w h =
      accept_quote-Inv env (IsBehind env) (IsBehind-keeps env) id req s w h
        (λ pk w'.
          on_broker-IsBehind env (Broker.accept_quote env id pk) s w'
            (λ j a. accept_quote-Agrees env id pk s.service w' j _ a) h)
        λ s1 w' was now h1.
          update_quote_status-IsBehind env id accepted s1 w'
            (λ stored. Agrees-accepted stored _ (inl now)) h1

  pub complete_quote-IsBehind :
      (id : String) (req : CompleteQuoteRequest) (s : AppState env) (w : env.World)
      → IsBehind env s
      → IsBehind env (complete_quote env id req s w).1
  complete_quote-IsBehind id req s w h =
      complete_quote-Inv env (IsBehind env) (IsBehind-keeps env) id req s w h
        (λ ps w' stored.
          on_broker-IsBehind env (Broker.complete_swap env id ps) s w'
            (λ j a. complete_swap-Agrees env id ps s.service w' j _ a) h)
        λ s1 w' was now h1.
          update_quote_status-IsBehind env id completed s1 w'
            (λ stored. Agrees-completed (Option.map (λ x. to_string completed) stored) _ now) h1
