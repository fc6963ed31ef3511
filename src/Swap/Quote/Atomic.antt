-- ===== src/Swap/Quote/Atomic.antt =====
-- `create_quote` changes nothing where it fails, and touches only the map of quotes.
use atomic_mint_swap.Base.{◌≡◌, refl}
use atomic_mint_swap.Effect.Frame.{
  Keeps, IsAtomic, IsAtomic-bind, IsAtomic-Total, keeps_rules, total_rules,
}
use atomic_mint_swap.Env.{Env}
use atomic_mint_swap.Types.{BrokerConfig, SwapRequest, SwapQuote}
use atomic_mint_swap.Swap.Quote.{
  Coordinator, QuoteKeys, create_quote, issue_quote, generate_keys, store_quote,
}

module _ (env : Env) where
  pub generate_keys-reads : {T : Type 0} (f : Coordinator env → T) → Keeps f (generate_keys env)
  unfolding generate_keys
  generate_keys-reads f = search keeps_rules

  store_quote-executions :
      (k : QuoteKeys env) (q : SwapQuote env) (s : Coordinator env)
      → (store_quote env k q s).executions ≡ s.executions
  unfolding store_quote
  store_quote-executions k q s = refl

  store_quote-manager :
      (k : QuoteKeys env) (q : SwapQuote env) (s : Coordinator env)
      → (store_quote env k q s).manager ≡ s.manager
  unfolding store_quote
  store_quote-manager k q s = refl

  pub create_quote-executions :
      (config : BrokerConfig env) (request : SwapRequest)
      → Keeps (λ s. s.executions) (create_quote env config request)
  unfolding create_quote issue_quote
  create_quote-executions config request =
      search (keeps_rules, generate_keys-reads, store_quote-executions) depth 14

  pub create_quote-manager :
      (config : BrokerConfig env) (request : SwapRequest)
      → Keeps (λ s. s.manager) (create_quote env config request)
  unfolding create_quote issue_quote
  create_quote-manager config request =
      search (keeps_rules, generate_keys-reads, store_quote-manager) depth 14

  -- Where `create_quote` returns an error or panics, no quote is stored and nothing else changes.
  pub create_quote-IsAtomic :
      (config : BrokerConfig env) (request : SwapRequest)
      → IsAtomic (create_quote env config request)
  unfolding create_quote issue_quote
  create_quote-IsAtomic config request =
      search (keeps_rules, total_rules, generate_keys-reads, IsAtomic-bind, IsAtomic-Total) depth 14
