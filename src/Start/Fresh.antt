-- ===== src/Start/Fresh.antt =====
-- The state after a start of cashu-broker/src/main.rs, over a database that may hold quotes.
use mathlib.Core.Option
use atomic_mint_swap.Base.{
  arith, inl, inr, Option-cases, String, ◌≡◌, ◌≢◌, refl, ap, subst, none, [],
}
use atomic_mint_swap.Base.Dict.{lookup}
use atomic_mint_swap.Error.{BrokerError}
use atomic_mint_swap.Effect.{Outcome, ok, err, panic, lift}
use atomic_mint_swap.Effect.Success.{Post-value, Post-proceed}
use atomic_mint_swap.Env.{Env}
use atomic_mint_swap.Types.{BrokerConfig, SwapQuote}
use atomic_mint_swap.Config.{Vars, Reader, from_env}
use atomic_mint_swap.Liquidity.{LiquidityManager, get_balance}
use atomic_mint_swap.Liquidity
use atomic_mint_swap.Liquidity.New.{OpensAll, IsEmpty, new-Opens}
use atomic_mint_swap.Liquidity.Balance.{IsSolvent}
use atomic_mint_swap.Swap.Quote.{Coordinator}
use atomic_mint_swap.Swap.Lifecycle.{status_of}
use atomic_mint_swap.Broker.{Broker}
use atomic_mint_swap.Broker
use atomic_mint_swap.Api.Types.{
  QuoteRequest, AcceptQuoteRequest, AcceptQuoteResponse, CompleteQuoteRequest,
  CompleteQuoteResponse,
}
use atomic_mint_swap.Api.Handlers.{request_quote, accept_quote, complete_quote}
use atomic_mint_swap.Api.Agreement.{accept_quote-Accepts}
use atomic_mint_swap.Api.Completion.{complete_quote-Finishes}
use atomic_mint_swap.Api.Offer.{request_quote-covered}
use atomic_mint_swap.Start.{Storage, Server, broker_config, open_database, start}

module _ (env : Env) where
  pub record IsFresh (b : Broker env) : Type 0 where
    pub quotes : b.coordinator.quotes ≡ []
    pub executions : b.coordinator.executions ≡ []
    pub opens : OpensAll env b.coordinator.manager b.config.mints
    pub empty : IsEmpty env b.coordinator.manager
    pub solvent : IsSolvent env b.coordinator.manager

  new-IsFresh :
      (config : BrokerConfig env) (w : env.World) (b : Broker env)
      → (Broker.new env config w).0 ≡ ok b
      → IsFresh b
  unfolding Broker.new
  new-IsFresh config w b e = go (Liquidity.new env config.mints w).0 refl e
    where
      go :
          (r : Outcome BrokerError (LiquidityManager env))
          → (Liquidity.new env config.mints w).0 ≡ r
          → elim r [
            | ok m ↦ ok (record {
              config = config;
              coordinator = record { quotes = []; executions = []; manager = m };
            })
            | err e ↦ err e
            | panic ↦ panic
          ]
            ≡ ok b
          → IsFresh b
      go (ok m) found e =
          let made : Broker env = record {
            config = config;
            coordinator = record { quotes = []; executions = []; manager = m };
          } in
          let (opens, empty, solvent) = new-Opens env config.mints w m found in
          let same : made ≡ b = cc in
          let fresh : IsFresh made = record {
            quotes = refl;
            executions = refl;
            opens = opens;
            empty = empty;
            solvent = solvent;
          } in
          subst IsFresh same fresh
      go (err x) found e = absurd (cc)
      go panic found e = absurd (cc)

  no_quotes : (id : String) (c : Coordinator env) → c.quotes ≡ [] → status_of env id c ≡ none
  unfolding lookup
  no_quotes id c h = ap (λ quotes. Option.map (λ q. q.quote.status) (lookup id quotes)) h

  no_balance : (m : LiquidityManager env) (url : String) → IsEmpty env m → get_balance env url m ≡ 0
  unfolding get_balance
  no_balance m url h = elim (Option-cases (lookup url m.liquidity)) [
    | inl unknown ↦ ground (arith, unknown)
    | inr (l, known) ↦ ground (arith, known, (h.at_mint url l known).0)
  ]

  module _ (reader : Reader env.host.F64) (storage : Storage env) where
    -- Where the start succeeds, the broker has no quote and no execution, an entry and a wallet for
    -- every mint of its configuration, and a solvent manager whose balances are all zero.
    pub start-IsFresh :
        (vars : Vars) (w : env.World) (server : Server env)
        → (start env reader storage vars w).0 ≡ ok server
        → IsFresh server.state.service
    unfolding start
    start-IsFresh vars w server e =
        Post-value (λ server vars w. IsFresh server.state.service) (start env reader storage vars w)
          server
          (Post-proceed (λ server vars w. IsFresh server.state.service) _ (from_env reader vars w)
            λ config vars w e1.
              Post-proceed (λ server vars w. IsFresh server.state.service) _
                (open_database env reader storage config.database_url vars w)
                λ db vars w e2.
                  let (made, w1) = Broker.new env (broker_config env config) w in
                  Post-proceed (λ server vars w. IsFresh server.state.service) _ (lift made vars w1)
                    λ service vars w2 e3.
                      new-IsFresh (broker_config env config) w service (ap (λ r. r.0) e3))
          e

    -- In the state that a start leaves, whatever the database holds, no call of `accept_quote` or of
    -- `complete_quote` succeeds, for any quote.
    pub start-forgets :
        (vars : Vars) (w : env.World) (server : Server env)
        → (start env reader storage vars w).0 ≡ ok server
        → (id : String) (w' : env.World)
        → ((req : AcceptQuoteRequest) (r : AcceptQuoteResponse)
            → (accept_quote env id req server.state w').0 ≢ ok r)
          × ((req : CompleteQuoteRequest) (r : CompleteQuoteResponse)
              → (complete_quote env id req server.state w').0 ≢ ok r)
    start-forgets vars w server e id w' =
        let fresh = start-IsFresh vars w server e in
        let unknown : status_of env id server.state.service.coordinator ≡ none =
          no_quotes id server.state.service.coordinator fresh.quotes in
        (
          λ req r went.
              let known = (accept_quote-Accepts env id req server.state w' r went).was_pending in
              absurd (cc),
          λ req r went.
              let (st, known) =
                (complete_quote-Finishes env id req server.state w' r went).was_known in
              absurd (cc),
        )

    -- In the state that a start leaves, a quote that is requested and returned has an output of zero:
    -- the liquidity is empty, and covers no other.
    pub start-offers_nothing :
        (vars : Vars) (w : env.World) (server : Server env)
        → (start env reader storage vars w).0 ≡ ok server
        → (req : QuoteRequest) (w' : env.World) (q : SwapQuote env)
        → (request_quote env req server.state w').0 ≡ ok q
        → q.output_amount ≡ 0
    start-offers_nothing vars w server e req w' q went =
        let manager = server.state.service.coordinator.manager in
        let covered = request_quote-covered env req server.state w' q went in
        let zero = no_balance manager req.target_mint (start-IsFresh vars w server e).empty in
        ground arith
