-- ===== src/Api/Behind/Serve.antt =====
-- Sequences of the requests that change state, by the routes of cashu-broker/src/api.rs.
use atomic_mint_swap.Base.{String, List, [], ◌∷◌}
use atomic_mint_swap.Env.{Env}
use atomic_mint_swap.Api.Types.{AppState, QuoteRequest, AcceptQuoteRequest, CompleteQuoteRequest}
use atomic_mint_swap.Api.Handlers.{request_quote, accept_quote, complete_quote}
use atomic_mint_swap.Api.Behind.{IsBehind}
use atomic_mint_swap.Api.Behind.Handlers.{accept_quote-IsBehind, complete_quote-IsBehind}
use atomic_mint_swap.Api.Behind.Offer.{IsNew, request_quote-IsBehind}

-- `POST /quote`, `/quote/:id/accept` and `/quote/:id/complete`
pub data Request : Type 0 where
  quote : QuoteRequest → Request
  accept : (id : String) → AcceptQuoteRequest → Request
  complete : (id : String) → CompleteQuoteRequest → Request

module _ (env : Env) where
  -- The state and the world after a request, however it was answered.
  unfoldable pub serve : Request → AppState env → env.World → AppState env × env.World
  serve (quote req) s w = let (r, s', w') = request_quote env req s w in (s', w')
  serve (accept id req) s w = let (r, s', w') = accept_quote env id req s w in (s', w')
  serve (complete id req) s w = let (r, s', w') = complete_quote env id req s w in (s', w')

  unfoldable pub serve_all : List Request → AppState env → env.World → AppState env × env.World
  unfolding serve
  serve_all [] s w = (s, w)
  serve_all (r ∷ rs) s w = let (s', w') = serve r s w in serve_all rs s' w'

  -- Along the run, the coordinator chooses no id for a new quote that the database already has.
  abbrev pub ChoosesNew : List Request → AppState env → env.World → Type 0
  ChoosesNew [] s w = Unit
  ChoosesNew (quote req ∷ rs) s w =
      IsNew env req s w × ChoosesNew rs (serve (quote req) s w).0 (serve (quote req) s w).1
  ChoosesNew (r ∷ rs) s w = ChoosesNew rs (serve r s w).0 (serve r s w).1

  -- Take a state in which each quote that the database calls accepted is accepted or completed in
  -- the coordinator, and each quote that it calls completed is completed there. After any sequence
  -- of requests, successful or failed, the state is such a one again, if the coordinator chooses no
  -- id for a new quote that the database already has.
  pub serve_all-IsBehind :
      (rs : List Request) (s : AppState env) (w : env.World)
      → ChoosesNew rs s w
      → IsBehind env s
      → IsBehind env (serve_all rs s w).0
  unfolding serve_all serve
  serve_all-IsBehind [] s w new h = h
  serve_all-IsBehind (quote req ∷ rs) s w new h =
      serve_all-IsBehind rs _ _ new.1 (request_quote-IsBehind env req s w new.0 h)
  serve_all-IsBehind (accept id req ∷ rs) s w new h =
      serve_all-IsBehind rs _ _ new (accept_quote-IsBehind env id req s w h)
  serve_all-IsBehind (complete id req ∷ rs) s w new h =
      serve_all-IsBehind rs _ _ new (complete_quote-IsBehind env id req s w h)
