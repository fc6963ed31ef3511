-- ===== src/Api/Behind/Offer.antt =====
-- `request_quote` keeps the database behind the coordinator, where the id of the new quote is new.
use mathlib.Core.Option
use atomic_mint_swap.Base.{
  String, ◌≡◌, refl, sym, subst, ap, ◌∙◌, ◌⊎◌, inl, inr, Option, none, some, Option-cases,
  Bool-cases, ◌==◌, eq_iff, arith,
}
use atomic_mint_swap.Base.Dict.{lookup}
use atomic_mint_swap.Error.{BrokerError}
use atomic_mint_swap.Effect.{Outcome, ok, err, panic}
use atomic_mint_swap.Effect.Frame.{Unchanged}
use atomic_mint_swap.Env.{Env}
use atomic_mint_swap.Types.{BrokerConfig, SwapRequest, SwapQuote}
use atomic_mint_swap.Types.Status.{SwapStatus}
use atomic_mint_swap.Swap.Lifecycle.{status_of}
use atomic_mint_swap.Swap.Quote.{Coordinator}
use atomic_mint_swap.Swap.Quote
use atomic_mint_swap.Swap.Execute.{get_quote}
use atomic_mint_swap.Swap.Quote.Created.{create_quote-stored}
use atomic_mint_swap.Swap.Quote.Atomic.{create_quote-IsAtomic}
use atomic_mint_swap.Broker
use atomic_mint_swap.Database.Quotes.{create_quote}
use atomic_mint_swap.Database.Lookups.{status_at}
use atomic_mint_swap.Database.Changes.{create_quote-cases}
use atomic_mint_swap.Api.Types.{AppState, QuoteRequest}
use atomic_mint_swap.Api.Handlers.{request_quote, swap_request}
use atomic_mint_swap.Api.Invariant.{request_quote-Inv}
use atomic_mint_swap.Api.Behind.{
  IsBehind-keeps, Agrees, Agrees-pending, IsBehind, on_broker-IsBehind, on_db-IsBehind,
}

Agrees-none : (held : Option SwapStatus) → Agrees none held
Agrees-none held = record { paid_out = λ h. absurd (cc); was_completed = λ h. absurd (cc) }

module _ (env : Env) where
  status_of-get_quote :
      (id : String) (c : Coordinator env)
      → status_of env id c ≡ Option.map (λ (q : SwapQuote env). q.status) (get_quote env id c)
  unfolding get_quote
  status_of-get_quote id c = elim (Option-cases (lookup id c.quotes)) [
    | inl e ↦ ground (arith, e)
    | inr (q, e) ↦ ground (arith, e)
  ]

  -- `create_quote` changes the status of its own quote alone.
  pub create_quote-status :
      (config : BrokerConfig env) (request : SwapRequest) (s : Coordinator env) (w : env.World)
      (j : String)
      → let r = Quote.create_quote env config request s w in
        (status_of env j r.1 ≡ status_of env j s)
        ⊎ ((q : SwapQuote env) × (r.0 ≡ ok q) × (q.quote_id ≡ j))
  create_quote-status config request s w j =
      go (Quote.create_quote env config request s w) refl
        ((create_quote-IsAtomic env config request).at s w)
    where
      go :
          (r : Outcome BrokerError (SwapQuote env) × Coordinator env × env.World)
          → Quote.create_quote env config request s w ≡ r
          → Unchanged s r
          → (status_of env j r.1 ≡ status_of env j s)
            ⊎ ((q : SwapQuote env) × (r.0 ≡ ok q) × (q.quote_id ≡ j))
      go (ok q, s', w') e k = elim (Bool-cases (q.quote_id == j)) [
        | inl mine ↦ inr (q, refl, (eq_iff q.quote_id j).0 mine)
        | inr other ↦
            let stored = create_quote-stored env config request q s w j (ap (λ r. r.0) e) in
            let found : get_quote env j s' ≡ get_quote env j s =
              ap (λ r. get_quote env j r.1) (sym e) ∙ ground (arith, stored) in
            inl (
              status_of-get_quote j s'
              ∙ ap (Option.map (λ (q : SwapQuote env). q.status)) found
              ∙ sym (status_of-get_quote j s))
      ]
      go (err x, s', w') e k = inl (ap (status_of env j) k)
      go (panic, s', w') e k = inl (ap (status_of env j) k)

  -- The id that the coordinator chooses for the new quote is not in the database.
  abbrev pub IsNew : QuoteRequest → AppState env → env.World → Type 0
  IsNew req s w =
      (q : SwapQuote env)
      → (Broker.request_quote env (swap_request env req) s.service w).0 ≡ ok q
      → status_at env q.quote_id s.db.quotes ≡ none

  request_quote-Agrees :
      (req : QuoteRequest) (s : AppState env) (w : env.World) (j : String)
      → IsNew req s w
      → Agrees (status_at env j s.db.quotes) (status_of env j s.service.coordinator)
      → Agrees (status_at env j s.db.quotes) (
          status_of env j
            (Broker.request_quote env (swap_request env req) s.service w).1.coordinator)
  unfolding Broker.request_quote
  request_quote-Agrees req s w j new a =
      elim (create_quote-status s.service.config (swap_request env req) s.service.coordinator w j) [
        | inl same ↦ subst (Agrees (status_at env j s.db.quotes)) (sym same) a
        | inr (q, made, mine) ↦
            let absent = ap (λ i. status_at env i s.db.quotes) (sym mine) ∙ new q made in
            subst
              (λ x. Agrees x (
                status_of env j
                  (Broker.request_quote env (swap_request env req) s.service w).1.coordinator))
              (sym absent) (Agrees-none _)
      ]

  pub request_quote-IsBehind :
      (req : QuoteRequest) (s : AppState env) (w : env.World)
      → IsNew req s w
      → IsBehind env s
      → IsBehind env (request_quote env req s w).1
  request_quote-IsBehind req s w new h =
      request_quote-Inv env (IsBehind env) (IsBehind-keeps env) req s w
        (on_broker-IsBehind env (Broker.request_quote env (swap_request env req)) s w
          (λ j a. request_quote-Agrees req s w j new a) h)
        λ row s1 w' is_pending h1.
          on_db-IsBehind env (create_quote env row) s1 w'
            (λ j a. elim (create_quote-cases env row j s1.db w') [
              | inl same ↦
                  subst (λ x. Agrees x (status_of env j s1.service.coordinator)) (sym same) a
              | inr fresh ↦ Agrees-pending _ _ (fresh ∙ ap some is_pending)
            ])
            h1
