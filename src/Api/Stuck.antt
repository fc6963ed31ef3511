-- ===== src/Api/Stuck.antt =====
-- A quote that the coordinator has accepted while the database still has it as pending, which is
-- what a handler leaves that failed between the two.
use atomic_mint_swap.Base.{
  String, ◌≡◌, ◌≢◌, sym, subst, ap, ◌∙◌, inl, inr, none, some, List, [], ◌∷◌,
}
use atomic_mint_swap.Effect.{ok}
use atomic_mint_swap.Effect.Invariant.{convert-state}
use atomic_mint_swap.Env.{Env, Bytes}
use atomic_mint_swap.Types.Status.{SwapStatus, pending, accepted, completed, to_string}
use atomic_mint_swap.Swap.Lifecycle.{status_of, prepare_swap-status}
use atomic_mint_swap.Swap.Completed.{complete_swap-status}
use atomic_mint_swap.Broker.{Broker, Brokered}
use atomic_mint_swap.Broker
use atomic_mint_swap.Database.Rows.{Stored}
use atomic_mint_swap.Database.Quotes.{create_quote, update_quote_status}
use atomic_mint_swap.Database.Lookups.{status_at}
use atomic_mint_swap.Database.Changes.{create_quote-cases, update_quote_status-cases}
use atomic_mint_swap.Api.Types.{
  AppState, AcceptQuoteRequest, AcceptQuoteResponse, CompleteQuoteRequest, CompleteQuoteResponse,
  broker, on_broker, on_db,
}
use atomic_mint_swap.Api.Handlers.{accept_quote, complete_quote, swap_request}
use atomic_mint_swap.Api.Agreement.{accept_quote-Accepts}
use atomic_mint_swap.Api.Completion.{complete_quote-Finishes}
use atomic_mint_swap.Api.Invariant.{seen, accept_quote-Inv, complete_quote-Inv, request_quote-Inv}
use atomic_mint_swap.Api.Behind.Offer.{create_quote-status}
use atomic_mint_swap.Api.Behind.Serve.{
  Request, quote, accept, complete, serve, serve_all, ChoosesNew,
}

module _ (env : Env) where
  pub record IsStuck (id : String) (s : AppState env) : Type 0 where
    pub stored : status_at env id s.db.quotes ≡ some (to_string pending)
    pub held : status_of env id s.service.coordinator ≡ some accepted

  module _ (id : String) where
    IsStuck-keeps : (s s' : AppState env) → seen env s' ≡ seen env s → IsStuck id s → IsStuck id s'
    IsStuck-keeps s s' same h = record {
      stored = ap (λ p. status_at env id p.1) same ∙ h.stored;
      held = ap (λ p. status_of env id p.0.coordinator) same ∙ h.held;
    }

    on_broker-IsStuck :
        {A : Type 0} (m : Brokered env A) (s : AppState env) (w : env.World)
        → status_of env id (m s.service w).1.coordinator ≡ status_of env id s.service.coordinator
        → IsStuck id s
        → IsStuck id (on_broker env m s w).1
    on_broker-IsStuck m s w same h =
        let after : AppState env = record s { service = (m s.service w).1 } in
        let stuck : IsStuck id after = record { stored = h.stored; held = same ∙ h.held } in
        subst (IsStuck id)
          (sym (convert-state broker ((m s.service w).0, after, (m s.service w).2))) stuck

    on_db-IsStuck :
        {A : Type 0} (m : Stored env A) (s : AppState env) (w : env.World)
        → status_at env id (m s.db w).1.quotes ≡ some (to_string pending)
        → IsStuck id s
        → IsStuck id (on_db env m s w).1
    on_db-IsStuck m s w still h =
        let after : AppState env = record s { db = (m s.db w).1 } in
        let stuck : IsStuck id after = record { stored = still; held = h.held } in
        subst (IsStuck id) (sym (convert-state broker ((m s.db w).0, after, (m s.db w).2))) stuck

    update-IsStuck :
        (j : String) (st : SwapStatus) (s : AppState env) (w : env.World)
        → j ≢ id
        → IsStuck id s
        → IsStuck id (on_db env (update_quote_status env j st none) s w).1
    update-IsStuck j st s w other h =
        on_db-IsStuck (update_quote_status env j st none) s w
          (elim (update_quote_status-cases env j id st none s.db w) [
            | inl same ↦ same ∙ h.stored
            | inr (mine, now) ↦ absurd (other (sym mine))
          ])
          h

    -- `prepare_swap` and `complete_swap` of another quote, or of this one, which they refuse.
    broker_accept-same :
        (j : String) (pk : Bytes) (b : Broker env) (w : env.World)
        → status_of env id b.coordinator ≡ some accepted
        → status_of env id (Broker.accept_quote env j pk b w).1.coordinator
          ≡ status_of env id b.coordinator
    unfolding Broker.accept_quote
    broker_accept-same j pk b w held = elim (prepare_swap-status env j id pk b.coordinator w) [
      | inl same ↦ same
      | inr (mine, was, now) ↦ absurd (cc)
    ]

    broker_complete-same :
        (j : String) (ps : List env.cdk.Proof) (b : Broker env) (w : env.World)
        → j ≢ id
        → status_of env id (Broker.complete_swap env j ps b w).1.coordinator
          ≡ status_of env id b.coordinator
    unfolding Broker.complete_swap
    broker_complete-same j ps b w other = elim (complete_swap-status env j id ps b.coordinator w) [
      | inl same ↦ same
      | inr (mine, was, now) ↦ absurd (other (sym mine))
    ]

    serve-IsStuck :
        (r : Request) (s : AppState env) (w : env.World)
        → ChoosesNew env (r ∷ []) s w
        → IsStuck id s
        → IsStuck id (serve env r s w).0
    unfolding serve Broker.request_quote to_string
    serve-IsStuck (quote req) s w new h =
        request_quote-Inv env (IsStuck id) IsStuck-keeps req s w
          (on_broker-IsStuck (Broker.request_quote env (swap_request env req)) s w
            (elim (create_quote-status env s.service.config (swap_request env req)
              s.service.coordinator w id) [
                | inl same ↦ same
                | inr (q, made, mine) ↦
                    let absent = new.0 q made in
                    let there = ap (λ i. status_at env i s.db.quotes) mine ∙ h.stored in absurd (cc)
              ])
            h)
          λ row s1 w' is_pending h1.
            on_db-IsStuck (create_quote env row) s1 w'
              (elim (create_quote-cases env row id s1.db w') [
                | inl same ↦ same ∙ h1.stored
                | inr fresh ↦ fresh ∙ ap some is_pending
              ])
              h1
    serve-IsStuck (accept j req) s w new h =
        accept_quote-Inv env (IsStuck id) IsStuck-keeps j req s w h
          (λ pk w'.
            on_broker-IsStuck (Broker.accept_quote env j pk) s w'
              (broker_accept-same j pk s.service w' h.held) h)
          λ s1 w' was now h1.
            update-IsStuck j accepted s1 w'
              (λ same.
                let mine = ap (λ i. status_of env i s.service.coordinator) same ∙ h.held in
                absurd (cc))
              h1
    serve-IsStuck (complete j req) s w new h =
        let other : status_at env j s.db.quotes ≡ some (to_string accepted) → j ≢ id =
          λ stored same.
            let mine = ap (λ i. status_at env i s.db.quotes) same ∙ h.stored in absurd (cc) in
        complete_quote-Inv env (IsStuck id) IsStuck-keeps j req s w h
          (λ ps w' stored.
            on_broker-IsStuck (Broker.complete_swap env j ps) s w'
              (broker_complete-same j ps s.service w' (other stored)) h)
          λ s1 w' stored now h1. update-IsStuck j completed s1 w' (other stored) h1

  serve_all-IsStuck :
      (id : String) (rs : List Request) (s : AppState env) (w : env.World)
      → ChoosesNew env rs s w
      → IsStuck id s
      → IsStuck id (serve_all env rs s w).0
  unfolding serve_all
  serve_all-IsStuck id [] s w new h = h
  serve_all-IsStuck id (quote req ∷ rs) s w new h =
      serve_all-IsStuck id rs _ _ new.1 (serve-IsStuck id (quote req) s w (new.0, tt) h)
  serve_all-IsStuck id (accept j req ∷ rs) s w new h =
      serve_all-IsStuck id rs _ _ new (serve-IsStuck id (accept j req) s w tt h)
  serve_all-IsStuck id (complete j req ∷ rs) s w new h =
      serve_all-IsStuck id rs _ _ new (serve-IsStuck id (complete j req) s w tt h)

  -- A quote that the coordinator has accepted while the database has it as pending is stuck: after
  -- any sequence of requests, in which the coordinator chooses no id that the database already has
  -- for a new quote, it can be neither accepted nor completed.
  pub serve_all-stuck :
      (id : String) (rs : List Request) (s : AppState env) (w w' : env.World)
      → ChoosesNew env rs s w
      → IsStuck id s
      → ((req : AcceptQuoteRequest) (r : AcceptQuoteResponse)
          → (accept_quote env id req (serve_all env rs s w).0 w').0 ≢ ok r)
        × ((req : CompleteQuoteRequest) (r : CompleteQuoteResponse)
            → (complete_quote env id req (serve_all env rs s w).0 w').0 ≢ ok r)
  unfolding to_string
  serve_all-stuck id rs s w w' new h =
      let s' = (serve_all env rs s w).0 in
      let stuck : IsStuck id s' = serve_all-IsStuck id rs s w new h in
      (
        λ req r went.
            let was_pending = (accept_quote-Accepts env id req s' w' r went).was_pending in
            let held = stuck.held in absurd (cc),
        λ req r went.
            let was_stored = (complete_quote-Finishes env id req s' w' r went).was_stored in
            let stored = stuck.stored in absurd (cc),
      )
