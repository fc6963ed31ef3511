-- ===== src/Api/Tasks/Behind.antt =====
-- What a step of a handler keeps, for the quotes of the other handlers too.
pub mod Steps
pub mod Interleaved
pub mod Payouts
use mathlib.Core.Option
use atomic_mint_swap.Base.{
  String, ◌≡◌, refl, sym, subst, ap, ◌∙◌, ◌⊎◌, inl, inr, Option, none, some, List, ◌∷◌, ◌++◌, All,
  All-mono, All-middle, All-insert, arith,
}
use atomic_mint_swap.Effect.{Outcome, ok, err, panic}
use atomic_mint_swap.Effect.Frame.{Keeps}
use atomic_mint_swap.Effect.Invariant.{convert-state}
use atomic_mint_swap.Env.{Env}
use atomic_mint_swap.Types.{SwapQuote}
use atomic_mint_swap.Types.Status.{SwapStatus, pending, accepted, completed, to_string}
use atomic_mint_swap.Swap.Lifecycle.{status_of}
use atomic_mint_swap.Swap.Quote.{Coordinator}
use atomic_mint_swap.Broker.{Broker, Brokered}
use atomic_mint_swap.Broker
use atomic_mint_swap.Database.Rows.{Stored}
use atomic_mint_swap.Database.Quotes.{create_quote, update_quote_status}
use atomic_mint_swap.Database.Lookups.{status_at}
use atomic_mint_swap.Database.Changes.{create_quote-cases}
use atomic_mint_swap.Api.Types.{ApiError, AppState, Handler, QuoteRequest, broker, on_broker, on_db}
use atomic_mint_swap.Api.Handlers.{swap_request}
use atomic_mint_swap.Api.Invariant.{seen}
use atomic_mint_swap.Api.Behind.{
  Agrees, Agrees-absent, Agrees-accepted, Agrees-completed, Agrees-pending, Advances, IsPaid,
  IsBehind, IsBehind-keeps, on_broker-IsBehind, on_db-IsBehind, update_quote_status-IsBehind,
  accept_quote-Advances, complete_swap-Advances, accept_quote-Agrees, complete_swap-Agrees,
}
use atomic_mint_swap.Api.Behind.Offer.{create_quote-status}
use atomic_mint_swap.Api.Tasks.{
  Handling, asking, inserting, asked, accepting, paying, marking, adding, answered, completing,
  claiming, closing, finding, finishing, finished, ask, insert_quote, pay, Resumed, next, last,
  resume,
}
use atomic_mint_swap.Api.Tasks.Segments.{
  load_pending-Keeps, load_accepted-Keeps, find_stored_swap-Keeps, add_swap-Keeps,
  finish_swap-Keeps, ask-state, ask-pending, insert_quote-state, pay-state, pay-accepted,
  claim-completed,
}
use atomic_mint_swap.Api.Tasks.Runs.{Service, Move, move, Run, start, then_move}

module _ (env : Env) where
  -- What a handler has seen of its quote when it comes to change it in the database.
  abbrev pub Saw : Handling env → Coordinator env → Type 0
  Saw (inserting q row) c = row.status ≡ to_string pending
  Saw (marking id req row tp) c = IsPaid (status_of env id c)
  Saw (closing id req row) c = status_of env id c ≡ some completed
  Saw _ c = Unit

  -- What is paid out stays so, and what is completed stays so.
  pub record Forward (c c' : Coordinator env) : Type 0 where
    pub paid : (id : String) → IsPaid (status_of env id c) → IsPaid (status_of env id c')
    pub closed :
        (id : String) → status_of env id c ≡ some completed → status_of env id c' ≡ some completed

  pub Saw-Forward : (t : Handling env) (c c' : Coordinator env) → Forward c c' → Saw t c → Saw t c'
  Saw-Forward (inserting q row) c c' f h = h
  Saw-Forward (marking id req row tp) c c' f h = f.paid id h
  Saw-Forward (closing id req row) c c' f h = f.closed id h
  Saw-Forward _ c c' f h = tt

  Forward-same : (c c' : Coordinator env) → c' ≡ c → Forward c c'
  Forward-same c c' e = record {
    paid = λ id h. subst (λ x. IsPaid (status_of env id x)) (sym e) h;
    closed = λ id h. ap (status_of env id) e ∙ h;
  }

  Advances-IsPaid : (h h' : Option SwapStatus) → Advances h h' → IsPaid h → IsPaid h'
  Advances-IsPaid h h' (inl same) p = subst IsPaid (sym same) p
  Advances-IsPaid h h' (inr (inl (was, now))) p = inl now
  Advances-IsPaid h h' (inr (inr now)) p = inr now

  Advances-closed :
      (h h' : Option SwapStatus) → Advances h h' → h ≡ some completed → h' ≡ some completed
  Advances-closed h h' (inl same) e = same ∙ e
  Advances-closed h h' (inr (inl (was, now))) e = absurd (cc)
  Advances-closed h h' (inr (inr now)) e = now

  pub Forward-Advances :
      (c c' : Coordinator env)
      → ((id : String) → Advances (status_of env id c) (status_of env id c'))
      → Forward c c'
  Forward-Advances c c' h = record {
    paid = λ id. Advances-IsPaid _ _ (h id);
    closed = λ id. Advances-closed _ _ (h id);
  }

  -- A step, or a part of one: the state stays behind, and nothing is taken back.
  pub record Sound (s s' : AppState env) : Type 0 where
    pub behind : IsBehind env s'
    pub forward : Forward s.service.coordinator s'.service.coordinator

  pub Sound-Keeps :
      {A : Type 0} (m : Handler env A) (s : AppState env) (w : env.World)
      → Keeps (seen env) m
      → IsBehind env s
      → Sound s (m s w).1
  Sound-Keeps m s w k h =
      let same = k.at s w in
      record {
        behind = IsBehind-keeps env s _ same h;
        forward = Forward-same _ _ (ap (λ p. p.0.coordinator) same);
      }

  pub Sound-on_db :
      {A : Type 0} (m : Stored env A) (s : AppState env) (w : env.World)
      → IsBehind env (on_db env m s w).1
      → Sound s (on_db env m s w).1
  Sound-on_db m s w h =
      let r = m s.db w in
      let after : AppState env = record s { db = r.1 } in
      record {
        behind = h;
        forward = Forward-same _ _ (
            ap (λ (x : AppState env). x.service.coordinator)
              (convert-state broker (r.0, after, r.2)));
      }

  pub Sound-on_broker :
      {A : Type 0} (m : Brokered env A) (s : AppState env) (w : env.World)
      → IsBehind env (on_broker env m s w).1
      → Forward s.service.coordinator (m s.service w).1.coordinator
      → Sound s (on_broker env m s w).1
  Sound-on_broker m s w h f =
      let r = m s.service w in
      let after : AppState env = record s { service = r.1 } in
      record {
        behind = h;
        forward =
            subst (λ (x : AppState env). Forward s.service.coordinator x.service.coordinator)
              (sym (convert-state broker (r.0, after, r.2))) f;
      }

  -- The coordinator chooses no id for a new quote that it already holds.
  abbrev pub ChoosesFresh : Handling env → AppState env → env.World → Type 0
  ChoosesFresh (asking req) s w =
      (q : SwapQuote env)
      → (Broker.request_quote env (swap_request env req) s.service w).0 ≡ ok q
      → status_of env q.quote_id s.service.coordinator ≡ none
  ChoosesFresh _ s w = Unit

  -- A new quote, or none: every other one keeps its status.
  module _ (req : QuoteRequest) (s : AppState env) (w : env.World)
      (fresh : ChoosesFresh (asking req) s w) where
    request_quote-status :
        (j : String)
        → (status_of env j
              (Broker.request_quote env (swap_request env req) s.service w).1.coordinator
            ≡ status_of env j s.service.coordinator)
          ⊎ (status_of env j s.service.coordinator ≡ none)
    unfolding Broker.request_quote
    request_quote-status j =
        elim (create_quote-status env s.service.config (swap_request env req) s.service.coordinator
          w j) [
            | inl same ↦ inl same
            | inr (q, made, mine) ↦
                inr (ap (λ i. status_of env i s.service.coordinator) (sym mine) ∙ fresh q made)
          ]

    request_quote-Forward :
        Forward s.service.coordinator
          (Broker.request_quote env (swap_request env req) s.service w).1.coordinator
    request_quote-Forward = record {
      paid = λ id p. elim (request_quote-status id) [
        | inl same ↦ subst IsPaid (sym same) p
        | inr absent ↦ absurd (unpaid _ absent p)
      ];
      closed =
          λ id e. elim (request_quote-status id) [ inl same ↦ same ∙ e | inr absent ↦ absurd (cc) ];
    }
      where
        unpaid : (h : Option SwapStatus) → h ≡ none → IsPaid h → ⊥
        unpaid h e (inl p) = cc
        unpaid h e (inr p) = cc

    pub request_quote-Sound :
        IsBehind env s
        → Sound s (on_broker env (Broker.request_quote env (swap_request env req)) s w).1
    request_quote-Sound h =
        let call = Broker.request_quote env (swap_request env req) in
        Sound-on_broker call s w
          (on_broker-IsBehind env call s w
            (λ j a. elim (request_quote-status j) [
              | inl same ↦ subst (Agrees (status_at env j s.db.quotes)) (sym same) a
              | inr absent ↦ Agrees-absent _ _ _ absent a
            ])
            h)
          request_quote-Forward
