-- ===== src/Api/Tasks/Segments.antt =====
-- What each segment of a handler leaves alone, and what it has done where it goes on.
use Prim.Native.String.{◌++◌}
use atomic_mint_swap.Base.{String, ◌≡◌, refl, ap, subst, some, ◌∙◌, List}
use atomic_mint_swap.Base.Word.{as_i64}
use atomic_mint_swap.Effect.{ok, or_panic, or_fail}
use atomic_mint_swap.Effect.Frame.{Keeps, keeps_rules, Keeps-or_fail, Keeps-or_panic}
use atomic_mint_swap.Effect.Success.{Post, Post-proceed, Post-value, Post-state, convert-eq-ok}
use atomic_mint_swap.Effect.Invariant.{Inv-proceed}
use atomic_mint_swap.Env.{Env, Bytes}
use atomic_mint_swap.Types.{SwapQuote}
use atomic_mint_swap.Types.Status.{pending, accepted, completed, to_string}
use atomic_mint_swap.Swap.Lifecycle.{status_of}
use atomic_mint_swap.Broker
use atomic_mint_swap.Database.Rows.{QuoteRecord, SwapRecord}
use atomic_mint_swap.Database.Quotes.{create_quote}
use atomic_mint_swap.Api.Types.{
  AppState, QuoteRequest, AcceptQuoteRequest, CompleteQuoteRequest, internal, broker, on_broker,
  on_db,
}
use atomic_mint_swap.Api.Handlers.{swap_request, quote_record}
use atomic_mint_swap.Api.Calls.{load_quote-reads, client_key-reads, get_swap_by_quote-reads}
use atomic_mint_swap.Api.Agreement.{accept_quote-eq-ok}
use atomic_mint_swap.Api.Completion.{complete_swap-eq-ok}
use atomic_mint_swap.Api.Invariant.{seen, create_swap-Keeps, complete_swap-Keeps}
use atomic_mint_swap.Api.Tasks.{
  ask, insert_quote, load_pending, pay, add_swap, load_accepted, find_stored_swap, finish_swap,
}

module _ (env : Env) where
  pub load_pending-Keeps :
      (id : String) (req : AcceptQuoteRequest) → Keeps (seen env) (load_pending env id req)
  unfolding load_pending
  load_pending-Keeps id req = search (keeps_rules, load_quote-reads, client_key-reads)

  pub load_accepted-Keeps :
      (id : String) (req : CompleteQuoteRequest) → Keeps (seen env) (load_accepted env id req)
  unfolding load_accepted
  load_accepted-Keeps id req = search (keeps_rules, load_quote-reads)

  pub find_stored_swap-Keeps : (id : String) → Keeps (seen env) (find_stored_swap env id)
  unfolding find_stored_swap
  find_stored_swap-Keeps id = search (keeps_rules, get_swap_by_quote-reads)

  pub add_swap-Keeps :
      (id : String) (req : AcceptQuoteRequest) (q : QuoteRecord env) (tp : String)
      → Keeps (seen env) (add_swap env id req q tp)
  unfolding add_swap
  add_swap-Keeps id req q tp = search (keeps_rules, create_swap-Keeps)

  pub finish_swap-Keeps :
      (req : CompleteQuoteRequest) (q : QuoteRecord env) (sw : SwapRecord)
      → Keeps (seen env) (finish_swap env req q sw)
  unfolding finish_swap
  finish_swap-Keeps req q sw = search (keeps_rules, complete_swap-Keeps)

  -- The state after `ask` is that after its call of the broker, and likewise below.
  pub ask-state :
      (req : QuoteRequest) (s : AppState env) (w : env.World)
      → (ask env req s w).1
        ≡ (on_broker env (Broker.request_quote env (swap_request env req)) s w).1
  unfolding ask
  ask-state req s w =
      let call = on_broker env (Broker.request_quote env (swap_request env req)) s w in
      Inv-proceed (λ x. x ≡ call.1) _ call refl
        λ q s1 w1 e p.
          let (created_at, w2) = env.host.utc_now w1 in
          let (due, w3) = env.host.utc_after (as_i64 q.expires_in) w2 in
          Inv-proceed (λ x. x ≡ call.1) _ (or_panic due s1 w3)
            ((Keeps-or_panic (λ x. x) due).at s1 w3 ∙ p) λ expires_at s2 w4 e2 p2. p2

  pub ask-pending :
      (req : QuoteRequest) (s : AppState env) (w : env.World) (r : SwapQuote env × QuoteRecord env)
      → (ask env req s w).0 ≡ ok r
      → r.1.status ≡ to_string pending
  unfolding ask quote_record
  ask-pending req s w r e =
      let Q : SwapQuote env × QuoteRecord env → AppState env → env.World → Type 0 =
        λ r s w. r.1.status ≡ to_string pending in
      let call = on_broker env (Broker.request_quote env (swap_request env req)) s w in
      let whole : Post Q (ask env req s w) = Post-proceed Q _ call λ q s1 w1 e1.
        let (created_at, w2) = env.host.utc_now w1 in
        let (due, w3) = env.host.utc_after (as_i64 q.expires_in) w2 in
        Post-proceed Q _ (or_panic due s1 w3) λ expires_at s2 w4 e2. refl in
      Post-value Q (ask env req s w) r whole e

  pub insert_quote-state :
      (q : SwapQuote env) (row : QuoteRecord env) (s : AppState env) (w : env.World)
      → (insert_quote env q row s w).1 ≡ (on_db env (create_quote env row) s w).1
  unfolding insert_quote
  insert_quote-state q row s w =
      let call = on_db env (create_quote env row) s w in
      Inv-proceed (λ x. x ≡ call.1) _ call refl λ a s1 w1 e p. p

  pub pay-state :
      (id : String) (pk : Bytes) (s : AppState env) (w : env.World)
      → (pay env id pk s w).1 ≡ (on_broker env (Broker.accept_quote env id pk) s w).1
  unfolding pay
  pay-state id pk s w =
      let call = on_broker env (Broker.accept_quote env id pk) s w in
      Inv-proceed (λ x. x ≡ call.1) _ call refl
        λ ps s1 w1 e p.
          (Keeps-or_fail (λ x. x) (λ e. internal ("Failed to serialize target proofs: " ++ e))
              (env.host.proofs_to_json ps)).at
            s1 w1
          ∙ p

  pub pay-accepted :
      (id : String) (pk : Bytes) (s s' : AppState env) (w w' : env.World) (tp : String)
      → pay env id pk s w ≡ (ok tp, s', w')
      → (status_of env id s.service.coordinator ≡ some pending)
        × (status_of env id s'.service.coordinator ≡ some accepted)
  unfolding pay
  pay-accepted id pk s s' w w' tp e =
      let Q : String → AppState env → env.World → Type 0 = λ tp s1 w1.
        (status_of env id s.service.coordinator ≡ some pending)
        × (status_of env id s1.service.coordinator ≡ some accepted) in
      let call = on_broker env (Broker.accept_quote env id pk) s w in
      let whole : Post Q (pay env id pk s w) = Post-proceed Q _ call λ ps s1 w1 e1.
        let called = convert-eq-ok broker _ ps s1 w1 e1 in
        let moved =
          accept_quote-eq-ok env id pk s.service s1.service w w1 ps
            (ap (λ r. (r.0, r.1.service, r.2)) called) in
        let encoded =
          or_fail (λ e. internal ("Failed to serialize target proofs: " ++ e))
            (env.host.proofs_to_json ps) s1 w1 in
        Post-state
          (λ (x : AppState env).
            (status_of env id s.service.coordinator ≡ some pending)
            × (status_of env id x.service.coordinator ≡ some accepted))
          s1 encoded ((Keeps-or_fail (λ x. x) _ _).at s1 w1) moved in
      subst (Post Q) e whole

  pub claim-completed :
      (id : String) (ps : List env.cdk.Proof) (s s' : AppState env) (w w' : env.World)
      → on_broker env (Broker.complete_swap env id ps) s w ≡ (ok tt, s', w')
      → status_of env id s'.service.coordinator ≡ some completed
  claim-completed id ps s s' w w' e =
      let called = convert-eq-ok broker _ tt s' w' e in
      (complete_swap-eq-ok env id ps s.service s'.service w w'
        (ap (λ r. (r.0, r.1.service, r.2)) called)).1
