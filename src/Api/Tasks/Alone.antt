-- ===== src/Api/Tasks/Alone.antt =====
-- A handler with no other beside it does what it does as one action.
use Prim.Native.String.{◌++◌}
use atomic_mint_swap.Base.{ℕ, zero, suc, String, ◌≡◌, refl, ap, ◌∙◌, not, none, some, List, ◌==◌}
use atomic_mint_swap.Base.Word.{as_i64}
use atomic_mint_swap.Effect.{
  Outcome, ok, err, panic, Action, proceed, raise_if, or_fail, or_panic, ◌>>=◌,
}
use atomic_mint_swap.Env.{Env, Bytes}
use atomic_mint_swap.Types.Status.{pending, accepted, completed, to_string}
use atomic_mint_swap.Types.{SwapQuote}
use atomic_mint_swap.Broker
use atomic_mint_swap.Database.Rows.{QuoteRecord}
use atomic_mint_swap.Database.Quotes.{update_quote_status}
use atomic_mint_swap.Database.Swaps.{get_swap_by_quote}
use atomic_mint_swap.Api.Types.{
  ApiError, AppState, QuoteRequest, AcceptQuoteRequest, AcceptQuoteResponse, CompleteQuoteRequest,
  CompleteQuoteResponse, bad_request, on_broker, on_db,
}
use atomic_mint_swap.Api.Handlers.{
  request_quote, accept_quote, complete_quote, store_accepted, store_completed, load_quote,
  client_key, bad_status, swap_request,
}
use atomic_mint_swap.Api.Tasks.{
  Handling, asking, inserting, asked, accepting, paying, marking, adding, answered, completing,
  claiming, closing, finding, finishing, finished, ask, insert_quote, load_pending, pay, add_swap,
  load_accepted, find_stored_swap, finish_swap, Resumed, next, resume,
}

-- A segment is regrouped step by step.
regroup :
    {W S E A B C : Type 0} (j : C → Action W S E A) (k : A → Action W S E B)
    (k' : C → Action W S E B) (r : Outcome E C × S × W)
    → ((c : C) (s : S) (w : W) → proceed k (j c s w) ≡ k' c s w)
    → proceed k (proceed j r) ≡ proceed k' r
regroup j k k' (ok c, s, w) h = h c s w
regroup j k k' (err e, s, w) h = refl
regroup j k k' (panic, s, w) h = refl

regroup_last :
    {W S E B C : Type 0} (k k' : C → Action W S E B) (r : Outcome E C × S × W)
    → ((c : C) (s : S) (w : W) → k c s w ≡ k' c s w)
    → proceed k r ≡ proceed k' r
regroup_last k k' (ok c, s, w) h = h c s w
regroup_last k k' (err e, s, w) h = refl
regroup_last k k' (panic, s, w) h = refl

module _ (env : Env) where
  -- Up to `n` steps of a handler that runs alone.
  abbrev pub run_alone : ℕ → Resumed env → Resumed env
  run_alone zero m = m
  run_alone (suc n) (t, s, w) = elim (resume env t s w) [
    | none ↦ (t, s, w)
    | some m ↦ run_alone n m
  ]

  -- An outcome as the end of a handler.
  abbrev pub ended :
      {A : Type 0}
      → (Outcome ApiError A → Handling env)
      → Outcome ApiError A × AppState env × env.World
      → Resumed env
  ended stop (o, s, w) = (stop o, s, w)

  run_next :
      {A B : Type 0} (n : ℕ) (go : A → Handling env) (stop : Outcome ApiError B → Handling env)
      (k : A → Action env.World (AppState env) ApiError B)
      (r : Outcome ApiError A × AppState env × env.World)
      → ((o : Outcome ApiError B) (s : AppState env) (w : env.World)
          → run_alone n (stop o, s, w) ≡ (stop o, s, w))
      → ((a : A) (s : AppState env) (w : env.World)
          → run_alone n (go a, s, w) ≡ ended stop (k a s w))
      → run_alone n (next env go stop r) ≡ ended stop (proceed k r)
  run_next n go stop k (ok a, s, w) halts h = h a s w
  run_next n go stop k (err e, s, w) halts h = halts (err e) s w
  run_next n go stop k (panic, s, w) halts h = halts panic s w

  request_quote-alone :
      (req : QuoteRequest) (s : AppState env) (w : env.World)
      → run_alone 2 (asking req, s, w) ≡ ended asked (request_quote env req s w)
  unfolding resume request_quote ask insert_quote
  request_quote-alone req s w =
      let k : SwapQuote env × QuoteRecord env
          → Action env.World (AppState env) ApiError (SwapQuote env) =
        λ r. insert_quote env r.0 r.1 in
      run_next 1 (λ r. inserting r.0 r.1) asked k (ask env req s w) (λ o s w. refl) (λ r s w. refl)
      ∙ ap (ended asked) (
          regroup _ k _ (on_broker env (Broker.request_quote env (swap_request env req)) s w)
            λ q s1 w1.
              let (created_at, w2) = env.host.utc_now w1 in
              let (due, w3) = env.host.utc_after (as_i64 q.expires_in) w2 in
              regroup _ k _ (or_panic due s1 w3) λ expires_at s w. refl)

  marking_alone :
      (id : String) (req : AcceptQuoteRequest) (q : QuoteRecord env) (tp : String)
      (s : AppState env) (w : env.World)
      → run_alone 2 (marking id req q tp, s, w)
        ≡ ended answered (store_accepted env id req q tp s w)
  unfolding resume store_accepted add_swap
  marking_alone id req q tp s w =
      run_next 1 (λ _. adding id req q tp) answered (λ _. add_swap env id req q tp)
        (on_db env (update_quote_status env id accepted none) s w) (λ o s w. refl) (λ a s w. refl)

  accept_quote-alone :
      (id : String) (req : AcceptQuoteRequest) (s : AppState env) (w : env.World)
      → run_alone 4 (accepting id req, s, w) ≡ ended answered (accept_quote env id req s w)
  unfolding resume accept_quote load_pending pay
  accept_quote-alone id req s w =
      let stored : QuoteRecord env
          → String
          → Action env.World (AppState env) ApiError AcceptQuoteResponse =
        λ q tp. store_accepted env id req q tp in
      let k : QuoteRecord env × Bytes
          → Action env.World (AppState env) ApiError AcceptQuoteResponse =
        λ r. pay env id r.1 >>= stored r.0 in
      run_next 3 (λ r. paying id req r.0 r.1) answered k (load_pending env id req s w)
        (λ o s w. refl)
        (λ r s w.
          run_next 2 (marking id req r.0) answered (stored r.0) (pay env id r.1 s w) (λ o s w. refl)
            (λ tp s w. marking_alone id req r.0 tp s w))
      ∙ ap (ended answered) (
          regroup _ k _ (load_quote env id s w) λ q s w.
            regroup _ k _
              (raise_if (not (q.status == to_string pending))
                (bad_status env id " is not pending" q.status) s w)
              λ u s w.
                regroup _ k _
                  (or_fail (λ e. bad_request ("Invalid source_proofs JSON: " ++ e))
                    (env.host.proofs_from_json req.source_proofs) s w)
                  λ sp s w. regroup _ k _ (client_key env q s w) λ pk s w.
                    regroup _ (stored q) _ (on_broker env (Broker.accept_quote env id pk) s w)
                      λ ps s w. refl)

  closing_alone :
      (id : String) (req : CompleteQuoteRequest) (q : QuoteRecord env) (s : AppState env)
      (w : env.World)
      → run_alone 3 (closing id req q, s, w) ≡ ended finished (store_completed env id req q s w)
  unfolding resume store_completed find_stored_swap finish_swap
  closing_alone id req q s w =
      let k : Unit {0} → Action env.World (AppState env) ApiError CompleteQuoteResponse =
        λ u. find_stored_swap env id >>= finish_swap env req q in
      run_next 2 (λ _. finding id req q) finished k
        (on_db env (update_quote_status env id completed none) s w) (λ o s w. refl)
        (λ u s w.
          run_next 1 (finishing req q) finished (finish_swap env req q)
            (find_stored_swap env id s w) (λ o s w. refl) (λ sw s w. refl))
      ∙ ap (ended finished) (
          regroup_last _ _ (on_db env (update_quote_status env id completed none) s w) λ u s w.
            regroup _ (finish_swap env req q) _ (on_db env (get_swap_by_quote env id) s w)
              λ found s w. refl)

  complete_quote-alone :
      (id : String) (req : CompleteQuoteRequest) (s : AppState env) (w : env.World)
      → run_alone 5 (completing id req, s, w) ≡ ended finished (complete_quote env id req s w)
  unfolding resume complete_quote load_accepted
  complete_quote-alone id req s w =
      let closed : QuoteRecord env
          → Unit {0}
          → Action env.World (AppState env) ApiError CompleteQuoteResponse =
        λ q u. store_completed env id req q in
      let k : QuoteRecord env × List env.cdk.Proof
          → Action env.World (AppState env) ApiError CompleteQuoteResponse =
        λ r. on_broker env (Broker.complete_swap env id r.1) >>= closed r.0 in
      run_next 4 (λ r. claiming id req r.0 r.1) finished k (load_accepted env id req s w)
        (λ o s w. refl)
        (λ r s w.
          run_next 3 (λ _. closing id req r.0) finished (closed r.0)
            (on_broker env (Broker.complete_swap env id r.1) s w) (λ o s w. refl)
            (λ u s w. closing_alone id req r.0 s w))
      ∙ ap (ended finished) (
          regroup _ k _ (load_quote env id s w) λ q s w.
            regroup _ k _
              (raise_if (not (q.status == to_string accepted))
                (bad_status env id " is not accepted" q.status) s w)
              λ u s w.
                regroup _ k _
                  (or_fail
                    (λ e. bad_request ("Invalid decrypted_signature JSON (expected Proofs): " ++ e))
                    (env.host.proofs_from_json req.decrypted_signature) s w)
                  λ ps s w. refl)

  -- With no other handler beside it, `request_quote` answers after two steps, `accept_quote` after
  -- at most four and `complete_quote` after at most five, each with the answer, the state and the
  -- world of the handler as one action.
  pub handlers-alone :
      (ask : QuoteRequest) (id : String) (accept : AcceptQuoteRequest)
      (complete : CompleteQuoteRequest) (s : AppState env) (w : env.World)
      → (run_alone 2 (asking ask, s, w) ≡ ended asked (request_quote env ask s w))
        × (run_alone 4 (accepting id accept, s, w)
            ≡ ended answered (accept_quote env id accept s w))
        × (run_alone 5 (completing id complete, s, w)
            ≡ ended finished (complete_quote env id complete s w))
  handlers-alone ask id accept complete s w = (
    request_quote-alone ask s w,
    accept_quote-alone id accept s w,
    complete_quote-alone id complete s w,
  )
