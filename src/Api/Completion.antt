-- ===== src/Api/Completion.antt =====
-- The database and the coordinator agree on a quote that `complete_quote` has completed.
use Prim.Native.String.{◌++◌}
use mathlib.Core.Option
use atomic_mint_swap.Base.{String, ◌≡◌, sym, ap, ◌∙◌, not, none, some, List, arith, eq_iff, ◌==◌}
use atomic_mint_swap.Base.Dict.{lookup-insert_self}
use atomic_mint_swap.Effect.{ok, ◌>>=◌, ◌>>◌, or_fail, or_raise, raise_if}
use atomic_mint_swap.Effect.Frame.{Keeps-or_fail, Keeps-raise_if, Keeps-or_raise}
use atomic_mint_swap.Effect.Success.{
  Post, Post-ok, Post-mono, Post-proceed, Post-reads, convert-eq-ok,
}
use atomic_mint_swap.Env.{Env}
use atomic_mint_swap.Types.Status.{SwapStatus, accepted, completed, to_string}
use atomic_mint_swap.Swap.Lifecycle.{status_of}
use atomic_mint_swap.Swap.Complete.{complete_swap-Completes}
use atomic_mint_swap.Swap.Execute.{with_status}
use atomic_mint_swap.Broker.{Broker, complete_swap}
use atomic_mint_swap.Database.Rows.{QuoteRecord}
use atomic_mint_swap.Database.Quotes.{find_quote, update_quote_status}
use atomic_mint_swap.Database.Swaps.{get_swap_by_quote}
use atomic_mint_swap.Database.Swaps
use atomic_mint_swap.Database.Lookups.{status_at}
use atomic_mint_swap.Api.Types.{
  AppState, CompleteQuoteRequest, CompleteQuoteResponse, bad_request, broker, on_broker, on_db,
}
use atomic_mint_swap.Api.Handlers.{
  store_completed, complete_quote, load_quote, bad_status, no_swap, or_empty,
}
use atomic_mint_swap.Api.Calls.{
  load_quote-reads, load_quote-eq-ok, get_swap_by_quote-reads, update_quote_status-eq-ok,
  complete_swap-quotes,
}

module _ (env : Env) where
  -- What has happened where `complete_quote` succeeded.
  pub record Finishes (id : String) (s s' : AppState env) : Type 0 where
    pub was_stored : status_at env id s.db.quotes ≡ some (to_string accepted)
    pub was_known : (st : SwapStatus) × (status_of env id s.service.coordinator ≡ some st)
    pub stored : status_at env id s'.db.quotes ≡ some (to_string completed)
    pub now_completed : status_of env id s'.service.coordinator ≡ some completed

  pub complete_swap-eq-ok :
      (id : String) (ps : List env.cdk.Proof) (b b' : Broker env) (w w' : env.World)
      → complete_swap env id ps b w ≡ (ok tt, b', w')
      → ((st : SwapStatus) × (status_of env id b.coordinator ≡ some st))
        × (status_of env id b'.coordinator ≡ some completed)
  unfolding complete_swap with_status
  complete_swap-eq-ok id ps b b' w w' e =
      let c = complete_swap-Completes env id ps b.coordinator w (ap (λ r. r.0) e) in
      let seen = lookup-insert_self id (with_status env completed c.q) b.coordinator.quotes in
      let after = ap (λ r. r.1.coordinator.quotes) (sym e) ∙ c.quotes_after in
      ((_, ap (Option.map (λ q. q.quote.status)) c.found), rw after (ground (arith, seen)))

  Stores : String → AppState env → AppState env → Type 0
  Stores id s s' =
      (s'.service ≡ s.service) × (status_at env id s'.db.quotes ≡ some (to_string completed))

  -- What is still to be stored once the broker has completed the swap.
  store_completed-Post :
      (id : String) (req : CompleteQuoteRequest) (q : QuoteRecord env) (s : AppState env)
      (w : env.World)
      → status_at env id s.db.quotes ≡ some (to_string accepted)
      → Post (λ r s' w'. Stores id s s') (store_completed env id req q s w)
  unfolding store_completed Stores
  store_completed-Post id req q s w h =
      let Q : CompleteQuoteResponse → AppState env → env.World → Type 0 =
        λ r s' w'. Stores id s s' in
      Post-proceed Q _ (on_db env (update_quote_status env id completed none) s w) λ a s' w' e.
        let called = convert-eq-ok broker _ tt s' w' e in
        let updated =
          update_quote_status-eq-ok env id completed none s.db s'.db w w'
            (ap (λ r. (r.0, r.1.db, r.2)) called) in
        Post-reads Q _ s' (on_db env (get_swap_by_quote env id) s' w')
          ((get_swap_by_quote-reads env (λ x. x) id).at s' w')
          λ found w1 e1.
            Post-reads Q _ s' (or_raise found (no_swap env id) s' w1)
              ((Keeps-or_raise (λ x. x) _ _).at s' w1)
              λ sw w2 e2.
                let target = or_empty env sw.target_proofs in
                let finish =
                  Swaps.complete_swap env sw.id target (some req.decrypted_signature)
                    (some q.adaptor_point) in
                Post-proceed Q _ (on_db env finish s' w2) λ b s2 w3 e3.
                  let called2 = convert-eq-ok broker _ tt s2 w3 e3 in
                  let kept =
                    complete_swap-quotes env sw.id target (some req.decrypted_signature)
                      (some q.adaptor_point) s'.db s2.db w2 w3
                      (ap (λ r. (r.0, r.1.db, r.2)) called2) in
                  (
                    ap (λ r. r.1.service) (sym called2) ∙ ap (λ r. r.1.service) (sym called),
                    ap (status_at env id) kept
                        ∙ updated
                        ∙ ap (Option.map (λ x. to_string completed)) h,
                  )

  -- `complete_quote` after the quote is loaded.
  complete_loaded :
      (id : String) (req : CompleteQuoteRequest) (s : AppState env) (w : env.World)
      (q : QuoteRecord env)
      → find_quote env id s.db.quotes ≡ some q
      → Post
          (λ r s' w'. Finishes id s s')
          ((do
            raise_if
                (not (q.status == to_string accepted))
                (bad_status env id " is not accepted" q.status)
            client_proofs ←
                or_fail
                  (λ e. bad_request ("Invalid decrypted_signature JSON (expected Proofs): " ++ e))
                  (env.host.proofs_from_json req.decrypted_signature)
            on_broker env (complete_swap env id client_proofs)
            store_completed env id req q)
            s w)
  unfolding Stores
  complete_loaded id req s w q at =
      let Q : CompleteQuoteResponse → AppState env → env.World → Type 0 =
        λ r s' w'. Finishes id s s' in
      let check =
        raise_if (not (q.status == to_string accepted))
          (bad_status env id " is not accepted" q.status) s w in
      Post-reads Q _ s check ((Keeps-raise_if (λ x. x) _ _).at s w) λ a w1 passed.
        let is_accepted : q.status ≡ to_string accepted =
          ground (arith, eq_iff q.status (to_string accepted)) in
        let before : status_at env id s.db.quotes ≡ some (to_string accepted) =
          ground (arith, at, is_accepted) in
        let parsed =
          or_fail (λ e. bad_request ("Invalid decrypted_signature JSON (expected Proofs): " ++ e))
            (env.host.proofs_from_json req.decrypted_signature) s w1 in
        Post-reads Q _ s parsed ((Keeps-or_fail (λ x. x) _ _).at s w1) λ ps w2 e2.
          Post-proceed Q _ (on_broker env (complete_swap env id ps) s w2) λ b s1 w3 e3.
            let called = convert-eq-ok broker _ tt s1 w3 e3 in
            let moved =
              complete_swap-eq-ok id ps s.service s1.service w2 w3
                (ap (λ r. (r.0, r.1.service, r.2)) called) in
            let db : s1.db ≡ s.db = ap (λ r. r.1.db) (sym called) in
            Post-mono _ Q (store_completed env id req q s1 w3)
              (λ r s2 w4 k. record {
                was_stored = before;
                was_known = moved.0;
                stored = k.1;
                now_completed =
                    ap (λ (b : Broker env). status_of env id b.coordinator) k.0 ∙ moved.1;
              })
              (store_completed-Post id req q s1 w3
                (ap (λ t. status_at env id t.quotes) db ∙ before))

  -- Where `complete_quote` succeeds, the coordinator knew the quote, it was accepted in the database,
  -- and is then completed in the database and in the coordinator.
  pub complete_quote-Finishes :
      (id : String) (req : CompleteQuoteRequest) (s : AppState env) (w : env.World)
      (r : CompleteQuoteResponse)
      → (complete_quote env id req s w).0 ≡ ok r
      → Finishes id s (complete_quote env id req s w).1
  unfolding complete_quote
  complete_quote-Finishes id req s w r h =
      Post-ok (Finishes id s) (complete_quote env id req s w) r
        (Post-reads (λ r s' w'. Finishes id s s') _ s (load_quote env id s w)
          ((load_quote-reads env (λ x. x) id).at s w)
          λ q w1 found. complete_loaded id req s w1 q (load_quote-eq-ok env id s w q found))
        h
