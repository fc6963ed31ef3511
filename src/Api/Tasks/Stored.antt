-- ===== src/Api/Tasks/Stored.antt =====
-- What the segments of the handlers leave of the database, and what they have read in it.
use Prim.Native.String.{◌++◌}
use atomic_mint_swap.Base.{String, ◌≡◌, ap, not, none, some, List, arith, ◌==◌}
use atomic_mint_swap.Effect.{ok, raise_if, or_fail}
use atomic_mint_swap.Effect.Frame.{Keeps, keeps_rules}
use atomic_mint_swap.Effect.Success.{Post, Post-proceed, Post-value}
use atomic_mint_swap.Effect.Invariant.{convert-state}
use atomic_mint_swap.Env.{Env}
use atomic_mint_swap.Types.Status.{SwapStatus, accepted, to_string}
use atomic_mint_swap.Broker.{Brokered}
use atomic_mint_swap.Database.Rows.{QuoteRecord, execute}
use atomic_mint_swap.Database.Quotes.{find_quote, update_quote_status}
use atomic_mint_swap.Api.Types.{
  AppState, AcceptQuoteRequest, CompleteQuoteRequest, bad_request, broker, on_broker, on_db,
}
use atomic_mint_swap.Api.Handlers.{load_quote, bad_status}
use atomic_mint_swap.Api.Calls.{load_quote-reads, client_key-reads, load_quote-eq-ok}
use atomic_mint_swap.Api.Tasks.{load_pending, load_accepted}

module _ (env : Env) where
  -- A call of the broker leaves the database alone.
  pub on_broker-db :
      {A : Type 0} (m : Brokered env A) (s : AppState env) (w : env.World)
      → (on_broker env m s w).1.db ≡ s.db
  on_broker-db m s w =
      let r = m s.service w in
      let after : AppState env = record s { service = r.1 } in
      ap (λ (x : AppState env). x.db) (convert-state broker (r.0, after, r.2))

  pub update_quote_status-swaps :
      (id : String) (st : SwapStatus) (s : AppState env) (w : env.World)
      → (on_db env (update_quote_status env id st none) s w).1.db.swaps ≡ s.db.swaps
  unfolding update_quote_status execute
  update_quote_status-swaps id st s w = ground arith

  pub load_accepted-found :
      (id : String) (c : CompleteQuoteRequest) (s : AppState env) (w : env.World)
      (r : QuoteRecord env × List env.cdk.Proof)
      → (load_accepted env id c s w).0 ≡ ok r
      → find_quote env id s.db.quotes ≡ some r.0
  unfolding load_accepted
  load_accepted-found id c s w r h =
      let Q : QuoteRecord env × List env.cdk.Proof → AppState env → env.World → Type 0 =
        λ r s' w'. find_quote env id s.db.quotes ≡ some r.0 in
      let whole : Post Q (load_accepted env id c s w) =
        Post-proceed Q _ (load_quote env id s w) λ q s1 w1 e1.
          Post-proceed Q _
            (raise_if (not (q.status == to_string accepted))
              (bad_status env id " is not accepted" q.status) s1 w1)
            λ u s2 w2 e2.
              Post-proceed Q _
                (or_fail
                  (λ e. bad_request ("Invalid decrypted_signature JSON (expected Proofs): " ++ e))
                  (env.host.proofs_from_json c.decrypted_signature) s2 w2)
                λ ps s3 w3 e3. load_quote-eq-ok env id s w q (ap (λ r. r.0) e1) in
      Post-value Q (load_accepted env id c s w) r whole h

  pub load_pending-swaps :
      (id : String) (a : AcceptQuoteRequest) (s : AppState env) (w : env.World)
      → (load_pending env id a s w).1.db.swaps ≡ s.db.swaps
  unfolding load_pending
  load_pending-swaps id a s w =
      let k : Keeps (λ (x : AppState env). x.db.swaps) (load_pending env id a) =
        search (keeps_rules, load_quote-reads, client_key-reads) in
      k.at s w

  pub load_accepted-db :
      (id : String) (c : CompleteQuoteRequest) (s : AppState env) (w : env.World)
      → (load_accepted env id c s w).1.db ≡ s.db
  unfolding load_accepted
  load_accepted-db id c s w =
      let k : Keeps (λ (x : AppState env). x.db) (load_accepted env id c) =
        search (keeps_rules, load_quote-reads) in
      k.at s w
