-- ===== src/Api/Agreement.antt =====
-- The database and the coordinator agree on a quote that a handler has accepted or completed.
use Prim.Native.String.{◌++◌}
use mathlib.Core.Option
use atomic_mint_swap.Base.{String, ◌≡◌, sym, ap, ◌∙◌, not, none, some, List, arith, eq_iff, ◌==◌}
use atomic_mint_swap.Base.Dict.{lookup-insert_self}
use atomic_mint_swap.Effect.{ok, ◌>>=◌, or_fail, raise_if, ◌>>◌}
use atomic_mint_swap.Effect.Frame.{Keeps-or_fail, Keeps-raise_if}
use atomic_mint_swap.Effect.Success.{
  Post, Post-ok, Post-mono, Post-proceed, Post-reads, convert-eq-ok,
}
use atomic_mint_swap.Env.{Env, Bytes}
use atomic_mint_swap.Types.Status.{pending, accepted, to_string}
use atomic_mint_swap.Swap.Lifecycle.{status_of, prepare_swap-Prepared}
use atomic_mint_swap.Swap.Execute.{record_accepted, with_status}
use atomic_mint_swap.Broker.{Broker, accept_quote}
use atomic_mint_swap.Database.Rows.{QuoteRecord}
use atomic_mint_swap.Database.Quotes.{find_quote, update_quote_status}
use atomic_mint_swap.Database.Swaps.{create_swap}
use atomic_mint_swap.Database.Lookups.{status_at}
use atomic_mint_swap.Api.Types.{
  AppState, AcceptQuoteRequest, AcceptQuoteResponse, bad_request, internal, broker, on_broker,
  on_db,
}
use atomic_mint_swap.Api.Handlers.{store_accepted, swap_record, load_quote, client_key, bad_status}
use atomic_mint_swap.Api.Handlers
use atomic_mint_swap.Api.Calls.{
  load_quote-reads, load_quote-eq-ok, client_key-reads, update_quote_status-eq-ok,
  create_swap-quotes,
}

module _ (env : Env) where
  -- What has happened where `accept_quote` succeeded.
  pub record Accepts (id : String) (s s' : AppState env) : Type 0 where
    pub was_stored : status_at env id s.db.quotes ≡ some (to_string pending)
    pub was_pending : status_of env id s.service.coordinator ≡ some pending
    pub stored : status_at env id s'.db.quotes ≡ some (to_string accepted)
    pub now_accepted : status_of env id s'.service.coordinator ≡ some accepted

  pub accept_quote-eq-ok :
      (id : String) (pk : Bytes) (b b' : Broker env) (w w' : env.World) (ps : List env.cdk.Proof)
      → accept_quote env id pk b w ≡ (ok ps, b', w')
      → (status_of env id b.coordinator ≡ some pending)
        × (status_of env id b'.coordinator ≡ some accepted)
  unfolding accept_quote record_accepted with_status
  accept_quote-eq-ok id pk b b' w w' ps e =
      let p = prepare_swap-Prepared env id pk b.coordinator w ps (ap (λ r. r.0) e) in
      let seen = lookup-insert_self id (with_status env accepted p.q) b.coordinator.quotes in
      let after = sym (ap (λ r. r.1.coordinator) e) ∙ p.recorded in
      (ground (arith, p.found, p.was_pending), rw after (ground (arith, seen)))

  Stores : String → AppState env → AppState env → Type 0
  Stores id s s' =
      (s'.service ≡ s.service) × (status_at env id s'.db.quotes ≡ some (to_string accepted))

  -- What is still to be stored once the broker has accepted.
  store_accepted-Post :
      (id : String) (req : AcceptQuoteRequest) (q : QuoteRecord env) (tp : String)
      (s : AppState env) (w : env.World)
      → status_at env id s.db.quotes ≡ some (to_string pending)
      → Post (λ r s' w'. Stores id s s') (store_accepted env id req q tp s w)
  unfolding store_accepted Stores
  store_accepted-Post id req q tp s w h =
      Post-proceed (λ r s' w'. Stores id s s') _
        (on_db env (update_quote_status env id accepted none) s w)
        λ a s' w' e.
          let called = convert-eq-ok broker _ tt s' w' e in
          let updated =
            update_quote_status-eq-ok env id accepted none s.db s'.db w w'
              (ap (λ r. (r.0, r.1.db, r.2)) called) in
          let (uuid, w1) = env.host.new_uuid w' in
          let (now, w2) = env.host.utc_now w1 in
          let row = swap_record env uuid id req tp q.adaptor_point now in
          Post-proceed (λ r s' w'. Stores id s s') _ (on_db env (create_swap env row) s' w2)
            λ b s2 w3 e2.
              let called2 = convert-eq-ok broker _ tt s2 w3 e2 in
              let kept =
                create_swap-quotes env row s'.db s2.db w2 w3
                  (ap (λ r. (r.0, r.1.db, r.2)) called2) in
              (
                ap (λ r. r.1.service) (sym called2) ∙ ap (λ r. r.1.service) (sym called),
                ap (status_at env id) kept ∙ updated ∙ ap (Option.map (λ x. to_string accepted)) h,
              )

  -- `accept_quote` after the quote is loaded.
  accept_loaded :
      (id : String) (req : AcceptQuoteRequest) (s : AppState env) (w : env.World)
      (q : QuoteRecord env)
      → find_quote env id s.db.quotes ≡ some q
      → Post
          (λ r s' w'. Accepts id s s')
          ((do
            raise_if
                (not (q.status == to_string pending))
                (bad_status env id " is not pending" q.status)
            source_proofs ←
                or_fail
                  (λ e. bad_request ("Invalid source_proofs JSON: " ++ e))
                  (env.host.proofs_from_json req.source_proofs)
            client_pubkey ← client_key env q
            proofs ← on_broker env (accept_quote env id client_pubkey)
            target_proofs ←
                or_fail
                  (λ e. internal ("Failed to serialize target proofs: " ++ e))
                  (env.host.proofs_to_json proofs)
            store_accepted env id req q target_proofs)
            s w)
  unfolding Stores
  accept_loaded id req s w q at =
      let Q : AcceptQuoteResponse → AppState env → env.World → Type 0 =
        λ r s' w'. Accepts id s s' in
      let check =
        raise_if (not (q.status == to_string pending))
          (bad_status env id " is not pending" q.status) s w in
      Post-reads Q _ s check ((Keeps-raise_if (λ x. x) _ _).at s w) λ a w1 passed.
        let is_pending : q.status ≡ to_string pending =
          ground (arith, eq_iff q.status (to_string pending)) in
        let parsed =
          or_fail (λ e. bad_request ("Invalid source_proofs JSON: " ++ e))
            (env.host.proofs_from_json req.source_proofs) s w1 in
        Post-reads Q _ s parsed ((Keeps-or_fail (λ x. x) _ _).at s w1) λ sp w2 e2.
          Post-reads Q _ s (client_key env q s w2) ((client_key-reads env (λ x. x) q).at s w2)
            λ pk w3 e3.
              Post-proceed Q _ (on_broker env (accept_quote env id pk) s w3) λ ps s1 w4 e4.
                let called = convert-eq-ok broker _ ps s1 w4 e4 in
                let moved =
                  accept_quote-eq-ok id pk s.service s1.service w3 w4 ps
                    (ap (λ r. (r.0, r.1.service, r.2)) called) in
                let db : s1.db ≡ s.db = ap (λ r. r.1.db) (sym called) in
                let before : status_at env id s.db.quotes ≡ some (to_string pending) =
                  ground (arith, at, is_pending) in
                let encoded =
                  or_fail (λ e. internal ("Failed to serialize target proofs: " ++ e))
                    (env.host.proofs_to_json ps) s1 w4 in
                Post-reads Q _ s1 encoded ((Keeps-or_fail (λ x. x) _ _).at s1 w4) λ tp w5 e5.
                  Post-mono _ Q (store_accepted env id req q tp s1 w5)
                    (λ r s2 w6 k. record {
                      was_stored = before;
                      was_pending = moved.0;
                      stored = k.1;
                      now_accepted =
                          ap (λ (b : Broker env). status_of env id b.coordinator) k.0 ∙ moved.1;
                    })
                    (store_accepted-Post id req q tp s1 w5
                      (ap (λ t. status_at env id t.quotes) db ∙ before))

  -- Where `accept_quote` succeeds, the quote was pending in the database and in the coordinator, and
  -- is then accepted in both.
  pub accept_quote-Accepts :
      (id : String) (req : AcceptQuoteRequest) (s : AppState env) (w : env.World)
      (r : AcceptQuoteResponse)
      → (Handlers.accept_quote env id req s w).0 ≡ ok r
      → Accepts id s (Handlers.accept_quote env id req s w).1
  unfolding Handlers.accept_quote
  accept_quote-Accepts id req s w r h =
      Post-ok (Accepts id s) (Handlers.accept_quote env id req s w) r
        (Post-reads (λ r s' w'. Accepts id s s') _ s (load_quote env id s w)
          ((load_quote-reads env (λ x. x) id).at s w)
          λ q w1 found.
            let at = load_quote-eq-ok env id s w q found in accept_loaded id req s w1 q at)
        h
