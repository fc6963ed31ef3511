-- ===== src/Api/Tasks/Race.antt =====
-- `complete_quote` between the two writes of `accept_quote`: the quote is accepted in the database,
-- and its swap is not there yet.
use mathlib.Core.Option
use atomic_mint_swap.Base.{
  String, ◌≡◌, refl, ap, sym, ◌∙◌, none, some, List, [], ◌∷◌, arith, eq_iff,
}
use atomic_mint_swap.Effect.{ok, err}
use atomic_mint_swap.Env.{Env, Bytes}
use atomic_mint_swap.Types.Status.{accepted, completed, to_string}
use atomic_mint_swap.Swap.Lifecycle.{status_of}
use atomic_mint_swap.Broker
use atomic_mint_swap.Broker.{Brokered}
use atomic_mint_swap.Database.Rows.{QuoteRecord, run, execute, query}
use atomic_mint_swap.Database.Quotes.{update_quotes, set_status, update_quote_status}
use atomic_mint_swap.Database.Swaps.{find_swap, get_swap_by_quote}
use atomic_mint_swap.Database.Lookups.{status_at, status_at-update_quotes}
use atomic_mint_swap.Api.Types.{
  AppState, AcceptQuoteRequest, CompleteQuoteRequest, on_broker, on_db,
}
use atomic_mint_swap.Api.Handlers.{no_swap}
use atomic_mint_swap.Api.Tasks.{
  Handling, accepting, paying, marking, adding, answered, completing, claiming, closing, finding,
  finished, next, load_pending, pay, load_accepted, resume, find_stored_swap,
}
use atomic_mint_swap.Api.Tasks.Runs.{Service, Move, move, Run, start, then_move}
use atomic_mint_swap.Api.Tasks.Segments.{pay-state, claim-completed}
use atomic_mint_swap.Api.Tasks.Stored.{
  on_broker-db, update_quote_status-swaps, load_accepted-found, load_pending-swaps,
  load_accepted-db,
}

module _ (env : Env) where
  closing_step :
      (id : String) (req : CompleteQuoteRequest) (row : QuoteRecord env) (s : AppState env)
      (w : env.World)
      → let (now, w1) = env.host.utc_now w in
        (env.driver.fault w1).0 ≡ none
        → resume env (closing id req row) s w
          ≡ some (
            finding id req row,
            record s {
              db = record s.db {
                quotes = update_quotes env id (set_status env completed none now) s.db.quotes;
              };
            },
            (env.driver.fault w1).1,
          )
  unfolding resume update_quote_status execute
  closing_step id req row s w fine = rw (fine, run) refl

  finding_step :
      (id : String) (req : CompleteQuoteRequest) (row : QuoteRecord env) (s : AppState env)
      (w : env.World)
      → (env.driver.fault w).0 ≡ none
      → find_swap (λ s. s.quote_id) id s.db.swaps ≡ none
      → resume env (finding id req row) s w
        ≡ some (finished (err (no_swap env id)), s, (env.driver.fault w).1)
  unfolding resume find_stored_swap get_swap_by_quote query execute
  finding_step id req row s w fine absent = ground (arith, fine, absent)

  module _ (id : String) (a : AcceptQuoteRequest) (c : CompleteQuoteRequest)
      (row row' : QuoteRecord env) (pk : Bytes) (tp : String) (ps : List env.cdk.Proof)
      (s s1 s2 s3 s4 s5 : AppState env) (w w1 w2 w3 w4 w5 : env.World)
      (loads : load_pending env id a s w ≡ (ok (row, pk), s1, w1))
      (pays : pay env id pk s1 w1 ≡ (ok tp, s2, w2))
      (marks : on_db env (update_quote_status env id accepted none) s2 w2 ≡ (ok tt, s3, w3))
      (reloads : load_accepted env id c s3 w3 ≡ (ok (row', ps), s4, w4))
      (claims : on_broker env (Broker.complete_swap env id ps) s4 w4 ≡ (ok tt, s5, w5)) where
    -- Both handlers up to the claim of the client's tokens.
    claimed :
        Run env
          (record { handlings = accepting id a ∷ completing id c ∷ []; app = s; world = w })
          (record { handlings = adding id a row tp ∷ closing id c row' ∷ []; app = s5; world = w5 })
    unfolding resume
    claimed =
        let at : Handling env → Handling env → AppState env → env.World → Service env =
          λ t u s w. record { handlings = t ∷ u ∷ []; app = s; world = w } in
        let x0 = at (accepting id a) (completing id c) s w in
        let x1 = at (paying id a row pk) (completing id c) s1 w1 in
        let x2 = at (marking id a row tp) (completing id c) s2 w2 in
        let x3 = at (adding id a row tp) (completing id c) s3 w3 in
        let x4 = at (adding id a row tp) (claiming id c row' ps) s4 w4 in
        let x5 = at (adding id a row tp) (closing id c row') s5 w5 in
        let m1 : Move env x0 x1 =
          move [] (accepting id a) (paying id a row pk) (completing id c ∷ []) refl refl
            (ap (λ r. some (next env (λ r. paying id a r.0 r.1) answered r)) loads) in
        let m2 : Move env x1 x2 =
          move [] (paying id a row pk) (marking id a row tp) (completing id c ∷ []) refl refl
            (ap (λ r. some (next env (marking id a row) answered r)) pays) in
        let m3 : Move env x2 x3 =
          move [] (marking id a row tp) (adding id a row tp) (completing id c ∷ []) refl refl
            (ap (λ r. some (next env (λ _. adding id a row tp) answered r)) marks) in
        let m4 : Move env x3 x4 =
          move (adding id a row tp ∷ []) (completing id c) (claiming id c row' ps) [] refl refl
            (ap (λ r. some (next env (λ r. claiming id c r.0 r.1) finished r)) reloads) in
        let m5 : Move env x4 x5 =
          move (adding id a row tp ∷ []) (claiming id c row' ps) (closing id c row') [] refl refl
            (ap (λ r. some (next env (λ _. closing id c row') finished r)) claims) in
        then_move (then_move (then_move (then_move (then_move start m1) m2) m3) m4) m5

    claimed-swaps : s5.db.swaps ≡ s.db.swaps
    claimed-swaps =
        ap (λ r. r.1.db.swaps) (sym claims)
        ∙ ap (λ d. d.swaps) (on_broker-db env (Broker.complete_swap env id ps) s4 w4)
        ∙ ap (λ r. r.1.db.swaps) (sym reloads)
        ∙ ap (λ d. d.swaps) (load_accepted-db env id c s3 w3)
        ∙ ap (λ r. r.1.db.swaps) (sym marks)
        ∙ update_quote_status-swaps env id accepted s2 w2
        ∙ ap (λ r. r.1.db.swaps) (sym pays)
        ∙ ap (λ x. x.db.swaps) (pay-state env id pk s1 w1)
        ∙ ap (λ d. d.swaps) (on_broker-db env (Broker.accept_quote env id pk) s1 w1)
        ∙ ap (λ r. r.1.db.swaps) (sym loads)
        ∙ load_pending-swaps env id a s w

    claimed-status : status_at env id s5.db.quotes ≡ some row'.status
    claimed-status =
        ap (λ r. status_at env id r.1.db.quotes) (sym claims)
        ∙ ap (λ d. status_at env id d.quotes)
            (on_broker-db env (Broker.complete_swap env id ps) s4 w4)
        ∙ ap (λ r. status_at env id r.1.db.quotes) (sym reloads)
        ∙ ap (λ d. status_at env id d.quotes) (load_accepted-db env id c s3 w3)
        ∙ ap (Option.map (λ q. q.status))
            (load_accepted-found env id c s3 w3 (row', ps) (ap (λ r. r.0) reloads))

    -- From a service in which one handler is about to accept a quote and another to complete it, with
    -- no swap of the quote in the database: if the accepting one can load the quote, pay it out and
    -- mark it, the completing one can then load it and claim the client's tokens, and the driver
    -- meets no fault in two statements after that, then their steps can interleave so that the
    -- completing one answers that there is no swap, while the client's tokens are claimed and the
    -- quote is completed in the coordinator and in the database, with still no swap of it; and the
    -- accepting one stands before its last write.
    pub complete_quote-race :
        find_swap (λ s. s.quote_id) id s.db.swaps ≡ none
        → let v = (env.host.utc_now w5).1 in
          (env.driver.fault v).0 ≡ none
          → (env.driver.fault (env.driver.fault v).1).0 ≡ none
          → (y : Service env) × Run env
              (record { handlings = accepting id a ∷ completing id c ∷ []; app = s; world = w })
              y
            × (y.handlings ≡ adding id a row tp ∷ finished (err (no_swap env id)) ∷ [])
            × (status_of env id y.app.service.coordinator ≡ some completed)
            × (status_at env id y.app.db.quotes ≡ some (to_string completed))
            × (find_swap (λ s. s.quote_id) id y.app.db.swaps ≡ none)
    complete_quote-race absent fine fine' =
        let (now, v) = env.host.utc_now w5 in
        let qs = update_quotes env id (set_status env completed none now) s5.db.quotes in
        let marked : AppState env = record s5 { db = record s5.db { quotes = qs } } in
        let v1 = (env.driver.fault v).1 in
        let gone = ap (find_swap (λ s. s.quote_id) id) claimed-swaps ∙ absent in
        let x : Service env = record {
          handlings = adding id a row tp ∷ closing id c row' ∷ [];
          app = s5;
          world = w5;
        } in
        let y : Service env = record {
          handlings = adding id a row tp ∷ finding id c row' ∷ [];
          app = marked;
          world = v1;
        } in
        let z : Service env = record {
          handlings = adding id a row tp ∷ finished (err (no_swap env id)) ∷ [];
          app = marked;
          world = (env.driver.fault v1).1;
        } in
        let first : Move env x y =
          move (adding id a row tp ∷ []) (closing id c row') (finding id c row') [] refl refl
            (closing_step id c row' s5 w5 fine) in
        let second : Move env y z =
          move (adding id a row tp ∷ []) (finding id c row') (finished (err (no_swap env id))) []
            refl refl (finding_step id c row' marked v1 fine' gone) in
        let at = status_at-update_quotes env id id completed none now s5.db.quotes in
        (
          z,
          then_move (then_move claimed first) second,
          refl,
          claim-completed env id ps s4 s5 w4 w5 claims,
          ground (arith, at, claimed-status, eq_iff id id),
          gone,
        )
