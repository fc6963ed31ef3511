-- ===== src/Api/Offer.antt =====
-- The database and the coordinator agree on a quote that `request_quote` has returned.
use atomic_mint_swap.Base.{◌≤◌, ◌≡◌, refl, sym, ap, ◌∙◌, false, some, [], ◌∷◌, ◌++◌, arith, eq_iff}
use atomic_mint_swap.Base.Word.{as_i64}
use atomic_mint_swap.Effect.{ok, or_panic}
use atomic_mint_swap.Effect.Frame.{Keeps-or_panic}
use atomic_mint_swap.Effect.Success.{Post, Post-value, Post-proceed, Post-reads, convert-eq-ok}
use atomic_mint_swap.Env.{Env}
use atomic_mint_swap.Types.{SwapRequest, SwapQuote}
use atomic_mint_swap.Types.Status.{pending, to_string}
use atomic_mint_swap.Swap.Execute.{get_quote}
use atomic_mint_swap.Swap.Quote.Created.{create_quote-stored, create_quote-terms}
use atomic_mint_swap.Liquidity.{get_balance}
use atomic_mint_swap.Broker.{Broker}
use atomic_mint_swap.Broker
use atomic_mint_swap.Database.Rows.{QuoteRecord, Tables, quote_ids, has}
use atomic_mint_swap.Database.Quotes.{create_quote, find_quote, inserted}
use atomic_mint_swap.Database.Lookups.{execute-eq-ok, find_quote-append}
use atomic_mint_swap.Api.Types.{AppState, QuoteRequest, broker, on_broker, on_db}
use atomic_mint_swap.Api.Handlers.{request_quote, swap_request, quote_record}

module _ (env : Env) where
  -- What has happened where `request_quote` returned `q`: the coordinator holds it, and the
  -- database holds a pending row with its mints and amounts.
  pub record Offers (q : SwapQuote env) (s' : AppState env) : Type 0 where
    pub held : get_quote env q.quote_id s'.service.coordinator ≡ some q
    pub row : QuoteRecord env
    pub stored : find_quote env q.quote_id s'.db.quotes ≡ some row
    pub row_status : row.status ≡ to_string pending
    pub row_source : row.source_mint ≡ q.from_mint
    pub row_target : row.target_mint ≡ q.to_mint
    pub row_in : row.amount_in ≡ as_i64 q.input_amount
    pub row_out : row.amount_out ≡ as_i64 q.output_amount

  request_quote-eq-ok :
      (req : SwapRequest) (b b' : Broker env) (w w' : env.World) (q : SwapQuote env)
      → Broker.request_quote env req b w ≡ (ok q, b', w')
      → get_quote env q.quote_id b'.coordinator ≡ some q
  unfolding Broker.request_quote
  request_quote-eq-ok req b b' w w' q e =
      let seen =
        create_quote-stored env b.config req q b.coordinator w q.quote_id (ap (λ r. r.0) e) in
      ap (λ r. get_quote env q.quote_id r.1.coordinator) (sym e)
      ∙ ground (arith, seen, eq_iff q.quote_id q.quote_id)

  create_quote-eq-ok :
      (row : QuoteRecord env) (t t' : Tables env) (w w' : env.World)
      → create_quote env row t w ≡ (ok tt, t', w')
      → find_quote env row.id t'.quotes ≡ some (inserted env row)
  unfolding create_quote inserted
  create_quote-eq-ok row t t' w w' e =
      let ran = execute-eq-ok env _ t w tt (ap (λ r. r.0) e) in
      let new : has row.id (quote_ids env t) ≡ false = ground arith in
      let after : (create_quote env row t w).1.quotes ≡ t.quotes ++ inserted env row ∷ [] =
        ground arith in
      let found = find_quote-append env row.id t.quotes (inserted env row) new in
      ap (λ r. find_quote env row.id r.1.quotes) (sym e)
      ∙ ap (find_quote env row.id) after
      ∙ ground (arith, found, eq_iff row.id row.id)

  request_quote-Post :
      (req : QuoteRequest) (s : AppState env) (w : env.World)
      → Post (λ q s' w'. Offers q s') (request_quote env req s w)
  unfolding request_quote quote_record inserted
  request_quote-Post req s w =
      let Q : SwapQuote env → AppState env → env.World → Type 0 = λ q s' w'. Offers q s' in
      Post-proceed Q _ (on_broker env (Broker.request_quote env (swap_request env req)) s w)
        λ q s1 w1 e1.
          let called = convert-eq-ok broker _ q s1 w1 e1 in
          let held =
            request_quote-eq-ok (swap_request env req) s.service s1.service w w1 q
              (ap (λ r. (r.0, r.1.service, r.2)) called) in
          let (created_at, w2) = env.host.utc_now w1 in
          let (due, w3) = env.host.utc_after (as_i64 q.expires_in) w2 in
          Post-reads Q _ s1 (or_panic due s1 w3) ((Keeps-or_panic (λ x. x) due).at s1 w3)
            λ expires_at w4 e4.
              let row = quote_record env req q created_at expires_at in
              Post-proceed Q _ (on_db env (create_quote env row) s1 w4) λ a s2 w5 e5.
                let called2 = convert-eq-ok broker _ tt s2 w5 e5 in
                let stored =
                  create_quote-eq-ok row s1.db s2.db w4 w5 (ap (λ r. (r.0, r.1.db, r.2)) called2) in
                record {
                  held =
                      ap (λ r. get_quote env q.quote_id r.1.service.coordinator) (sym called2)
                      ∙ held;
                  row = inserted env row;
                  stored = stored;
                  row_status = refl;
                  row_source = refl;
                  row_target = refl;
                  row_in = refl;
                  row_out = refl;
                }

  -- A quote that `request_quote` returns is held by the coordinator under its id, and the database
  -- holds under that id a pending row with the quote's mints and, cast to `i64`, its amounts.
  pub request_quote-Offers :
      (req : QuoteRequest) (s : AppState env) (w : env.World) (q : SwapQuote env)
      → (request_quote env req s w).0 ≡ ok q
      → Offers q (request_quote env req s w).1
  request_quote-Offers req s w q h =
      Post-value (λ q s' w'. Offers q s') (request_quote env req s w) q (request_quote-Post req s w)
        h

  -- The output of a quote that `request_quote` returns is at most the balance that the manager
  -- recorded for the target mint.
  pub request_quote-covered :
      (req : QuoteRequest) (s : AppState env) (w : env.World) (q : SwapQuote env)
      → (request_quote env req s w).0 ≡ ok q
      → q.output_amount ≤ get_balance env req.target_mint s.service.coordinator.manager
  unfolding request_quote Broker.request_quote swap_request
  request_quote-covered req s w q h =
      let Q : SwapQuote env → AppState env → env.World → Type 0 = λ q s' w'.
        q.output_amount ≤ get_balance env req.target_mint s.service.coordinator.manager in
      let whole : Post Q (request_quote env req s w) =
        Post-proceed Q _ (on_broker env (Broker.request_quote env (swap_request env req)) s w)
          λ q s1 w1 e1.
            let called = convert-eq-ok broker _ q s1 w1 e1 in
            let (served, source, target, input, fee, rate, output, covered, status) =
              create_quote-terms env s.service.config (swap_request env req) q s.service.coordinator
                w (ap (λ r. r.0) called) in
            let (created_at, w2) = env.host.utc_now w1 in
            let (due, w3) = env.host.utc_after (as_i64 q.expires_in) w2 in
            Post-proceed Q _ (or_panic due s1 w3) λ expires_at s2 w4 e2.
              Post-proceed Q _
                (on_db env (create_quote env (quote_record env req q created_at expires_at)) s2 w4)
                λ a s3 w5 e3. covered in
      Post-value Q (request_quote env req s w) q whole h
