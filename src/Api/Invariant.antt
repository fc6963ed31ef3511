-- ===== src/Api/Invariant.antt =====
-- Rules for what holds of the state however a handler ends: the steps that matter are the call of
-- the broker and the change of the quote in the database.
use Prim.Native.String.{◌++◌}
use atomic_mint_swap.Base.{
  String, ◌≡◌, refl, ap, ◌∙◌, Option, none, some, List, not, ◌==◌, eq_iff, arith,
}
use atomic_mint_swap.Base.Word.{as_i64}
use atomic_mint_swap.Effect.{ok, perform, pure, ◌>>=◌, ◌>>◌, raise_if, or_fail, or_raise, or_panic}
use atomic_mint_swap.Effect.Frame.{
  Keeps, keeps_rules, Keeps-or_fail, Keeps-raise_if, Keeps-or_panic,
}
use atomic_mint_swap.Effect.Success.{convert-eq-ok}
use atomic_mint_swap.Effect.Invariant.{Inv-proceed, Inv-reads, convert-state}
use atomic_mint_swap.Env.{Env, Bytes}
use atomic_mint_swap.Types.Status.{pending, accepted, completed, to_string}
use atomic_mint_swap.Swap.Lifecycle.{status_of}
use atomic_mint_swap.Broker.{Broker}
use atomic_mint_swap.Broker
use atomic_mint_swap.Database.Rows.{QuoteRecord, SwapRecord}
use atomic_mint_swap.Database.Quotes.{create_quote, update_quote_status}
use atomic_mint_swap.Database.Swaps.{create_swap, get_swap_by_quote}
use atomic_mint_swap.Database.Swaps
use atomic_mint_swap.Database.Lookups.{status_at}
use atomic_mint_swap.Database.Changes.{create_swap-keeps_quotes, complete_swap-keeps_quotes}
use atomic_mint_swap.Api.Types.{
  ApiError, AppState, QuoteRequest, AcceptQuoteRequest, CompleteQuoteRequest, bad_request, internal,
  broker, on_broker, on_db,
}
use atomic_mint_swap.Api.Handlers.{
  request_quote, accept_quote, complete_quote, store_accepted, store_completed, swap_record,
  swap_request, quote_record, load_quote, client_key, bad_status, no_swap, or_empty,
}
use atomic_mint_swap.Api.Calls.{
  load_quote-reads, load_quote-eq-ok, client_key-reads, get_swap_by_quote-reads,
}
use atomic_mint_swap.Api.Agreement.{accept_quote-eq-ok}
use atomic_mint_swap.Api.Completion.{complete_swap-eq-ok}

module _ (env : Env) where
  -- The broker and the quotes of the database.
  abbrev pub seen : AppState env → Broker env × List (QuoteRecord env)
  seen s = (s.service, s.db.quotes)

  pub create_swap-Keeps : (sw : SwapRecord) → Keeps seen (on_db env (create_swap env sw))
  create_swap-Keeps sw = record {
    at = λ s w.
        let r = create_swap env sw s.db w in
        ap seen (convert-state broker (r.0, record s { db = r.1 }, r.2))
        ∙ ap (λ quotes. (s.service, quotes)) (create_swap-keeps_quotes env sw s.db w);
  }

  pub complete_swap-Keeps :
      (id target : String) (dec secret : Option String)
      → Keeps seen (on_db env (Swaps.complete_swap env id target dec secret))
  complete_swap-Keeps id target dec secret = record {
    at = λ s w.
        let r = Swaps.complete_swap env id target dec secret s.db w in
        ap seen (convert-state broker (r.0, record s { db = r.1 }, r.2))
        ∙ ap (λ quotes. (s.service, quotes))
            (complete_swap-keeps_quotes env id target dec secret s.db w);
  }

  -- A handler loads a quote and checks its status.
  loaded_status :
      (id wanted : String) (s : AppState env) (w w1 : env.World) (q : QuoteRecord env)
      (u : Unit {0}) (e : ApiError)
      → (load_quote env id s w).0 ≡ ok q
      → (raise_if (not (q.status == wanted)) e s w1).0 ≡ ok u
      → status_at env id s.db.quotes ≡ some wanted
  loaded_status id wanted s w w1 q u e found passed =
      let at = load_quote-eq-ok env id s w q found in
      let same : q.status ≡ wanted = ground (arith, eq_iff q.status wanted) in
      ground (arith, at, same)

  module _ (P : AppState env → Type 0)
      (keeps : (s s' : AppState env) → seen s' ≡ seen s → P s → P s') where
    store_accepted-Inv :
        (id : String) (req : AcceptQuoteRequest) (q : QuoteRecord env) (tp : String)
        (s : AppState env) (w : env.World)
        → ((w' : env.World) → P (on_db env (update_quote_status env id accepted none) s w').1)
        → P (store_accepted env id req q tp s w).1
    unfolding store_accepted
    store_accepted-Inv id req q tp s w marked =
        Inv-proceed P _ (on_db env (update_quote_status env id accepted none) s w) (marked w)
          λ a s' w' ran p'.
            let stays : Keeps seen (do
              uuid ← perform env.host.new_uuid
              started_at ← perform env.host.utc_now
              on_db env
                  (create_swap env (swap_record env uuid id req tp q.adaptor_point started_at))
              pure (record { encrypted_signature = q.adaptor_point; target_proofs = tp })) =
              search (keeps_rules, create_swap-Keeps) in
            keeps s' _ (stays.at s' w') p'

    -- `accept_quote`, from what its call of the broker and its update of the quote do.
    pub accept_quote-Inv :
        (id : String) (req : AcceptQuoteRequest) (s : AppState env) (w : env.World)
        → P s
        → ((pk : Bytes) (w' : env.World) → P (on_broker env (Broker.accept_quote env id pk) s w').1)
        → ((s1 : AppState env) (w' : env.World)
            → status_of env id s.service.coordinator ≡ some pending
            → status_of env id s1.service.coordinator ≡ some accepted
            → P s1
            → P (on_db env (update_quote_status env id accepted none) s1 w').1)
        → P (accept_quote env id req s w).1
    unfolding accept_quote
    accept_quote-Inv id req s w p paid marked =
        Inv-reads P _ s (load_quote env id s w) ((load_quote-reads env (λ x. x) id).at s w) p
          λ q w1 found.
            let check =
              raise_if (not (q.status == to_string pending))
                (bad_status env id " is not pending" q.status) s w1 in
            Inv-reads P _ s check ((Keeps-raise_if (λ x. x) _ _).at s w1) p λ a w2 passed.
              let parsed =
                or_fail (λ e. bad_request ("Invalid source_proofs JSON: " ++ e))
                  (env.host.proofs_from_json req.source_proofs) s w2 in
              Inv-reads P _ s parsed ((Keeps-or_fail (λ x. x) _ _).at s w2) p λ sp w3 e3.
                Inv-reads P _ s (client_key env q s w3) ((client_key-reads env (λ x. x) q).at s w3)
                  p
                  λ pk w4 e4.
                    Inv-proceed P _ (on_broker env (Broker.accept_quote env id pk) s w4)
                      (paid pk w4)
                      λ ps s1 w5 e5 p1.
                        let called = convert-eq-ok broker _ ps s1 w5 e5 in
                        let moved =
                          accept_quote-eq-ok env id pk s.service s1.service w4 w5 ps
                            (ap (λ r. (r.0, r.1.service, r.2)) called) in
                        let encoded =
                          or_fail (λ e. internal ("Failed to serialize target proofs: " ++ e))
                            (env.host.proofs_to_json ps) s1 w5 in
                        Inv-reads P _ s1 encoded ((Keeps-or_fail (λ x. x) _ _).at s1 w5) p1
                          λ tp w6 e6.
                            store_accepted-Inv id req q tp s1 w6
                              (λ w'. marked s1 w' moved.0 moved.1 p1)

    store_completed-Inv :
        (id : String) (req : CompleteQuoteRequest) (q : QuoteRecord env) (s : AppState env)
        (w : env.World)
        → ((w' : env.World) → P (on_db env (update_quote_status env id completed none) s w').1)
        → P (store_completed env id req q s w).1
    unfolding store_completed
    store_completed-Inv id req q s w marked =
        Inv-proceed P _ (on_db env (update_quote_status env id completed none) s w) (marked w)
          λ a s' w' ran p'.
            let stays : Keeps seen (do
              found ← on_db env (get_swap_by_quote env id)
              swap ← or_raise found (no_swap env id)
              on_db env (
                  Swaps.complete_swap env swap.id (or_empty env swap.target_proofs)
                    (some req.decrypted_signature) (some q.adaptor_point))
              pure (record { adaptor_secret = q.adaptor_point; status = to_string completed })) =
              search (keeps_rules, complete_swap-Keeps, get_swap_by_quote-reads) in
            keeps s' _ (stays.at s' w') p'

    -- `complete_quote`, likewise; it goes on only where the database has the quote as accepted.
    pub complete_quote-Inv :
        (id : String) (req : CompleteQuoteRequest) (s : AppState env) (w : env.World)
        → P s
        → ((ps : List env.cdk.Proof) (w' : env.World)
            → status_at env id s.db.quotes ≡ some (to_string accepted)
            → P (on_broker env (Broker.complete_swap env id ps) s w').1)
        → ((s1 : AppState env) (w' : env.World)
            → status_at env id s.db.quotes ≡ some (to_string accepted)
            → status_of env id s1.service.coordinator ≡ some completed
            → P s1
            → P (on_db env (update_quote_status env id completed none) s1 w').1)
        → P (complete_quote env id req s w).1
    unfolding complete_quote
    complete_quote-Inv id req s w p claimed marked =
        Inv-reads P _ s (load_quote env id s w) ((load_quote-reads env (λ x. x) id).at s w) p
          λ q w1 found.
            let refusal = bad_status env id " is not accepted" q.status in
            let check = raise_if (not (q.status == to_string accepted)) refusal s w1 in
            Inv-reads P _ s check ((Keeps-raise_if (λ x. x) _ _).at s w1) p λ a w2 passed.
              let stored = loaded_status id (to_string accepted) s w w1 q a refusal found passed in
              let parsed =
                or_fail
                  (λ e. bad_request ("Invalid decrypted_signature JSON (expected Proofs): " ++ e))
                  (env.host.proofs_from_json req.decrypted_signature) s w2 in
              Inv-reads P _ s parsed ((Keeps-or_fail (λ x. x) _ _).at s w2) p λ ps w3 e3.
                Inv-proceed P _ (on_broker env (Broker.complete_swap env id ps) s w3)
                  (claimed ps w3 stored)
                  λ b s1 w4 e4 p1.
                    let called = convert-eq-ok broker _ b s1 w4 e4 in
                    let moved =
                      complete_swap-eq-ok env id ps s.service s1.service w3 w4
                        (ap (λ r. (r.0, r.1.service, r.2)) called) in
                    store_completed-Inv id req q s1 w4 (λ w'. marked s1 w' stored moved.1 p1)

    -- `request_quote`, from what its call of the broker and its insertion do.
    pub request_quote-Inv :
        (req : QuoteRequest) (s : AppState env) (w : env.World)
        → P (on_broker env (Broker.request_quote env (swap_request env req)) s w).1
        → ((row : QuoteRecord env) (s1 : AppState env) (w' : env.World)
            → row.status ≡ to_string pending
            → P s1
            → P (on_db env (create_quote env row) s1 w').1)
        → P (request_quote env req s w).1
    unfolding request_quote quote_record
    request_quote-Inv req s w asked stored =
        Inv-proceed P _ (on_broker env (Broker.request_quote env (swap_request env req)) s w) asked
          λ q s1 w1 e1 p1.
            let (created_at, w2) = env.host.utc_now w1 in
            let (due, w3) = env.host.utc_after (as_i64 q.expires_in) w2 in
            Inv-reads P _ s1 (or_panic due s1 w3) ((Keeps-or_panic (λ x. x) due).at s1 w3) p1
              λ expires_at w4 e4.
                let row = quote_record env req q created_at expires_at in
                Inv-proceed P _ (on_db env (create_quote env row) s1 w4) (stored row s1 w4 refl p1)
                  λ a s2 w5 e5 p2. p2
