-- ===== src/Api/Tasks.antt =====
-- cashu-broker/src/api.rs: the handlers that run at once. A handler stands before one of its calls of
-- the broker or of the database; that call, with what it computes up to the next one, is one step.
pub mod Runs
pub mod Segments
pub mod Behind
pub mod Alone
pub mod Stored
pub mod Race
use Prim.Native.String.{◌++◌}
use atomic_mint_swap.Base.{String, ◌≡◌, not, Option, none, some, List, ◌==◌}
use atomic_mint_swap.Base.Word.{as_i64}
use atomic_mint_swap.Effect.{
  Outcome, ok, err, panic, pure, or_panic, or_raise, perform, raise_if, ◌>>=◌, ◌>>◌, or_fail,
}
use atomic_mint_swap.Env.{Env, Bytes}
use atomic_mint_swap.Types.{SwapQuote}
use atomic_mint_swap.Types.Status.{pending, accepted, completed, to_string}
use atomic_mint_swap.Broker
use atomic_mint_swap.Database.Rows.{QuoteRecord, SwapRecord}
use atomic_mint_swap.Database.Quotes
use atomic_mint_swap.Database.Swaps
use atomic_mint_swap.Api.Types.{
  AppState, Handler, ApiError, QuoteRequest, AcceptQuoteRequest, AcceptQuoteResponse,
  CompleteQuoteRequest, CompleteQuoteResponse, bad_request, internal, on_broker, on_db,
}
use atomic_mint_swap.Api.Handlers.{
  swap_request, quote_record, load_quote, bad_status, client_key, swap_record, no_swap, or_empty,
}

module _ (env : Env) where
  open env use {World, cdk.{Proof}}

  pub data Handling : Type 0 where
    -- `request_quote`: before the broker's, and before `create_quote`
    asking : QuoteRequest → Handling
    inserting : SwapQuote env → QuoteRecord env → Handling
    asked : Outcome ApiError (SwapQuote env) → Handling
    -- `accept_quote`: before `get_quote`, before the broker's, before `update_quote_status` and
    -- before `create_swap`
    accepting : String → AcceptQuoteRequest → Handling
    paying : String → AcceptQuoteRequest → QuoteRecord env → Bytes → Handling
    marking : String → AcceptQuoteRequest → QuoteRecord env → String → Handling
    adding : String → AcceptQuoteRequest → QuoteRecord env → String → Handling
    answered : Outcome ApiError AcceptQuoteResponse → Handling
    -- `complete_quote`: before `get_quote`, before the broker's, before `update_quote_status`,
    -- before `get_swap_by_quote` and before `complete_swap`
    completing : String → CompleteQuoteRequest → Handling
    claiming : String → CompleteQuoteRequest → QuoteRecord env → List Proof → Handling
    closing : String → CompleteQuoteRequest → QuoteRecord env → Handling
    finding : String → CompleteQuoteRequest → QuoteRecord env → Handling
    finishing : CompleteQuoteRequest → QuoteRecord env → SwapRecord → Handling
    finished : Outcome ApiError CompleteQuoteResponse → Handling

  -- The segments of `request_quote`.
  unfoldable pub ask : QuoteRequest → Handler env (SwapQuote env × QuoteRecord env)
  ask req = do
    quote ← on_broker env (Broker.request_quote env (swap_request env req))
    created_at ← perform env.host.utc_now
    due ← perform (env.host.utc_after (as_i64 quote.expires_in))
    expires_at ← or_panic due
    pure (quote, quote_record env req quote created_at expires_at)

  unfoldable pub insert_quote : SwapQuote env → QuoteRecord env → Handler env (SwapQuote env)
  insert_quote quote row = do on_db env (Quotes.create_quote env row); pure quote

  -- The segments of `accept_quote`.
  unfoldable pub load_pending : String → AcceptQuoteRequest → Handler env (QuoteRecord env × Bytes)
  load_pending id req = do
    quote ← load_quote env id
    raise_if (not (quote.status == to_string pending))
        (bad_status env id " is not pending" quote.status)
    source_proofs ←
        or_fail (λ e. bad_request ("Invalid source_proofs JSON: " ++ e))
          (env.host.proofs_from_json req.source_proofs)
    client_pubkey ← client_key env quote
    pure (quote, client_pubkey)

  unfoldable pub pay : String → Bytes → Handler env String
  pay id client_pubkey = do
    proofs ← on_broker env (Broker.accept_quote env id client_pubkey)
    or_fail (λ e. internal ("Failed to serialize target proofs: " ++ e))
        (env.host.proofs_to_json proofs)

  unfoldable pub add_swap :
      String → AcceptQuoteRequest → QuoteRecord env → String → Handler env AcceptQuoteResponse
  add_swap id req quote target_proofs = do
    uuid ← perform env.host.new_uuid
    started_at ← perform env.host.utc_now
    on_db env (
        Swaps.create_swap env
          (swap_record env uuid id req target_proofs quote.adaptor_point started_at))
    pure (record { encrypted_signature = quote.adaptor_point; target_proofs = target_proofs })

  -- The segments of `complete_quote`.
  unfoldable pub load_accepted :
      String → CompleteQuoteRequest → Handler env (QuoteRecord env × List Proof)
  load_accepted id req = do
    quote ← load_quote env id
    raise_if (not (quote.status == to_string accepted))
        (bad_status env id " is not accepted" quote.status)
    client_proofs ←
        or_fail (λ e. bad_request ("Invalid decrypted_signature JSON (expected Proofs): " ++ e))
          (env.host.proofs_from_json req.decrypted_signature)
    pure (quote, client_proofs)

  unfoldable pub find_stored_swap : String → Handler env SwapRecord
  find_stored_swap id = do
    found ← on_db env (Swaps.get_swap_by_quote env id)
    or_raise found (no_swap env id)

  unfoldable pub finish_swap :
      CompleteQuoteRequest → QuoteRecord env → SwapRecord → Handler env CompleteQuoteResponse
  finish_swap req quote swap = do
    on_db env (
        Swaps.complete_swap env swap.id (or_empty env swap.target_proofs)
          (some req.decrypted_signature) (some quote.adaptor_point))
    pure (record { adaptor_secret = quote.adaptor_point; status = to_string completed })

  abbrev pub Resumed : Type 0
  Resumed = Handling × AppState env × World

  abbrev pub next :
      {A B : Type 0}
      → (A → Handling)
      → (Outcome ApiError B → Handling)
      → Outcome ApiError A × AppState env × World
      → Resumed
  next go stop (ok a, s, w) = (go a, s, w)
  next go stop (err e, s, w) = (stop (err e), s, w)
  next go stop (panic, s, w) = (stop panic, s, w)

  abbrev pub last :
      {B : Type 0}
      → (Outcome ApiError B → Handling)
      → Outcome ApiError B × AppState env × World
      → Resumed
  last stop (r, s, w) = (stop r, s, w)

  -- The next step of a handler that has not answered yet.
  unfoldable pub resume : Handling → AppState env → World → Option Resumed
  resume (asking req) s w = some (next (λ r. inserting r.0 r.1) asked (ask req s w))
  resume (inserting quote row) s w = some (last asked (insert_quote quote row s w))
  resume (accepting id req) s w =
      some (next (λ r. paying id req r.0 r.1) answered (load_pending id req s w))
  resume (paying id req row pk) s w = some (next (marking id req row) answered (pay id pk s w))
  resume (marking id req row tp) s w = some (
      next (λ _. adding id req row tp) answered
        (on_db env (Quotes.update_quote_status env id accepted none) s w))
  resume (adding id req row tp) s w = some (last answered (add_swap id req row tp s w))
  resume (completing id req) s w =
      some (next (λ r. claiming id req r.0 r.1) finished (load_accepted id req s w))
  resume (claiming id req row ps) s w =
      some (
        next (λ _. closing id req row) finished
          (on_broker env (Broker.complete_swap env id ps) s w))
  resume (closing id req row) s w = some (
      next (λ _. finding id req row) finished
        (on_db env (Quotes.update_quote_status env id completed none) s w))
  resume (finding id req row) s w =
      some (next (finishing req row) finished (find_stored_swap id s w))
  resume (finishing req row swap) s w = some (last finished (finish_swap req row swap s w))
  resume (asked r) s w = none
  resume (answered r) s w = none
  resume (finished r) s w = none
