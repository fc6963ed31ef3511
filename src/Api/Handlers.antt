-- ===== src/Api/Handlers.antt =====
-- The handlers that change state: `request_quote`, `accept_quote` and `complete_quote`.
use Prim.Native.String.{◌++◌}
use mathlib.Core.Option
use atomic_mint_swap.Base.{String, not, Option, none, some, ◌==◌}
use atomic_mint_swap.Base.Word.{as_i64}
use atomic_mint_swap.Effect.{
  done, refused, pure, or_panic, or_raise, perform, raise_if, ◌>>=◌, ◌>>◌, or_fail,
}
use atomic_mint_swap.Env.{Env, Bytes}
use atomic_mint_swap.Types.{SwapRequest, SwapQuote}
use atomic_mint_swap.Types.Status.{pending, accepted, completed, to_string}
use atomic_mint_swap.Broker
use atomic_mint_swap.Database.Rows.{QuoteRecord, SwapRecord}
use atomic_mint_swap.Database.Quotes
use atomic_mint_swap.Database.Swaps
use atomic_mint_swap.Api.Types.{
  Handler, QuoteRequest, AcceptQuoteRequest, AcceptQuoteResponse, CompleteQuoteRequest,
  CompleteQuoteResponse, ApiError, internal, bad_request, not_found, on_broker, on_db,
}

module _ (env : Env) where
  -- `hex::decode(hex_str).ok()`
  unfoldable pub decode_ok : String → Option Bytes
  decode_ok hex = elim (env.host.hex_decode hex) [ done b ↦ some b | refused _ ↦ none ]

  unfoldable pub swap_request : QuoteRequest → SwapRequest
  unfolding decode_ok
  swap_request req = record {
    client_id = none;
    from_mint = req.source_mint;
    to_mint = req.target_mint;
    amount = req.amount;
    client_public_key = Option.bind req.user_pubkey decode_ok;
  }

  -- `tweaked_pubkey.as_ref().map(hex::encode).unwrap_or_default()`
  unfoldable pub encode_or_empty : Option Bytes → String
  encode_or_empty none = ""
  encode_or_empty (some b) = env.host.hex_encode b

  unfoldable pub quote_record : QuoteRequest → SwapQuote env → String → String → QuoteRecord env
  unfolding encode_or_empty
  quote_record req quote created_at expires_at = record {
    id = quote.quote_id;
    source_mint = quote.from_mint;
    target_mint = quote.to_mint;
    amount_in = as_i64 quote.input_amount;
    amount_out = as_i64 quote.output_amount;
    fee = as_i64 quote.fee;
    fee_rate = quote.fee_rate;
    broker_pubkey = env.host.hex_encode quote.broker_public_key;
    adaptor_point = env.host.hex_encode quote.adaptor_point;
    tweaked_pubkey = encode_or_empty quote.tweaked_pubkey;
    status = to_string pending;
    created_at = created_at;
    expires_at = expires_at;
    accepted_at = none;
    completed_at = none;
    user_pubkey = req.user_pubkey;
    error_message = none;
  }

  unfoldable pub request_quote : QuoteRequest → Handler env (SwapQuote env)
  request_quote req = do
    quote ← on_broker env (Broker.request_quote env (swap_request req))
    created_at ← perform env.host.utc_now
    due ← perform (env.host.utc_after (as_i64 quote.expires_in))
    expires_at ← or_panic due
    on_db env (Quotes.create_quote env (quote_record req quote created_at expires_at))
    pure quote

  unfoldable pub no_quote : String → ApiError
  no_quote id = not_found ("Quote " ++ (id ++ " not found"))

  unfoldable pub load_quote : String → Handler env (QuoteRecord env)
  load_quote id = do found ← on_db env (Quotes.get_quote env id); or_raise found (no_quote id)

  unfoldable pub bad_status : String → String → String → ApiError
  bad_status id wanted status =
      bad_request ("Quote " ++ (id ++ (wanted ++ (" (status: " ++ (status ++ ")")))))

  -- The client's key, from the quote's record.
  unfoldable pub client_key : QuoteRecord env → Handler env Bytes
  client_key quote = do
    hex ← or_raise quote.user_pubkey (bad_request "No user_pubkey provided in quote")
    or_fail (λ e. bad_request ("Invalid client pubkey hex: " ++ e)) (env.host.hex_decode hex)

  -- The record of an accepted swap, with the adaptor point for a signature.
  unfoldable pub swap_record :
      String → String → AcceptQuoteRequest → String → String → String → SwapRecord
  swap_record uuid id req target_proofs encrypted_signature started_at = record {
    id = uuid;
    quote_id = id;
    source_proofs = req.source_proofs;
    target_proofs = some target_proofs;
    encrypted_signature = some encrypted_signature;
    decrypted_signature = none;
    adaptor_secret = none;
    started_at = started_at;
    completed_at = none;
  }

  -- What `accept_quote` writes to the database.
  unfoldable pub store_accepted :
      String → AcceptQuoteRequest → QuoteRecord env → String → Handler env AcceptQuoteResponse
  store_accepted id req quote target_proofs = do
    on_db env (Quotes.update_quote_status env id accepted none)
    uuid ← perform env.host.new_uuid
    started_at ← perform env.host.utc_now
    on_db env (
        Swaps.create_swap env
          (swap_record uuid id req target_proofs quote.adaptor_point started_at))
    pure (record { encrypted_signature = quote.adaptor_point; target_proofs = target_proofs })

  unfoldable pub accept_quote : String → AcceptQuoteRequest → Handler env AcceptQuoteResponse
  accept_quote id req = do
    quote ← load_quote id
    raise_if (not (quote.status == to_string pending))
        (bad_status id " is not pending" quote.status)
    source_proofs ←
        or_fail (λ e. bad_request ("Invalid source_proofs JSON: " ++ e))
          (env.host.proofs_from_json req.source_proofs)
    client_pubkey ← client_key quote
    proofs ← on_broker env (Broker.accept_quote env id client_pubkey)
    target_proofs ←
        or_fail (λ e. internal ("Failed to serialize target proofs: " ++ e))
          (env.host.proofs_to_json proofs)
    store_accepted id req quote target_proofs

  -- `as_deref().unwrap_or("")`
  unfoldable pub or_empty : Option String → String
  or_empty none = ""
  or_empty (some s) = s

  unfoldable pub no_swap : String → ApiError
  no_swap id = not_found ("Swap for quote " ++ (id ++ " not found"))

  -- What `complete_quote` writes to the database, and its response.
  unfoldable pub store_completed :
      String → CompleteQuoteRequest → QuoteRecord env → Handler env CompleteQuoteResponse
  store_completed id req quote = do
    on_db env (Quotes.update_quote_status env id completed none)
    found ← on_db env (Swaps.get_swap_by_quote env id)
    swap ← or_raise found (no_swap id)
    on_db env (
        Swaps.complete_swap env swap.id (or_empty swap.target_proofs) (some req.decrypted_signature)
          (some quote.adaptor_point))
    pure (record { adaptor_secret = quote.adaptor_point; status = to_string completed })

  unfoldable pub complete_quote : String → CompleteQuoteRequest → Handler env CompleteQuoteResponse
  complete_quote id req = do
    quote ← load_quote id
    raise_if (not (quote.status == to_string accepted))
        (bad_status id " is not accepted" quote.status)
    client_proofs ←
        or_fail (λ e. bad_request ("Invalid decrypted_signature JSON (expected Proofs): " ++ e))
          (env.host.proofs_from_json req.decrypted_signature)
    on_broker env (Broker.complete_swap env id client_proofs)
    store_completed id req quote
