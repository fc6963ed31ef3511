-- ===== src/Tests/Api.antt =====
-- The handlers on the swap of Tests/Scenario.antt and the database of Tests/Database.antt.
use mathlib.Core.List.Perm
use atomic_mint_swap.Api.Reads.{MetricsResponse, sum_as_u64, metrics, get_metrics}
use atomic_mint_swap.Api.Refusals.{refusal, closed_refused}
use atomic_mint_swap.Api.Metrics.{Measures, get_metrics-Measures}
use atomic_mint_swap.Env.Laws.{OrderLaws}
use atomic_mint_swap.Database.Rows.{QuoteRecord, limit_rows}
use atomic_mint_swap.Base.{
  List, ◌++◌, Perm, length, min, some, none, String, Option, false, arith, eq_iff, ◌==◌, ◌≡◌, refl,
  [], ◌∷◌,
}
use atomic_mint_swap.Base.Dict.{lookup, insert}
use atomic_mint_swap.Effect.{ok, err}
use atomic_mint_swap.Adaptor.{
  adaptor_point_from_secret, add_scalars, tweak_public_key, point_to_compressed_bytes,
  compressed_bytes_to_point, scalar_to_bytes,
}
use atomic_mint_swap.Liquidity.{get_wallet, add_proofs, can_swap, get_balance}
use atomic_mint_swap.Swap.Quote.{
  create_quote, issue_quote, generate_keys, build_quote, store_quote, swap_fee, output_after_fee,
  validate_swap_request, supports,
}
use atomic_mint_swap.Swap.Execute.{
  prepare_swap, complete_swap, find_quote, client_lock, lock_tokens, pay_out, claim_tokens,
  close_swap, bank, finish_execution, finish_quote, sum_amounts,
}
use atomic_mint_swap.Broker
use atomic_mint_swap.Database.Quotes
use atomic_mint_swap.Database.Swaps
use atomic_mint_swap.Api.Types.{
  into_response, AppState, QuoteRequest, AcceptQuoteRequest, AcceptQuoteResponse,
  CompleteQuoteRequest, CompleteQuoteResponse,
}
use atomic_mint_swap.Api.Handlers.{
  request_quote, swap_request, quote_record, accept_quote, complete_quote, load_quote, client_key,
  store_accepted, store_completed, swap_record, or_empty,
}
use atomic_mint_swap.Api.Agreement.{Accepts, accept_quote-Accepts}
use atomic_mint_swap.Api.Offer.{Offers, request_quote-Offers}
use atomic_mint_swap.Api.Completion.{Finishes, complete_quote-Finishes}
use atomic_mint_swap.Types.Status.{to_string}
use atomic_mint_swap.Tests.Sample.{sample, driver}
use atomic_mint_swap.Tests.Scenario.{config, idle, quoted, offering, accepted_swap}
use atomic_mint_swap.Tests.Database.{quote, swap, empty, one_quote}

abbrev pub offered : AppState sample
offered = record { service = record { config = config; coordinator = offering }; db = one_quote }

abbrev pub accept : AcceptQuoteRequest
accept = record { source_proofs = "[]" }

abbrev accept_response : AcceptQuoteResponse
accept_response = record { encrypted_signature = "03"; target_proofs = "[]" }

accept_went : (accept_quote sample "id" accept offered 10).0 ≡ ok accept_response
unfolding accept_quote load_quote Quotes.get_quote client_key Broker.accept_quote prepare_swap
    pay_out find_quote client_lock lock_tokens get_wallet lookup insert adaptor_point_from_secret
    tweak_public_key point_to_compressed_bytes compressed_bytes_to_point store_accepted
    Quotes.update_quote_status Swaps.create_swap swap_record to_string
accept_went = refl

accept_quote-Accepts_example :
    Accepts sample "id" offered (accept_quote sample "id" accept offered 10).1
accept_quote-Accepts_example =
    accept_quote-Accepts sample "id" accept offered 10 accept_response accept_went

abbrev accepted_state : AppState sample
accepted_state = record {
  service = record { config = config; coordinator = accepted_swap };
  db = record one_quote { quotes = record quote { status = "accepted" } ∷ []; swaps = swap ∷ [] };
}

abbrev pub complete : CompleteQuoteRequest
complete = record { decrypted_signature = "[]" }

abbrev complete_response : CompleteQuoteResponse
complete_response = record { adaptor_secret = "03"; status = "completed" }

complete_went : (complete_quote sample "id" complete accepted_state 20).0 ≡ ok complete_response
unfolding complete_quote load_quote Quotes.get_quote Broker.complete_swap complete_swap find_quote
    claim_tokens close_swap bank finish_execution finish_quote add_proofs get_wallet sum_amounts
    lookup insert add_scalars store_completed Quotes.update_quote_status Swaps.get_swap_by_quote
    Swaps.complete_swap or_empty to_string
complete_went = refl

complete_quote-Finishes_example :
    Finishes sample "id" accepted_state (complete_quote sample "id" complete accepted_state 20).1
complete_quote-Finishes_example =
    complete_quote-Finishes sample "id" complete accepted_state 20 complete_response complete_went

abbrev starting : AppState sample
starting = record { service = record { config = config; coordinator = idle }; db = empty }

abbrev ask : QuoteRequest
ask = record { source_mint = "b"; target_mint = "a"; amount = 1000; user_pubkey = none }

request_went : (request_quote sample ask starting 3).0 ≡ ok quoted
unfolding request_quote swap_request quote_record Broker.request_quote create_quote issue_quote
    generate_keys build_quote store_quote swap_fee output_after_fee validate_swap_request supports
    can_swap get_balance lookup insert adaptor_point_from_secret tweak_public_key
    point_to_compressed_bytes scalar_to_bytes Quotes.create_quote to_string
request_went = refl

request_quote-Offers_example : Offers sample quoted (request_quote sample ask starting 3).1
request_quote-Offers_example = request_quote-Offers sample ask starting 3 quoted request_went

order_laws : OrderLaws driver
order_laws = record { order_perm = λ A key rows. Perm.refl rows }

abbrev measured : MetricsResponse
measured = record {
  total_quotes = 1;
  completed_swaps = 0;
  failed_swaps = 0;
  total_volume = 0;
  total_fees = 0;
}

metrics_went : (get_metrics sample offered 0).0 ≡ ok measured
unfolding get_metrics Quotes.list_quotes Quotes.with_status metrics sum_as_u64 limit_rows to_string
metrics_went = refl

get_metrics-Measures_example :
    (counted : List (QuoteRecord sample)) × (others : List (QuoteRecord sample)) × Perm
      offered.db.quotes
      (counted ++ others)
    × (length counted ≡ min 10000 (length offered.db.quotes))
    × Measures sample counted measured
get_metrics-Measures_example =
    get_metrics-Measures sample order_laws offered 0 measured metrics_went

differ : (a b : String) → (a == b) ≡ false → ◌≡◌ {A = Option String} (some a) (some b) → ⊥
differ a b h e = let same : a ≡ b = cc in ground (arith, (eq_iff a b).1 same)

-- A quote that has expired.
abbrev closed_state : AppState sample
closed_state = record offered {
  db = record one_quote { quotes = record quote { status = "expired" } ∷ [] };
}

closed_refused_example :
    let accepting = refusal sample "id" " is not pending" (some "expired") in
    let completing = refusal sample "id" " is not accepted" (some "expired") in
    (accept_quote sample "id" accept closed_state 5 ≡ (err accepting, closed_state, 6))
    × (complete_quote sample "id" complete closed_state 5 ≡ (err completing, closed_state, 6))
    × ((into_response accepting).status ≡ 400)
    × ((into_response completing).status ≡ 400)
unfolding Quotes.find_quote to_string
closed_refused_example =
    closed_refused sample "id" closed_state 5 refl accept complete (differ "expired" "pending" refl)
      (differ "expired" "accepted" refl)
