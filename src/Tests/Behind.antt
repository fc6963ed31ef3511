-- ===== src/Tests/Behind.antt =====
-- A swap by the handlers, from a coordinator without quotes and an empty database.
use atomic_mint_swap.Base.{◌≡◌, refl, some, List, [], ◌∷◌}
use atomic_mint_swap.Base.Dict.{lookup, insert}
use atomic_mint_swap.Types.Status.{completed, to_string}
use atomic_mint_swap.Adaptor.{
  adaptor_point_from_secret, add_scalars, tweak_public_key, point_to_compressed_bytes,
  compressed_bytes_to_point, scalar_to_bytes,
}
use atomic_mint_swap.Liquidity.{get_wallet, add_proofs, can_swap, get_balance}
use atomic_mint_swap.Swap.Quote.{
  create_quote, issue_quote, generate_keys, build_quote, store_quote, swap_fee, output_after_fee,
  validate_swap_request, supports,
}
use atomic_mint_swap.Swap.Execute.{
  prepare_swap, complete_swap, find_quote, client_lock, lock_tokens, pay_out, claim_tokens,
  close_swap, bank, finish_execution, finish_quote, sum_amounts, record_accepted,
}
use atomic_mint_swap.Swap.Lifecycle.{status_of}
use atomic_mint_swap.Broker
use atomic_mint_swap.Database.Quotes
use atomic_mint_swap.Database.Swaps
use atomic_mint_swap.Database.Lookups.{status_at}
use atomic_mint_swap.Api.Types.{AppState}
use atomic_mint_swap.Api.Handlers.{
  request_quote, swap_request, quote_record, accept_quote, complete_quote, load_quote, client_key,
  store_accepted, store_completed, swap_record, or_empty,
}
use atomic_mint_swap.Api.Behind.{IsBehind}
use atomic_mint_swap.Api.Behind.Serve.{Request, quote, accept, complete, serve, serve_all}
use atomic_mint_swap.Tests.Sample.{sample}
use atomic_mint_swap.Tests.Scenario.{config, idle}
use atomic_mint_swap.Tests.Database.{empty}

abbrev pub starting : AppState sample
starting = record { service = record { config = config; coordinator = idle }; db = empty }

abbrev requests : List Request
requests =
    quote (record { source_mint = "b"; target_mint = "a"; amount = 1000; user_pubkey = some "09" })
    ∷ accept "id" (record { source_proofs = "[]" })
    ∷ complete "id" (record { decrypted_signature = "[]" })
    ∷ []

-- The swap is completed in both.
requests_run :
    let s = (serve_all sample requests starting 3).0 in
    (status_at sample "id" s.db.quotes ≡ some (to_string completed))
    × (status_of sample "id" s.service.coordinator ≡ some completed)
unfolding serve_all serve request_quote swap_request quote_record Broker.request_quote create_quote
    issue_quote generate_keys build_quote store_quote swap_fee output_after_fee
    validate_swap_request supports can_swap get_balance lookup insert adaptor_point_from_secret
    tweak_public_key point_to_compressed_bytes scalar_to_bytes Quotes.create_quote to_string
    accept_quote load_quote Quotes.get_quote client_key Broker.accept_quote prepare_swap pay_out
    find_quote client_lock lock_tokens get_wallet compressed_bytes_to_point store_accepted
    Quotes.update_quote_status Swaps.create_swap swap_record complete_quote Broker.complete_swap
    complete_swap claim_tokens close_swap bank finish_execution finish_quote add_proofs sum_amounts
    add_scalars store_completed Swaps.get_swap_by_quote Swaps.complete_swap or_empty record_accepted
requests_run = (refl, refl)

pub starting-IsBehind : IsBehind sample starting
unfolding Quotes.find_quote
starting-IsBehind = record {
  at = λ id. record { paid_out = λ h. absurd (cc); was_completed = λ h. absurd (cc) };
}
