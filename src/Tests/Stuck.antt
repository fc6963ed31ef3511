-- ===== src/Tests/Stuck.antt =====
-- The database fails after the coordinator has accepted a quote.
use atomic_mint_swap.Base.{◌≢◌, refl, List, [], ◌∷◌}
use atomic_mint_swap.Base.Dict.{lookup, insert}
use atomic_mint_swap.Effect.{ok}
use atomic_mint_swap.Types.Status.{to_string}
use atomic_mint_swap.Adaptor.{
  adaptor_point_from_secret, tweak_public_key, point_to_compressed_bytes, compressed_bytes_to_point,
}
use atomic_mint_swap.Liquidity.{get_wallet}
use atomic_mint_swap.Swap.Execute.{
  prepare_swap, find_quote, client_lock, lock_tokens, pay_out, record_accepted, with_status,
}
use atomic_mint_swap.Broker
use atomic_mint_swap.Database.Quotes
use atomic_mint_swap.Database.Swaps
use atomic_mint_swap.Api.Types.{
  AppState, AcceptQuoteRequest, AcceptQuoteResponse, CompleteQuoteRequest, CompleteQuoteResponse,
}
use atomic_mint_swap.Api.Handlers.{
  accept_quote, complete_quote, load_quote, client_key, store_accepted, swap_record,
}
use atomic_mint_swap.Api.Behind.Serve.{Request, accept, complete, serve_all}
use atomic_mint_swap.Api.Stuck.{IsStuck, serve_all-stuck}
use atomic_mint_swap.Tests.Sample.{sample}
use atomic_mint_swap.Tests.Api.{offered}
use atomic_mint_swap.Tests.Api

-- The quote is loaded, and its tokens are paid out; the update of its status is the first statement
-- to fail.
abbrev left : AppState sample
left = (accept_quote sample "id" Api.accept offered 995).1

left-IsStuck : IsStuck sample "id" left
unfolding accept_quote load_quote Quotes.get_quote client_key Broker.accept_quote prepare_swap
    pay_out find_quote client_lock lock_tokens get_wallet lookup insert adaptor_point_from_secret
    tweak_public_key point_to_compressed_bytes compressed_bytes_to_point store_accepted
    Quotes.update_quote_status Quotes.find_quote Swaps.create_swap swap_record to_string
    record_accepted with_status
left-IsStuck = record { stored = refl; held = refl }

abbrev requests : List Request
requests = accept "id" Api.accept ∷ complete "id" Api.complete ∷ []

serve_all-stuck_example :
    ((req : AcceptQuoteRequest) (r : AcceptQuoteResponse)
      → (accept_quote sample "id" req (serve_all sample requests left 10).0 20).0 ≢ ok r)
    × ((req : CompleteQuoteRequest) (r : CompleteQuoteResponse)
        → (complete_quote sample "id" req (serve_all sample requests left 10).0 20).0 ≢ ok r)
serve_all-stuck_example = serve_all-stuck sample "id" requests left 10 20 tt left-IsStuck
