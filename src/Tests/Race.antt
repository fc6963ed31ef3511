-- ===== src/Tests/Race.antt =====
-- A handler that completes a quote while another accepts it, on the quote of Tests/Api.antt.
use atomic_mint_swap.Base.{◌≡◌, refl, some, none, [], ◌∷◌}
use atomic_mint_swap.Base.Dict.{lookup, insert}
use atomic_mint_swap.Effect.{ok, err}
use atomic_mint_swap.Types.Status.{accepted, completed, to_string}
use atomic_mint_swap.Adaptor.{
  adaptor_point_from_secret, add_scalars, tweak_public_key, point_to_compressed_bytes,
  compressed_bytes_to_point,
}
use atomic_mint_swap.Liquidity.{get_wallet, add_proofs}
use atomic_mint_swap.Swap.Execute.{
  prepare_swap, complete_swap, find_quote, client_lock, lock_tokens, pay_out, claim_tokens,
  close_swap, bank, finish_execution, finish_quote, sum_amounts, record_accepted,
}
use atomic_mint_swap.Swap.Lifecycle.{status_of}
use atomic_mint_swap.Broker
use atomic_mint_swap.Database.Rows.{QuoteRecord}
use atomic_mint_swap.Database.Quotes
use atomic_mint_swap.Database.Swaps.{find_swap}
use atomic_mint_swap.Database.Lookups.{status_at}
use atomic_mint_swap.Api.Types.{AppState, on_broker, on_db}
use atomic_mint_swap.Api.Handlers.{load_quote, client_key, no_swap}
use atomic_mint_swap.Api.Tasks.{
  accepting, adding, completing, finished, load_pending, pay, load_accepted,
}
use atomic_mint_swap.Api.Tasks.Runs.{Service, Run}
use atomic_mint_swap.Api.Tasks.Race.{complete_quote-race}
use atomic_mint_swap.Tests.Sample.{sample, zeros}
use atomic_mint_swap.Tests.Scenario.{config, accepted_swap}
use atomic_mint_swap.Tests.Database.{quote, one_quote}
use atomic_mint_swap.Tests.Api.{offered, accept, complete}

abbrev paid : AppState sample
paid = record offered { service = record { config = config; coordinator = accepted_swap } }

abbrev marked_row : QuoteRecord sample
marked_row = record quote { status = "accepted"; accepted_at = some "2025-01-17T00:00:00+00:00" }

abbrev marked : AppState sample
marked = record paid { db = record one_quote { quotes = marked_row ∷ [] } }

-- `complete_swap` of the coordinator on no proofs of the client.
abbrev claimed : AppState sample
claimed = record marked {
  service = record marked.service {
    coordinator = (complete_swap sample "id" [] accepted_swap 19).1;
  };
}

loads : load_pending sample "id" accept offered 10 ≡ (ok (quote, 9 ∷ zeros 32), offered, 11)
unfolding load_pending load_quote Quotes.get_quote client_key to_string
loads = refl

pays : pay sample "id" (9 ∷ zeros 32) offered 11 ≡ (ok "[]", paid, 16)
unfolding pay Broker.accept_quote prepare_swap pay_out find_quote client_lock lock_tokens
    record_accepted get_wallet lookup insert adaptor_point_from_secret tweak_public_key
    point_to_compressed_bytes compressed_bytes_to_point
pays = refl

marks :
    on_db sample (Quotes.update_quote_status sample "id" accepted none) paid 16
    ≡ (ok tt, marked, 18)
unfolding Quotes.update_quote_status to_string
marks = refl

reloads : load_accepted sample "id" complete marked 18 ≡ (ok (marked_row, []), marked, 19)
unfolding load_accepted load_quote Quotes.get_quote to_string
reloads = refl

claims : on_broker sample (Broker.complete_swap sample "id" []) marked 19 ≡ (ok tt, claimed, 22)
unfolding Broker.complete_swap complete_swap find_quote claim_tokens close_swap bank
    finish_execution finish_quote add_proofs get_wallet sum_amounts lookup insert add_scalars
claims = refl

complete_quote-race_example :
    (y : Service sample) × Run sample
      (record {
        handlings = accepting "id" accept ∷ completing "id" complete ∷ [];
        app = offered;
        world = 10;
      })
      y
    × (y.handlings ≡ adding "id" accept quote "[]" ∷ finished (err (no_swap sample "id")) ∷ [])
    × (status_of sample "id" y.app.service.coordinator ≡ some completed)
    × (status_at sample "id" y.app.db.quotes ≡ some (to_string completed))
    × (find_swap (λ s. s.quote_id) "id" y.app.db.swaps ≡ none)
unfolding find_swap
complete_quote-race_example =
    complete_quote-race sample "id" accept complete quote marked_row (9 ∷ zeros 32) "[]" [] offered
      offered paid marked marked claimed 10 11 16 18 19 22 loads pays marks reloads claims refl refl
      refl
