-- ===== src/Tests/Handlers.antt =====
-- Handlers that run at once, from a coordinator without quotes and an empty database.
use atomic_mint_swap.Base.{◌⊎◌, ℕ, zero, suc, Option, ◌≡◌, refl, some, none, List, [], ◌∷◌}
use atomic_mint_swap.Base.Dict.{lookup, insert}
use atomic_mint_swap.Adaptor.{
  adaptor_point_from_secret, add_scalars, tweak_public_key, point_to_compressed_bytes,
  compressed_bytes_to_point, scalar_to_bytes,
}
use atomic_mint_swap.Liquidity.{get_wallet, add_proofs, can_swap, get_balance}
use atomic_mint_swap.Swap.Quote.{
  create_quote, issue_quote, generate_keys, build_quote, store_quote, swap_fee, output_after_fee,
  validate_swap_request, supports,
}
use atomic_mint_swap.Swap.Execute.{
  prepare_swap, complete_swap, find_quote, client_lock, lock_tokens, pay_out, claim_tokens,
  close_swap, bank, finish_execution, finish_quote, sum_amounts, record_accepted,
}
use atomic_mint_swap.Types.Status.{to_string}
use atomic_mint_swap.Broker
use atomic_mint_swap.Database.Quotes
use atomic_mint_swap.Database.Swaps
use atomic_mint_swap.Api.Types.{AppState, QuoteRequest}
use atomic_mint_swap.Api.Handlers.{swap_request, quote_record, load_quote, client_key}
use atomic_mint_swap.Api.Behind.{IsBehind, IsPaid}
use atomic_mint_swap.Api.Tasks.{
  Handling, asking, accepting, completing, ask, insert_quote, load_pending, pay, load_accepted,
  find_stored_swap, resume,
}
use atomic_mint_swap.Api.Tasks.Runs.{Service, Move, move, Run, start, then_move}
use atomic_mint_swap.Api.Tasks.Behind.Interleaved.{Run-IsBehind}
use atomic_mint_swap.Tests.Sample.{sample}
use atomic_mint_swap.Api.Tasks.Behind.Payouts.{payouts, payouts-le_one}
use atomic_mint_swap.Swap.Lifecycle.{status_of}
use atomic_mint_swap.Database.Rows.{QuoteRecord}
use atomic_mint_swap.Database.Swaps.{find_swap}
use atomic_mint_swap.Tests.Database.{quote}
use atomic_mint_swap.Tests.Behind.{starting, starting-IsBehind}
use atomic_mint_swap.Tests.Api.{accept, complete}

abbrev request : QuoteRequest
request = record { source_mint = "b"; target_mint = "a"; amount = 1000; user_pubkey = some "09" }

-- What a handler's next step leaves.
abbrev resumed : Handling sample → AppState sample → ℕ → Handling sample × AppState sample × ℕ
resumed t s w = elim (resume sample t s w) [ none ↦ (t, s, w) | some m ↦ m ]

abbrev nth : ℕ → List (Handling sample) → Option (Handling sample)
nth n [] = none
nth zero (t ∷ ts) = some t
nth (suc n) (t ∷ ts) = nth n ts

abbrev set_nth : ℕ → Handling sample → List (Handling sample) → List (Handling sample)
set_nth n u [] = []
set_nth zero u (t ∷ ts) = u ∷ ts
set_nth (suc n) u (t ∷ ts) = t ∷ set_nth n u ts

-- The handlers that ask for a quote, accept it and complete it.
abbrev s0 : Service sample
s0 = record {
  handlings = asking request ∷ accepting "id" accept ∷ completing "id" complete ∷ [];
  app = starting;
  world = 3;
}

-- The handler that stands at `n` takes its next step.
abbrev goes : ℕ → Service sample → Service sample
goes n x = elim (nth n x.handlings) [
  | none ↦ x
  | some t ↦
      let m = resumed t x.app x.world in
      record { handlings = set_nth n m.0 x.handlings; app = m.1; world = m.2 }
]

abbrev s1 : Service sample
s1 = goes 0 s0

abbrev s2 : Service sample
s2 = goes 0 s1

abbrev s3 : Service sample
s3 = goes 1 s2

abbrev s4 : Service sample
s4 = goes 1 s3

abbrev s5 : Service sample
s5 = goes 2 s4

abbrev s6 : Service sample
s6 = goes 1 s5

abbrev get : ℕ → Service sample → Handling sample
get n x = elim (nth n x.handlings) [ none ↦ asking request | some t ↦ t ]

m1 : Move sample s0 s1
unfolding resume ask insert_quote swap_request quote_record Broker.request_quote create_quote
    issue_quote generate_keys build_quote store_quote swap_fee output_after_fee
    validate_swap_request supports can_swap get_balance lookup insert adaptor_point_from_secret
    tweak_public_key point_to_compressed_bytes scalar_to_bytes Quotes.create_quote to_string
    load_pending load_quote Quotes.get_quote client_key pay Broker.accept_quote prepare_swap pay_out
    find_quote client_lock lock_tokens get_wallet compressed_bytes_to_point record_accepted
    Quotes.update_quote_status load_accepted Broker.complete_swap complete_swap claim_tokens
    close_swap bank finish_execution finish_quote add_proofs sum_amounts add_scalars
    find_stored_swap Swaps.get_swap_by_quote
m1 = move [] (get 0 s0) (get 0 s1) (get 1 s0 ∷ get 2 s0 ∷ []) refl refl refl

m2 : Move sample s1 s2
unfolding resume ask insert_quote swap_request quote_record Broker.request_quote create_quote
    issue_quote generate_keys build_quote store_quote swap_fee output_after_fee
    validate_swap_request supports can_swap get_balance lookup insert adaptor_point_from_secret
    tweak_public_key point_to_compressed_bytes scalar_to_bytes Quotes.create_quote to_string
    load_pending load_quote Quotes.get_quote client_key pay Broker.accept_quote prepare_swap pay_out
    find_quote client_lock lock_tokens get_wallet compressed_bytes_to_point record_accepted
    Quotes.update_quote_status load_accepted Broker.complete_swap complete_swap claim_tokens
    close_swap bank finish_execution finish_quote add_proofs sum_amounts add_scalars
    find_stored_swap Swaps.get_swap_by_quote
m2 = move [] (get 0 s1) (get 0 s2) (get 1 s1 ∷ get 2 s1 ∷ []) refl refl refl

m3 : Move sample s2 s3
unfolding resume ask insert_quote swap_request quote_record Broker.request_quote create_quote
    issue_quote generate_keys build_quote store_quote swap_fee output_after_fee
    validate_swap_request supports can_swap get_balance lookup insert adaptor_point_from_secret
    tweak_public_key point_to_compressed_bytes scalar_to_bytes Quotes.create_quote to_string
    load_pending load_quote Quotes.get_quote client_key pay Broker.accept_quote prepare_swap pay_out
    find_quote client_lock lock_tokens get_wallet compressed_bytes_to_point record_accepted
    Quotes.update_quote_status load_accepted Broker.complete_swap complete_swap claim_tokens
    close_swap bank finish_execution finish_quote add_proofs sum_amounts add_scalars
    find_stored_swap Swaps.get_swap_by_quote
m3 = move (get 0 s2 ∷ []) (get 1 s2) (get 1 s3) (get 2 s2 ∷ []) refl refl refl

m4 : Move sample s3 s4
unfolding resume ask insert_quote swap_request quote_record Broker.request_quote create_quote
    issue_quote generate_keys build_quote store_quote swap_fee output_after_fee
    validate_swap_request supports can_swap get_balance lookup insert adaptor_point_from_secret
    tweak_public_key point_to_compressed_bytes scalar_to_bytes Quotes.create_quote to_string
    load_pending load_quote Quotes.get_quote client_key pay Broker.accept_quote prepare_swap pay_out
    find_quote client_lock lock_tokens get_wallet compressed_bytes_to_point record_accepted
    Quotes.update_quote_status load_accepted Broker.complete_swap complete_swap claim_tokens
    close_swap bank finish_execution finish_quote add_proofs sum_amounts add_scalars
    find_stored_swap Swaps.get_swap_by_quote
m4 = move (get 0 s3 ∷ []) (get 1 s3) (get 1 s4) (get 2 s3 ∷ []) refl refl refl

m5 : Move sample s4 s5
unfolding resume ask insert_quote swap_request quote_record Broker.request_quote create_quote
    issue_quote generate_keys build_quote store_quote swap_fee output_after_fee
    validate_swap_request supports can_swap get_balance lookup insert adaptor_point_from_secret
    tweak_public_key point_to_compressed_bytes scalar_to_bytes Quotes.create_quote to_string
    load_pending load_quote Quotes.get_quote client_key pay Broker.accept_quote prepare_swap pay_out
    find_quote client_lock lock_tokens get_wallet compressed_bytes_to_point record_accepted
    Quotes.update_quote_status load_accepted Broker.complete_swap complete_swap claim_tokens
    close_swap bank finish_execution finish_quote add_proofs sum_amounts add_scalars
    find_stored_swap Swaps.get_swap_by_quote
m5 = move (get 0 s4 ∷ get 1 s4 ∷ []) (get 2 s4) (get 2 s5) [] refl refl refl

m6 : Move sample s5 s6
unfolding resume ask insert_quote swap_request quote_record Broker.request_quote create_quote
    issue_quote generate_keys build_quote store_quote swap_fee output_after_fee
    validate_swap_request supports can_swap get_balance lookup insert adaptor_point_from_secret
    tweak_public_key point_to_compressed_bytes scalar_to_bytes Quotes.create_quote to_string
    load_pending load_quote Quotes.get_quote client_key pay Broker.accept_quote prepare_swap pay_out
    find_quote client_lock lock_tokens get_wallet compressed_bytes_to_point record_accepted
    Quotes.update_quote_status load_accepted Broker.complete_swap complete_swap claim_tokens
    close_swap bank finish_execution finish_quote add_proofs sum_amounts add_scalars
    find_stored_swap Swaps.get_swap_by_quote
m6 = move (get 0 s5 ∷ []) (get 1 s5) (get 1 s6) (get 2 s5 ∷ []) refl refl refl

run : Run sample s0 s6
run = then_move (then_move (then_move (then_move (then_move (then_move start m1) m2) m3) m4) m5) m6

Run-IsBehind_example : IsBehind sample s6.app
unfolding Quotes.find_quote m1 m2 m3 m4 m5 m6 run
Run-IsBehind_example =
    Run-IsBehind sample run ((((((tt, λ q e. refl), tt), tt), tt), tt), tt) (tt, (tt, (tt, tt)))
      starting-IsBehind

abbrev accepted_quote : QuoteRecord sample
accepted_quote = record quote { status = "accepted" }

payouts-le_one_example :
    (payouts sample "id" run ≡ 0)
    ⊎ ((payouts sample "id" run ≡ 1) × IsPaid (status_of sample "id" s6.app.service.coordinator))
unfolding Quotes.find_quote m1 m2 m3 m4 m5 m6 run
payouts-le_one_example =
    payouts-le_one sample "id" run ((((((tt, λ q e. refl), tt), tt), tt), tt), tt)
      (tt, (tt, (tt, tt))) starting-IsBehind
