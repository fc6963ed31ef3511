-- ===== src/Tests/Swap.antt =====
-- The theorems on swaps, applied to the swap of Tests/Scenario.antt.
use atomic_mint_swap.Base.{
  ◌-◌, ◌≤◌, String, ◌≡◌, refl, ◌≢◌, ◌⊎◌, ◌↔◌, none, some, [], ◌∷◌, arith, eq_iff, map,
}
use atomic_mint_swap.Base.Dict.{lookup}
use atomic_mint_swap.Effect.{ok, done}
use atomic_mint_swap.Types.Status.{
  pending, accepted, completed, to_string, from_str, lowercase, codes,
}
use atomic_mint_swap.Types.Status.RoundTrip.{from_str_iff}
use atomic_mint_swap.Adaptor.{adaptor_point_from_secret, add_scalars, point_to_compressed_bytes}
use atomic_mint_swap.Liquidity.{get_balance, get_wallet, add_proofs}
use atomic_mint_swap.Swap.Quote.{validate_swap_request, create_quote, supports}
use atomic_mint_swap.Swap.Quote.Validate.{IsServed, Validated, validate_swap_request-Validated}
use atomic_mint_swap.Swap.Quote.Created.{create_quote-terms, create_quote-tweaked_pubkey}
use atomic_mint_swap.Swap.Execute.{prepare_swap, complete_swap, bank, sum_amounts}
use atomic_mint_swap.Swap.Lifecycle.{status_of}
use atomic_mint_swap.Swap.Completed.{swaps_status}
use atomic_mint_swap.Swap.Complete.{Completes, complete_swap-Completes, complete_swap-unchecked}
use atomic_mint_swap.Swap.Lock.{Sends, prepare_swap-Sends}
use atomic_mint_swap.Tests.Sample.{sample, curve, group_laws}
use atomic_mint_swap.Tests.Scenario.{
  config, request, idle, quoted, held, offering, client_key, accepted_swap, complete_went,
  prepare_went, create_went, create_runs,
}

from_str_iff_example :
    (from_str "Pending" ≡ done pending)
    ↔ (map lowercase (codes "Pending") ≡ codes (to_string pending))
from_str_iff_example = from_str_iff "Pending" pending

validate_swap_request-Validated_example :
    Validated sample config request (validate_swap_request sample config request)
validate_swap_request-Validated_example = validate_swap_request-Validated sample config request

request-IsServed : IsServed sample config request
unfolding supports
request-IsServed = record {
  min_ok = omega arith;
  max_ok = omega arith;
  from_ok = refl;
  to_ok = refl;
  mints_differ = ground (arith, eq_iff "b" "a");
}

create_quote-terms_example :
    IsServed sample config request
    × (quoted.from_mint ≡ request.from_mint)
    × (quoted.to_mint ≡ request.to_mint)
    × (quoted.input_amount ≡ request.amount)
    × (quoted.fee
        ≡ sample.host.f64_as_u64 (
            sample.host.f64_ceil
              (sample.host.f64_mul (sample.host.f64_from_u64 request.amount) config.fee_rate)))
    × (quoted.fee_rate ≡ config.fee_rate)
    × (quoted.output_amount ≡ request.amount - quoted.fee)
    × (quoted.output_amount ≤ get_balance sample request.to_mint idle.manager)
    × (quoted.status ≡ pending)
create_quote-terms_example = create_quote-terms sample config request quoted idle 3 create_went

created_stored : lookup "id" (create_quote sample config request idle 3).1.quotes ≡ some held
unfolding lookup
created_stored = rw create_runs

create_quote-tweaked_pubkey_example :
    quoted.tweaked_pubkey
    ≡ some (point_to_compressed_bytes curve (adaptor_point_from_secret curve 7))
unfolding add_scalars
create_quote-tweaked_pubkey_example =
    create_quote-tweaked_pubkey sample config request quoted group_laws idle 3 held 7 create_went
      created_stored refl

prepare_swap-Sends_example :
    Sends sample held
      (point_to_compressed_bytes curve (adaptor_point_from_secret curve 12))
      offering
      ((995, 77) ∷ [])
unfolding add_scalars lookup adaptor_point_from_secret point_to_compressed_bytes
prepare_swap-Sends_example =
    prepare_swap-Sends sample group_laws "id" held 9 12 offering 10 ((995, 77) ∷ []) refl refl
      prepare_went

complete_swap-Completes_example :
    Completes sample "id"
      ((1000, 5) ∷ [])
      20
      accepted_swap
      (complete_swap sample "id" ((1000, 5) ∷ []) accepted_swap 20).1
complete_swap-Completes_example =
    complete_swap-Completes sample "id" ((1000, 5) ∷ []) accepted_swap 20 complete_went

swaps_status_example :
    let s1 = (prepare_swap sample "id" client_key offering 10).1 in
    let s2 = (complete_swap sample "id" ((1000, 5) ∷ []) offering 10).1 in
    ((status_of sample "id" s1 ≡ status_of sample "id" offering)
      ⊎ ((◌≡◌ {A = String} "id" "id")
          × (status_of sample "id" offering ≡ some pending)
          × (status_of sample "id" s1 ≡ some accepted)))
    × ((status_of sample "id" s2 ≡ status_of sample "id" offering)
        ⊎ ((◌≡◌ {A = String} "id" "id")
            × (status_of sample "id" offering ≢ none)
            × (status_of sample "id" s2 ≡ some completed)))
swaps_status_example = swaps_status sample "id" "id" client_key ((1000, 5) ∷ []) offering 10

-- One sat of the thousand completes a quote that is still pending.
complete_swap-unchecked_example :
    ((complete_swap sample "id" ((1, 5) ∷ []) offering 20).0 ≡ ok tt)
    × (status_of sample "id" (complete_swap sample "id" ((1, 5) ∷ []) offering 20).1
        ≡ some completed)
unfolding lookup add_scalars get_wallet sum_amounts bank add_proofs
complete_swap-unchecked_example =
    complete_swap-unchecked sample "id" held ((1, 5) ∷ []) offering 20 21 "b" (some ((1, 20) ∷ []))
      7 refl refl refl refl refl
