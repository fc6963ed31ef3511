-- ===== src/Tests/Scenario.antt =====
-- A swap of 1000 sats from mint "b" to mint "a", at a fee of 0.5%: its states and its run.
use atomic_mint_swap.Base.{ℕ, String, ◌≡◌, refl, false, none, some, [], ◌∷◌}
use atomic_mint_swap.Base.Dict.{lookup, insert}
use atomic_mint_swap.Effect.{ok}
use atomic_mint_swap.Env.{Bytes}
use atomic_mint_swap.Types.{MintConfig, BrokerConfig, SwapRequest, SwapQuote}
use atomic_mint_swap.Types.Status.{pending, accepted}
use atomic_mint_swap.Adaptor.{
  adaptor_point_from_secret, add_scalars, tweak_public_key, point_to_compressed_bytes,
  compressed_bytes_to_point, scalar_to_bytes,
}
use atomic_mint_swap.Liquidity.{MintLiquidity, can_swap, get_balance, get_wallet, add_proofs}
use atomic_mint_swap.Swap.Quote.{
  QuoteData, Coordinator, QuoteKeys, validate_swap_request, create_quote, issue_quote,
  generate_keys, build_quote, store_quote, swap_fee, output_after_fee, supports,
}
use atomic_mint_swap.Swap.Execute.{
  prepare_swap, complete_swap, find_quote, client_lock, lock_tokens, pay_out, record_accepted,
  with_status, claim_tokens, close_swap, bank, finish_execution, finish_quote, sum_amounts,
}
use atomic_mint_swap.Tests.Sample.{sample, zeros}

abbrev pub mint_a : MintConfig
mint_a = record { mint_url = "a"; name = "Mint A"; unit = "sat" }

abbrev pub mint_b : MintConfig
mint_b = record { mint_url = "b"; name = "Mint B"; unit = "sat" }

abbrev pub config : BrokerConfig sample
config = record {
  mints = mint_a ∷ mint_b ∷ [];
  fee_rate = 5;
  min_swap_amount = 1;
  max_swap_amount = 10000;
  quote_expiry_seconds = 300;
}

abbrev pub request : SwapRequest
request = record {
  client_id = none;
  from_mint = "b";
  to_mint = "a";
  amount = 1000;
  client_public_key = none;
}

abbrev pub stocked : String → ℕ → MintLiquidity sample
stocked url n = record { mint_url = url; balance = n; proofs = (n, 1) ∷ []; last_updated = 0 }

abbrev pub idle : Coordinator sample
idle = record {
  quotes = [];
  executions = [];
  manager = record {
    liquidity = ("a", stocked "a" 5000) ∷ ("b", stocked "b" 0) ∷ [];
    wallets = ("a", "a") ∷ ("b", "b") ∷ [];
  };
}

abbrev pub keys : QuoteKeys sample
keys = record {
  adaptor_secret = 3;
  broker_swap_key = 4;
  adaptor_point_bytes = 3 ∷ zeros 32;
  broker_pubkey_bytes = 4 ∷ zeros 32;
  tweaked_pubkey_bytes = 7 ∷ zeros 32;
}

-- The quote of a coordinator whose world stands at 3: output 995, fee 5.
abbrev pub quoted : SwapQuote sample
quoted = record {
  quote_id = "id";
  from_mint = "b";
  to_mint = "a";
  input_amount = 1000;
  output_amount = 995;
  fee = 5;
  fee_rate = 5;
  broker_public_key = 4 ∷ zeros 32;
  adaptor_point = 3 ∷ zeros 32;
  tweaked_pubkey = some (7 ∷ zeros 32);
  adaptor_secret = 3 ∷ [];
  expires_in = 300;
  expires_at = some 305;
  status = pending;
}

abbrev pub held : QuoteData sample
held = record { quote = quoted; broker_swap_key = 4; adaptor_secret = 3 }

abbrev pub offering : Coordinator sample
offering = record idle { quotes = ("id", held) ∷ [] }

pub create_runs : create_quote sample config request idle 3 ≡ (ok quoted, offering, 7)
unfolding create_quote issue_quote generate_keys build_quote store_quote swap_fee output_after_fee
    validate_swap_request supports can_swap get_balance lookup insert adaptor_point_from_secret
    tweak_public_key point_to_compressed_bytes scalar_to_bytes
create_runs = refl

-- The client's key is 9, so the payout is locked to 12.
abbrev pub client_key : Bytes
client_key = 9 ∷ zeros 32

abbrev pub accepted_swap : Coordinator sample
accepted_swap = record idle {
  quotes = ("id", record held { quote = record quoted { status = accepted } }) ∷ [];
  executions =
      (
        "id",
        record {
          quote_id = "id";
          client_tokens = [];
          broker_tokens = 1 ∷ [];
          client_swap_complete = false;
          broker_swap_complete = false;
          completed_at = none;
        },
      )
      ∷ [];
}

pub prepare_runs :
    prepare_swap sample "id" client_key offering 10 ≡ (ok ((995, 77) ∷ []), accepted_swap, 15)
unfolding prepare_swap pay_out find_quote client_lock lock_tokens record_accepted with_status
    get_wallet lookup insert adaptor_point_from_secret tweak_public_key point_to_compressed_bytes
    compressed_bytes_to_point
prepare_runs = refl

pub prepare_went : (prepare_swap sample "id" client_key offering 10).0 ≡ ok ((995, 77) ∷ [])
prepare_went = rw prepare_runs

pub complete_went : (complete_swap sample "id" ((1000, 5) ∷ []) accepted_swap 20).0 ≡ ok tt
unfolding complete_swap find_quote claim_tokens close_swap bank finish_execution finish_quote
    add_proofs get_wallet sum_amounts lookup insert add_scalars
complete_went = refl

pub create_went : (create_quote sample config request idle 3).0 ≡ ok quoted
create_went = rw create_runs
