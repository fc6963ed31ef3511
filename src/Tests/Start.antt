-- ===== src/Tests/Start.antt =====
-- The configuration and the start, with one mint configured.
use atomic_mint_swap.Base.{ℕ, String, ◌≡◌, ◌≢◌, ◌+◌, refl, none, [], ◌∷◌, map, ◌==◌, if◌then◌else◌}
use atomic_mint_swap.Base.Dict.{insert, lookup}
use atomic_mint_swap.Error.{other}
use atomic_mint_swap.Effect.{ok, err, done, refused}
use atomic_mint_swap.Types.{SwapQuote, default_config}
use atomic_mint_swap.Types.Status.{to_string}
use atomic_mint_swap.Database.Rows.{Tables}
use atomic_mint_swap.Database.Quotes
use atomic_mint_swap.Config.{
  Reader, Config, MintConfig, from_env, var_or, number_or, fee_rate_or, required_mints, is_empty,
  origins,
}
use atomic_mint_swap.Config.Text.{split_commas, trim, parse_unsigned, parse_codes}
use atomic_mint_swap.Config.Load.{Loads, IsLoaded, from_env-Loads}
use atomic_mint_swap.Liquidity.{can_swap, get_balance, add_mint, add_mints}
use atomic_mint_swap.Liquidity
use atomic_mint_swap.Broker
use atomic_mint_swap.Adaptor.{
  adaptor_point_from_secret, tweak_public_key, point_to_compressed_bytes, scalar_to_bytes,
}
use atomic_mint_swap.Swap.Quote.{
  create_quote, issue_quote, generate_keys, build_quote, store_quote, swap_fee, output_after_fee,
  validate_swap_request, supports,
}
use atomic_mint_swap.Start.{
  permissive, Storage, Server, start, open_database, broker_config, mint_config, cors_layer, new,
  contains_star,
}
use atomic_mint_swap.Start.Defaults.{only_mints, from_env-default_config}
use atomic_mint_swap.Start.Fresh.{IsFresh, start-IsFresh, start-forgets, start-offers_nothing}
use atomic_mint_swap.Api.Types.{
  QuoteRequest, AcceptQuoteRequest, AcceptQuoteResponse, CompleteQuoteRequest,
  CompleteQuoteResponse,
}
use atomic_mint_swap.Api.Handlers.{
  request_quote, swap_request, quote_record, accept_quote, complete_quote,
}
use atomic_mint_swap.Tests.Sample.{sample}
use atomic_mint_swap.Tests.Database.{one_quote, empty}
use atomic_mint_swap.Tests.Scenario.{config, quoted}

abbrev other_mint : MintConfig
other_mint = record { mint_url = "b"; name = "Mint B"; unit = "sat" }

abbrev mint : MintConfig
mint = record { mint_url = "a"; name = "Mint A"; unit = "sat" }

abbrev reader : Reader sample.host.F64
reader = record {
  parse_f64 = λ s. if s == "0.005" then done 5 else refused "invalid float literal";
  five_thousandths = 5;
  mints_from_json = λ s. if s == "[a,b]" then done (mint ∷ other_mint ∷ []) else done [];
}

-- A database that holds `tables`.
abbrev storage : Tables sample → Storage sample
storage tables = record {
  Options = String;
  Pool = String;
  options_from_str = λ s. done s;
  connect_with = λ o w. (done o, w + 1);
  run_migrations = λ p w. (done tables, w + 1);
}

-- `" a , b"` are two origins.
origins_trimmed : origins " a , b" ≡ "a" ∷ "b" ∷ []
unfolding origins split_commas trim
origins_trimmed = refl

-- A port beyond `u16`, a sign, and a text that is no number.
port_parsed :
    (parse_unsigned 65535 "65535" ≡ done 65535)
    × (parse_unsigned 65535 "+80" ≡ done 80)
    × (parse_unsigned 65535 "65536" ≡ refused "number too large to fit in target type")
    × (parse_unsigned 65535 "-1" ≡ refused "invalid digit found in string")
    × (parse_unsigned 65535 "" ≡ refused "cannot parse integer from empty string")
unfolding parse_unsigned parse_codes
port_parsed = (refl, refl, refl, refl, refl)

-- Without mints there is no configuration.
no_mints :
    (from_env {W = ℕ} reader (only_mints "[]") 0).0
    ≡ err (other "At least one mint must be configured")
unfolding from_env var_or number_or fee_rate_or required_mints is_empty origins split_commas trim
    parse_unsigned parse_codes
no_mints = refl

-- An origin that is not "*" is not passed on.
origin_ignored : cors_layer ("https://example.org" ∷ []) ≡ new
unfolding cors_layer contains_star
origin_ignored = refl

from_env-Loads_example : Loads IsLoaded (from_env {W = ℕ} reader (only_mints "[a,b]") 0)
from_env-Loads_example = from_env-Loads {W = ℕ} reader (only_mints "[a,b]") 0

from_env-default_config_example :
    (config : Config sample.host.F64) × (from_env {W = ℕ} reader (only_mints "[a,b]") 0
      ≡ (ok config, only_mints "[a,b]", 0))
    × (broker_config sample config
        ≡ record (default_config sample 5) { mints = map mint_config (mint ∷ other_mint ∷ []) })
from_env-default_config_example =
    from_env-default_config sample reader "[a,b]" mint (other_mint ∷ []) 0 refl refl

abbrev server : Tables sample → Server sample
server tables = record {
  state = record {
    service = record {
      config = config;
      coordinator = record {
        quotes = [];
        executions = [];
        manager = record {
          liquidity =
              ("a", record { mint_url = "a"; balance = 0; proofs = []; last_updated = 4 })
              ∷ ("b", record { mint_url = "b"; balance = 0; proofs = []; last_updated = 7 })
              ∷ [];
          wallets = ("a", "a") ∷ ("b", "b") ∷ [];
        };
      };
    };
    db = tables;
  };
  cors = permissive;
}

start_went :
    (tables : Tables sample)
    → (start sample reader (storage tables) (only_mints "[a,b]") 0).0 ≡ ok (server tables)
unfolding start from_env open_database broker_config Broker.new Liquidity.new add_mints add_mint
    insert var_or number_or fee_rate_or required_mints is_empty origins split_commas trim
    parse_unsigned parse_codes cors_layer contains_star mint_config
start_went tables = refl

start-IsFresh_example : IsFresh sample (server one_quote).state.service
start-IsFresh_example =
    start-IsFresh sample reader (storage one_quote) (only_mints "[a,b]") 0 (server one_quote)
      (start_went one_quote)

start-forgets_example :
    ((req : AcceptQuoteRequest) (r : AcceptQuoteResponse)
      → (accept_quote sample "id" req (server one_quote).state 9).0 ≢ ok r)
    × ((req : CompleteQuoteRequest) (r : CompleteQuoteResponse)
        → (complete_quote sample "id" req (server one_quote).state 9).0 ≢ ok r)
start-forgets_example =
    start-forgets sample reader (storage one_quote) (only_mints "[a,b]") 0 (server one_quote)
      (start_went one_quote) "id" 9

-- One sat, all of which is the fee.
abbrev ask : QuoteRequest
ask = record { source_mint = "b"; target_mint = "a"; amount = 1; user_pubkey = none }

abbrev one_sat : SwapQuote sample
one_sat = record quoted { input_amount = 1; output_amount = 0; fee = 1 }

ask_went : (request_quote sample ask (server empty).state 3).0 ≡ ok one_sat
unfolding request_quote swap_request quote_record Broker.request_quote create_quote issue_quote
    generate_keys build_quote store_quote swap_fee output_after_fee validate_swap_request supports
    can_swap get_balance lookup insert adaptor_point_from_secret tweak_public_key
    point_to_compressed_bytes scalar_to_bytes Quotes.create_quote to_string
ask_went = refl

start-offers_nothing_example : one_sat.output_amount ≡ 0
start-offers_nothing_example =
    start-offers_nothing sample reader (storage empty) (only_mints "[a,b]") 0 (server empty)
      (start_went empty) ask 3 one_sat ask_went
