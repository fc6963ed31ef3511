-- ===== src/Start/Defaults.antt =====
-- The defaults of cashu-broker/src/config.rs and those of `BrokerConfig` in types.rs.
use atomic_mint_swap.Base.{String, ◌≡◌, refl, none, some, List, [], ◌∷◌, map, ◌==◌, if◌then◌else◌}
use atomic_mint_swap.Effect.{ok, done}
use atomic_mint_swap.Env.{Env}
use atomic_mint_swap.Types.{default_config}
use atomic_mint_swap.Config.{
  Vars, Reader, Config, MintConfig, from_env, var_or, number_or, fee_rate_or, required_mints,
  is_empty,
}
use atomic_mint_swap.Config.Text.{parse_unsigned, parse_codes, split_commas, trim}
use atomic_mint_swap.Start.{broker_config, mint_config}

-- The environment in which only MINTS is set.
abbrev pub only_mints : String → Vars
only_mints json name = if name == "MINTS" then some json else none

module _ (env : Env) (reader : Reader env.host.F64) where
  -- Where no variable but MINTS is set, its text is read as a list of at least one mint, and the text
  -- 0.005 is parsed as the literal 0.005, `from_env` succeeds, and the broker is configured by
  -- `BrokerConfig::default` with those mints.
  pub from_env-default_config :
      (json : String) (m : MintConfig) (ms : List MintConfig) (w : env.World)
      → reader.parse_f64 "0.005" ≡ done reader.five_thousandths
      → reader.mints_from_json json ≡ done (m ∷ ms)
      → (config : Config env.host.F64) × (from_env reader (only_mints json) w
          ≡ (ok config, only_mints json, w))
        × (broker_config env config ≡ record (default_config env reader.five_thousandths) {
          mints = map mint_config (m ∷ ms);
        })
  unfolding from_env broker_config default_config number_or fee_rate_or required_mints var_or
      is_empty split_commas trim parse_unsigned parse_codes
  from_env-default_config json m ms w fee mints = (
    record {
      host = "0.0.0.0";
      port = 3000;
      database_url = "sqlite://broker.db";
      log_level = "info";
      cors_origins = "*" ∷ [];
      fee_rate = reader.five_thousandths;
      min_swap_amount = 1;
      max_swap_amount = 10000;
      quote_expiry_seconds = 300;
      mints = m ∷ ms;
    },
    rw (fee, mints),
    refl,
  )
