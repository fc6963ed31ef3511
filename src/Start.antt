-- ===== src/Start.antt =====
-- cashu-broker/src/main.rs, up to the bound listener, with `create_router` of api.rs and the
-- connection of db.rs.
pub mod Defaults
pub mod Fresh
use Prim.Native.String.{◌++◌}
use atomic_mint_swap.Base.{
  ℕ, String, Bool, true, false, ◌||◌, List, [], ◌∷◌, map, if◌then◌else◌, ◌==◌,
}
use atomic_mint_swap.Error.{BrokerError, database}
use atomic_mint_swap.Effect.{Attempt, Action, pure, perform, lift, ◌>>=◌, or_fail, attempt}
use atomic_mint_swap.Env.{Env}
use atomic_mint_swap.Types.{MintConfig, BrokerConfig}
use atomic_mint_swap.Config.{Reader, Config, Loading, from_env}
use atomic_mint_swap.Config
use atomic_mint_swap.Broker
use atomic_mint_swap.Database.Rows.{Tables}
use atomic_mint_swap.Api.Types.{AppState}

-- tower_http's layers: the permissive one, and the one that allows no origin.
pub data CorsLayer : Type 0 where
  permissive new : CorsLayer

-- `cors_origins.contains(&"*".to_string())`
unfoldable pub contains_star : List String → Bool
contains_star [] = false
contains_star (o ∷ os) = o == "*" || contains_star os

-- `create_router`: the layer of the router.
unfoldable pub cors_layer : List String → CorsLayer
unfolding contains_star
cors_layer cors_origins = if contains_star cors_origins then permissive else new

unfoldable pub mint_config : Config.MintConfig → MintConfig
mint_config m = record { mint_url = m.mint_url; name = m.name; unit = m.unit }

module _ (env : Env) where
  -- sqlx: the options of a URL, a pool of connections, and the tables that the migrations leave.
  pub record Storage : Type 1 where
    pub Options : Type 0
    pub Pool : Type 0
    pub options_from_str : String → Attempt String Options
    pub connect_with : Options → env.World → Attempt String Pool × env.World
    pub run_migrations : Pool → env.World → Attempt String (Tables env) × env.World

  unfoldable pub broker_config : Config env.host.F64 → BrokerConfig env
  unfolding mint_config
  broker_config config = record {
    mints = map mint_config config.mints;
    fee_rate = config.fee_rate;
    min_swap_amount = config.min_swap_amount;
    max_swap_amount = config.max_swap_amount;
    quote_expiry_seconds = config.quote_expiry_seconds;
  }

  pub record Server : Type 0 where
    pub state : AppState env
    pub cors : CorsLayer

  module _ (reader : Reader env.host.F64) (storage : Storage) where
    -- `Database::new` and `Database::migrate`
    unfoldable pub open_database : String → Loading env.World (Tables env)
    open_database database_url = do
      options ← or_fail database (storage.options_from_str database_url)
      pool ← attempt database (storage.connect_with options)
      attempt (λ e. database ("Migration failed: " ++ e)) (storage.run_migrations pool)

    -- `main`, less the log.
    unfoldable pub start : Loading env.World Server
    unfolding open_database broker_config cors_layer
    start = do
      config ← from_env reader
      db ← open_database config.database_url
      made ← perform (Broker.new env (broker_config config))
      service ← lift made
      pure (record {
        state = record { service = service; db = db };
        cors = cors_layer config.cors_origins;
      })
