-- ===== src/Config.antt =====
-- cashu-broker/src/config.rs: the configuration, from environment variables.
pub mod Text
pub mod Load
use Prim.Native.String.{◌++◌}
use atomic_mint_swap.Base.{
  ℕ, ◌-◌, ◌^◌, String, ◌≡◌, Bool, true, false, Option, none, some, List, [], ◌∷◌, map,
}
use atomic_mint_swap.Base.Word.{u64_mod}
use atomic_mint_swap.Error.{BrokerError, other}
use atomic_mint_swap.Effect.{
  Outcome, ok, err, panic, Attempt, done, refused, Action, pure, gets, or_raise, raise_if, or_fail,
  ◌>>=◌, ◌>>◌,
}
use Text.{parse_unsigned, split_commas, trim}

-- `std::env::var`, after `dotenvy` has added what its file holds: `none` is a variable that is not
-- set or not Unicode.
abbrev pub Vars : Type 0
Vars = String → Option String

pub record MintConfig : Type 0 where
  pub mint_url : String
  pub name : String
  pub unit : String

-- `f64` and serde_json: `str::parse`, the literal 0.005, and `from_str` of a list of mints.
pub record Reader (F64 : Type 0) : Type 0 where
  pub parse_f64 : String → Attempt String F64
  pub five_thousandths : F64
  pub mints_from_json : String → Attempt String (List MintConfig)

pub record Config (F64 : Type 0) : Type 0 where
  pub host : String
  pub port : ℕ
  pub database_url : String
  pub log_level : String
  pub cors_origins : List String
  pub fee_rate : F64
  pub min_swap_amount : ℕ
  pub max_swap_amount : ℕ
  pub quote_expiry_seconds : ℕ
  pub mints : List MintConfig

-- `env::var(name).unwrap_or_else(|_| default.to_string())`
unfoldable pub var_or : String → String → Vars → String
var_or name default vars = elim (vars name) [ none ↦ default | some value ↦ value ]

abbrev pub Loading : Type 0 → Type 0 → Type 0
Loading W A = Action W Vars BrokerError A

-- `.parse().map_err(|e| BrokerError::Other(anyhow!("Invalid …: {}", e)))?`
unfoldable pub number_or : {W : Type 0} → (max : ℕ) → (name default : String) → Loading W ℕ
unfolding var_or
number_or max name default = do
  text ← gets (var_or name default)
  or_fail (λ e. other ("Invalid " ++ (name ++ (": " ++ e)))) (parse_unsigned max text)

-- The origins, of which each is trimmed.
unfoldable pub origins : String → List String
origins text = map trim (split_commas text)

unfoldable pub is_empty : {A : Type 0} → List A → Bool
is_empty [] = true
is_empty (x ∷ xs) = false

module _ {W F64 : Type 0} (reader : Reader F64) where
  unfoldable pub fee_rate_or : (name default : String) → Loading W F64
  unfolding var_or
  fee_rate_or name default = do
    text ← gets (var_or name default)
    or_fail (λ e. other ("Invalid " ++ (name ++ (": " ++ e)))) (reader.parse_f64 text)

  unfoldable pub required_mints : Loading W (List MintConfig)
  unfolding is_empty
  required_mints = do
    found ← gets (λ vars. vars "MINTS")
    mints_json ← or_raise found (other "MINTS environment variable is required")
    mints ← or_fail (λ e. other ("Invalid MINTS JSON: " ++ e)) (reader.mints_from_json mints_json)
    raise_if (is_empty mints) (other "At least one mint must be configured")
    pure mints

  -- `Config::from_env`
  unfoldable pub from_env : Loading W (Config F64)
  unfolding var_or origins
  from_env = do
    host ← gets (var_or "HOST" "0.0.0.0")
    port ← number_or (2 ^ 16 - 1) "PORT" "3000"
    database_url ← gets (var_or "DATABASE_URL" "sqlite://broker.db")
    log_level ← gets (var_or "LOG_LEVEL" "info")
    cors_origins ← gets (var_or "CORS_ORIGINS" "*")
    fee_rate ← fee_rate_or "FEE_RATE" "0.005"
    min_swap_amount ← number_or (u64_mod - 1) "MIN_SWAP_AMOUNT" "1"
    max_swap_amount ← number_or (u64_mod - 1) "MAX_SWAP_AMOUNT" "10000"
    quote_expiry_seconds ← number_or (u64_mod - 1) "QUOTE_EXPIRY_SECONDS" "300"
    mints ← required_mints
    pure (record {
      host = host;
      port = port;
      database_url = database_url;
      log_level = log_level;
      cors_origins = origins cors_origins;
      fee_rate = fee_rate;
      min_swap_amount = min_swap_amount;
      max_swap_amount = max_swap_amount;
      quote_expiry_seconds = quote_expiry_seconds;
      mints = mints;
    })
