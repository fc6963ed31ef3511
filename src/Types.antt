-- ===== src/Types.antt =====
-- cashu-broker/src/types.rs: the data that the parts of the broker exchange.
pub mod Status
pub mod Wire
use atomic_mint_swap.Base.{ℕ, String, Bool, Option, List, []}
use atomic_mint_swap.Env.{Env, Bytes}
use Status.{SwapStatus}

pub record MintConfig : Type 0 where
  pub mint_url : String
  pub name : String
  pub unit : String

pub record SwapRequest : Type 0 where
  pub client_id : Option String
  pub from_mint : String
  pub to_mint : String
  pub amount : ℕ
  pub client_public_key : Option Bytes

module _ (env : Env) where
  pub record BrokerConfig : Type 0 where
    pub mints : List MintConfig
    pub fee_rate : env.host.F64
    pub min_swap_amount : ℕ
    pub max_swap_amount : ℕ
    pub quote_expiry_seconds : ℕ

  -- `BrokerConfig::default`, on the literal 0.005.
  unfoldable pub default_config : (five_thousandths : env.host.F64) → BrokerConfig
  default_config five_thousandths = record {
    mints = [];
    fee_rate = five_thousandths;
    min_swap_amount = 1;
    max_swap_amount = 10000;
    quote_expiry_seconds = 300;
  }

  pub record SwapQuote : Type 0 where
    pub quote_id : String
    pub from_mint : String
    pub to_mint : String
    pub input_amount : ℕ
    pub output_amount : ℕ
    pub fee : ℕ
    pub fee_rate : env.host.F64
    pub broker_public_key : Bytes
    pub adaptor_point : Bytes
    pub tweaked_pubkey : Option Bytes
    pub adaptor_secret : Bytes
    pub expires_in : ℕ
    pub expires_at : Option env.host.Time
    pub status : SwapStatus

  pub record SwapExecution : Type 0 where
    pub quote_id : String
    pub client_tokens : Bytes
    pub broker_tokens : Bytes
    pub client_swap_complete : Bool
    pub broker_swap_complete : Bool
    pub completed_at : Option env.host.Time
