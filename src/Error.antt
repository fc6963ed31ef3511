-- ===== src/Error.antt =====
-- cashu-broker/src/error.rs. The sources of `Io`, `Serialization` and `Other` are kept as their
-- text.
use Prim.Native.String.{◌++◌}
use atomic_mint_swap.Base.{ℕ, String}

pub data BrokerError : Type 0 where
  insufficient_liquidity : (mint_url : String) (needed available : ℕ) → BrokerError
  invalid_swap_request : String → BrokerError
  quote_not_found : String → BrokerError
  quote_expired : String → BrokerError
  amount_too_low : (amount min : ℕ) → BrokerError
  amount_too_high : (amount max : ℕ) → BrokerError
  unsupported_mint : String → BrokerError
  same_mint_swap : BrokerError
  adaptor_signature : String → BrokerError
  cdk : String → BrokerError
  database : String → BrokerError
  io : String → BrokerError
  serialization : String → BrokerError
  other : String → BrokerError

-- `BrokerError::Cdk(format!("…: {:?}", e))`, on the text of the error.
unfoldable pub cdk_error : String → String → BrokerError
cdk_error prefix e = cdk (prefix ++ e)
