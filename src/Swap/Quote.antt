-- ===== src/Swap/Quote.antt =====
-- cashu-broker/src/swap.rs: the state of `SwapCoordinator`, and `create_quote`.
pub mod Validate
pub mod Atomic
pub mod Created
use atomic_mint_swap.Base.{
  ℕ, ◌-◌, String, Bool, true, false, Option, none, some, List, [], ◌∷◌, ltb, not, ◌==◌, ◌||◌,
  if◌then◌else◌,
}
use atomic_mint_swap.Base.Dict.{Dict, lookup, insert}
use atomic_mint_swap.Base.Word.{u64_mod, add_u64}
use atomic_mint_swap.Error.{
  BrokerError, insufficient_liquidity, invalid_swap_request, quote_not_found, amount_too_low,
  amount_too_high, unsupported_mint, same_mint_swap, cdk_error,
}
use atomic_mint_swap.Effect.{
  Outcome, ok, err, panic, Attempt, done, refused, Action, pure, raise, or_panic, or_raise, perform,
  gets, lift, modify, raise_if, zoom, ◌>>=◌, ◌>>◌, or_fail, attempt,
}
use atomic_mint_swap.Env.{Env, Bytes}
use atomic_mint_swap.Types.{MintConfig, BrokerConfig, SwapRequest, SwapQuote, SwapExecution}
use atomic_mint_swap.Types.Status.{SwapStatus, pending, accepted, completed, status_eq}
use atomic_mint_swap.Adaptor.{
  adaptor_point_from_secret, add_scalars, tweak_public_key, point_to_compressed_bytes,
  compressed_bytes_to_point, scalar_to_bytes,
}
use atomic_mint_swap.Liquidity.{LiquidityManager, can_swap, get_balance, get_wallet, add_proofs}

module _ (env : Env) where
  open env use {World, curve.{Scalar}, cdk.{Proof}, host.{Time}}

  -- A quote with its private keys.
  pub record QuoteData : Type 0 where
    pub quote : SwapQuote env
    pub broker_swap_key : Scalar
    pub adaptor_secret : Scalar

  pub record Coordinator : Type 0 where
    pub quotes : Dict QuoteData
    pub executions : Dict (SwapExecution env)
    pub manager : LiquidityManager env

  abbrev pub Coordinated : Type 0 → Type 0
  Coordinated A = Action World Coordinator BrokerError A

  -- `supported_mints.contains(url)`
  unfoldable pub supports : List MintConfig → String → Bool
  supports [] url = false
  supports (m ∷ ms) url = m.mint_url == url || supports ms url

  unfoldable pub validate_swap_request :
      BrokerConfig env → SwapRequest → Outcome BrokerError (Unit {0})
  unfolding supports
  validate_swap_request config request =
      if ltb request.amount config.min_swap_amount
      then err (amount_too_low request.amount config.min_swap_amount)
      else if ltb config.max_swap_amount request.amount
      then err (amount_too_high request.amount config.max_swap_amount)
      else if not (supports config.mints request.from_mint)
      then err (unsupported_mint request.from_mint)
      else if not (supports config.mints request.to_mint)
      then err (unsupported_mint request.to_mint)
      else if request.from_mint == request.to_mint
      then err same_mint_swap
      else ok tt

  -- `((amount as f64) * fee_rate).ceil() as u64`
  unfoldable pub swap_fee : BrokerConfig env → ℕ → ℕ
  swap_fee config amount =
      env.host.f64_as_u64
        (env.host.f64_ceil (env.host.f64_mul (env.host.f64_from_u64 amount) config.fee_rate))

  -- `saturating_sub`
  unfoldable pub output_after_fee : BrokerConfig env → ℕ → ℕ
  unfolding swap_fee
  output_after_fee config amount = amount - swap_fee config amount

  -- The keys and points of a new quote, and its encodings.
  pub record QuoteKeys : Type 0 where
    pub adaptor_secret : Scalar
    pub broker_swap_key : Scalar
    pub adaptor_point_bytes : Bytes
    pub broker_pubkey_bytes : Bytes
    pub tweaked_pubkey_bytes : Bytes

  unfoldable pub generate_keys : Coordinated QuoteKeys
  generate_keys = do
    adaptor_secret ← perform env.host.random_scalar
    broker_swap_key ← perform env.host.random_scalar
    let adaptor_point = adaptor_point_from_secret env.curve adaptor_secret
    let broker_pubkey_point = adaptor_point_from_secret env.curve broker_swap_key
    tweaked_pubkey_point ← lift (tweak_public_key env.curve broker_pubkey_point adaptor_point)
    pure (record {
      adaptor_secret = adaptor_secret;
      broker_swap_key = broker_swap_key;
      adaptor_point_bytes = point_to_compressed_bytes env.curve adaptor_point;
      broker_pubkey_bytes = point_to_compressed_bytes env.curve broker_pubkey_point;
      tweaked_pubkey_bytes = point_to_compressed_bytes env.curve tweaked_pubkey_point;
    })

  unfoldable pub build_quote :
      BrokerConfig env → SwapRequest → QuoteKeys → Time → Bytes → SwapQuote env
  build_quote config request keys expires_at id = record {
    quote_id = env.host.hex_encode id;
    from_mint = request.from_mint;
    to_mint = request.to_mint;
    input_amount = request.amount;
    output_amount = output_after_fee config request.amount;
    fee = swap_fee config request.amount;
    fee_rate = config.fee_rate;
    broker_public_key = keys.broker_pubkey_bytes;
    adaptor_point = keys.adaptor_point_bytes;
    tweaked_pubkey = some keys.tweaked_pubkey_bytes;
    adaptor_secret = scalar_to_bytes env.curve keys.adaptor_secret;
    expires_in = config.quote_expiry_seconds;
    expires_at = some expires_at;
    status = pending;
  }

  unfoldable pub store_quote : QuoteKeys → SwapQuote env → Coordinator → Coordinator
  store_quote keys quote s = record s {
    quotes =
        insert quote.quote_id
          (record {
            quote = quote;
            broker_swap_key = keys.broker_swap_key;
            adaptor_secret = keys.adaptor_secret;
          })
          s.quotes;
  }

  -- The second half of `create_quote`, from the expiry on.
  unfoldable pub issue_quote :
      BrokerConfig env → SwapRequest → QuoteKeys → Coordinated (SwapQuote env)
  issue_quote config request keys = do
    now ← perform env.host.now
    expires_at ← or_panic (env.host.add_seconds now config.quote_expiry_seconds)
    id ← perform (env.host.random_bytes 16)
    let quote = build_quote config request keys expires_at id
    modify (store_quote keys quote)
    pure quote

  unfoldable pub create_quote : BrokerConfig env → SwapRequest → Coordinated (SwapQuote env)
  create_quote config request = do
    lift (validate_swap_request config request)
    let output_amount = output_after_fee config request.amount
    manager ← gets (λ s. s.manager)
    raise_if (not (can_swap env request.to_mint output_amount manager)) (
        insufficient_liquidity request.to_mint output_amount
          (get_balance env request.to_mint manager))
    keys ← generate_keys
    issue_quote config request keys
