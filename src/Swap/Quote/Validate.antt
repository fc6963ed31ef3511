-- ===== src/Swap/Quote/Validate.antt =====
-- Which requests are quoted, and why the others are refused.
use atomic_mint_swap.Base.{◌≤◌, ◌<◌, ◌≡◌, ◌≢◌, ◌⊎◌, true, false, arith, eq_iff}
use atomic_mint_swap.Error.{
  BrokerError, amount_too_low, amount_too_high, unsupported_mint, same_mint_swap,
}
use atomic_mint_swap.Effect.{Outcome, ok, err, panic}
use atomic_mint_swap.Env.{Env}
use atomic_mint_swap.Types.{BrokerConfig, SwapRequest}
use atomic_mint_swap.Swap.Quote.{supports, validate_swap_request}

module _ (env : Env) where
  -- The amount is in range, and both mints are configured and differ.
  pub record IsServed (config : BrokerConfig env) (request : SwapRequest) : Type 0 where
    pub min_ok : config.min_swap_amount ≤ request.amount
    pub max_ok : request.amount ≤ config.max_swap_amount
    pub from_ok : supports env config.mints request.from_mint ≡ true
    pub to_ok : supports env config.mints request.to_mint ≡ true
    pub mints_differ : request.from_mint ≢ request.to_mint

  -- What an error of the validation says of the request.
  abbrev pub Explains : BrokerConfig env → SwapRequest → BrokerError → Type 0
  Explains config request (amount_too_low a m) =
      (a ≡ request.amount) × (m ≡ config.min_swap_amount) × (a < m)
  Explains config request (amount_too_high a m) =
      (a ≡ request.amount) × (m ≡ config.max_swap_amount) × (m < a)
  Explains config request (unsupported_mint url) =
      ((url ≡ request.from_mint) ⊎ (url ≡ request.to_mint))
      × (supports env config.mints url ≡ false)
  Explains config request same_mint_swap = request.from_mint ≡ request.to_mint
  Explains config request _ = ⊥

  abbrev pub Validated : BrokerConfig env → SwapRequest → Outcome BrokerError (Unit {0}) → Type 0
  Validated config request (ok _) = IsServed config request
  Validated config request (err e) = Explains config request e
  Validated config request panic = ⊥

  -- A request passes only if it is served; an error names a check that the request fails, with the
  -- request's own amount or mint in it; and the validation does not panic.
  pub validate_swap_request-Validated :
      (config : BrokerConfig env) (request : SwapRequest)
      → Validated config request (validate_swap_request env config request)
  unfolding validate_swap_request
  validate_swap_request-Validated config request =
      ground (arith, eq_iff request.from_mint request.to_mint)

  -- Every request that is served passes.
  pub validate_swap_request-passes :
      (config : BrokerConfig env) (request : SwapRequest)
      → IsServed config request
      → validate_swap_request env config request ≡ ok tt
  unfolding validate_swap_request
  validate_swap_request-passes config request h =
      ground (arith, eq_iff request.from_mint request.to_mint)
