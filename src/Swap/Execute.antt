-- ===== src/Swap/Execute.antt =====
-- cashu-broker/src/swap.rs: `prepare_swap`, `complete_swap` and `get_quote`.
pub mod Atomic
use Prim.Native.String.{◌++◌}
use mathlib.Core.Option
use atomic_mint_swap.Base.{ℕ, String, Bool, true, false, Option, none, some, List, [], ◌∷◌, not}
use atomic_mint_swap.Base.Dict.{Dict, lookup, insert}
use atomic_mint_swap.Base.Word.{add_u64}
use atomic_mint_swap.Error.{BrokerError, invalid_swap_request, quote_not_found, cdk_error}
use atomic_mint_swap.Effect.{
  Attempt, done, refused, pure, or_raise, perform, gets, lift, modify, raise_if, zoom, ◌>>=◌, ◌>>◌,
  or_fail, attempt,
}
use atomic_mint_swap.Env.{Env, Bytes}
use atomic_mint_swap.Types.{SwapQuote, SwapExecution}
use atomic_mint_swap.Types.Status.{SwapStatus, pending, accepted, completed, status_eq}
use atomic_mint_swap.Adaptor.{
  adaptor_point_from_secret, add_scalars, tweak_public_key, point_to_compressed_bytes,
  compressed_bytes_to_point,
}
use atomic_mint_swap.Liquidity.{LiquidityManager, get_wallet, add_proofs}
use atomic_mint_swap.Swap.Quote.{QuoteData, Coordinator, Coordinated}

module _ (env : Env) where
  open env use {cdk.{Proof}, host.{Time}}

  unfoldable pub find_quote : String → Coordinated env (QuoteData env)
  find_quote quote_id = do
    found ← gets (λ s. lookup quote_id s.quotes)
    or_raise found (quote_not_found quote_id)

  unfoldable pub with_status : SwapStatus → QuoteData env → QuoteData env
  with_status st q = record q { quote = record q.quote { status = st } }

  -- The P2PK key of the tokens for the client: client + T.
  unfoldable pub client_lock : QuoteData env → Bytes → Coordinated env Bytes
  client_lock q client_pubkey = do
    client_point ← lift (compressed_bytes_to_point env.curve client_pubkey)
    client_tweaked ← lift (
        tweak_public_key env.curve client_point
          (adaptor_point_from_secret env.curve q.adaptor_secret))
    pure (point_to_compressed_bytes env.curve client_tweaked)

  -- Mint the output amount, and send it locked to `lock`.
  unfoldable pub lock_tokens : QuoteData env → Bytes → Coordinated env (List Proof)
  lock_tokens q lock = do
    manager ← gets (λ s. s.manager)
    wallet ← lift (get_wallet env q.quote.to_mint manager)
    mint_quote ←
        attempt (cdk_error "Failed to create mint quote: ")
          (env.cdk.mint_quote wallet q.quote.output_amount)
    minted ←
        attempt (cdk_error "Failed to mint tokens: ")
          (env.cdk.wait_and_mint_quote wallet mint_quote 60)
    tweaked_pubkey ←
        or_fail (cdk_error "Failed to create public key: ") (env.cdk.public_key_from_slice lock)
    prepared_send ←
        attempt (cdk_error "Failed to prepare locked tokens: ") (
          env.cdk.prepare_send wallet q.quote.output_amount (env.cdk.new_p2pk tweaked_pubkey) false)
    token ← attempt (cdk_error "Failed to create locked tokens: ") (env.cdk.confirm prepared_send)
    keysets ← attempt (cdk_error "Failed to get keysets: ") (env.cdk.get_mint_keysets wallet)
    or_fail (cdk_error "Failed to extract proofs from token: ") (env.cdk.token_proofs token keysets)

  -- `serde_json::to_vec(proofs).unwrap_or_default()`
  unfoldable pub serialize_proofs : List Proof → Bytes
  serialize_proofs proofs = elim (env.host.proofs_to_vec proofs) [ done b ↦ b | refused _ ↦ [] ]

  unfoldable pub record_accepted :
      String → QuoteData env → List Proof → Coordinator env → Coordinator env
  unfolding serialize_proofs with_status
  record_accepted quote_id q proofs s = record s {
    quotes = insert quote_id (with_status accepted q) s.quotes;
    executions =
        insert quote_id
          (record {
            quote_id = quote_id;
            client_tokens = [];
            broker_tokens = serialize_proofs proofs;
            client_swap_complete = false;
            broker_swap_complete = false;
            completed_at = none;
          })
          s.executions;
  }

  -- `prepare_swap` after its check.
  unfoldable pub pay_out : String → Bytes → QuoteData env → Coordinated env (List Proof)
  pay_out quote_id client_pubkey q = do
    lock ← client_lock q client_pubkey
    proofs ← lock_tokens q lock
    modify (record_accepted quote_id q proofs)
    pure proofs

  unfoldable pub not_pending : String → BrokerError
  not_pending quote_id = invalid_swap_request ("Quote " ++ (quote_id ++ " is not pending"))

  unfoldable pub prepare_swap : String → Bytes → Coordinated env (List Proof)
  prepare_swap quote_id client_pubkey = do
    q ← find_quote quote_id
    raise_if (not (status_eq q.quote.status pending)) (not_pending quote_id)
    pay_out quote_id client_pubkey q

  -- `.map(|p| u64::from(p.amount)).sum()`, from the left.
  unfoldable pub sum_amounts : ℕ → List Proof → ℕ
  sum_amounts acc [] = acc
  sum_amounts acc (p ∷ ps) = sum_amounts (add_u64 acc (env.cdk.amount p)) ps

  unfoldable pub bank : String → Option (List Proof) → Coordinated env (Unit {0})
  bank mint none = pure tt
  bank mint (some proofs) =
      zoom (λ s. s.manager) (λ s m. record s { manager = m }) (add_proofs env mint proofs)

  abbrev pub finished : SwapExecution env → Time → SwapExecution env
  finished e now = record e {
    client_swap_complete = true;
    broker_swap_complete = true;
    completed_at = some now;
  }

  unfoldable pub finish_execution : String → Option (SwapExecution env) → Coordinated env (Unit {0})
  finish_execution quote_id none = pure tt
  finish_execution quote_id (some e) = do
    now ← perform env.host.now
    modify λ s. record s { executions = insert quote_id (finished e now) s.executions }

  unfoldable pub finish_quote : String → Option (QuoteData env) → Coordinator env → Coordinator env
  unfolding with_status
  finish_quote quote_id none s = s
  finish_quote quote_id (some q) s = record s {
    quotes = insert quote_id (with_status completed q) s.quotes;
  }

  -- `complete_swap` up to the swap at the mint: the client's tokens for new ones.
  unfoldable pub claim_tokens : QuoteData env → List Proof → Coordinated env (Option (List Proof))
  claim_tokens q client_proofs = do
    broker_with_adaptor ← lift (add_scalars env.curve q.broker_swap_key q.adaptor_secret)
    manager ← gets (λ s. s.manager)
    wallet ← lift (get_wallet env q.quote.from_mint manager)
    attempt (cdk_error "Failed to swap client tokens: ")
        (env.cdk.swap wallet (sum_amounts 0 client_proofs) client_proofs)

  -- `complete_swap` after that.
  unfoldable pub close_swap :
      String → QuoteData env → Option (List Proof) → Coordinated env (Unit {0})
  close_swap quote_id q new_proofs = do
    bank q.quote.from_mint new_proofs
    execution ← gets (λ s. lookup quote_id s.executions)
    finish_execution quote_id execution
    modify (λ s. finish_quote quote_id (lookup quote_id s.quotes) s)

  unfoldable pub complete_swap : String → List Proof → Coordinated env (Unit {0})
  complete_swap quote_id client_proofs = do
    q ← find_quote quote_id
    new_proofs ← claim_tokens q client_proofs
    close_swap quote_id q new_proofs

  unfoldable pub get_quote : String → Coordinator env → Option (SwapQuote env)
  get_quote quote_id s = Option.map (λ q. q.quote) (lookup quote_id s.quotes)
