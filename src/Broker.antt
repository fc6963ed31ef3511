-- ===== src/Broker.antt =====
-- cashu-broker/src/broker.rs: `Broker`, the configuration with the coordinator and its liquidity.
pub mod Status
pub mod Atomic
use atomic_mint_swap.Base.{ℕ, String, Option, none, some, List, [], ◌∷◌, map}
use atomic_mint_swap.Base.Dict.{Dict}
use atomic_mint_swap.Base.Word.{add_u64}
use atomic_mint_swap.Error.{BrokerError}
use atomic_mint_swap.Effect.{Outcome, ok, err, panic, Action, zoom}
use atomic_mint_swap.Env.{Env, Bytes}
use atomic_mint_swap.Types.{MintConfig, BrokerConfig, SwapRequest, SwapQuote}
use atomic_mint_swap.Liquidity.{LiquidityManager, get_balance, initialize_liquidity}
use atomic_mint_swap.Liquidity
use atomic_mint_swap.Swap.Quote.{Coordinator, Coordinated, create_quote}
use atomic_mint_swap.Swap.Execute.{prepare_swap}
use atomic_mint_swap.Swap.Execute

-- `MintBalance` and `LiquidityStatus`
pub record MintBalance : Type 0 where
  pub mint_url : String
  pub name : String
  pub balance : ℕ

pub record LiquidityStatus : Type 0 where
  pub mints : List MintBalance
  pub total_balance : ℕ

-- `.map(|mb| mb.balance).sum()`, from the left.
unfoldable pub sum_balances : ℕ → List MintBalance → ℕ
sum_balances acc [] = acc
sum_balances acc (b ∷ bs) = sum_balances (add_u64 acc b.balance) bs

module _ (env : Env) where
  pub record Broker : Type 0 where
    pub config : BrokerConfig env
    pub coordinator : Coordinator env

  abbrev pub Brokered : Type 0 → Type 0
  Brokered A = Action env.World Broker BrokerError A

  abbrev with_coordinator : Broker → Coordinator env → Broker
  with_coordinator b c = record b { coordinator = c }

  abbrev with_manager : Broker → LiquidityManager env → Broker
  with_manager b m = record b { coordinator = record b.coordinator { manager = m } }

  -- `Broker::new`, less what it prints.
  unfoldable pub new : BrokerConfig env → env.World → Outcome BrokerError Broker × env.World
  new config w =
      let (r, w') = Liquidity.new env config.mints w in
      (
        elim r [
          | ok m ↦ ok (record {
            config = config;
            coordinator = record { quotes = []; executions = []; manager = m };
          })
          | err e ↦ err e
          | panic ↦ panic
        ],
        w',
      )

  -- `order` is the order in which the map of wallets yields its entries.
  unfoldable pub initialize :
      (order : Dict env.cdk.Wallet → Dict env.cdk.Wallet) → ℕ → Brokered (Unit {0})
  initialize order amount_per_mint =
      zoom (λ b. b.coordinator.manager) with_manager
        (initialize_liquidity env order amount_per_mint)

  unfoldable pub request_quote : SwapRequest → Brokered (SwapQuote env)
  request_quote request b =
      zoom (λ b. b.coordinator) with_coordinator (create_quote env b.config request) b

  unfoldable pub accept_quote : String → Bytes → Brokered (List env.cdk.Proof)
  accept_quote quote_id client_pubkey =
      zoom (λ b. b.coordinator) with_coordinator (prepare_swap env quote_id client_pubkey)

  unfoldable pub complete_swap : String → List env.cdk.Proof → Brokered (Unit {0})
  complete_swap quote_id client_tokens =
      zoom (λ b. b.coordinator) with_coordinator (Execute.complete_swap env quote_id client_tokens)

  unfoldable pub get_liquidity_status : Broker → LiquidityStatus
  unfolding sum_balances
  get_liquidity_status b =
      let mint_balances =
        map
          (λ (m : MintConfig).
            let l : MintBalance = record {
              mint_url = m.mint_url;
              name = m.name;
              balance = get_balance env m.mint_url b.coordinator.manager;
            } in
            l)
          b.config.mints in
      record { mints = mint_balances; total_balance = sum_balances 0 mint_balances }
