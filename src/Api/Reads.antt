-- ===== src/Api/Reads.antt =====
-- The handlers that only read.
use Prim.Native.String.{◌++◌}
use mathlib.Core.Option
use atomic_mint_swap.Base.{ℕ, String, Option, none, some, List, [], ◌∷◌, map, retain, length, ◌==◌}
use atomic_mint_swap.Base.Word.{ℤ, pos, add_u64, as_u64}
use atomic_mint_swap.Effect.{Attempt, perform, done, refused, pure, gets, ◌>>=◌}
use atomic_mint_swap.Env.{Env}
use atomic_mint_swap.Types.Status.{SwapStatus, completed, failed, to_string, from_str}
use atomic_mint_swap.Broker.{MintBalance, get_liquidity_status}
use atomic_mint_swap.Database.Rows.{QuoteRecord, SwapRecord, LiquidityEvent}
use atomic_mint_swap.Database.Quotes
use atomic_mint_swap.Database.Swaps
use atomic_mint_swap.Database.Events
use atomic_mint_swap.Api.Types.{Handler, on_db}
use atomic_mint_swap.Api.Handlers.{load_quote}

pub record MintLiquidity : Type 0 where
  pub mint_url : String
  pub name : String
  pub balance : ℕ
  pub unit : String

pub record ListQuotesQuery : Type 0 where
  pub status : Option String
  pub limit : ℤ

-- The limit of a query that gives none.
unfoldable pub default_limit : ℤ
default_limit = pos 50

pub record HealthResponse : Type 0 where
  pub status : String
  pub timestamp : String
  pub database : String

unfoldable pub database_status : Attempt String (Unit {0}) → String
database_status (done _) = "ok"
database_status (refused e) = "error: " ++ e

pub record LiquidityResponse : Type 0 where
  pub mints : List MintLiquidity
  pub total_balance : ℕ

pub record MetricsResponse : Type 0 where
  pub total_quotes : ℕ
  pub completed_swaps : ℕ
  pub failed_swaps : ℕ
  pub total_volume : ℕ
  pub total_fees : ℕ

-- `s.parse::<SwapStatus>().ok()`
unfoldable pub parse_ok : String → Option SwapStatus
parse_ok s = elim (from_str s) [ done st ↦ some st | refused _ ↦ none ]

unfoldable pub sum_mints : ℕ → List MintLiquidity → ℕ
sum_mints acc [] = acc
sum_mints acc (m ∷ ms) = sum_mints (add_u64 acc m.balance) ms

-- A sum of `i64` values, cast to `u64`: both wrap, so the bits are added.
unfoldable pub sum_as_u64 : ℕ → List ℤ → ℕ
sum_as_u64 acc [] = acc
sum_as_u64 acc (z ∷ zs) = sum_as_u64 (add_u64 acc (as_u64 z)) zs

module _ (env : Env) where
  -- `to_value` is `serde_json::to_value`; a swap that it refuses is left out of the response.
  unfoldable pub get_quote_status :
      {Json : Type 0}
      → (to_value : SwapRecord → Attempt String Json) → String
      → Handler env (QuoteRecord env × Option Json)
  get_quote_status to_value id = do
    quote ← load_quote env id
    swap ← on_db env (Swaps.get_swap_by_quote env id)
    pure (quote, Option.bind swap (λ s. elim (to_value s) [ done j ↦ some j | refused _ ↦ none ]))

  unfoldable pub list_quotes : ListQuotesQuery → Handler env (List (QuoteRecord env))
  unfolding parse_ok
  list_quotes query =
      on_db env (Quotes.list_quotes env (Option.bind query.status parse_ok) query.limit)

  unfoldable pub get_liquidity : Handler env LiquidityResponse
  unfolding sum_mints
  get_liquidity = do
    status ← gets (λ s. get_liquidity_status env s.service)
    let mints =
        map
          (λ (m : MintBalance).
            let l : MintLiquidity = record {
              mint_url = m.mint_url;
              name = m.name;
              balance = m.balance;
              unit = "sat";
            } in
            l)
          status.mints
    pure (record { mints = mints; total_balance = sum_mints 0 mints })

  unfoldable pub get_liquidity_events : String → Handler env (List LiquidityEvent)
  get_liquidity_events mint_url = on_db env (Events.get_liquidity_events env mint_url (pos 100))

  abbrev pub with_status : SwapStatus → List (QuoteRecord env) → List (QuoteRecord env)
  with_status st = retain (λ q. q.status == to_string st)

  unfoldable pub metrics : List (QuoteRecord env) → MetricsResponse
  unfolding sum_as_u64
  metrics qs = record {
    total_quotes = length qs;
    completed_swaps = length (with_status completed qs);
    failed_swaps = length (with_status failed qs);
    total_volume = sum_as_u64 0 (map (λ q. q.amount_in) (with_status completed qs));
    total_fees = sum_as_u64 0 (map (λ q. q.fee) (with_status completed qs));
  }

  unfoldable pub get_metrics : Handler env MetricsResponse
  unfolding metrics
  get_metrics = do
    all_quotes ← on_db env (Quotes.list_quotes env none (pos 10000))
    pure (metrics all_quotes)

  -- `acquire` takes a connection from the pool.
  unfoldable pub health_check :
      (acquire : env.World → Attempt String (Unit {0}) × env.World) → Handler env HealthResponse
  unfolding database_status
  health_check acquire = do
    db_status ← perform acquire
    timestamp ← perform env.host.utc_now
    pure (record { status = "ok"; timestamp = timestamp; database = database_status db_status })
