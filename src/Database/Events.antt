-- ===== src/Database/Events.antt =====
-- The liquidity events repository.
use atomic_mint_swap.Base.{
  ◌+◌, String, Bool, true, not, Option, none, some, List, [], ◌∷◌, ◌++◌, retain, ◌==◌,
  if◌then◌else◌,
}
use atomic_mint_swap.Base.Word.{ℤ, pos}
use atomic_mint_swap.Effect.{done, refused}
use atomic_mint_swap.Env.{Env}
use atomic_mint_swap.Database.Rows.{
  LiquidityEvent, Stored, quote_ids, has, limit_rows, execute, query,
}

-- `CHECK(event_type IN …)`
unfoldable pub is_event_type : String → Bool
unfolding has
is_event_type s = has s ("deposit" ∷ "withdrawal" ∷ "swap_in" ∷ "swap_out" ∷ [])

-- A NULL reference is no violation.
unfoldable pub refers : Option String → List String → Bool
unfolding has
refers none ids = true
refers (some i) ids = has i ids

module _ (env : Env) where
  unfoldable pub record_liquidity_event : LiquidityEvent → Stored env (Unit {0})
  unfolding is_event_type refers execute
  record_liquidity_event event = execute env λ t.
      if not (is_event_type event.event_type)
      then refused env.driver.check_failed
      else if not (refers event.quote_id (quote_ids env t))
      then refused env.driver.foreign_key_failed
      else done (
        tt,
        record t {
          liquidity_events =
              t.liquidity_events ++ record event { id = some (pos t.next_event_id) } ∷ [];
          next_event_id = t.next_event_id + 1;
        },
      )

  unfoldable pub get_liquidity_events : String → ℤ → Stored env (List LiquidityEvent)
  unfolding limit_rows query
  get_liquidity_events mint_url limit = query env λ t. limit_rows limit (
      env.driver.order_desc LiquidityEvent (λ e. e.created_at)
        (retain (λ e. e.mint_url == mint_url) t.liquidity_events))
