-- ===== src/Database/Quotes.antt =====
-- The quote repository.
use atomic_mint_swap.Base.{
  ℕ, String, Bool, not, ◌&&◌, Option, none, some, List, [], ◌∷◌, ◌++◌, map, retain, length, ◌==◌,
  if◌then◌else◌,
}
use atomic_mint_swap.Base.Word.{ℤ}
use atomic_mint_swap.Effect.{done, refused, perform, ◌>>=◌}
use atomic_mint_swap.Env.{Env}
use atomic_mint_swap.Types.Status.{
  SwapStatus, pending, accepted, completed, expired, failed, to_string,
}
use atomic_mint_swap.Database.Rows.{
  QuoteRecord, LiquidityEvent, Tables, Stored, quote_ids, has, limit_rows, execute, query,
}

-- `CHECK(status IN …)`
unfoldable pub is_status : String → Bool
unfolding has
is_status s = has s ("pending" ∷ "accepted" ∷ "completed" ∷ "expired" ∷ "failed" ∷ [])

module _ (env : Env) where
  -- What INSERT binds: the later times and the error message stay NULL.
  unfoldable pub inserted : QuoteRecord env → QuoteRecord env
  inserted q = record q { accepted_at = none; completed_at = none; error_message = none }

  -- SQLite stores a NaN as NULL, which the column of the fee rate refuses.
  unfoldable pub create_quote : QuoteRecord env → Stored env (Unit {0})
  unfolding inserted is_status has execute
  create_quote quote = execute env λ t.
      if env.host.f64_is_nan quote.fee_rate
      then refused env.driver.not_null_failed
      else if not (is_status quote.status)
      then refused env.driver.check_failed
      else if has quote.id (quote_ids env t)
      then refused env.driver.unique_failed
      else done (tt, record t { quotes = t.quotes ++ inserted quote ∷ [] })

  unfoldable pub find_quote : String → List (QuoteRecord env) → Option (QuoteRecord env)
  find_quote id [] = none
  find_quote id (q ∷ qs) = if q.id == id then some q else find_quote id qs

  unfoldable pub get_quote : String → Stored env (Option (QuoteRecord env))
  unfolding find_quote query
  get_quote id = query env (λ t. find_quote id t.quotes)

  -- The SET clause of each branch of `update_quote_status`.
  unfoldable pub set_status :
      SwapStatus → Option String → String → QuoteRecord env → QuoteRecord env
  set_status accepted message now q = record q {
    status = to_string accepted;
    accepted_at = some now;
  }
  set_status completed message now q = record q {
    status = to_string completed;
    completed_at = some now;
  }
  set_status failed message now q = record q { status = to_string failed; error_message = message }
  set_status expired message now q = record q {
    status = to_string expired;
    error_message = message;
  }
  set_status pending message now q = record q { status = to_string pending }

  -- `UPDATE … WHERE id = ?`
  unfoldable pub update_quotes :
      String → (QuoteRecord env → QuoteRecord env) → List (QuoteRecord env) → List (QuoteRecord env)
  update_quotes id f [] = []
  update_quotes id f (q ∷ qs) = (if q.id == id then f q else q) ∷ update_quotes id f qs

  unfoldable pub update_quote_status : String → SwapStatus → Option String → Stored env (Unit {0})
  unfolding set_status update_quotes execute
  update_quote_status id status error_message = do
    timestamp ← perform env.host.utc_now
    execute env λ t. done (
      tt,
      record t { quotes = update_quotes id (set_status status error_message timestamp) t.quotes },
    )

  -- `WHERE status = ?`, where there is a filter.
  unfoldable pub with_status : Option SwapStatus → List (QuoteRecord env) → List (QuoteRecord env)
  with_status none qs = qs
  with_status (some st) qs = retain (λ q. q.status == to_string st) qs

  unfoldable pub list_quotes : Option SwapStatus → ℤ → Stored env (List (QuoteRecord env))
  unfolding with_status limit_rows query
  list_quotes status limit = query env λ t.
      limit_rows limit
        (env.driver.order_desc (QuoteRecord env) (λ q. q.created_at) (with_status status t.quotes))

  unfoldable pub is_stale : String → QuoteRecord env → Bool
  is_stale now q = q.status == "pending" && env.driver.text_lt q.expires_at now

  -- `ON DELETE SET NULL`
  unfoldable pub unlink : List String → LiquidityEvent → LiquidityEvent
  unlink ids e = elim e.quote_id [
    | none ↦ e
    | some i ↦ if has i ids then e else record e { quote_id = none }
  ]

  -- The rows that a DELETE leaves: swaps go with their quotes, and events lose their reference.
  unfoldable pub delete_quotes : (QuoteRecord env → Bool) → Tables env → Tables env
  unfolding unlink has
  delete_quotes gone t =
      let kept = retain (λ q. not (gone q)) t.quotes in
      let ids = map (λ (q : QuoteRecord env). q.id) kept in
      record t {
        quotes = kept;
        swaps = retain (λ s. has s.quote_id ids) t.swaps;
        liquidity_events = map (unlink ids) t.liquidity_events;
      }

  unfoldable pub delete_expired_quotes : Stored env ℕ
  unfolding is_stale delete_quotes execute
  delete_expired_quotes = do
    now ← perform env.host.utc_now
    execute env λ t. done (length (retain (is_stale now) t.quotes), delete_quotes (is_stale now) t)
