-- ===== src/Swap/Tasks/Pending.antt =====
-- When the segments of a request leave a quote pending.
use atomic_mint_swap.Base.{
  String, ◌≡◌, inl, inr, Bool, true, false, none, some, arith, ◌==◌, if◌then◌else◌, Option-cases,
}
use atomic_mint_swap.Base.Dict.{Dict, lookup, lookup-insert}
use atomic_mint_swap.Effect.{ok}
use atomic_mint_swap.Effect.Frame.{Keeps, keeps_rules}
use atomic_mint_swap.Env.{Env, Bytes}
use atomic_mint_swap.Types.{SwapQuote}
use atomic_mint_swap.Types.Status.{pending, accepted, completed, status_eq}
use atomic_mint_swap.Swap.Quote.{QuoteData, Coordinator, QuoteKeys, store_quote}
use atomic_mint_swap.Swap.Execute.{with_status, find_quote, finish_quote}
use atomic_mint_swap.Swap.Execute.Atomic.{client_lock-reads, find_quote-reads}
use atomic_mint_swap.Swap.Tasks.{check_pending, mark_accepted}

module _ (env : Env) where
  -- Is the quote pending?
  unfoldable pub is_pending : String → Dict (QuoteData env) → Bool
  is_pending id quotes = elim (lookup id quotes) [
    | none ↦ false
    | some q ↦ status_eq q.quote.status pending
  ]

  pub check_pending-reads :
      {T : Type 0} (f : Coordinator env → T) (id : String) (pk : Bytes)
      → Keeps f (check_pending env id pk)
  unfolding check_pending
  check_pending-reads f id pk = search (find_quote-reads, client_lock-reads, keeps_rules)

  pub check_pending-eq-ok :
      (id : String) (pk : Bytes) (s : Coordinator env) (w : env.World) (r : QuoteData env × Bytes)
      → (check_pending env id pk s w).0 ≡ ok r
      → is_pending id s.quotes ≡ true
  unfolding check_pending find_quote is_pending
  check_pending-eq-ok id pk s w r e = ground arith

  pub is_pending-mark_accepted :
      (id j : String) (q : QuoteData env) (s : Coordinator env)
      → is_pending id (mark_accepted env j q s).quotes
        ≡ (if j == id then false else is_pending id s.quotes)
  unfolding is_pending mark_accepted with_status
  is_pending-mark_accepted id j q s =
      ground (arith, lookup-insert j id (with_status env accepted q) s.quotes)

  pub is_pending-finish_quote :
      (id j : String) (s : Coordinator env)
      → is_pending id s.quotes ≡ false
      → is_pending id (finish_quote env j (lookup j s.quotes) s).quotes ≡ false
  unfolding is_pending finish_quote with_status
  is_pending-finish_quote id j s h = elim (Option-cases (lookup j s.quotes)) [
    | inl e ↦ ground arith
    | inr (q, e) ↦ ground (arith, lookup-insert j id (with_status env completed q) s.quotes)
  ]

  pub is_pending-store_quote :
      (id : String) (keys : QuoteKeys env) (q : SwapQuote env) (s : Coordinator env)
      → (q.quote_id == id) ≡ false
      → is_pending id (store_quote env keys q s).quotes ≡ is_pending id s.quotes
  unfolding is_pending store_quote
  is_pending-store_quote id keys q s h =
      let d : QuoteData env = record {
        quote = q;
        broker_swap_key = keys.broker_swap_key;
        adaptor_secret = keys.adaptor_secret;
      } in
      ground (arith, lookup-insert q.quote_id id d s.quotes)
