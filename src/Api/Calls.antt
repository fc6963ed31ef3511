-- ===== src/Api/Calls.antt =====
-- What the calls that the handlers make of the database leave behind, where they succeed.
use mathlib.Core.Option
use atomic_mint_swap.Base.{String, ◌≡◌, refl, sym, ap, ◌∙◌, Option, none, some, arith, eq_iff}
use atomic_mint_swap.Effect.{ok}
use atomic_mint_swap.Effect.Frame.{Keeps, keeps_rules}
use atomic_mint_swap.Env.{Env}
use atomic_mint_swap.Types.Status.{SwapStatus, to_string}
use atomic_mint_swap.Database.Rows.{QuoteRecord, SwapRecord, Tables, run, execute, query}
use atomic_mint_swap.Database.Quotes.{
  find_quote, get_quote, set_status, update_quotes, update_quote_status,
}
use atomic_mint_swap.Database.Swaps.{create_swap, get_swap_by_quote, complete_swap}
use atomic_mint_swap.Database.Lookups.{execute-eq-ok, status_at, status_at-update_quotes}
use atomic_mint_swap.Api.Types.{AppState, on_db}
use atomic_mint_swap.Api.Handlers.{load_quote, client_key}

module _ (env : Env) where
  query-reads :
      {A T : Type 0} (g : AppState env → T) (f : Tables env → A) → Keeps g (on_db env (query env f))
  unfolding query execute
  query-reads {A} {T} g f = record { at = λ s w. go s w (env.driver.fault w).0 refl }
    where
      go :
          (s : AppState env) (w : env.World) (o : Option String)
          → (env.driver.fault w).0 ≡ o
          → g (on_db env (query env f) s w).1 ≡ g s
      go s w none e = rw (e, run) refl
      go s w (some x) e = rw (e, run) refl

  pub get_swap_by_quote-reads :
      {T : Type 0} (g : AppState env → T) (id : String)
      → Keeps g (on_db env (get_swap_by_quote env id))
  unfolding get_swap_by_quote
  get_swap_by_quote-reads g id = query-reads g _

  get_quote-reads :
      {T : Type 0} (g : AppState env → T) (id : String) → Keeps g (on_db env (get_quote env id))
  unfolding get_quote
  get_quote-reads g id = query-reads g _

  pub load_quote-reads :
      {T : Type 0} (g : AppState env → T) (id : String) → Keeps g (load_quote env id)
  unfolding load_quote
  load_quote-reads g id = search (keeps_rules, get_quote-reads)

  pub load_quote-eq-ok :
      (id : String) (s : AppState env) (w : env.World) (q : QuoteRecord env)
      → (load_quote env id s w).0 ≡ ok q
      → find_quote env id s.db.quotes ≡ some q
  unfolding load_quote get_quote query execute
  load_quote-eq-ok id s w q h = ground arith

  pub client_key-reads :
      {T : Type 0} (g : AppState env → T) (q : QuoteRecord env) → Keeps g (client_key env q)
  unfolding client_key
  client_key-reads g q = search keeps_rules

  pub update_quote_status-eq-ok :
      (id : String) (st : SwapStatus) (m : Option String) (t t' : Tables env) (w w' : env.World)
      → update_quote_status env id st m t w ≡ (ok tt, t', w')
      → status_at env id t'.quotes ≡ Option.map (λ s. to_string st) (status_at env id t.quotes)
  unfolding update_quote_status
  update_quote_status-eq-ok id st m t t' w w' e =
      let (now, w1) = env.host.utc_now w in
      let ran = execute-eq-ok env _ t w1 tt (ap (λ r. r.0) e) in
      let at = status_at-update_quotes env id id st m now t.quotes in
      let after : (update_quote_status env id st m t w).1.quotes
          ≡ update_quotes env id (set_status env st m now) t.quotes =
        ground arith in
      ap (λ r. status_at env id r.1.quotes) (sym e)
      ∙ ap (status_at env id) after
      ∙ ground (arith, at, eq_iff id id)

  pub create_swap-quotes :
      (sw : SwapRecord) (t t' : Tables env) (w w' : env.World)
      → create_swap env sw t w ≡ (ok tt, t', w')
      → t'.quotes ≡ t.quotes
  unfolding create_swap
  create_swap-quotes sw t t' w w' e =
      let ran = execute-eq-ok env _ t w tt (ap (λ r. r.0) e) in
      let after : (create_swap env sw t w).1.quotes ≡ t.quotes = ground arith in
      ap (λ r. r.1.quotes) (sym e) ∙ after

  pub complete_swap-quotes :
      (id target : String) (dec secret : Option String) (t t' : Tables env) (w w' : env.World)
      → complete_swap env id target dec secret t w ≡ (ok tt, t', w')
      → t'.quotes ≡ t.quotes
  unfolding complete_swap
  complete_swap-quotes id target dec secret t t' w w' e =
      let ran = execute-eq-ok env _ t (env.host.utc_now w).1 tt (ap (λ r. r.0) e) in
      let after : (complete_swap env id target dec secret t w).1.quotes ≡ t.quotes = ground arith in
      ap (λ r. r.1.quotes) (sym e) ∙ after
