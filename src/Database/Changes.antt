-- ===== src/Database/Changes.antt =====
-- What a statement can change in the table of quotes, however it ends.
use mathlib.Core.Option
use atomic_mint_swap.Base.{
  String, ◌≡◌, refl, ap, ◌∙◌, ◌⊎◌, inl, inr, false, Bool-cases, Option, none, some, [], ◌∷◌, ◌++◌,
  arith, eq_iff, ◌==◌,
}
use atomic_mint_swap.Effect.{Attempt, done, refused}
use atomic_mint_swap.Env.{Env}
use atomic_mint_swap.Types.Status.{SwapStatus, to_string}
use atomic_mint_swap.Database.Rows.{QuoteRecord, SwapRecord, Tables, quote_ids, has, run, execute}
use atomic_mint_swap.Database.Quotes.{
  create_quote, inserted, set_status, update_quotes, update_quote_status,
}
use atomic_mint_swap.Database.Swaps.{create_swap, complete_swap}
use atomic_mint_swap.Database.Lookups.{status_at, status_at-update_quotes, find_quote-append}

module _ (env : Env) where
  -- A statement has run, or has changed nothing.
  execute-cases :
      {A : Type 0} (f : Tables env → Attempt String (A × Tables env)) (t : Tables env)
      (w : env.World)
      → ((execute env f t w).1 ≡ t) ⊎ ((a : A) × (f t ≡ done (a, (execute env f t w).1)))
  unfolding execute
  execute-cases {A} f t w = go (env.driver.fault w).0 (f t) refl
    where
      go :
          (fault : Option String) (r : Attempt String (A × Tables env))
          → f t ≡ r
          → ((run env fault f t (env.driver.fault w).1).1 ≡ t)
            ⊎ ((a : A) × (f t ≡ done (a, (run env fault f t (env.driver.fault w).1).1)))
      go (some e) r k = inl refl
      go none (done (b, t')) k = inr (b, ground (arith, k))
      go none (refused e) k = inl (ground (arith, k))

  pub create_swap-keeps_quotes :
      (sw : SwapRecord) (t : Tables env) (w : env.World)
      → (create_swap env sw t w).1.quotes ≡ t.quotes
  unfolding create_swap
  create_swap-keeps_quotes sw t w = elim (execute-cases _ t w) [
    | inl same ↦ ap (λ (t : Tables env). t.quotes) same
    | inr (a, ran) ↦ ground arith
  ]

  pub complete_swap-keeps_quotes :
      (id target : String) (dec secret : Option String) (t : Tables env) (w : env.World)
      → (complete_swap env id target dec secret t w).1.quotes ≡ t.quotes
  unfolding complete_swap
  complete_swap-keeps_quotes id target dec secret t w =
      elim (execute-cases _ t (env.host.utc_now w).1) [
        | inl same ↦ ap (λ (t : Tables env). t.quotes) same
        | inr (a, ran) ↦ ground arith
      ]

  -- What a statement has made of a quote's status.
  pub update_quote_status-cases :
      (id j : String) (st : SwapStatus) (m : Option String) (t : Tables env) (w : env.World)
      → let t' = (update_quote_status env id st m t w).1 in
        (status_at env j t'.quotes ≡ status_at env j t.quotes)
        ⊎ ((j ≡ id)
            × (status_at env j t'.quotes
                ≡ Option.map (λ s. to_string st) (status_at env j t.quotes)))
  unfolding update_quote_status
  update_quote_status-cases id j st m t w =
      let (now, w1) = env.host.utc_now w in
      let at = status_at-update_quotes env id j st m now t.quotes in
      elim (execute-cases _ t w1) [
        | inl same ↦ inl (ap (λ (t : Tables env). status_at env j t.quotes) same)
        | inr (a, ran) ↦
            let after : (update_quote_status env id st m t w).1.quotes
                ≡ update_quotes env id (set_status env st m now) t.quotes =
              ground arith in
            let moved = ap (status_at env j) after ∙ at in
            elim (Bool-cases (j == id)) [
              | inl mine ↦ inr ((eq_iff j id).0 mine, ground (arith, moved))
              | inr other ↦ inl (ground (arith, moved))
            ]
      ]

  pub create_quote-cases :
      (q : QuoteRecord env) (j : String) (t : Tables env) (w : env.World)
      → let t' = (create_quote env q t w).1 in
        (status_at env j t'.quotes ≡ status_at env j t.quotes)
        ⊎ (status_at env j t'.quotes ≡ some q.status)
  unfolding create_quote inserted
  create_quote-cases q j t w = elim (execute-cases _ t w) [
    | inl same ↦ inl (ap (λ (t : Tables env). status_at env j t.quotes) same)
    | inr (a, ran) ↦
        let new : has q.id (quote_ids env t) ≡ false = ground arith in
        let after : (create_quote env q t w).1.quotes ≡ t.quotes ++ inserted env q ∷ [] =
          ground arith in
        let found = find_quote-append env j t.quotes (inserted env q) new in
        elim (Bool-cases (q.id == j)) [
          | inl mine ↦ inr (ap (status_at env j) after ∙ ground (arith, found))
          | inr other ↦ inl (ap (status_at env j) after ∙ ground (arith, found))
        ]
  ]
