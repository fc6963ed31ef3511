-- ===== src/Database/Consistency.antt =====
-- The constraints of the schema hold after every statement of the repositories.
use atomic_mint_swap.Base.{
  String, ◌≡◌, refl, subst, Bool-cases, inl, inr, true, false, Option, none, some, List, [], ◌∷◌,
  ◌++◌, map, All, All-mono, arith, ◌==◌,
}
use atomic_mint_swap.Effect.{Attempt, done, refused}
use atomic_mint_swap.Env.{Env}
use atomic_mint_swap.Types.Status.{
  SwapStatus, pending, accepted, completed, expired, failed, to_string,
}
use atomic_mint_swap.Database.Rows.{QuoteRecord, SwapRecord, Tables, quote_ids, has, run, execute}
use atomic_mint_swap.Database.Columns.{
  AreDistinct, has-append, AreDistinct-append, map-append_one, All-append_one,
}
use atomic_mint_swap.Database.Quotes.{
  is_status, inserted, create_quote, set_status, update_quotes, update_quote_status,
}
use atomic_mint_swap.Database.Swaps.{
  update_swaps, swap_ids, swap_quotes, create_swap, complete_swap,
}
use atomic_mint_swap.Database.Swaps
use atomic_mint_swap.Database.Events.{is_event_type, refers}

module _ (env : Env) where
  -- Ids are unique, a quote has at most one swap, statuses and event types are known, and swaps and
  -- events refer to quotes that exist.
  pub record IsConsistent (t : Tables env) : Type 0 where
    pub ids : AreDistinct (quote_ids env t)
    pub statuses : All (λ q. is_status q.status ≡ true) t.quotes
    pub swaps_distinct : AreDistinct (swap_ids t.swaps)
    pub one_swap : AreDistinct (swap_quotes t.swaps)
    pub swaps_refer : All (λ s. has s.quote_id (quote_ids env t) ≡ true) t.swaps
    pub event_types : All (λ e. is_event_type e.event_type ≡ true) t.liquidity_events
    pub events_refer : All (λ e. refers e.quote_id (quote_ids env t) ≡ true) t.liquidity_events

  -- A statement that fails changes nothing.
  pub execute-preserves :
      {A : Type 0} (P : Tables env → Type 0) (f : Tables env → Attempt String (A × Tables env))
      (t : Tables env) (w : env.World)
      → ((a : A) (t' : Tables env) → f t ≡ done (a, t') → P t')
      → P t
      → P (execute env f t w).1
  unfolding execute
  execute-preserves {A = A} P f t w step h = go (env.driver.fault w).0 (f t) refl
    where
      go :
          (fault : Option String) (r : Attempt String (A × Tables env))
          → f t ≡ r
          → P (run env fault f t (env.driver.fault w).1).1
      go (some e) r k = h
      go none (done (a, t')) k = rw (k, run) (step a t' k)
      go none (refused e) k = rw (k, run) h

  refers-append :
      (o : Option String) (y : String) (ys : List String)
      → refers o ys ≡ true
      → refers o (ys ++ y ∷ []) ≡ true
  unfolding refers
  refers-append none y ys h = refl
  refers-append (some i) y ys h = ground (arith, has-append i y ys)

  append_quote-IsConsistent :
      (q : QuoteRecord env) (t : Tables env)
      → is_status q.status ≡ true
      → has q.id (quote_ids env t) ≡ false
      → IsConsistent t
      → IsConsistent (record t { quotes = t.quotes ++ q ∷ [] })
  append_quote-IsConsistent q t known new c =
      let ids = map-append_one (λ (q : QuoteRecord env). q.id) t.quotes q in
      record {
        ids = rw ids (AreDistinct-append (quote_ids env t) q.id c.ids new);
        statuses = All-append_one _ t.quotes q c.statuses known;
        swaps_distinct = c.swaps_distinct;
        one_swap = c.one_swap;
        swaps_refer = rw ids (
            All-mono _ _ t.swaps
              (λ s h. ground (arith, has-append s.quote_id q.id (quote_ids env t))) c.swaps_refer);
        event_types = c.event_types;
        events_refer = rw ids (
            All-mono _ _ t.liquidity_events (λ e. refers-append e.quote_id q.id (quote_ids env t))
              c.events_refer);
      }

  pub create_quote-IsConsistent :
      (q : QuoteRecord env) (t : Tables env) (w : env.World)
      → IsConsistent t
      → IsConsistent (create_quote env q t w).1
  unfolding create_quote inserted
  create_quote-IsConsistent q t w c =
      execute-preserves IsConsistent _ t w
        (λ a t' e.
          let known : is_status q.status ≡ true = ground arith in
          let new : has q.id (quote_ids env t) ≡ false = ground arith in
          let stored : record t { quotes = t.quotes ++ inserted env q ∷ [] } ≡ t' = ground arith in
          subst IsConsistent stored (append_quote-IsConsistent (inserted env q) t known new c))
        c

  append_swap-IsConsistent :
      (s : SwapRecord) (t : Tables env)
      → has s.id (swap_ids t.swaps) ≡ false
      → has s.quote_id (swap_quotes t.swaps) ≡ false
      → has s.quote_id (quote_ids env t) ≡ true
      → IsConsistent t
      → IsConsistent (record t { swaps = t.swaps ++ s ∷ [] })
  append_swap-IsConsistent s t new only found c = record {
    ids = c.ids;
    statuses = c.statuses;
    swaps_distinct =
        rw (map-append_one (λ (s : SwapRecord). s.id) t.swaps s)
          (AreDistinct-append (swap_ids t.swaps) s.id c.swaps_distinct new);
    one_swap =
        rw (map-append_one (λ (s : SwapRecord). s.quote_id) t.swaps s)
          (AreDistinct-append (swap_quotes t.swaps) s.quote_id c.one_swap only);
    swaps_refer = All-append_one _ t.swaps s c.swaps_refer found;
    event_types = c.event_types;
    events_refer = c.events_refer;
  }

  pub create_swap-IsConsistent :
      (s : SwapRecord) (t : Tables env) (w : env.World)
      → IsConsistent t
      → IsConsistent (create_swap env s t w).1
  unfolding create_swap Swaps.inserted
  create_swap-IsConsistent s t w c =
      execute-preserves IsConsistent _ t w
        (λ a t' e.
          let new : has s.id (swap_ids t.swaps) ≡ false = ground arith in
          let only : has s.quote_id (swap_quotes t.swaps) ≡ false = ground arith in
          let found : has s.quote_id (quote_ids env t) ≡ true = ground arith in
          let stored : record t { swaps = t.swaps ++ Swaps.inserted s ∷ [] } ≡ t' = ground arith in
          subst IsConsistent stored
            (append_swap-IsConsistent (Swaps.inserted s) t new only found c))
        c

  -- An UPDATE that keeps a column leaves the list of its values.
  update_quotes-ids :
      (id : String) (f : QuoteRecord env → QuoteRecord env) (qs : List (QuoteRecord env))
      → ((q : QuoteRecord env) → (f q).id ≡ q.id)
      → map (λ q. q.id) (update_quotes env id f qs) ≡ map (λ q. q.id) qs
  unfolding update_quotes
  update_quotes-ids id f [] h = refl
  update_quotes-ids id f (q ∷ qs) h = ground (arith, h q, update_quotes-ids id f qs h)

  update_quotes-All :
      (P : QuoteRecord env → Type 0) (id : String) (f : QuoteRecord env → QuoteRecord env)
      (qs : List (QuoteRecord env))
      → ((q : QuoteRecord env) → P (f q))
      → All P qs
      → All P (update_quotes env id f qs)
  unfolding update_quotes
  update_quotes-All P id f [] h k = tt
  update_quotes-All P id f (q ∷ qs) h k = elim (Bool-cases (q.id == id)) [
    | inl e ↦ rw e (h q, update_quotes-All P id f qs h k.1)
    | inr e ↦ rw e (k.0, update_quotes-All P id f qs h k.1)
  ]

  pub set_status-id :
      (st : SwapStatus) (m : Option String) (now : String) (q : QuoteRecord env)
      → (set_status env st m now q).id ≡ q.id
  unfolding set_status
  set_status-id pending m now q = refl
  set_status-id accepted m now q = refl
  set_status-id completed m now q = refl
  set_status-id expired m now q = refl
  set_status-id failed m now q = refl

  set_status-known :
      (st : SwapStatus) (m : Option String) (now : String) (q : QuoteRecord env)
      → is_status (set_status env st m now q).status ≡ true
  unfolding set_status is_status has to_string
  set_status-known pending m now q = refl
  set_status-known accepted m now q = refl
  set_status-known completed m now q = refl
  set_status-known expired m now q = refl
  set_status-known failed m now q = refl

  set_statuses-IsConsistent :
      (id : String) (st : SwapStatus) (m : Option String) (now : String) (t : Tables env)
      → IsConsistent t
      → IsConsistent (record t { quotes = update_quotes env id (set_status env st m now) t.quotes })
  set_statuses-IsConsistent id st m now t c =
      let ids = update_quotes-ids id (set_status env st m now) t.quotes (set_status-id st m now) in
      record {
        ids = rw ids c.ids;
        statuses = update_quotes-All _ id _ t.quotes (set_status-known st m now) c.statuses;
        swaps_distinct = c.swaps_distinct;
        one_swap = c.one_swap;
        swaps_refer = rw ids c.swaps_refer;
        event_types = c.event_types;
        events_refer = rw ids c.events_refer;
      }

  pub update_quote_status-IsConsistent :
      (id : String) (st : SwapStatus) (m : Option String) (t : Tables env) (w : env.World)
      → IsConsistent t
      → IsConsistent (update_quote_status env id st m t w).1
  unfolding update_quote_status
  update_quote_status-IsConsistent id st m t w c =
      let (now, w') = env.host.utc_now w in
      execute-preserves IsConsistent _ t w'
        (λ a t' e.
          let stored : record t { quotes = update_quotes env id (set_status env st m now) t.quotes }
              ≡ t' =
            ground arith in
          subst IsConsistent stored (set_statuses-IsConsistent id st m now t c))
        c
