-- ===== src/Database/Statements.antt =====
-- Every statement that writes to the database keeps it consistent.
use atomic_mint_swap.Base.{
  ◌+◌, String, ◌≡◌, refl, subst, Bool, Bool-cases, inl, inr, Option-cases, true, not, Option, some,
  List, [], ◌∷◌, ◌++◌, map, retain, All, arith, ◌==◌,
}
use atomic_mint_swap.Base.Word.{pos}
use atomic_mint_swap.Env.{Env}
use atomic_mint_swap.Types.Status.{SwapStatus}
use atomic_mint_swap.Database.Rows.{QuoteRecord, SwapRecord, LiquidityEvent, Tables, quote_ids, has}
use atomic_mint_swap.Database.Columns.{
  AreDistinct-retain, All-append_one, All-retain, All-retained, All-map,
}
use atomic_mint_swap.Database.Quotes.{
  create_quote, update_quote_status, unlink, is_stale, delete_quotes, delete_expired_quotes,
}
use atomic_mint_swap.Database.Swaps.{update_swaps, create_swap, complete_swap}
use atomic_mint_swap.Database.Events.{is_event_type, refers, record_liquidity_event}
use atomic_mint_swap.Database.Consistency.{
  IsConsistent, execute-preserves, create_quote-IsConsistent, create_swap-IsConsistent,
  update_quote_status-IsConsistent,
}

module _ (env : Env) where
  -- An UPDATE of swaps that keeps a column leaves the list of its values.
  update_swaps-column :
      (key : SwapRecord → String) (id : String) (f : SwapRecord → SwapRecord) (ss : List SwapRecord)
      → ((s : SwapRecord) → key (f s) ≡ key s)
      → map key (update_swaps id f ss) ≡ map key ss
  unfolding update_swaps
  update_swaps-column key id f [] h = refl
  update_swaps-column key id f (s ∷ ss) h = elim (Bool-cases (s.id == id)) [
    | inl e ↦ rw (e, h s, update_swaps-column key id f ss h) refl
    | inr e ↦ rw (e, update_swaps-column key id f ss h) refl
  ]

  update_swaps-All :
      (p : String → Type 0) (id : String) (f : SwapRecord → SwapRecord) (ss : List SwapRecord)
      → ((s : SwapRecord) → (f s).quote_id ≡ s.quote_id)
      → All (λ s. p s.quote_id) ss
      → All (λ s. p s.quote_id) (update_swaps id f ss)
  unfolding update_swaps
  update_swaps-All p id f [] h k = tt
  update_swaps-All p id f (s ∷ ss) h k = elim (Bool-cases (s.id == id)) [
    | inl e ↦ rw (e, h s) (k.0, update_swaps-All p id f ss h k.1)
    | inr e ↦ rw e (k.0, update_swaps-All p id f ss h k.1)
  ]

  updated_swaps-IsConsistent :
      (id : String) (f : SwapRecord → SwapRecord) (t : Tables env)
      → ((s : SwapRecord) → (f s).id ≡ s.id)
      → ((s : SwapRecord) → (f s).quote_id ≡ s.quote_id)
      → IsConsistent env t
      → IsConsistent env (record t { swaps = update_swaps id f t.swaps })
  updated_swaps-IsConsistent id f t h k c = record {
    ids = c.ids;
    statuses = c.statuses;
    swaps_distinct = rw (update_swaps-column (λ s. s.id) id f t.swaps h) c.swaps_distinct;
    one_swap = rw (update_swaps-column (λ s. s.quote_id) id f t.swaps k) c.one_swap;
    swaps_refer =
        update_swaps-All (λ q. has q (quote_ids env t) ≡ true) id f t.swaps k c.swaps_refer;
    event_types = c.event_types;
    events_refer = c.events_refer;
  }

  complete_swap-IsConsistent :
      (id target : String) (dec secret : Option String) (t : Tables env) (w : env.World)
      → IsConsistent env t
      → IsConsistent env (complete_swap env id target dec secret t w).1
  unfolding complete_swap
  complete_swap-IsConsistent id target dec secret t w c =
      let (now, w') = env.host.utc_now w in
      execute-preserves env (IsConsistent env) _ t w'
        (λ a t' e.
          let f : SwapRecord → SwapRecord = λ s. record s {
            target_proofs = some target;
            decrypted_signature = dec;
            adaptor_secret = secret;
            completed_at = some now;
          } in
          let stored : record t { swaps = update_swaps id f t.swaps } ≡ t' = ground arith in
          subst (IsConsistent env) stored
            (updated_swaps-IsConsistent id f t (λ s. refl) (λ s. refl) c))
        c

  record_liquidity_event-IsConsistent :
      (ev : LiquidityEvent) (t : Tables env) (w : env.World)
      → IsConsistent env t
      → IsConsistent env (record_liquidity_event env ev t w).1
  unfolding record_liquidity_event
  record_liquidity_event-IsConsistent ev t w c =
      execute-preserves env (IsConsistent env) _ t w
        (λ a t' e.
          let row : LiquidityEvent = record ev { id = some (pos t.next_event_id) } in
          let known : is_event_type ev.event_type ≡ true = ground arith in
          let found : refers ev.quote_id (quote_ids env t) ≡ true = ground arith in
          let stored : record t {
            liquidity_events = t.liquidity_events ++ row ∷ [];
            next_event_id = t.next_event_id + 1;
          }
              ≡ t' =
            ground arith in
          subst (IsConsistent env) stored (record {
            ids = c.ids;
            statuses = c.statuses;
            swaps_distinct = c.swaps_distinct;
            one_swap = c.one_swap;
            swaps_refer = c.swaps_refer;
            event_types = All-append_one _ t.liquidity_events row c.event_types known;
            events_refer = All-append_one _ t.liquidity_events row c.events_refer found;
          }))
        c

  unlink-refers :
      (ids : List String) (ev : LiquidityEvent) → refers (unlink env ids ev).quote_id ids ≡ true
  unfolding unlink refers
  unlink-refers ids ev = elim (Option-cases ev.quote_id) [
    | inl e ↦ ground arith
    | inr (i, e) ↦ ground arith
  ]

  unlinked-types :
      (ids : List String) (evs : List LiquidityEvent)
      → All (λ e. is_event_type e.event_type ≡ true) evs
      → All (λ e. is_event_type e.event_type ≡ true) (map (unlink env ids) evs)
  unfolding unlink
  unlinked-types ids [] h = tt
  unlinked-types ids (ev ∷ evs) h = (ground arith, unlinked-types ids evs h.1)

  delete_quotes-IsConsistent :
      (gone : QuoteRecord env → Bool) (t : Tables env)
      → IsConsistent env t
      → IsConsistent env (delete_quotes env gone t)
  unfolding delete_quotes
  delete_quotes-IsConsistent gone t c =
      let kept = retain (λ q. not (gone q)) t.quotes in
      let ids = map (λ (q : QuoteRecord env). q.id) kept in
      record {
        ids = AreDistinct-retain (λ q. q.id) _ t.quotes c.ids;
        statuses = All-retained _ _ t.quotes c.statuses;
        swaps_distinct = AreDistinct-retain (λ s. s.id) _ t.swaps c.swaps_distinct;
        one_swap = AreDistinct-retain (λ s. s.quote_id) _ t.swaps c.one_swap;
        swaps_refer = All-retain _ t.swaps;
        event_types = unlinked-types ids t.liquidity_events c.event_types;
        events_refer = All-map _ (unlink env ids) t.liquidity_events (unlink-refers ids);
      }

  delete_expired_quotes-IsConsistent :
      (t : Tables env) (w : env.World)
      → IsConsistent env t
      → IsConsistent env (delete_expired_quotes env t w).1
  unfolding delete_expired_quotes
  delete_expired_quotes-IsConsistent t w c =
      let (now, w') = env.host.utc_now w in
      execute-preserves env (IsConsistent env) _ t w'
        (λ a t' e.
          let stored : delete_quotes env (is_stale env now) t ≡ t' = ground arith in
          subst (IsConsistent env) stored (delete_quotes-IsConsistent (is_stale env now) t c))
        c

  -- The calls of the repositories that write.
  pub data Statement : Type 0 where
    insert_quote : QuoteRecord env → Statement
    set_quote_status : String → SwapStatus → Option String → Statement
    delete_expired : Statement
    insert_swap : SwapRecord → Statement
    finish_swap : String → String → Option String → Option String → Statement
    insert_event : LiquidityEvent → Statement

  -- The tables and the world after a call, whether it succeeded or not.
  abbrev pub after : Statement → Tables env → env.World → Tables env × env.World
  after (insert_quote q) t w = let r = create_quote env q t w in (r.1, r.2)
  after (set_quote_status id st m) t w = let r = update_quote_status env id st m t w in (r.1, r.2)
  after delete_expired t w = let r = delete_expired_quotes env t w in (r.1, r.2)
  after (insert_swap s) t w = let r = create_swap env s t w in (r.1, r.2)
  after (finish_swap id target dec secret) t w =
      let r = complete_swap env id target dec secret t w in (r.1, r.2)
  after (insert_event ev) t w = let r = record_liquidity_event env ev t w in (r.1, r.2)

  abbrev pub after_all : List Statement → Tables env → env.World → Tables env
  after_all [] t w = t
  after_all (s ∷ ss) t w = let (t', w') = after s t w in after_all ss t' w'

  pub after-IsConsistent :
      (s : Statement) (t : Tables env) (w : env.World)
      → IsConsistent env t
      → IsConsistent env (after s t w).0
  after-IsConsistent (insert_quote q) t w c = create_quote-IsConsistent env q t w c
  after-IsConsistent (set_quote_status id st m) t w c =
      update_quote_status-IsConsistent env id st m t w c
  after-IsConsistent delete_expired t w c = delete_expired_quotes-IsConsistent t w c
  after-IsConsistent (insert_swap s) t w c = create_swap-IsConsistent env s t w c
  after-IsConsistent (finish_swap id target dec secret) t w c =
      complete_swap-IsConsistent id target dec secret t w c
  after-IsConsistent (insert_event ev) t w c = record_liquidity_event-IsConsistent ev t w c
