-- ===== src/Database/Store.antt =====
-- The calls that write to the database act on its quotes, as a map from ids to records, as they
-- promise: for callers that do not see the rows.
use mathlib.Core.Option
use atomic_mint_swap.Base.{
  String, ◌≡◌, refl, sym, ap, ◌∙◌, fun_ext, Bool-cases, inl, inr, false, true, not, Option, none,
  some, List, [], ◌∷◌, ◌++◌, map, arith, eq_iff, ◌==◌, if◌then◌else◌,
}
use atomic_mint_swap.Effect.{ok, Attempt, done, refused}
use atomic_mint_swap.Env.{Env}
use atomic_mint_swap.Types.Status.{
  SwapStatus, pending, accepted, completed, expired, failed, to_string,
}
use atomic_mint_swap.Database.Rows.{QuoteRecord, Tables, quote_ids, has, run, execute}
use atomic_mint_swap.Database.Columns.{AreDistinct}
use atomic_mint_swap.Database.Quotes.{
  is_status, inserted, create_quote, find_quote, get_quote, set_status, update_quotes,
  update_quote_status, is_stale, delete_quotes, delete_expired_quotes,
}
use atomic_mint_swap.Database.Swaps.{create_swap, complete_swap}
use atomic_mint_swap.Database.Events.{record_liquidity_event}
use atomic_mint_swap.Database.Lookups.{query_lem, find_quote-append, find_quote-retain}
use atomic_mint_swap.Database.Consistency.{IsConsistent, set_status-id}
use atomic_mint_swap.Database.Statements.{
  Statement, insert_quote, set_quote_status, delete_expired, insert_swap, finish_swap, insert_event,
  after, after_all, after-IsConsistent,
}
use atomic_mint_swap.Database.Promises.{
  Store, store, unless_fault, is_free, is_known, put, marked, promised, promised_all,
}

module _ (env : Env) where
  execute-Store :
      {A : Type 0} (f : Tables env → Attempt String (A × Tables env)) (t : Tables env)
      (w : env.World) (new : Store env)
      → ((a : A) (t' : Tables env) → f t ≡ done (a, t') → new ≡ store env t')
      → ((e : String) → f t ≡ refused e → new ≡ store env t)
      → unless_fault env w new (store env t)
        ≡ (store env (execute env f t w).1, (execute env f t w).2)
  unfolding execute
  execute-Store {A = A} f t w new kept left = go (env.driver.fault w).0 (f t) refl
    where
      go :
          (fault : Option String) (r : Attempt String (A × Tables env))
          → f t ≡ r
          → let w' = (env.driver.fault w).1 in
            let after = run env fault f t w' in
            ◌≡◌ {A = Store env × env.World}
              (elim fault [ none ↦ new | some e ↦ store env t ], w')
              (store env after.1, after.2)
      go (some e) r k = refl
      go none (done (a, t')) k = rw (k, run) (ap (λ x. (x, (env.driver.fault w).1)) (kept a t' k))
      go none (refused e) k = rw (k, run) (ap (λ x. (x, (env.driver.fault w).1)) (left e k))

  is_free-has :
      (id : String) (qs : List (QuoteRecord env))
      → is_free env (find_quote env id qs) ≡ not (has id (map (λ q. q.id) qs))
  unfolding find_quote has
  is_free-has id [] = refl
  is_free-has id (q ∷ qs) = elim (Bool-cases (q.id == id)) [
    | inl e ↦ rw e refl
    | inr e ↦ rw e (is_free-has id qs)
  ]

  is_known-is_status : (st : String) → is_known st ≡ is_status st
  unfolding is_status has
  is_known-is_status st = ground arith

  create_quote-Store :
      (q : QuoteRecord env) (t : Tables env) (w : env.World)
      → promised env (insert_quote q) (store env t) w
        ≡ (store env (after env (insert_quote q) t w).0, (after env (insert_quote q) t w).1)
  unfolding create_quote inserted
  create_quote-Store q t w =
      let text = is_known-is_status q.status in
      let free = is_free-has q.id t.quotes in
      execute-Store _ t w (put env q (store env t))
        (λ a t' ran.
          let known : is_status q.status ≡ true = ground arith in
          let new : has q.id (quote_ids env t) ≡ false = ground arith in
          let number : env.host.f64_is_nan q.fee_rate ≡ false = ground arith in
          let stored : record t { quotes = t.quotes ++ inserted env q ∷ [] } ≡ t' = ground arith in
          fun_ext λ id.
            rw (number, text, known, free, new)
              (sym (find_quote-append env id t.quotes (inserted env q) new))
            ∙ ap (λ t'. store env t' id) stored)
        λ e ran. fun_ext λ id. ground (arith, text, free)

  find_quote-update_quotes :
      (id j : String) (f : QuoteRecord env → QuoteRecord env) (qs : List (QuoteRecord env))
      → ((q : QuoteRecord env) → (f q).id ≡ q.id)
      → find_quote env j (update_quotes env id f qs)
        ≡ (if j == id then Option.map f (find_quote env j qs) else find_quote env j qs)
  unfolding update_quotes find_quote
  find_quote-update_quotes id j f [] h = ground arith
  find_quote-update_quotes id j f (q ∷ qs) h =
      let rest = find_quote-update_quotes id j f qs h in
      ground (arith, h q, rest, eq_iff q.id id, eq_iff q.id j, eq_iff j id)

  marked-set_status :
      (st : SwapStatus) (m : Option String) (now : String) (q : QuoteRecord env)
      → marked env st m now q ≡ set_status env st m now q
  unfolding set_status to_string
  marked-set_status pending m now q = refl
  marked-set_status accepted m now q = refl
  marked-set_status completed m now q = refl
  marked-set_status expired m now q = refl
  marked-set_status failed m now q = refl

  update_quote_status-Store :
      (id : String) (st : SwapStatus) (m : Option String) (t : Tables env) (w : env.World)
      → promised env (set_quote_status id st m) (store env t) w ≡ (
        store env (after env (set_quote_status id st m) t w).0,
        (after env (set_quote_status id st m) t w).1,
      )
  unfolding update_quote_status
  update_quote_status-Store id st m t w =
      let (now, w1) = env.host.utc_now w in
      let f = set_status env st m now in
      execute-Store _ t w1 _
        (λ a t' ran.
          let stored : record t { quotes = update_quotes env id f t.quotes } ≡ t' = ground arith in
          fun_ext λ j.
            ap
              (λ (g : QuoteRecord env → QuoteRecord env).
                if j == id then Option.map g (store env t j) else store env t j)
              (fun_ext (marked-set_status st m now))
            ∙ sym (find_quote-update_quotes id j f t.quotes (set_status-id env st m now))
            ∙ ap (λ t'. store env t' j) stored)
        λ e ran. absurd (ground arith)

  delete_expired_quotes-Store :
      (t : Tables env) (w : env.World)
      → AreDistinct (quote_ids env t)
      → promised env delete_expired (store env t) w
        ≡ (store env (after env delete_expired t w).0, (after env delete_expired t w).1)
  unfolding delete_expired_quotes delete_quotes is_stale
  delete_expired_quotes-Store t w d =
      let (now, w1) = env.host.utc_now w in
      execute-Store _ t w1 _
        (λ a t' ran.
          let stored : delete_quotes env (is_stale env now) t ≡ t' = ground arith in
          fun_ext λ j.
            sym (find_quote-retain env j (is_stale env now) t.quotes d)
            ∙ ap (λ t'. store env t' j) stored)
        λ e ran. absurd (ground arith)

  -- A statement that leaves the quotes alone.
  execute-Store_same :
      {A : Type 0} (f : Tables env → Attempt String (A × Tables env)) (t : Tables env)
      (w : env.World)
      → ((a : A) (t' : Tables env) → f t ≡ done (a, t') → t.quotes ≡ t'.quotes)
      → unless_fault env w (store env t) (store env t)
        ≡ (store env (execute env f t w).1, (execute env f t w).2)
  execute-Store_same f t w h =
      execute-Store f t w (store env t)
        (λ a t' ran. ap (λ qs id. find_quote env id qs) (h a t' ran)) λ e ran. refl

  after-promised :
      (s : Statement env) (t : Tables env) (w : env.World)
      → IsConsistent env t
      → promised env s (store env t) w ≡ (store env (after env s t w).0, (after env s t w).1)
  unfolding create_swap complete_swap record_liquidity_event
  after-promised (insert_quote q) t w c = create_quote-Store q t w
  after-promised (set_quote_status id st m) t w c = update_quote_status-Store id st m t w
  after-promised delete_expired t w c = delete_expired_quotes-Store t w c.ids
  after-promised (insert_swap s) t w c = execute-Store_same _ t w λ a t' ran. ground arith
  after-promised (finish_swap id target dec secret) t w c =
      execute-Store_same _ t _ λ a t' ran. ground arith
  after-promised (insert_event ev) t w c = execute-Store_same _ t w λ a t' ran. ground arith

  after_all-promised :
      (ss : List (Statement env)) (t : Tables env) (w : env.World)
      → IsConsistent env t
      → promised_all env ss (store env t) w ≡ store env (after_all env ss t w)
  after_all-promised [] t w c = refl
  after_all-promised (s ∷ ss) t w c =
      let (t', w') = after env s t w in
      ap (λ x. promised_all env ss x.0 x.1) (after-promised s t w c)
      ∙ after_all-promised ss t' w' (after-IsConsistent env s t w c)

  -- On consistent tables, after whatever calls of the repositories that write, whichever of them
  -- fail, a `get_quote` that meets no fault returns under every id what the map of ids to records
  -- holds, in which each call has done what it promises: an insertion adds a record with a known
  -- status, and a fee rate that is not NaN, under a free id, without its later times and message; a change of status sets the status
  -- of its quote's record, with the time where it is accepted or completed, and the message where it
  -- is expired or failed; a deletion removes the records that are pending and past their time; the
  -- calls on swaps and events change none, and neither does a call that fails.
  pub get_quote-after_all :
      (ss : List (Statement env)) (id : String) (t : Tables env) (w w' : env.World)
      → IsConsistent env t
      → (env.driver.fault w').0 ≡ none
      → (get_quote env id (after_all env ss t w) w').0 ≡ ok (promised_all env ss (store env t) w id)
  unfolding get_quote
  get_quote-after_all ss id t w w' c fine =
      query_lem env _ _ w' fine ∙ ap (λ kept. ok (kept id)) (sym (after_all-promised ss t w c))
