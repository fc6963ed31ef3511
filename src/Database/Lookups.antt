-- ===== src/Database/Lookups.antt =====
-- What the queries of quotes and swaps find after a statement that succeeded.
use mathlib.Core.Option
use atomic_mint_swap.Base.{
  ℕ, String, ◌≡◌, refl, ap, ◌∙◌, subst, Bool, false, not, Option, none, some, List, [], ◌∷◌, ◌++◌,
  map, retain, arith, eq_iff, ◌==◌, if◌then◌else◌,
}
use atomic_mint_swap.Effect.{ok, Attempt, done, refused}
use atomic_mint_swap.Env.{Env}
use atomic_mint_swap.Types.Status.{
  SwapStatus, pending, accepted, completed, expired, failed, to_string,
}
use atomic_mint_swap.Database.Rows.{
  QuoteRecord, SwapRecord, Tables, quote_ids, has, run, execute, query,
}
use atomic_mint_swap.Database.Columns.{AreDistinct}
use atomic_mint_swap.Database.Quotes.{
  inserted, create_quote, find_quote, get_quote, set_status, update_quotes, update_quote_status,
  is_stale, delete_quotes, delete_expired_quotes,
}
use atomic_mint_swap.Database.Swaps.{
  find_swap, swap_ids, swap_quotes, create_swap, get_swap_by_quote,
}
use atomic_mint_swap.Database.Swaps

-- A key that no row has is found only in the row that is appended.
find_swap-append :
    (key : SwapRecord → String) (k : String) (ss : List SwapRecord) (s : SwapRecord)
    → key s ≡ k
    → has k (map key ss) ≡ false
    → find_swap key k (ss ++ s ∷ []) ≡ some s
unfolding find_swap has
find_swap-append key k [] s e h = ground (arith, eq_iff (key s) k)
find_swap-append key k (x ∷ ss) s e h = ground (arith, find_swap-append key k ss s e)

module _ (env : Env) where
  -- A statement that succeeds has run.
  pub execute-eq-ok :
      {A : Type 0} (f : Tables env → Attempt String (A × Tables env)) (t : Tables env)
      (w : env.World) (a : A)
      → (execute env f t w).0 ≡ ok a
      → f t ≡ done (a, (execute env f t w).1)
  unfolding execute
  execute-eq-ok {A = A} f t w a h = go (env.driver.fault w).0 (f t) refl h
    where
      go :
          (fault : Option String) (r : Attempt String (A × Tables env))
          → f t ≡ r
          → (run env fault f t (env.driver.fault w).1).0 ≡ ok a
          → f t ≡ done (a, (run env fault f t (env.driver.fault w).1).1)
      go (some e) r k h = cc
      go none (done (b, t')) k h = ground (arith, k)
      go none (refused e) k h = ground (arith, k)

  -- A query with no fault returns what it computes.
  pub query_lem :
      {A : Type 0} (f : Tables env → A) (t : Tables env) (w : env.World)
      → (env.driver.fault w).0 ≡ none
      → (query env f t w).0 ≡ ok (f t)
  unfolding query execute
  query_lem f t w h = rw (h, run) refl

  -- After `create_swap` has stored a record, a `get_swap_by_quote` that meets no fault finds the
  -- swap of its quote, with its id and source proofs, and with no target proofs, whatever target
  -- proofs the record had.
  pub get_swap_by_quote-create_swap :
      (s : SwapRecord) (t : Tables env) (w w' : env.World)
      → (create_swap env s t w).0 ≡ ok tt
      → (env.driver.fault w').0 ≡ none
      → (found : SwapRecord) × ((get_swap_by_quote env s.quote_id (create_swap env s t w).1 w').0
          ≡ ok (some found))
        × (found.id ≡ s.id)
        × (found.source_proofs ≡ s.source_proofs)
        × (found.target_proofs ≡ none)
  unfolding create_swap get_swap_by_quote Swaps.inserted
  get_swap_by_quote-create_swap s t w w' h fine =
      let ran = execute-eq-ok _ t w tt h in
      let new : has s.quote_id (swap_quotes t.swaps) ≡ false = ground arith in
      let stored : record t { swaps = t.swaps ++ Swaps.inserted s ∷ [] }
          ≡ (create_swap env s t w).1 =
        ground arith in
      let found =
        find_swap-append (λ s. s.quote_id) s.quote_id t.swaps (Swaps.inserted s) refl new in
      (
        Swaps.inserted s,
        subst (λ t'. (get_swap_by_quote env s.quote_id t' w').0 ≡ ok (some (Swaps.inserted s)))
            stored (query_lem _ _ w' fine ∙ ap ok found),
        refl,
        refl,
        refl,
      )

  pub find_quote-append :
      (id : String) (qs : List (QuoteRecord env)) (q : QuoteRecord env)
      → has q.id (map (λ q. q.id) qs) ≡ false
      → find_quote env id (qs ++ q ∷ []) ≡ (if q.id == id then some q else find_quote env id qs)
  unfolding find_quote has
  find_quote-append id [] q h = refl
  find_quote-append id (x ∷ qs) q h =
      ground (arith, find_quote-append id qs q, eq_iff x.id id, eq_iff q.id id, eq_iff x.id q.id)

  -- After `create_quote` has stored a record, a `get_quote` that meets no fault finds it under its
  -- id, without the times and the message that the INSERT leaves out, and finds for every other id
  -- what was there before.
  pub get_quote-create_quote :
      (q : QuoteRecord env) (id : String) (t : Tables env) (w w' : env.World)
      → (create_quote env q t w).0 ≡ ok tt
      → (env.driver.fault w').0 ≡ none
      → (get_quote env id (create_quote env q t w).1 w').0
        ≡ ok (if q.id == id then some (inserted env q) else find_quote env id t.quotes)
  unfolding create_quote get_quote inserted
  get_quote-create_quote q id t w w' h fine =
      let ran = execute-eq-ok _ t w tt h in
      let new : has q.id (quote_ids env t) ≡ false = ground arith in
      let stored : record t { quotes = t.quotes ++ inserted env q ∷ [] }
          ≡ (create_quote env q t w).1 =
        ground arith in
      subst
        (λ t'.
          (get_quote env id t' w').0
          ≡ ok (if q.id == id then some (inserted env q) else find_quote env id t.quotes))
        stored (query_lem _ _ w' fine ∙ ap ok (find_quote-append id t.quotes (inserted env q) new))

  -- The status of the quote that `find_quote` finds.
  abbrev pub status_at : String → List (QuoteRecord env) → Option String
  status_at id qs = Option.map (λ (q : QuoteRecord env). q.status) (find_quote env id qs)

  set_status-lem :
      (st : SwapStatus) (m : Option String) (now : String) (q : QuoteRecord env)
      → ((set_status env st m now q).id ≡ q.id)
        × ((set_status env st m now q).status ≡ to_string st)
  unfolding set_status
  set_status-lem pending m now q = (refl, refl)
  set_status-lem accepted m now q = (refl, refl)
  set_status-lem completed m now q = (refl, refl)
  set_status-lem expired m now q = (refl, refl)
  set_status-lem failed m now q = (refl, refl)

  pub status_at-update_quotes :
      (id j : String) (st : SwapStatus) (m : Option String) (now : String)
      (qs : List (QuoteRecord env))
      → status_at j (update_quotes env id (set_status env st m now) qs)
        ≡ (if j == id then Option.map (λ s. to_string st) (status_at j qs) else status_at j qs)
  unfolding update_quotes find_quote
  status_at-update_quotes id j st m now [] = ground arith
  status_at-update_quotes id j st m now (q ∷ qs) =
      let same = set_status-lem st m now q in
      let rest = status_at-update_quotes id j st m now qs in
      ground (arith, same.0, same.1, rest, eq_iff q.id id, eq_iff q.id j, eq_iff j id)

  -- After `update_quote_status` has succeeded, a `get_quote` that meets no fault finds the quote
  -- with the text of the new status, if it was there before, and every other quote with the status
  -- that it had.
  pub get_quote-update_quote_status :
      (id j : String) (st : SwapStatus) (m : Option String) (t : Tables env) (w w' : env.World)
      → (update_quote_status env id st m t w).0 ≡ ok tt
      → (env.driver.fault w').0 ≡ none
      → (found : Option (QuoteRecord env)) × ((get_quote env j
            (update_quote_status env id st m t w).1
            w').0
          ≡ ok found)
        × (Option.map (λ q. q.status) found ≡ (
            if j == id
            then Option.map (λ s. to_string st) (status_at j t.quotes)
            else status_at j t.quotes))
  unfolding update_quote_status get_quote
  get_quote-update_quote_status id j st m t w w' h fine =
      let (now, w1) = env.host.utc_now w in
      let ran = execute-eq-ok _ t w1 tt h in
      let qs = update_quotes env id (set_status env st m now) t.quotes in
      let stored : record t { quotes = qs } ≡ (update_quote_status env id st m t w).1 =
        ground arith in
      (
        find_quote env j qs,
        subst (λ t'. (get_quote env j t' w').0 ≡ ok (find_quote env j qs)) stored
            (query_lem _ _ w' fine),
        status_at-update_quotes id j st m now t.quotes,
      )

  find_quote_absent :
      (id : String) (p : QuoteRecord env → Bool) (qs : List (QuoteRecord env))
      → has id (map (λ q. q.id) qs) ≡ false
      → find_quote env id (retain p qs) ≡ none
  unfolding find_quote has
  find_quote_absent id p [] h = refl
  find_quote_absent id p (q ∷ qs) h = ground (arith, find_quote_absent id p qs)

  pub find_quote-retain :
      (id : String) (gone : QuoteRecord env → Bool) (qs : List (QuoteRecord env))
      → AreDistinct (map (λ q. q.id) qs)
      → find_quote env id (retain (λ q. not (gone q)) qs)
        ≡ Option.bind (find_quote env id qs) (λ q. if gone q then none else some q)
  unfolding find_quote Option.bind
  find_quote-retain id gone [] d = refl
  find_quote-retain id gone (q ∷ qs) d =
      let rest = find_quote-retain id gone qs d.1 in
      let only = find_quote_absent id (λ q. not (gone q)) qs in
      ground (arith, rest, only, d.0, eq_iff q.id id)

  -- On tables whose quote ids are unique, after `delete_expired_quotes` has succeeded, a
  -- `get_quote` that meets no fault finds no quote that was pending and had expired at the time of
  -- the call, and finds for every other id what was there before.
  pub get_quote-delete_expired_quotes :
      (id : String) (t : Tables env) (w w' : env.World) (n : ℕ)
      → AreDistinct (quote_ids env t)
      → (delete_expired_quotes env t w).0 ≡ ok n
      → (env.driver.fault w').0 ≡ none
      → (get_quote env id (delete_expired_quotes env t w).1 w').0
        ≡ ok (
            Option.bind
              (find_quote env id t.quotes)
              (λ q. if is_stale env (env.host.utc_now w).0 q then none else some q))
  unfolding delete_expired_quotes get_quote delete_quotes
  get_quote-delete_expired_quotes id t w w' n d h fine =
      let (now, w1) = env.host.utc_now w in
      let ran = execute-eq-ok _ t w1 n h in
      let stored : delete_quotes env (is_stale env now) t ≡ (delete_expired_quotes env t w).1 =
        ground arith in
      subst
        (λ t'.
          (get_quote env id t' w').0
          ≡ ok (
              Option.bind (find_quote env id t.quotes)
                (λ q. if is_stale env now q then none else some q)))
        stored (query_lem _ _ w' fine ∙ ap ok (find_quote-retain id (is_stale env now) t.quotes d))
