-- ===== src/Api/Metrics.antt =====
-- `get_metrics` of cashu-broker/src/api.rs: which quotes it counts, and what it counts of them.
use mathlib.Core.List.Perm
use atomic_mint_swap.Base.{
  ℕ, zero, suc, ◌+◌, ◌%◌, ◌<◌, min, ◌≡◌, refl, sym, ap, ◌∙◌, subst, none, List, [], ◌∷◌, ◌++◌, Perm,
  map, arith, length, take, sum_by,
}
use atomic_mint_swap.Base.Perms.{length-perm}
use atomic_mint_swap.Base.Word.{ℤ, pos, u64_mod, add_u64, as_u64}
use atomic_mint_swap.Effect.{ok}
use atomic_mint_swap.Effect.Success.{Post, Post-proceed, Post-value, convert-eq-ok}
use atomic_mint_swap.Env.{Env}
use atomic_mint_swap.Env.Laws.{OrderLaws}
use atomic_mint_swap.Types.Status.{completed, failed}
use atomic_mint_swap.Database.Rows.{QuoteRecord, Tables, limit_rows, query}
use atomic_mint_swap.Database.Quotes
use atomic_mint_swap.Database.Quotes.{list_quotes}
use atomic_mint_swap.Database.Lookups.{execute-eq-ok}
use atomic_mint_swap.Api.Types.{AppState, broker, on_db}
use atomic_mint_swap.Api.Reads.{MetricsResponse, sum_as_u64, with_status, metrics, get_metrics}

take-rest :
    {A : Type 0} (n : ℕ) (xs : List A)
    → (rest : List A) × (xs ≡ take n xs ++ rest) × (length (take n xs) ≡ min n (length xs))
take-rest zero xs = (xs, refl, omega arith)
take-rest (suc n) [] = ([], refl, omega arith)
take-rest (suc n) (x ∷ xs) =
    let (rest, split, size) = take-rest n xs in (rest, ap (λ ys. x ∷ ys) split, omega (arith, size))

-- The sum wraps once, however it is added up.
sum_as_u64-eq-sum :
    (acc : ℕ) (zs : List ℤ) → acc < u64_mod → sum_as_u64 acc zs ≡ (acc + sum_by as_u64 zs) % u64_mod
unfolding sum_as_u64
sum_as_u64-eq-sum acc [] h = omega arith
sum_as_u64-eq-sum acc (z ∷ zs) h =
    let step = sum_as_u64-eq-sum (add_u64 acc (as_u64 z)) zs (omega arith) in step ∙ omega arith

module _ (env : Env) where
  -- The metrics of some quotes.
  pub record Measures (qs : List (QuoteRecord env)) (m : MetricsResponse) : Type 0 where
    pub total : m.total_quotes ≡ length qs
    pub completed_counted : m.completed_swaps ≡ length (with_status env completed qs)
    pub failed_counted : m.failed_swaps ≡ length (with_status env failed qs)
    pub volume :
        m.total_volume
        ≡ sum_by as_u64 (map (λ q. q.amount_in) (with_status env completed qs)) % u64_mod
    pub fees :
        m.total_fees ≡ sum_by as_u64 (map (λ q. q.fee) (with_status env completed qs)) % u64_mod

  metrics-Measures : (qs : List (QuoteRecord env)) → Measures qs (metrics env qs)
  unfolding metrics
  metrics-Measures qs = record {
    total = refl;
    completed_counted = refl;
    failed_counted = refl;
    volume =
        sum_as_u64-eq-sum 0 (map (λ q. q.amount_in) (with_status env completed qs)) (omega arith)
        ∙ omega arith;
    fees =
        sum_as_u64-eq-sum 0 (map (λ q. q.fee) (with_status env completed qs)) (omega arith)
        ∙ omega arith;
  }

  -- What a list without a filter returns.
  pub list_quotes-eq-ok :
      (laws : OrderLaws env.driver) (n : ℕ) (t : Tables env) (w : env.World)
      (qs : List (QuoteRecord env))
      → (list_quotes env none (pos n) t w).0 ≡ ok qs
      → (others : List (QuoteRecord env)) × Perm t.quotes (qs ++ others)
        × (length qs ≡ min n (length t.quotes))
  unfolding list_quotes Quotes.with_status limit_rows query
  list_quotes-eq-ok laws n t w qs e =
      let rows = env.driver.order_desc (QuoteRecord env) (λ q. q.created_at) t.quotes in
      let same : Perm rows t.quotes =
        laws.order_perm (QuoteRecord env) (λ q. q.created_at) t.quotes in
      let ran = execute-eq-ok env _ t w qs e in
      let listed : take n rows ≡ qs = cc in
      let (rest, split, size) = take-rest n rows in
      (
        rest,
        Perm.trans (Perm.symm same) (
            subst (λ ys. Perm rows (ys ++ rest)) listed (subst (Perm rows) split (Perm.refl rows))),
        sym (ap length listed) ∙ size ∙ ap (min n) (length-perm same),
      )

  -- Where `get_metrics` returns a response, it measures some of the quotes of the database: all of
  -- them, if there are no more than ten thousand, and otherwise ten thousand.
  pub get_metrics-Measures :
      (laws : OrderLaws env.driver) (s : AppState env) (w : env.World) (m : MetricsResponse)
      → (get_metrics env s w).0 ≡ ok m
      → (counted : List (QuoteRecord env)) × (others : List (QuoteRecord env)) × Perm s.db.quotes
          (counted ++ others)
        × (length counted ≡ min 10000 (length s.db.quotes))
        × Measures counted m
  unfolding get_metrics
  get_metrics-Measures laws s w m e =
      let Q : MetricsResponse → AppState env → env.World → Type 0 = λ m s1 w1.
        (counted : List (QuoteRecord env)) × (others : List (QuoteRecord env)) × Perm s.db.quotes
          (counted ++ others)
        × (length counted ≡ min 10000 (length s.db.quotes))
        × Measures counted m in
      let call = on_db env (list_quotes env none (pos 10000)) s w in
      let whole : Post Q (get_metrics env s w) = Post-proceed Q _ call λ qs s1 w1 e1.
        let called = convert-eq-ok broker _ qs s1 w1 e1 in
        let (others, all, size) = list_quotes-eq-ok laws 10000 s.db w qs (ap (λ r. r.0) called) in
        (qs, others, all, size, metrics-Measures qs) in
      Post-value Q (get_metrics env s w) m whole e
