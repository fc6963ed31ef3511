-- ===== src/Swap/Tasks/Deadlock.antt =====
-- Two requests that complete swaps at once can wait for each other for ever: one holds the lock on
-- the executions and waits for the quotes, the other holds the quotes and waits for the executions.
use atomic_mint_swap.Base.{
  String, ◌≡◌, ◌≢◌, refl, ap, Option-cases, inl, inr, Option, some, List, [], ◌∷◌, arith,
}
use atomic_mint_swap.Base.Dict.{lookup}
use atomic_mint_swap.Error.{BrokerError}
use atomic_mint_swap.Effect.{Outcome, ok}
use atomic_mint_swap.Env.{Env}
use atomic_mint_swap.Swap.Quote.{QuoteData, Coordinator}
use atomic_mint_swap.Swap.Execute.{find_quote, claim_tokens, bank, finish_execution}
use atomic_mint_swap.Swap.Tasks.{
  RwLock, RwLockLaws, Task, completing, claiming, banking, finishing, closing, closed, reads_quotes,
  writes_quotes, writes_executions, Held, held, Moved, next, advance, System, Step, run, Reach,
  here, later,
}

module _ (env : Env) (lock : RwLock) (laws : RwLockLaws lock) where
  closing_waits :
      (a b : String) (s : Coordinator env) (w : env.World) (m : Moved env)
      → advance env lock (held env (finishing b ∷ [])) (closing a) s w ≢ some m
  unfolding advance held reads_quotes writes_quotes
  closing_waits a b s w m e = ground (arith, laws.write_alone 1 0)

  finishing_waits :
      (a b : String) (s : Coordinator env) (w : env.World) (m : Moved env)
      → advance env lock (held env (closing a ∷ [])) (finishing b) s w ≢ some m
  unfolding advance held writes_executions
  finishing_waits a b s w m e = ground (arith, laws.write_alone 0 1)

  -- Neither request can take a step.
  blocked :
      (a b : String) (x y : System env)
      → x.tasks ≡ closing a ∷ finishing b ∷ []
      → ¬ Step env lock x y
  blocked a b x y ex (run [] t t' after e ey k) =
      let here : t ≡ closing a = cc in
      let rest : after ≡ finishing b ∷ [] = cc in
      closing_waits a b x.coordinator x.world (t', y.coordinator, y.world)
        (ground (arith, k, here, rest))
  blocked a b x y ex (run (u ∷ []) t t' after e ey k) =
      let first : u ≡ closing a = cc in
      let here : t ≡ finishing b = cc in
      let rest : after ≡ [] = cc in
      finishing_waits a b x.coordinator x.world (t', y.coordinator, y.world)
        (ground (arith, k, first, here, rest))
  blocked a b x y ex (run (u ∷ v ∷ []) t t' after e ey k) = cc
  blocked a b x y ex (run (u ∷ v ∷ z ∷ before) t t' after e ey k) = cc

  -- A segment whose outcome is known.
  next_ok :
      {A B : Type 0} (go : A → Task env) (stop : Outcome BrokerError B → Task env)
      (r : Outcome BrokerError A × Coordinator env × env.World) (a : A) (s : Coordinator env)
      (w : env.World)
      → r ≡ (ok a, s, w)
      → next env go stop r ≡ (go a, s, w)
  next_ok go stop r a s w e = ap (next env go stop) e

  finish_execution_ok :
      (id : String) (s : Coordinator env) (w : env.World)
      → let r = finish_execution env id (lookup id s.executions) s w in r ≡ (ok tt, r.1, r.2)
  unfolding finish_execution
  finish_execution_ok id s w = elim (Option-cases (lookup id s.executions)) [
    | inl e ↦ ground arith
    | inr (x, e) ↦ ground arith
  ]

  module _ (h : Held env) (s s' : Coordinator env) (w w' : env.World) where
    completing_runs :
        (id : String) (ps : List env.cdk.Proof) (q : QuoteData env)
        → h.quotes_written ≡ 0
        → lookup id s.quotes ≡ some q
        → advance env lock h (completing id ps) s w ≡ some (claiming id q ps, s, w)
    unfolding advance find_quote
    completing_runs id ps q e f = ground (arith, laws.read_free h.quotes_read)

    claiming_runs :
        (id : String) (ps : List env.cdk.Proof) (q : QuoteData env)
        (new : Option (List env.cdk.Proof))
        → claim_tokens env q ps s w ≡ (ok new, s', w')
        → advance env lock h (claiming id q ps) s w ≡ some (banking id q new, s', w')
    unfolding advance
    claiming_runs id ps q new e = ap (λ r. some (next env (banking id q) closed r)) e

    banking_runs :
        (id : String) (q : QuoteData env) (new : Option (List env.cdk.Proof))
        → bank env q.quote.from_mint new s w ≡ (ok tt, s', w')
        → advance env lock h (banking id q new) s w ≡ some (finishing id, s', w')
    unfolding advance
    banking_runs id q new e = ap (λ r. some (next env (λ _. finishing id) closed r)) e

    finishing_runs :
        (id : String)
        → h.executions_written ≡ 0
        → let r = finish_execution env id (lookup id s.executions) s w in
          advance env lock h (finishing id) s w ≡ some (closing id, r.1, r.2)
    unfolding advance
    finishing_runs id e =
        let r = finish_execution_ok id s w in
        ground (arith, laws.write_free, ap (next env {B = Unit {0}} (λ _. closing id) closed) r)

  -- The guards of one other request, and a step of the first or of the second of two.
  abbrev beside : Task env → Held env
  beside t = held env (t ∷ [])

  first :
      (x y : System env) {t t' : Task env} (other : Task env)
      → x.tasks ≡ t ∷ other ∷ []
      → y.tasks ≡ t' ∷ other ∷ []
      → advance env lock (beside other) t x.coordinator x.world ≡ some (t', y.coordinator, y.world)
      → Step env lock x y
  first x y {t} {t'} other ex ey e = run [] t t' (other ∷ []) ex ey e

  second :
      (x y : System env) {t t' : Task env} (other : Task env)
      → x.tasks ≡ other ∷ t ∷ []
      → y.tasks ≡ other ∷ t' ∷ []
      → advance env lock (beside other) t x.coordinator x.world ≡ some (t', y.coordinator, y.world)
      → Step env lock x y
  second x y {t} {t'} other ex ey e = run (other ∷ []) t t' [] ex ey e

  infixl 4 ◌|>◌
  ◌|>◌ : {x y z : System env} → Reach env lock x y → Step env lock y z → Reach env lock x z
  r |> st = later r st

  -- If two requests complete swaps of quotes that exist, and the mint and the liquidity manager
  -- serve both, then their steps can interleave so that the first holds the lock on the executions
  -- and waits for the quotes, the second holds the quotes and waits for the executions, and neither
  -- can ever take another step.
  pub complete_swap-deadlock :
      (a b : String) (pa pb : List env.cdk.Proof) (qa qb : QuoteData env)
      (na nb : Option (List env.cdk.Proof)) (s s1 s2 : Coordinator env) (w w1 w2 w3 w4 : env.World)
      → lookup a s.quotes ≡ some qa
      → lookup b s.quotes ≡ some qb
      → claim_tokens env qa pa s w ≡ (ok na, s, w1)
      → claim_tokens env qb pb s w1 ≡ (ok nb, s, w2)
      → bank env qa.quote.from_mint na s w2 ≡ (ok tt, s1, w3)
      → bank env qb.quote.from_mint nb s1 w3 ≡ (ok tt, s2, w4)
      → (y : System env) × Reach env lock
          (record { tasks = completing a pa ∷ completing b pb ∷ []; coordinator = s; world = w })
          y
        × (y.tasks ≡ closing a ∷ finishing b ∷ [])
        × ((z : System env) → ¬ Step env lock y z)
  unfolding held reads_quotes writes_quotes writes_executions
  complete_swap-deadlock a b pa pb qa qb na nb s s1 s2 w w1 w2 w3 w4 fa fb ca cb ba bb =
      let at : List (Task env) → Coordinator env → env.World → System env =
        λ ts s w. record { tasks = ts; coordinator = s; world = w } in
      let x0 = at (completing a pa ∷ completing b pb ∷ []) s w in
      let x1 = at (claiming a qa pa ∷ completing b pb ∷ []) s w in
      let x2 = at (claiming a qa pa ∷ claiming b qb pb ∷ []) s w in
      let x3 = at (banking a qa na ∷ claiming b qb pb ∷ []) s w1 in
      let x4 = at (banking a qa na ∷ banking b qb nb ∷ []) s w2 in
      let x5 = at (finishing a ∷ banking b qb nb ∷ []) s1 w3 in
      let x6 = at (finishing a ∷ finishing b ∷ []) s2 w4 in
      let r = finish_execution env a (lookup a s2.executions) s2 w4 in
      let x7 = at (closing a ∷ finishing b ∷ []) r.1 r.2 in
      let reached : Reach env lock x0 x7 =
        here
        |> first x0 x1 (completing b pb) refl refl
            (completing_runs (beside (completing b pb)) s s w w a pa qa refl fa)
        |> second x1 x2 (claiming a qa pa) refl refl
            (completing_runs (beside (claiming a qa pa)) s s w w b pb qb refl fb)
        |> first x2 x3 (claiming b qb pb) refl refl
            (claiming_runs (beside (claiming b qb pb)) s s w w1 a pa qa na ca)
        |> second x3 x4 (banking a qa na) refl refl
            (claiming_runs (beside (banking a qa na)) s s w1 w2 b pb qb nb cb)
        |> first x4 x5 (banking b qb nb) refl refl
            (banking_runs (beside (banking b qb nb)) s s1 w2 w3 a qa na ba)
        |> second x5 x6 (finishing a) refl refl
            (banking_runs (beside (finishing a)) s1 s2 w3 w4 b qb nb bb)
        |> first x6 x7 (finishing b) refl refl
            (finishing_runs (beside (finishing b)) s2 s2 w4 w4 a refl) in
      (x7, reached, refl, λ z. blocked a b x7 z refl)
