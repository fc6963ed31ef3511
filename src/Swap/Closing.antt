-- ===== src/Swap/Closing.antt =====
-- The steps that end `complete_swap`: what `bank` credits, and what `finish_execution` sets.
use atomic_mint_swap.Base.{
  String, ℕ, ◌+◌, ◌%◌, ◌^◌, ◌++◌, true, ◌≡◌, refl, ap, ◌≢◌, Option, none, some, List, arith, inl,
  inr, Option-cases,
}
use atomic_mint_swap.Base.Dict.{Dict, lookup, insert}
use atomic_mint_swap.Effect.{ok, done, Attempt-cases}
use atomic_mint_swap.Effect.Frame.{Keeps, keeps_rules}
use atomic_mint_swap.Env.{Env}
use atomic_mint_swap.Types.{SwapExecution}
use atomic_mint_swap.Liquidity.{LiquidityManager, MintLiquidity, add_proofs}
use atomic_mint_swap.Liquidity.Balance.{add_proofs_done, proofs_refused}
use atomic_mint_swap.Swap.Quote.{Coordinator}
use atomic_mint_swap.Swap.Execute.{bank, finish_execution}

module _ (env : Env) where
  pub bank-Keeps :
      {T : Type 0} (f : Coordinator env → T)
      → ((s : Coordinator env) (m : LiquidityManager env) → f (record s { manager = m }) ≡ f s)
      → (url : String) (new : Option (List env.cdk.Proof)) → Keeps f (bank env url new)
  unfolding bank
  bank-Keeps f h url none = search keeps_rules
  bank-Keeps f h url (some ps) = record { at = λ s w. h s _ }

  pub finish_execution-Keeps :
      {T : Type 0} (f : Coordinator env → T)
      → ((s : Coordinator env) (es : Dict (SwapExecution env))
          → f (record s { executions = es }) ≡ f s)
      → (id : String) (e : Option (SwapExecution env)) → Keeps f (finish_execution env id e)
  unfolding finish_execution
  finish_execution-Keeps f h id none = search keeps_rules
  finish_execution-Keeps f h id (some e) = record { at = λ s w. h s _ }

  -- The executions after one of them, if there is one, has got both its flags and its time.
  abbrev pub Finishes :
      String
      → Option (SwapExecution env)
      → Dict (SwapExecution env)
      → Dict (SwapExecution env)
      → Type 0
  Finishes id none es es' = es' ≡ es
  Finishes id (some e) es es' =
      (now : env.host.Time) × (es'
        ≡ insert id
            (record e {
              client_swap_complete = true;
              broker_swap_complete = true;
              completed_at = some now;
            })
            es)

  pub finish_execution_lem :
      (id : String) (e : Option (SwapExecution env)) (s : Coordinator env) (w : env.World)
      → Finishes id e s.executions (finish_execution env id e s w).1.executions
  unfolding finish_execution
  finish_execution_lem id none s w = refl
  finish_execution_lem id (some e) s w = ((env.host.now w).0, refl)

  -- The mint is served, and its entry has got the proofs, and their total amount on its balance.
  pub record Credits (url : String) (ps : List env.cdk.Proof) (m m' : LiquidityManager env)
      : Type 0 where
    pub entry : MintLiquidity env
    pub served : lookup url m.liquidity ≡ some entry
    pub total : ℕ
    pub counted : env.cdk.total_amount ps ≡ done total
    pub now : env.host.Time
    pub credited : m' ≡ record m {
      liquidity =
          insert url
            (record entry {
              balance = (entry.balance + total) % 2 ^ 64;
              proofs = entry.proofs ++ ps;
              last_updated = now;
            })
            m.liquidity;
    }

  abbrev pub Banks :
      String → Option (List env.cdk.Proof) → LiquidityManager env → LiquidityManager env → Type 0
  Banks url none m m' = m' ≡ m
  Banks url (some ps) m m' = Credits url ps m m'

  add_proofs_missing :
      (url : String) (ps : List env.cdk.Proof) (m : LiquidityManager env) (w : env.World)
      → lookup url m.liquidity ≡ none
      → (add_proofs env url ps m w).0 ≢ ok tt
  unfolding add_proofs
  add_proofs_missing url ps m w e h = ground arith

  add_proofs-Credits :
      (url : String) (ps : List env.cdk.Proof) (m : LiquidityManager env) (w : env.World)
      → (add_proofs env url ps m w).0 ≡ ok tt
      → Credits url ps m (add_proofs env url ps m w).1
  add_proofs-Credits url ps m w h = elim (Option-cases (lookup url m.liquidity)) [
    | inl e ↦ absurd (add_proofs_missing url ps m w e h)
    | inr (l, e) ↦ elim (Attempt-cases (env.cdk.total_amount ps)) [
      | inr (n, k) ↦ record {
        entry = l;
        served = e;
        total = n;
        counted = k;
        now = (env.host.now w).0;
        credited = ap (λ r. r.1) (add_proofs_done env url ps m w l e n k);
      }
      | inl (x, k) ↦ absurd (ground (arith, (proofs_refused env url ps m w l e x k).0))
    ]
  ]

  pub bank-Banks :
      (url : String) (new : Option (List env.cdk.Proof)) (s : Coordinator env) (w : env.World)
      → (bank env url new s w).0 ≡ ok tt
      → Banks url new s.manager (bank env url new s w).1.manager
  unfolding bank
  bank-Banks url none s w h = refl
  bank-Banks url (some ps) s w h = add_proofs-Credits url ps s.manager w h
