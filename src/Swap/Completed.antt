-- ===== src/Swap/Completed.antt =====
-- How `complete_swap` moves the status of a quote.
use atomic_mint_swap.Base.{
  String, ◌≡◌, refl, ap, sym, subst, ◌≢◌, ◌⊎◌, none, some, List, arith, eq_iff, ◌==◌, Bool-cases,
  inl, inr,
}
use atomic_mint_swap.Base.Dict.{lookup, insert, lookup-insert}
use atomic_mint_swap.Error.{BrokerError}
use atomic_mint_swap.Effect.{Outcome, ok, err, panic}
use atomic_mint_swap.Effect.Frame.{Unchanged}
use atomic_mint_swap.Env.{Env, Bytes}
use atomic_mint_swap.Types.Status.{pending, accepted, completed}
use atomic_mint_swap.Swap.Quote.{Coordinator}
use atomic_mint_swap.Swap.Execute.{with_status, prepare_swap, complete_swap}
use atomic_mint_swap.Swap.Execute.Atomic.{complete_swap-IsAtomic}
use atomic_mint_swap.Swap.Lifecycle.{status_of, prepare_swap-status}
use atomic_mint_swap.Swap.Complete.{Completes, complete_swap-Completes}

module _ (env : Env) where
  completed_status :
      (id j : String) (ps : List env.cdk.Proof) (w : env.World) (s s' : Coordinator env)
      → Completes env id ps w s s'
      → (status_of env j s' ≡ status_of env j s)
        ⊎ ((j ≡ id) × (status_of env j s ≢ none) × (status_of env j s' ≡ some completed))
  unfolding with_status
  completed_status id j ps w s s' c =
      let k = with_status env completed c.q in
      let seen = lookup-insert id j k s.quotes in
      let after : lookup j s'.quotes ≡ lookup j (insert id k s.quotes) =
        ap (lookup j) c.quotes_after in
      elim (Bool-cases (id == j)) [
        | inl same ↦
            let e : j ≡ id = sym ((eq_iff id j).0 same) in
            inr (e, rw (e, c.found) (λ p. cc), rw after (ground (arith, seen)))
        | inr other ↦ inl (rw after (ground (arith, seen)))
      ]

  -- `complete_swap` moves no quote but its own, which it must find, and that only to completed.
  pub complete_swap-status :
      (id j : String) (ps : List env.cdk.Proof) (s : Coordinator env) (w : env.World)
      → let s' = (complete_swap env id ps s w).1 in
        (status_of env j s' ≡ status_of env j s)
        ⊎ ((j ≡ id) × (status_of env j s ≢ none) × (status_of env j s' ≡ some completed))
  complete_swap-status id j ps s w =
      go (complete_swap env id ps s w) refl ((complete_swap-IsAtomic env id ps).at s w)
    where
      go :
          (r : Outcome BrokerError (Unit {0}) × Coordinator env × env.World)
          → complete_swap env id ps s w ≡ r
          → Unchanged s r
          → (status_of env j r.1 ≡ status_of env j s)
            ⊎ ((j ≡ id) × (status_of env j s ≢ none) × (status_of env j r.1 ≡ some completed))
      go (ok u, s', w') e k = completed_status id j ps w s s' (
          subst (λ x. Completes env id ps w s x) (ap (λ r. r.1) e)
            (complete_swap-Completes env id ps s w (ap (λ r. r.0) e)))
      go (err x, s', w') e k = inl (ap (status_of env j) k)
      go (panic, s', w') e k = inl (ap (status_of env j) k)

  -- However they end, `prepare_swap` and `complete_swap` move no quote but their own: the one only
  -- from pending to accepted, the other only to completed, and only one that exists.
  pub swaps_status :
      (id j : String) (pk : Bytes) (ps : List env.cdk.Proof) (s : Coordinator env) (w : env.World)
      → let s1 = (prepare_swap env id pk s w).1 in
        let s2 = (complete_swap env id ps s w).1 in
        ((status_of env j s1 ≡ status_of env j s)
          ⊎ ((j ≡ id) × (status_of env j s ≡ some pending) × (status_of env j s1 ≡ some accepted)))
        × ((status_of env j s2 ≡ status_of env j s)
            ⊎ ((j ≡ id) × (status_of env j s ≢ none) × (status_of env j s2 ≡ some completed)))
  swaps_status id j pk ps s w =
      (prepare_swap-status env id j pk s w, complete_swap-status id j ps s w)
