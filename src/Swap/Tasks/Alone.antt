-- ===== src/Swap/Tasks/Alone.antt =====
-- A request with no other beside it does what the operation does as one action.
use atomic_mint_swap.Base.{
  not, ℕ, zero, suc, String, ◌≡◌, refl, ap, ◌∙◌, Option, none, some, List, [],
}
use atomic_mint_swap.Base.Dict.{lookup}
use atomic_mint_swap.Error.{BrokerError}
use atomic_mint_swap.Effect.{
  Outcome, ok, err, panic, Action, proceed, pure, raise_if, modify, ◌>>=◌, ◌>>◌,
}
use atomic_mint_swap.Env.{Env, Bytes}
use atomic_mint_swap.Types.Status.{pending, status_eq}
use atomic_mint_swap.Swap.Quote.{QuoteData, Coordinator}
use atomic_mint_swap.Swap.Execute.{
  client_lock, lock_tokens, not_pending, find_quote, prepare_swap, pay_out, record_accepted,
  complete_swap, close_swap, claim_tokens, bank, finish_execution, finish_quote,
}
use atomic_mint_swap.Swap.Tasks.{
  RwLock, RwLockLaws, Task, preparing, minting, recording, prepared, completing, claiming, banking,
  finishing, closing, closed, held, Moved, next, check_pending, mint_and_mark, mark_accepted,
  add_execution, advance,
}

module _ (env : Env) (lock : RwLock) where
  -- Up to `n` steps of a request that runs alone.
  abbrev pub run_alone : ℕ → Moved env → Moved env
  run_alone zero m = m
  run_alone (suc n) (t, s, w) = elim (advance env lock (held env []) t s w) [
    | none ↦ (t, s, w)
    | some m ↦ run_alone n m
  ]

  -- An outcome as the end of a request.
  abbrev pub ended :
      {A : Type 0}
      → (Outcome BrokerError A → Task env)
      → Outcome BrokerError A × Coordinator env × env.World
      → Moved env
  ended stop (o, s, w) = (stop o, s, w)

  module _ (laws : RwLockLaws lock) where
    run_next :
        {A B : Type 0} (n : ℕ) (go : A → Task env) (stop : Outcome BrokerError B → Task env)
        (k : A → Action env.World (Coordinator env) BrokerError B)
        (r : Outcome BrokerError A × Coordinator env × env.World)
        → ((o : Outcome BrokerError B) (s : Coordinator env) (w : env.World)
            → run_alone n (stop o, s, w) ≡ (stop o, s, w))
        → ((a : A) (s : Coordinator env) (w : env.World)
            → run_alone n (go a, s, w) ≡ ended stop (k a s w))
        → run_alone n (next env go stop r) ≡ ended stop (proceed k r)
    run_next n go stop k (ok a, s, w) halts h = h a s w
    run_next n go stop k (err e, s, w) halts h = halts (err e) s w
    run_next n go stop k (panic, s, w) halts h = halts panic s w

    run_bind :
        {A B C : Type 0} (n : ℕ) (go : A → Task env) (stop : Outcome BrokerError B → Task env)
        (j : C → Action env.World (Coordinator env) BrokerError A)
        (k : C → Action env.World (Coordinator env) BrokerError B)
        (r : Outcome BrokerError C × Coordinator env × env.World)
        → ((o : Outcome BrokerError B) (s : Coordinator env) (w : env.World)
            → run_alone n (stop o, s, w) ≡ (stop o, s, w))
        → ((c : C) (s : Coordinator env) (w : env.World)
            → run_alone n (next env go stop (j c s w)) ≡ ended stop (k c s w))
        → run_alone n (next env go stop (proceed j r)) ≡ ended stop (proceed k r)
    run_bind n go stop j k (ok c, s, w) halts h = h c s w
    run_bind n go stop j k (err e, s, w) halts h = halts (err e) s w
    run_bind n go stop j k (panic, s, w) halts h = halts panic s w

    closed_halts :
        (n : ℕ) (o : Outcome BrokerError (Unit {0})) (s : Coordinator env) (w : env.World)
        → run_alone n (closed o, s, w) ≡ (closed o, s, w)
    unfolding advance
    closed_halts zero o s w = refl
    closed_halts (suc n) o s w = refl

    prepared_halts :
        (id : String) (n : ℕ) (o : Outcome BrokerError (List env.cdk.Proof)) (s : Coordinator env)
        (w : env.World)
        → run_alone n (prepared id o, s, w) ≡ (prepared id o, s, w)
    unfolding advance
    prepared_halts id zero o s w = refl
    prepared_halts id (suc n) o s w = refl

    run_granted :
        (n : ℕ) (t : Task env) (s : Coordinator env) (w : env.World) (m : Moved env)
        → advance env lock (held env []) t s w ≡ some m
        → run_alone (suc n) (t, s, w) ≡ run_alone n m
    run_granted n t s w m e =
        ap
          (λ (o : Option (Moved env)). elim o as (λ o. Moved env) [
            | none ↦ (t, s, w)
            | some m ↦ run_alone n m
          ])
          e

    closing_alone :
        (id : String) (s : Coordinator env) (w : env.World)
        → run_alone 1 (closing id, s, w)
          ≡ (closed (ok tt), finish_quote env id (lookup id s.quotes) s, w)
    unfolding advance held
    closing_alone id s w = run_granted 0 (closing id) s w _ (rw (laws.write_free) refl)

    finishing_alone :
        (id : String) (s : Coordinator env) (w : env.World)
        → run_alone 2 (finishing id, s, w)
          ≡ ended closed (
              (finish_execution env id (lookup id s.executions)
                  >> modify (λ s. finish_quote env id (lookup id s.quotes) s))
                s w)
    unfolding advance held
    finishing_alone id s w =
        run_granted 1 (finishing id) s w
          (next env (λ _. closing id) closed (finish_execution env id (lookup id s.executions) s w))
          (rw (laws.write_free) refl)
        ∙ run_next 1 (λ _. closing id) closed
            (λ _. modify (λ s. finish_quote env id (lookup id s.quotes) s))
            (finish_execution env id (lookup id s.executions) s w) (closed_halts 1)
            (λ a s w. closing_alone id s w)

    banking_alone :
        (id : String) (q : QuoteData env) (new : Option (List env.cdk.Proof)) (s : Coordinator env)
        (w : env.World)
        → run_alone 3 (banking id q new, s, w) ≡ ended closed (close_swap env id q new s w)
    unfolding advance close_swap
    banking_alone id q new s w =
        run_granted 2 (banking id q new) s w _ refl
        ∙ run_next 2 (λ _. finishing id) closed
            (λ _ s w.
              (finish_execution env id (lookup id s.executions)
                  >> modify (λ s. finish_quote env id (lookup id s.quotes) s))
                s w)
            (bank env q.quote.from_mint new s w) (closed_halts 2) (λ a s w. finishing_alone id s w)

    -- Beside no other request, `complete_swap` ends within five steps, one for each wait, with the
    -- outcome, the state and the world of the operation as one action.
    pub complete_swap-alone :
        (id : String) (ps : List env.cdk.Proof) (s : Coordinator env) (w : env.World)
        → run_alone 5 (completing id ps, s, w) ≡ ended closed (complete_swap env id ps s w)
    unfolding advance held complete_swap
    complete_swap-alone id ps s w =
        run_granted 4 (completing id ps) s w
          (next env (λ q. claiming id q ps) closed (find_quote env id s w))
          (rw (laws.read_free 0) refl)
        ∙ run_next 4 (λ q. claiming id q ps) closed
            (λ q. claim_tokens env q ps >>= close_swap env id q) (find_quote env id s w)
            (closed_halts 4)
            (λ q s w.
              run_granted 3 (claiming id q ps) s w _ refl
              ∙ run_next 3 (banking id q) closed (close_swap env id q) (claim_tokens env q ps s w)
                  (closed_halts 3) (λ new s w. banking_alone id q new s w))

    recording_alone :
        (id : String) (ps : List env.cdk.Proof) (s : Coordinator env) (w : env.World)
        → run_alone 1 (recording id ps, s, w) ≡ (prepared id (ok ps), add_execution env id ps s, w)
    unfolding advance held
    recording_alone id ps s w = run_granted 0 (recording id ps) s w _ (rw (laws.write_free) refl)

    minting_alone :
        (id : String) (q : QuoteData env) (key : Bytes) (s : Coordinator env) (w : env.World)
        → run_alone 2 (minting id q key, s, w)
          ≡ ended (prepared id) (
              (lock_tokens env q key >>= λ ps. modify (record_accepted env id q ps) >> pure ps) s w)
    unfolding advance mint_and_mark mark_accepted add_execution record_accepted
    minting_alone id q key s w =
        run_granted 1 (minting id q key) s w _ refl
        ∙ run_bind 1 (recording id) (prepared id) (λ ps. modify (mark_accepted env id q) >> pure ps)
            (λ ps. modify (record_accepted env id q ps) >> pure ps) (lock_tokens env q key s w)
            (prepared_halts id 1) (λ ps s w. recording_alone id ps (mark_accepted env id q s) w)

    -- Beside no other request, `prepare_swap` ends within three steps, with the outcome, the state
    -- and the world of the operation as one action.
    pub prepare_swap-alone :
        (id : String) (pk : Bytes) (s : Coordinator env) (w : env.World)
        → run_alone 3 (preparing id pk, s, w) ≡ ended (prepared id) (prepare_swap env id pk s w)
    unfolding advance held check_pending prepare_swap pay_out
    prepare_swap-alone id pk s w =
        let stop = prepared_halts id 2 in
        let go : QuoteData env × Bytes → Task env = λ r. minting id r.0 r.1 in
        let pays : QuoteData env
            → Bytes
            → Action env.World (Coordinator env) BrokerError (List env.cdk.Proof) =
          λ q key.
            (lock_tokens env q key >>= λ ps. modify (record_accepted env id q ps) >> pure ps) in
        let refuse : QuoteData env → Action env.World (Coordinator env) BrokerError (Unit {0}) =
          λ q. raise_if (not (status_eq q.quote.status pending)) (not_pending env id) in
        run_granted 2 (preparing id pk) s w
          (next env go (prepared id) (check_pending env id pk s w)) (rw (laws.write_free) refl)
        ∙ run_bind 2 go (prepared id)
            (λ q. refuse q >> (client_lock env q pk >>= λ key. pure (q, key)))
            (λ q. refuse q >> (client_lock env q pk >>= pays q)) (find_quote env id s w) stop
            (λ q s w.
              run_bind 2 go (prepared id) (λ _. client_lock env q pk >>= λ key. pure (q, key))
                (λ _. client_lock env q pk >>= pays q) (refuse q s w) stop
                (λ _ s w.
                  run_bind 2 go (prepared id) (λ key. pure (q, key)) (pays q)
                    (client_lock env q pk s w) stop (λ key s w. minting_alone id q key s w)))

    -- Beside no other request, `prepare_swap` ends within three steps and `complete_swap` within
    -- five, each with the outcome, the state and the world of the operation as one action.
    pub swaps_alone :
        (id : String) (pk : Bytes) (ps : List env.cdk.Proof) (s : Coordinator env) (w : env.World)
        → (run_alone 3 (preparing id pk, s, w) ≡ ended (prepared id) (prepare_swap env id pk s w))
          × (run_alone 5 (completing id ps, s, w) ≡ ended closed (complete_swap env id ps s w))
    swaps_alone id pk ps s w = (prepare_swap-alone id pk s w, complete_swap-alone id ps s w)
