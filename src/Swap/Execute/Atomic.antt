-- ===== src/Swap/Execute/Atomic.antt =====
-- `prepare_swap` and `complete_swap` change nothing of the broker's state where they fail.
use atomic_mint_swap.Base.{String, ◌≡◌, refl, Option, none, some, List}
use atomic_mint_swap.Effect.Frame.{
  Keeps, IsAtomic, IsAtomic-bind, IsAtomic-bind-Total, IsAtomic-zoom, IsAtomic-Total, Total,
  keeps_rules, total_rules,
}
use atomic_mint_swap.Env.{Env, Bytes}
use atomic_mint_swap.Liquidity.{add_proofs}
use atomic_mint_swap.Swap.Quote.{QuoteData, Coordinator}
use atomic_mint_swap.Types.{SwapExecution}
use atomic_mint_swap.Swap.Execute.{
  find_quote, client_lock, lock_tokens, record_accepted, prepare_swap, pay_out, bank,
  finish_execution, claim_tokens, close_swap, complete_swap,
}

module _ (env : Env) where
  module _ {T : Type 0} (f : Coordinator env → T) where
    pub find_quote-reads : (id : String) → Keeps f (find_quote env id)
    unfolding find_quote
    find_quote-reads id = search keeps_rules

    pub client_lock-reads : (q : QuoteData env) (pk : Bytes) → Keeps f (client_lock env q pk)
    unfolding client_lock
    client_lock-reads q pk = search keeps_rules depth 8

    pub lock_tokens-reads : (q : QuoteData env) (lock : Bytes) → Keeps f (lock_tokens env q lock)
    unfolding lock_tokens
    lock_tokens-reads q lock = search keeps_rules depth 20

  ruleset reads = (find_quote-reads, client_lock-reads, lock_tokens-reads, keeps_rules)

  record_accepted-manager :
      (id : String) (q : QuoteData env) (ps : List env.cdk.Proof) (s : Coordinator env)
      → (record_accepted env id q ps s).manager ≡ s.manager
  unfolding record_accepted
  record_accepted-manager id q ps s = refl

  -- `prepare_swap` leaves the recorded liquidity alone, however it ends.
  pub prepare_swap-manager :
      (id : String) (pk : Bytes) → Keeps (λ s. s.manager) (prepare_swap env id pk)
  unfolding prepare_swap pay_out
  prepare_swap-manager id pk = search (reads, record_accepted-manager) depth 14

  -- Whatever makes `prepare_swap` fail, the quotes, executions and liquidity are what they were.
  pub prepare_swap-IsAtomic : (id : String) (pk : Bytes) → IsAtomic (prepare_swap env id pk)
  unfolding prepare_swap pay_out
  prepare_swap-IsAtomic id pk = search (reads, total_rules, IsAtomic-bind, IsAtomic-Total) depth 14

  add_proofs-IsAtomic : (url : String) (ps : List env.cdk.Proof) → IsAtomic (add_proofs env url ps)
  unfolding add_proofs
  add_proofs-IsAtomic url ps =
      search (keeps_rules, total_rules, IsAtomic-bind, IsAtomic-Total) depth 14

  bank-IsAtomic : (url : String) (new : Option (List env.cdk.Proof)) → IsAtomic (bank env url new)
  unfolding bank
  bank-IsAtomic url none = search (total_rules, IsAtomic-Total)
  bank-IsAtomic url (some ps) =
      IsAtomic-zoom (λ s. s.manager) (λ s m. record s { manager = m }) (add_proofs env url ps)
        (λ s. refl) (add_proofs-IsAtomic url ps)

  finish_execution-Total :
      (id : String) (e : Option (SwapExecution env)) → Total (finish_execution env id e)
  unfolding finish_execution
  finish_execution-Total id none = search total_rules
  finish_execution-Total id (some e) = search total_rules

  module _ {T : Type 0} (f : Coordinator env → T) where
    pub claim_tokens-reads :
        (q : QuoteData env) (ps : List env.cdk.Proof) → Keeps f (claim_tokens env q ps)
    unfolding claim_tokens
    claim_tokens-reads q ps = search keeps_rules depth 10

  close_swap-IsAtomic :
      (id : String) (q : QuoteData env) (new : Option (List env.cdk.Proof))
      → IsAtomic (close_swap env id q new)
  unfolding close_swap
  close_swap-IsAtomic id q new =
      search (keeps_rules, total_rules, IsAtomic-bind-Total, bank-IsAtomic, finish_execution-Total)
        depth 10

  -- Whatever makes `complete_swap` fail, the quotes, executions and liquidity are what they were.
  pub complete_swap-IsAtomic :
      (id : String) (ps : List env.cdk.Proof) → IsAtomic (complete_swap env id ps)
  unfolding complete_swap
  complete_swap-IsAtomic id ps =
      search (reads, claim_tokens-reads, IsAtomic-bind, close_swap-IsAtomic) depth 10
