-- ===== src/Swap/Complete.antt =====
-- What a completed swap leaves behind.
use mathlib.Core.Option
use atomic_mint_swap.Base.{
  String, ◌≡◌, refl, ap, sym, subst, ◌≢◌, ◌∙◌, Option, none, some, List, arith, inl, inr,
  Option-cases,
}
use atomic_mint_swap.Base.Dict.{lookup, insert, lookup-insert_self}
use atomic_mint_swap.Effect.{ok, proceed, ◌>>=◌, done}
use atomic_mint_swap.Effect.Frame.{>>=-eq-ok}
use atomic_mint_swap.Env.{Env}
use atomic_mint_swap.Types.Status.{completed}
use atomic_mint_swap.Adaptor.{add_scalars}
use atomic_mint_swap.Liquidity.{get_wallet}
use atomic_mint_swap.Swap.Quote.{QuoteData, Coordinator}
use atomic_mint_swap.Swap.Execute.{
  find_quote, with_status, bank, finish_execution, finish_quote, claim_tokens, close_swap,
  complete_swap, sum_amounts,
}
use atomic_mint_swap.Swap.Execute.Atomic.{claim_tokens-reads}
use atomic_mint_swap.Swap.Closing.{
  bank-Keeps, finish_execution-Keeps, Finishes, finish_execution_lem, Banks, bank-Banks,
}
use atomic_mint_swap.Swap.Lifecycle.{status_of}

module _ (env : Env) where
  -- What `close_swap` has done where it succeeded.
  record Closes (id : String) (q : QuoteData env) (new : Option (List env.cdk.Proof))
      (w : env.World) (s s' : Coordinator env) : Type 0 where
    quotes_after : s'.quotes ≡ insert id (with_status env completed q) s.quotes
    banked : Banks env q.quote.from_mint new s.manager s'.manager
    execution_done : Finishes env id (lookup id s.executions) s.executions s'.executions

  -- What has happened where `complete_swap` succeeded: the mint gave `new` for the client's proofs,
  -- and the liquidity manager added it.
  pub record Completes (id : String) (ps : List env.cdk.Proof) (w : env.World)
      (s s' : Coordinator env) : Type 0 where
    pub q : QuoteData env
    pub found : lookup id s.quotes ≡ some q
    pub wallet : env.cdk.Wallet
    pub known : get_wallet env q.quote.from_mint s.manager ≡ ok wallet
    pub new : Option (List env.cdk.Proof)
    pub after_swap : env.World
    pub swapped : env.cdk.swap wallet (sum_amounts env 0 ps) ps w ≡ (done new, after_swap)
    pub quotes_after :
        s'.quotes ≡ insert id (record q { quote = record q.quote { status = completed } }) s.quotes
    pub banked : Banks env q.quote.from_mint new s.manager s'.manager
    pub execution_done : Finishes env id (lookup id s.executions) s.executions s'.executions

  finish_quote_found :
      (id : String) (q : QuoteData env) (s : Coordinator env)
      → lookup id s.quotes ≡ some q
      → finish_quote env id (lookup id s.quotes) s
        ≡ record s { quotes = insert id (with_status env completed q) s.quotes }
  unfolding finish_quote
  finish_quote_found id q s e = rw (e, finish_quote)

  close_swap_lem :
      (id : String) (q : QuoteData env) (new : Option (List env.cdk.Proof)) (s : Coordinator env)
      (w : env.World)
      → lookup id s.quotes ≡ some q
      → (close_swap env id q new s w).0 ≡ ok tt
      → Closes id q new w s (close_swap env id q new s w).1
  unfolding close_swap
  close_swap_lem id q new s w e h =
      let url = q.quote.from_mint in
      let (_, s1, w1, e1, r1) = >>=-eq-ok (bank env url new) _ s w h in
      let h1 = ap (λ r. r.0) (sym r1) ∙ h in
      let fin = finish_execution env id (lookup id s1.executions) in
      let (_, s2, w2, e2, r2) = >>=-eq-ok fin _ s1 w1 h1 in
      let quotes1 : s1.quotes ≡ s.quotes =
        ap (λ r. r.1.quotes) (sym e1)
        ∙ (bank-Keeps env (λ s. s.quotes) (λ s m. refl) url new).at s w in
      let runs1 : s1.executions ≡ s.executions =
        ap (λ r. r.1.executions) (sym e1)
        ∙ (bank-Keeps env (λ s. s.executions) (λ s m. refl) url new).at s w in
      let quotes2 : s2.quotes ≡ s1.quotes =
        ap (λ r. r.1.quotes) (sym e2)
        ∙ (finish_execution-Keeps env (λ s. s.quotes) (λ s m. refl) id (lookup id s1.executions)).at
            s1 w1 in
      let manager2 : s2.manager ≡ s1.manager =
        ap (λ r. r.1.manager) (sym e2)
        ∙ (finish_execution-Keeps env (λ s. s.manager) (λ s m. refl) id
              (lookup id s1.executions)).at
            s1 w1 in
      let found2 : lookup id s2.quotes ≡ some q = ap (lookup id) (quotes2 ∙ quotes1) ∙ e in
      let last = ap (λ r. r.1) (r1 ∙ r2) ∙ finish_quote_found id q s2 found2 in
      record {
        quotes_after =
            ap (λ x. x.quotes) last
            ∙ ap (insert id (with_status env completed q)) (quotes2 ∙ quotes1);
        banked =
            subst (Banks env url new s.manager)
              (sym (ap (λ x. x.manager) last ∙ manager2 ∙ ap (λ r. r.1.manager) (sym e1)))
              (bank-Banks env url new s w (ap (λ r. r.0) e1));
        execution_done =
            subst (Finishes env id (lookup id s.executions) s.executions)
              (sym (ap (λ x. x.executions) last))
              (subst (λ es. Finishes env id (lookup id es) es s2.executions) runs1
                (subst (λ r. Finishes env id (lookup id s1.executions) s1.executions r.1.executions)
                  e2 (finish_execution_lem env id (lookup id s1.executions) s1 w1)));
      }

  claim_tokens-eq-ok :
      (q : QuoteData env) (ps : List env.cdk.Proof) (s s' : Coordinator env) (w w' : env.World)
      (new : Option (List env.cdk.Proof))
      → claim_tokens env q ps s w ≡ (ok new, s', w')
      → (wallet : env.cdk.Wallet) × (get_wallet env q.quote.from_mint s.manager ≡ ok wallet)
        × (env.cdk.swap wallet (sum_amounts env 0 ps) ps w ≡ (done new, w'))
  unfolding claim_tokens
  claim_tokens-eq-ok q ps s s' w w' new e = ground arith

  claimed_lem :
      (id : String) (q : QuoteData env) (ps : List env.cdk.Proof) (s : Coordinator env)
      (w : env.World)
      → lookup id s.quotes ≡ some q
      → ((claim_tokens env q ps >>= close_swap env id q) s w).0 ≡ ok tt
      → Completes id ps w s ((claim_tokens env q ps >>= close_swap env id q) s w).1
  unfolding with_status
  claimed_lem id q ps s w e h =
      let (new, s1, w1, e1, r1) = >>=-eq-ok (claim_tokens env q ps) (close_swap env id q) s w h in
      let (wallet, known, swapped) = claim_tokens-eq-ok q ps s s1 w w1 new e1 in
      let same : s1 ≡ s = ap (λ r. r.1) (sym e1) ∙ (claim_tokens-reads env (λ x. x) q ps).at s w in
      let run = r1 ∙ ap (λ x. close_swap env id q new x w1) same in
      let c = close_swap_lem id q new s w1 e (ap (λ r. r.0) (sym run) ∙ h) in
      subst (λ r. Completes id ps w s r.1) (sym run)
        (record {
          q = q;
          found = e;
          wallet = wallet;
          known = known;
          new = new;
          after_swap = w1;
          swapped = swapped;
          quotes_after = c.quotes_after;
          banked = c.banked;
          execution_done = c.execution_done;
        })

  complete_swap_found :
      (id : String) (q : QuoteData env) (ps : List env.cdk.Proof) (s : Coordinator env)
      (w : env.World)
      → lookup id s.quotes ≡ some q
      → complete_swap env id ps s w ≡ (claim_tokens env q ps >>= close_swap env id q) s w
  unfolding complete_swap find_quote
  complete_swap_found id q ps s w e = ground arith

  complete_swap_missing :
      (id : String) (ps : List env.cdk.Proof) (s : Coordinator env) (w : env.World)
      → lookup id s.quotes ≡ none
      → (complete_swap env id ps s w).0 ≢ ok tt
  unfolding complete_swap find_quote
  complete_swap_missing id ps s w e h = ground arith

  -- A swap that completes finds its quote and marks it completed, changing no other quote. The wallet
  -- of the source mint has swapped the client's proofs; where that gave new proofs, the entry of the
  -- source mint has them after its old ones, with their total amount added to its balance modulo
  -- 2^64, and where it gave none, the liquidity is as it was. The execution, if there is one, has
  -- both its flags set and a time of completion, and no other execution changes.
  pub complete_swap-Completes :
      (id : String) (ps : List env.cdk.Proof) (s : Coordinator env) (w : env.World)
      → (complete_swap env id ps s w).0 ≡ ok tt
      → Completes id ps w s (complete_swap env id ps s w).1
  complete_swap-Completes id ps s w h = elim (Option-cases (lookup id s.quotes)) [
    | inl e ↦ absurd (complete_swap_missing id ps s w e h)
    | inr (q, e) ↦
        let run = complete_swap_found id q ps s w e in
        subst (λ r. Completes id ps w s r.1) (sym run)
          (claimed_lem id q ps s w e (subst (λ r. r.0 ≡ ok tt) run h))
  ]

  claim_tokens_done :
      (q : QuoteData env) (ps : List env.cdk.Proof) (s : Coordinator env) (w w1 : env.World)
      (wallet : env.cdk.Wallet) (new : Option (List env.cdk.Proof)) (x : env.curve.Scalar)
      → add_scalars env.curve q.broker_swap_key q.adaptor_secret ≡ ok x
      → get_wallet env q.quote.from_mint s.manager ≡ ok wallet
      → env.cdk.swap wallet (sum_amounts env 0 ps) ps w ≡ (done new, w1)
      → claim_tokens env q ps s w ≡ (ok new, s, w1)
  unfolding claim_tokens
  claim_tokens_done q ps s w w1 wallet new x key known swapped = rw (key, known, swapped)

  close_swap_done :
      (id : String) (q : QuoteData env) (new : Option (List env.cdk.Proof)) (s : Coordinator env)
      (w : env.World)
      → (bank env q.quote.from_mint new s w).0 ≡ ok tt
      → (close_swap env id q new s w).0 ≡ ok tt
  unfolding close_swap finish_execution
  close_swap_done id q new s w banked = ground arith

  -- `complete_swap` checks neither the status of the quote nor what the client's proofs are worth:
  -- whatever both are, it succeeds, and completes the quote, if the key can be computed, the mint
  -- swaps the proofs and the new proofs can be added.
  pub complete_swap-unchecked :
      (id : String) (q : QuoteData env) (ps : List env.cdk.Proof) (s : Coordinator env)
      (w w1 : env.World) (wallet : env.cdk.Wallet) (new : Option (List env.cdk.Proof))
      (x : env.curve.Scalar)
      → lookup id s.quotes ≡ some q
      → add_scalars env.curve q.broker_swap_key q.adaptor_secret ≡ ok x
      → get_wallet env q.quote.from_mint s.manager ≡ ok wallet
      → env.cdk.swap wallet (sum_amounts env 0 ps) ps w ≡ (done new, w1)
      → (bank env q.quote.from_mint new s w1).0 ≡ ok tt
      → ((complete_swap env id ps s w).0 ≡ ok tt)
        × (status_of env id (complete_swap env id ps s w).1 ≡ some completed)
  unfolding with_status
  complete_swap-unchecked id q ps s w w1 wallet new x e key known swapped banked =
      let claimed = claim_tokens_done q ps s w w1 wallet new x key known swapped in
      let run = complete_swap_found id q ps s w e ∙ ap (proceed (close_swap env id q)) claimed in
      let went : (complete_swap env id ps s w).0 ≡ ok tt =
        ap (λ r. r.0) run ∙ close_swap_done id q new s w1 banked in
      let c = complete_swap-Completes id ps s w went in
      let after : lookup id (complete_swap env id ps s w).1.quotes
          ≡ some (with_status env completed c.q) =
        ap (lookup id) c.quotes_after ∙ lookup-insert_self id _ s.quotes in
      (went, ap (Option.map (λ r. r.quote.status)) after ∙ refl)
