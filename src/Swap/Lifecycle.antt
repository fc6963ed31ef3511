-- ===== src/Swap/Lifecycle.antt =====
-- The states of a quote in the coordinator, over all of its operations.
use mathlib.Core.Option
use atomic_mint_swap.Base.{
  String, ◌≡◌, refl, ap, sym, subst, ◌⊎◌, ◌∙◌, Option, some, List, arith, eq_iff, ◌==◌, Bool-cases,
  inl, inr, Option-cases,
}
use atomic_mint_swap.Base.Dict.{lookup, lookup-insert, lookup-insert_self}
use atomic_mint_swap.Error.{BrokerError}
use atomic_mint_swap.Effect.{Outcome, ok, err, panic}
use atomic_mint_swap.Effect.Frame.{Unchanged, >>=-eq-ok}
use atomic_mint_swap.Env.{Env, Bytes}
use atomic_mint_swap.Types.Status.{SwapStatus, pending, accepted}
use atomic_mint_swap.Swap.Quote.{QuoteData, Coordinator}
use atomic_mint_swap.Swap.Execute.{
  find_quote, client_lock, lock_tokens, record_accepted, with_status, not_pending, prepare_swap,
  pay_out,
}
use atomic_mint_swap.Swap.Execute.Atomic.{
  client_lock-reads, lock_tokens-reads, prepare_swap-IsAtomic,
}

module _ (env : Env) where
  -- The status under an id, if there is a quote.
  abbrev pub status_of : String → Coordinator env → Option SwapStatus
  status_of id s = Option.map (λ q. q.quote.status) (lookup id s.quotes)

  -- What has happened where `prepare_swap` succeeded.
  pub record Prepared (id : String) (s s' : Coordinator env) (ps : List env.cdk.Proof)
      : Type 0 where
    pub q : QuoteData env
    pub found : lookup id s.quotes ≡ some q
    pub was_pending : q.quote.status ≡ pending
    pub recorded : s' ≡ record_accepted env id q ps s

  pay_out-eq-ok :
      (id : String) (pk : Bytes) (q : QuoteData env) (s : Coordinator env) (w : env.World)
      (ps : List env.cdk.Proof)
      → (pay_out env id pk q s w).0 ≡ ok ps
      → (pay_out env id pk q s w).1 ≡ record_accepted env id q ps s
  unfolding pay_out
  pay_out-eq-ok id pk q s w ps h =
      let (lock, s1, w1, e1, r1) = >>=-eq-ok (client_lock env q pk) _ s w h in
      let h1 = ap (λ r. r.0) (sym r1) ∙ h in
      let (ps', s2, w2, e2, r2) = >>=-eq-ok (lock_tokens env q lock) _ s1 w1 h1 in
      let same : s2 ≡ s =
        ap (λ r. r.1) (sym e2)
        ∙ (lock_tokens-reads env (λ x. x) q lock).at s1 w1
        ∙ ap (λ r. r.1) (sym e1)
        ∙ (client_lock-reads env (λ x. x) q pk).at s w in
      let last : ps' ≡ ps = ground (arith, ap (λ r. r.0) (sym r2) ∙ h1) in
      ap (λ r. r.1) (r1 ∙ r2)
      ∙ ap (record_accepted env id q ps') same
      ∙ ap (λ x. record_accepted env id q x s) last

  pub prepare_swap-Prepared :
      (id : String) (pk : Bytes) (s : Coordinator env) (w : env.World) (ps : List env.cdk.Proof)
      → (prepare_swap env id pk s w).0 ≡ ok ps
      → Prepared id s (prepare_swap env id pk s w).1 ps
  unfolding prepare_swap find_quote
  prepare_swap-Prepared id pk s w ps h = elim (Option-cases (lookup id s.quotes)) [
    | inl e ↦ absurd (ground arith)
    | inr (q, e) ↦
        let was : q.quote.status ≡ pending = ground arith in
        let whole : prepare_swap env id pk s w ≡ pay_out env id pk q s w = ground arith in
        record {
          q = q;
          found = e;
          was_pending = was;
          recorded =
              ap (λ r. r.1) whole ∙ pay_out-eq-ok id pk q s w ps (ap (λ r. r.0) (sym whole) ∙ h);
        }
  ]

  -- After a `prepare_swap` that succeeded, a `prepare_swap` of the same quote in the state that it
  -- left, for whatever client key, is refused and changes nothing.
  pub prepare_swap-once :
      (id : String) (pk pk' : Bytes) (s : Coordinator env) (w w' : env.World)
      (ps : List env.cdk.Proof)
      → (prepare_swap env id pk s w).0 ≡ ok ps
      → let s' = (prepare_swap env id pk s w).1 in
        prepare_swap env id pk' s' w' ≡ (err (not_pending env id), s', w')
  unfolding prepare_swap find_quote record_accepted
  prepare_swap-once id pk pk' s w w' ps h =
      let p = prepare_swap-Prepared id pk s w ps h in
      let k = with_status env accepted p.q in
      let stored = lookup-insert_self id k s.quotes in rw p.recorded (ground (arith, stored))

  accepted_status :
      (id j : String) (s s' : Coordinator env) (ps : List env.cdk.Proof)
      → Prepared id s s' ps
      → (status_of j s' ≡ status_of j s)
        ⊎ ((j ≡ id) × (status_of j s ≡ some pending) × (status_of j s' ≡ some accepted))
  unfolding record_accepted with_status
  accepted_status id j s s' ps p =
      let k = with_status env accepted p.q in
      let seen = lookup-insert id j k s.quotes in
      elim (Bool-cases (id == j)) [
        | inl same ↦
            let e : j ≡ id = sym ((eq_iff id j).0 same) in
            inr (e, rw (e, p.found) (ap some p.was_pending), rw p.recorded (ground (arith, seen)))
        | inr other ↦ inl (rw p.recorded (ground (arith, seen)))
      ]

  -- `prepare_swap` moves no quote but its own, and that only from pending to accepted.
  pub prepare_swap-status :
      (id j : String) (pk : Bytes) (s : Coordinator env) (w : env.World)
      → let s' = (prepare_swap env id pk s w).1 in
        (status_of j s' ≡ status_of j s)
        ⊎ ((j ≡ id) × (status_of j s ≡ some pending) × (status_of j s' ≡ some accepted))
  prepare_swap-status id j pk s w =
      go (prepare_swap env id pk s w) refl ((prepare_swap-IsAtomic env id pk).at s w)
    where
      go :
          (r : Outcome BrokerError (List env.cdk.Proof) × Coordinator env × env.World)
          → prepare_swap env id pk s w ≡ r
          → Unchanged s r
          → (status_of j r.1 ≡ status_of j s)
            ⊎ ((j ≡ id) × (status_of j s ≡ some pending) × (status_of j r.1 ≡ some accepted))
      go (ok ps, s', w') e u = accepted_status id j s s' ps (
          subst (λ x. Prepared id s x ps) (ap (λ r. r.1) e)
            (prepare_swap-Prepared id pk s w ps (ap (λ r. r.0) e)))
      go (err x, s', w') e u = inl (ap (status_of j) u)
      go (panic, s', w') e u = inl (ap (status_of j) u)
