-- ===== src/Api/Tasks/Behind/Payouts.antt =====
-- However the handlers interleave, `accept_quote` gets the tokens of a quote from the broker once.
use atomic_mint_swap.Base.{
  ℕ, ◌+◌, String, ◌≡◌, refl, sym, ap, ◌∙◌, subst, ◌⊎◌, inl, inr, Bool-cases, Option, none, some,
  arith, eq_iff, ◌==◌, if◌then◌else◌, All,
}
use atomic_mint_swap.Effect.{Outcome, ok, err, panic}
use atomic_mint_swap.Env.{Env, Bytes}
use atomic_mint_swap.Types.Status.{pending, accepted}
use atomic_mint_swap.Swap.Lifecycle.{status_of}
use atomic_mint_swap.Database.Rows.{QuoteRecord}
use atomic_mint_swap.Api.Types.{ApiError, AppState, AcceptQuoteRequest}
use atomic_mint_swap.Api.Behind.{IsPaid, IsBehind}
use atomic_mint_swap.Api.Tasks.{
  Handling, asking, inserting, asked, accepting, paying, marking, adding, answered, completing,
  claiming, closing, finding, finishing, finished, pay, Resumed, next, resume,
}
use atomic_mint_swap.Api.Tasks.Segments.{pay-accepted}
use atomic_mint_swap.Api.Tasks.Runs.{Service, Move, move, Run, start, then_move}
use atomic_mint_swap.Api.Tasks.Behind.Interleaved.{
  Inv, RunChoosesFresh, IsNew, Move-Kept, Run-Inv, new-Inv,
}

module _ (env : Env) (id : String) where
  -- Does the step from the one to the other get the tokens of the quote?
  abbrev pub pays : Handling env → Handling env → ℕ
  pays (paying j req row pk) (marking k req' row' tp) = if j == id then 1 else 0
  pays _ _ = 0

  -- How many steps of a run do.
  abbrev pub payouts : {x y : Service env} → Run env x y → ℕ
  payouts start = 0
  payouts (then_move r (move before t t' after ex ey e)) = pays t t' + payouts r

  abbrev IsPaidOut : AppState env → Type 0
  IsPaidOut s = IsPaid (status_of env id s.service.coordinator)

  -- What such a step needs, and what it leaves.
  abbrev Stepped : Handling env → AppState env → Option (Resumed env) → Type 0
  Stepped t s none = Unit
  Stepped t s (some m) =
      (pays t m.0 ≡ 0)
      ⊎ ((pays t m.0 ≡ 1)
          × (status_of env id s.service.coordinator ≡ some pending)
          × (status_of env id m.1.service.coordinator ≡ some accepted))

  paying-Stepped :
      (j : String) (req : AcceptQuoteRequest) (row : QuoteRecord env) (pk : Bytes)
      (s : AppState env) (w : env.World) (r : Outcome ApiError String × AppState env × env.World)
      → pay env j pk s w ≡ r
      → Stepped (paying j req row pk) s (some (next env (marking j req row) answered r))
  paying-Stepped j req row pk s w (ok tp, s', w') e =
      let (before, now) = pay-accepted env j pk s s' w w' tp e in
      elim (Bool-cases (j == id)) [
        | inl same ↦
            let it = (eq_iff j id).0 same in
            inr (
              rw same,
              ap (λ k. status_of env k s.service.coordinator) (sym it) ∙ before,
              ap (λ k. status_of env k s'.service.coordinator) (sym it) ∙ now,
            )
        | inr other ↦ inl (rw other)
      ]
  paying-Stepped j req row pk s w (err x, s', w') e = inl refl
  paying-Stepped j req row pk s w (panic, s', w') e = inl refl

  resume-Stepped :
      (t : Handling env) (s : AppState env) (w : env.World) → Stepped t s (resume env t s w)
  unfolding resume
  resume-Stepped (paying j req row pk) s w = paying-Stepped j req row pk s w (pay env j pk s w) refl
  resume-Stepped (asking req) s w = inl refl
  resume-Stepped (inserting q row) s w = inl refl
  resume-Stepped (accepting j req) s w = inl refl
  resume-Stepped (marking j req row tp) s w = inl refl
  resume-Stepped (adding j req row tp) s w = inl refl
  resume-Stepped (completing j req) s w = inl refl
  resume-Stepped (claiming j req row ps) s w = inl refl
  resume-Stepped (closing j req row) s w = inl refl
  resume-Stepped (finding j req row) s w = inl refl
  resume-Stepped (finishing req row sw) s w = inl refl
  resume-Stepped (asked o) s w = tt
  resume-Stepped (answered o) s w = tt
  resume-Stepped (finished o) s w = tt

  unpaid :
      (s : AppState env) → status_of env id s.service.coordinator ≡ some pending → IsPaidOut s → ⊥
  unpaid s e (inl p) = cc
  unpaid s e (inr p) = cc

  abbrev PaidOnce : {x y : Service env} → Run env x y → Type 0
  PaidOnce {y} r = (payouts r ≡ 0) ⊎ ((payouts r ≡ 1) × IsPaidOut y.app)

  PaidOnce-step :
      {x y z : Service env} (r : Run env x y) (m : Move env y z)
      → (IsPaidOut y.app → IsPaidOut z.app)
      → PaidOnce r
      → PaidOnce (then_move r m)
  PaidOnce-step {x} {y} {z} r (move before t t' after ex ey e) keeps once =
      let stepped : Stepped t y.app (some (t', z.app, z.world)) =
        subst (Stepped t y.app) e (resume-Stepped t y.app y.world) in
      elim once [
        | inl unpaid_yet ↦ elim stepped [
          | inl same ↦ inl (omega arith)
          | inr (one, was, now) ↦ inr (omega arith, inl now)
        ]
        | inr (paid_once, paid) ↦ elim stepped [
          | inl same ↦ inr (omega arith, keeps paid)
          | inr (one, was, now) ↦ absurd (unpaid y.app was paid)
        ]
      ]

  Run-PaidOnce :
      {x y : Service env} (r : Run env x y) → RunChoosesFresh env r → Inv env x → PaidOnce r
  Run-PaidOnce start fresh i = inl refl
  Run-PaidOnce (then_move r m) (fresh, now) i =
      let (sound, j) = Move-Kept env m now (Run-Inv env r fresh i) in
      PaidOnce-step r m (sound.forward.paid id) (Run-PaidOnce r fresh i)

  -- From a state in which each quote that the database calls accepted is accepted or completed in
  -- the coordinator, and each that it calls completed is completed there, however the calls of
  -- handlers that have not begun interleave, at most one of them gets the tokens of a quote from the
  -- broker's `accept_quote`, if the coordinator never chooses an id for a new quote that it holds; and
  -- where one has, the quote is accepted or completed in the coordinator.
  pub payouts-le_one :
      {x y : Service env} (r : Run env x y)
      → RunChoosesFresh env r
      → All (IsNew env) x.handlings
      → IsBehind env x.app
      → (payouts r ≡ 0) ⊎ ((payouts r ≡ 1) × IsPaid (status_of env id y.app.service.coordinator))
  payouts-le_one {x} r fresh new h = Run-PaidOnce r fresh (new-Inv env x new h)
