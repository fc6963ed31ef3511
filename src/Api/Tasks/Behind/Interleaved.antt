-- ===== src/Api/Tasks/Behind/Interleaved.antt =====
-- However the handlers interleave, the database claims no more of a quote than the coordinator has
-- done.
use atomic_mint_swap.Base.{sym, subst, ◌++◌, All, All-mono, All-middle, All-insert}
use atomic_mint_swap.Env.{Env}
use atomic_mint_swap.Swap.Quote.{Coordinator}
use atomic_mint_swap.Api.Behind.{IsBehind}
use atomic_mint_swap.Api.Tasks.{Handling, asking, accepting, completing}
use atomic_mint_swap.Api.Tasks.Behind.{Saw, Saw-Forward, Sound, ChoosesFresh}
use atomic_mint_swap.Api.Tasks.Runs.{Service, Move, move, Run, start, then_move}
use atomic_mint_swap.Api.Tasks.Behind.Steps.{Kept, Keeping, resume-Keeping}

module _ (env : Env) where
  pub record Inv (x : Service env) : Type 0 where
    pub behind : IsBehind env x.app
    pub saw : All (λ t. Saw env t x.app.service.coordinator) x.handlings

  -- The handler that takes the step.
  abbrev pub mover : {x y : Service env} → Move env x y → Handling env
  mover (move before t t' after ex ey e) = t

  -- At each step that asks for a quote, the coordinator chooses an id that it does not hold.
  abbrev pub RunChoosesFresh : {x y : Service env} → Run env x y → Type 0
  RunChoosesFresh start = Unit
  RunChoosesFresh (then_move {y} r m) = RunChoosesFresh r × ChoosesFresh env (mover m) y.app y.world

  -- The handler stands before its first call.
  abbrev pub IsNew : Handling env → Type 0
  IsNew (asking req) = Unit
  IsNew (accepting id req) = Unit
  IsNew (completing id req) = Unit
  IsNew _ = ⊥

  IsNew-Saw : (t : Handling env) (c : Coordinator env) → IsNew t → Saw env t c
  IsNew-Saw (asking req) c h = tt
  IsNew-Saw (accepting id req) c h = tt
  IsNew-Saw (completing id req) c h = tt
  IsNew-Saw _ c h = absurd h

  -- What a step keeps.
  pub Move-Kept :
      {y z : Service env} (m : Move env y z)
      → ChoosesFresh env (mover m) y.app y.world
      → Inv y
      → Sound env y.app z.app × Inv z
  Move-Kept {y} {z} (move before t t' after ex ey e) now i =
      let (mine, others) =
        All-middle (λ t. Saw env t y.app.service.coordinator) before t after
          (subst (All (λ t. Saw env t y.app.service.coordinator)) ex i.saw) in
      let kept : Kept env y.app (t', z.app, z.world) =
        subst (Keeping env y.app) e (resume-Keeping env t y.app y.world now mine i.behind) in
      (
        kept.sound,
        record {
          behind = kept.sound.behind;
          saw = subst (All (λ t. Saw env t z.app.service.coordinator)) (sym ey) (
              All-insert (λ t. Saw env t z.app.service.coordinator) before t' after kept.saw
                (All-mono _ _ (before ++ after) (λ t. Saw-Forward env t _ _ kept.sound.forward)
                  others));
        },
      )

  pub Run-Inv : {x y : Service env} (r : Run env x y) → RunChoosesFresh r → Inv x → Inv y
  Run-Inv start fresh i = i
  Run-Inv (then_move r m) (fresh, now) i = (Move-Kept m now (Run-Inv r fresh i)).1

  pub new-Inv : (x : Service env) → All IsNew x.handlings → IsBehind env x.app → Inv x
  new-Inv x new h = record {
    behind = h;
    saw = All-mono _ _ x.handlings (λ t. IsNew-Saw t x.app.service.coordinator) new;
  }

  -- From a state in which each quote that the database calls accepted is accepted or completed in
  -- the coordinator, and each that it calls completed is completed there, however the calls of
  -- handlers that have not begun interleave, whichever fail and whichever go no further, the state
  -- is such a one again, if the coordinator never chooses an id for a new quote that it holds.
  pub Run-IsBehind :
      {x y : Service env} (r : Run env x y)
      → RunChoosesFresh r
      → All IsNew x.handlings
      → IsBehind env x.app
      → IsBehind env y.app
  Run-IsBehind {x} r fresh new h = (Run-Inv r fresh (new-Inv x new h)).behind
