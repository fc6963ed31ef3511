-- ===== src/Api/Tasks/Runs.antt =====
-- The steps of the handlers that run at once, in whatever order.
use atomic_mint_swap.Base.{◌≡◌, some, List, ◌∷◌, ◌++◌}
use atomic_mint_swap.Env.{Env}
use atomic_mint_swap.Api.Types.{AppState}
use atomic_mint_swap.Api.Tasks.{Handling, resume}

module _ (env : Env) where
  pub record Service : Type 0 where
    pub handlings : List (Handling env)
    pub app : AppState env
    pub world : env.World

  -- Any handler may take the next step.
  pub data Move (x y : Service) : Type 0 where
    move :
        (before : List (Handling env)) (t t' : Handling env) (after : List (Handling env))
        → x.handlings ≡ before ++ t ∷ after
        → y.handlings ≡ before ++ t' ∷ after
        → resume env t x.app x.world ≡ some (t', y.app, y.world)
        → Move x y

  pub data Run (x : Service) : Service → Type 0 where
    start : Run x x
    then_move : {y z : Service} → Run x y → Move y z → Run x z
