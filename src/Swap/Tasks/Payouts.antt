-- ===== src/Swap/Tasks/Payouts.antt =====
-- A quote is paid out at most once, however the requests interleave.
use atomic_mint_swap.Base.{
  ℕ, ◌+◌, ◌≤◌, String, ◌≡◌, refl, sym, subst, ◌⊎◌, inl, true, false, List, [], ◌∷◌, ◌++◌, sum_by,
  arith, All,
}
use atomic_mint_swap.Env.{Env}
use atomic_mint_swap.Swap.Quote.{Coordinator}
use atomic_mint_swap.Swap.Tasks.Pending.{is_pending}
use atomic_mint_swap.Swap.Tasks.Segments.{pays, mints, stores, Local, Local-advance}
use atomic_mint_swap.Swap.Tasks.{
  RwLock, RwLockLaws, Task, preparing, minting, completing, storing, reads_quotes, writes_quotes,
  held, Moved, System, Step, run, Reach, here, later,
}

sum_by-middle :
    {A : Type 0} (f : A → ℕ) (before : List A) (x : A) (after : List A)
    → sum_by f (before ++ x ∷ after) ≡ sum_by f (before ++ after) + f x
sum_by-middle f [] x after = omega arith
sum_by-middle f (y ∷ before) x after = omega (arith, sum_by-middle f before x after)

module _ (env : Env) where
  -- The request waits for its first lock.
  abbrev pub IsWaiting : Task env → Type 0
  IsWaiting (preparing id pk) = Unit
  IsWaiting (completing id ps) = Unit
  IsWaiting (storing keys q) = Unit
  IsWaiting _ = ⊥

  mints-le : (id : String) (t : Task env) → mints env id t ≤ writes_quotes env t
  unfolding mints writes_quotes
  mints-le id (minting j q key) = ground arith
  mints-le id _ = omega arith

  mints-le-writes :
      (id : String) (ts : List (Task env))
      → sum_by (mints env id) ts ≤ sum_by (writes_quotes env) ts
  mints-le-writes id [] = omega arith
  mints-le-writes id (t ∷ ts) = omega (arith, mints-le id t, mints-le-writes id ts)

  -- A guard for writing excludes every other guard on the quotes; a request that mints has found its
  -- quote pending; and a quote that is paid is not pending.
  record Inv (id : String) (ts : List (Task env)) (s : Coordinator env) : Type 0 where
    alone :
        (sum_by (writes_quotes env) ts ≡ 0)
        ⊎ ((sum_by (writes_quotes env) ts ≡ 1) × (sum_by (reads_quotes env) ts ≡ 0))
    mint : (sum_by (mints env id) ts ≡ 0) ⊎ (is_pending env id s.quotes ≡ true)
    once :
        (sum_by (pays env id) ts ≡ 0)
        ⊎ ((sum_by (pays env id) ts ≡ 1) × (is_pending env id s.quotes ≡ false))
    fresh : sum_by (stores env id) ts ≡ 0

  module _ (id : String) (before after : List (Task env)) where
    abbrev Others : Moved env → Type 0
    Others m =
        Local env id (held env (before ++ after)) (sum_by (mints env id) (before ++ after))
          (sum_by (pays env id) (before ++ after)) (sum_by (stores env id) (before ++ after)) m

    abbrev Counts : (t : Task env) → Type 0
    Counts t =
        (sum_by (reads_quotes env) (before ++ t ∷ after)
          ≡ sum_by (reads_quotes env) (before ++ after) + reads_quotes env t)
        × (sum_by (writes_quotes env) (before ++ t ∷ after)
            ≡ sum_by (writes_quotes env) (before ++ after) + writes_quotes env t)
        × (sum_by (mints env id) (before ++ t ∷ after)
            ≡ sum_by (mints env id) (before ++ after) + mints env id t)
        × (sum_by (pays env id) (before ++ t ∷ after)
            ≡ sum_by (pays env id) (before ++ after) + pays env id t)
        × (sum_by (stores env id) (before ++ t ∷ after)
            ≡ sum_by (stores env id) (before ++ after) + stores env id t)

    counted : (t : Task env) → Counts t
    counted t = (
      sum_by-middle _ before t after,
      sum_by-middle _ before t after,
      sum_by-middle _ before t after,
      sum_by-middle _ before t after,
      sum_by-middle _ before t after,
    )

    Inv-Local :
        (t : Task env) (s : Coordinator env) (w : env.World)
        → Inv id (before ++ t ∷ after) s
        → Others (t, s, w)
    unfolding held
    Inv-Local t s w i =
        let c = counted t in let few = mints-le-writes id (before ++ after) in ground (arith, i, c)

    Local-Inv :
        (t : Task env) (s : Coordinator env) (w : env.World)
        → Others (t, s, w)
        → Inv id (before ++ t ∷ after) s
    unfolding held
    Local-Inv t s w l = let c = counted t in ground (arith, l, c)

  module _ (lock : RwLock) (laws : RwLockLaws lock) (id : String) where
    Step-Inv :
        {x y : System env}
        → Step env lock x y
        → Inv id x.tasks x.coordinator
        → Inv id y.tasks y.coordinator
    Step-Inv {x} {y} (run before t t' after ex ey e) i =
        let l =
          Inv-Local id before after t x.coordinator x.world
            (subst (λ ts. Inv id ts x.coordinator) ex i) in
        let l' =
          Local-advance env lock laws id (held env (before ++ after)) _ _ _ t x.coordinator x.world
            (t', y.coordinator, y.world) l e in
        subst (λ ts. Inv id ts y.coordinator) (sym ey)
          (Local-Inv id before after t' y.coordinator y.world l')

    Reach-Inv :
        {x y : System env}
        → Reach env lock x y
        → Inv id x.tasks x.coordinator
        → Inv id y.tasks y.coordinator
    Reach-Inv here i = i
    Reach-Inv (later r st) i = Step-Inv st (Reach-Inv r i)

  quiet :
      (id : String) (t : Task env)
      → IsWaiting t
      → (writes_quotes env t ≡ 0) × (mints env id t ≡ 0) × (pays env id t ≡ 0)
  unfolding writes_quotes mints pays
  quiet id (preparing j pk) h = (refl, refl, refl)
  quiet id (completing j ps) h = (refl, refl, refl)
  quiet id (storing keys q) h = (refl, refl, refl)
  quiet id _ h = absurd h

  quiet_at_start :
      (id : String) (ts : List (Task env))
      → All IsWaiting ts
      → (sum_by (writes_quotes env) ts ≡ 0)
        × (sum_by (mints env id) ts ≡ 0)
        × (sum_by (pays env id) ts ≡ 0)
  quiet_at_start id [] h = (refl, refl, refl)
  quiet_at_start id (t ∷ ts) h =
      let a = quiet id t h.0 in let b = quiet_at_start id ts h.1 in omega arith

  -- From a system in which every request waits for its first lock and none stores a quote under the
  -- id, whatever requests there are and however their steps interleave, at most one `prepare_swap`
  -- has paid the quote out, and where one has, the quote is no longer pending.
  pub pays-le_one :
      (lock : RwLock) (laws : RwLockLaws lock) (id : String) (x y : System env)
      → All IsWaiting x.tasks
      → sum_by (stores env id) x.tasks ≡ 0
      → Reach env lock x y
      → (sum_by (pays env id) y.tasks ≡ 0)
        ⊎ ((sum_by (pays env id) y.tasks ≡ 1) × (is_pending env id y.coordinator.quotes ≡ false))
  pays-le_one lock laws id x y fresh none_stored r =
      let start = quiet_at_start id x.tasks fresh in
      (Reach-Inv lock laws id r (record {
        alone = inl start.0;
        mint = inl start.1;
        once = inl start.2;
        fresh = none_stored;
      })).once
