-- ===== src/Tests/Tasks.antt =====
-- Requests that run at once, on the swap of Tests/Scenario.antt.
use atomic_mint_swap.Base.{
  ℕ, ◌≡◌, refl, ◌⊎◌, Bool, false, ◌&&◌, Option, some, List, [], ◌∷◌, sum_by, eqb, arith,
}
use atomic_mint_swap.Base.Dict.{lookup, insert}
use atomic_mint_swap.Adaptor.{
  adaptor_point_from_secret, add_scalars, tweak_public_key, point_to_compressed_bytes,
  compressed_bytes_to_point,
}
use atomic_mint_swap.Liquidity.{get_wallet, add_proofs}
use atomic_mint_swap.Swap.Quote.{Coordinator}
use atomic_mint_swap.Swap.Execute.{
  complete_swap, prepare_swap, find_quote, client_lock, lock_tokens, claim_tokens, bank,
  sum_amounts,
}
use atomic_mint_swap.Swap.Tasks.{
  Access, read, write, RwLock, RwLockLaws, preparing, minting, recording, prepared, completing,
  finishing, closing, closed, reads_quotes, writes_quotes, held, check_pending, mint_and_mark,
  mark_accepted, advance, System, Step, run, Reach, here, later,
}
use atomic_mint_swap.Swap.Tasks.Alone.{run_alone, ended, swaps_alone}
use atomic_mint_swap.Swap.Tasks.Pending.{is_pending}
use atomic_mint_swap.Swap.Tasks.Segments.{pays, stores}
use atomic_mint_swap.Swap.Tasks.Payouts.{pays-le_one}
use atomic_mint_swap.Swap.Tasks.Deadlock.{complete_swap-deadlock}
use atomic_mint_swap.Tests.Sample.{sample, zeros}
use atomic_mint_swap.Tests.Scenario.{idle, offering, accepted_swap, client_key}
use atomic_mint_swap.Tests.Scenario.{held as held_quote}

abbrev lock : RwLock
lock = record { grants = granted }
  where
    granted : Access → ℕ → ℕ → Bool
    granted read r w = eqb w 0
    granted write r w = eqb r 0 && eqb w 0

lock_laws : RwLockLaws lock
lock_laws = record {
  write_alone = λ r w h. ground arith;
  read_shared = λ r w h. ground arith;
  write_free = refl;
  read_free = λ r. refl;
}

swaps_alone_example :
    (run_alone sample lock 3 (preparing "id" client_key, offering, 10)
      ≡ ended sample lock (prepared "id") (prepare_swap sample "id" client_key offering 10))
    × (run_alone sample lock 5 (completing "id" ((1000, 5) ∷ []), offering, 10)
        ≡ ended sample lock closed (complete_swap sample "id" ((1000, 5) ∷ []) offering 10))
swaps_alone_example = swaps_alone sample lock lock_laws "id" client_key ((1000, 5) ∷ []) offering 10

-- Two accepted quotes, completed at once.
abbrev two_quotes : Coordinator sample
two_quotes = record idle { quotes = ("id", held_quote) ∷ ("other", held_quote) ∷ [] }

abbrev claimed : ℕ → Option (List (ℕ × ℕ))
claimed w = some ((1000, w) ∷ [])

abbrev banked_once : Coordinator sample
banked_once = (bank sample "b" (claimed 20) two_quotes 22).1

abbrev banked_twice : Coordinator sample
banked_twice = (bank sample "b" (claimed 21) banked_once 23).1

abbrev two_completing : System sample
two_completing = record {
  tasks = completing "id" ((1000, 5) ∷ []) ∷ completing "other" ((1000, 6) ∷ []) ∷ [];
  coordinator = two_quotes;
  world = 20;
}

complete_swap-deadlock_example :
    (y : System sample) × Reach sample lock two_completing y
    × (y.tasks ≡ closing "id" ∷ finishing "other" ∷ [])
    × ((z : System sample) → ¬ Step sample lock y z)
unfolding claim_tokens bank sum_amounts lookup insert get_wallet add_scalars add_proofs
complete_swap-deadlock_example =
    complete_swap-deadlock sample lock lock_laws "id" "other" ((1000, 5) ∷ []) ((1000, 6) ∷ [])
      held_quote held_quote (claimed 20) (claimed 21) two_quotes banked_once banked_twice 20 21 22
      23 24 refl refl refl refl refl refl

-- Two requests accept the same quote: the first is paid, and the second still waits.
abbrev two_preparing : System sample
two_preparing = record {
  tasks = preparing "id" client_key ∷ preparing "id" client_key ∷ [];
  coordinator = offering;
  world = 10;
}

abbrev key : List ℕ
key = 12 ∷ zeros 32

abbrev checked : System sample
checked = record two_preparing {
  tasks = minting "id" held_quote key ∷ preparing "id" client_key ∷ [];
}

abbrev minted : System sample
minted = record {
  tasks = recording "id" ((995, 77) ∷ []) ∷ preparing "id" client_key ∷ [];
  coordinator = record accepted_swap { executions = [] };
  world = 15;
}

check_runs :
    advance sample lock
      (held sample (preparing "id" client_key ∷ []))
      (preparing "id" client_key)
      offering
      10
    ≡ some (minting "id" held_quote key, offering, 10)
unfolding advance held reads_quotes writes_quotes check_pending find_quote client_lock lookup insert
    adaptor_point_from_secret tweak_public_key point_to_compressed_bytes compressed_bytes_to_point
check_runs = refl

mint_runs :
    advance sample lock
      (held sample (preparing "id" client_key ∷ []))
      (minting "id" held_quote key)
      offering
      10
    ≡ some (recording "id" ((995, 77) ∷ []), minted.coordinator, 15)
unfolding advance mint_and_mark mark_accepted lock_tokens get_wallet lookup insert
mint_runs = refl

two_prepare : Reach sample lock two_preparing minted
two_prepare =
    later {y = checked}
      (later {y = two_preparing} here (
        run [] (preparing "id" client_key) (minting "id" held_quote key)
          (preparing "id" client_key ∷ []) refl refl check_runs))
      (run [] (minting "id" held_quote key) (recording "id" ((995, 77) ∷ []))
        (preparing "id" client_key ∷ []) refl refl mint_runs)

pays-le_one_example :
    (sum_by (pays sample "id") minted.tasks ≡ 0)
    ⊎ ((sum_by (pays sample "id") minted.tasks ≡ 1)
        × (is_pending sample "id" minted.coordinator.quotes ≡ false))
unfolding stores
pays-le_one_example =
    pays-le_one sample lock lock_laws "id" two_preparing minted (tt, (tt, tt)) refl two_prepare
