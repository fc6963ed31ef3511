-- ===== src/Tests/Liquidity.antt =====
-- The liquidity manager with two proofs, of 8 and 4 sats, on one mint.
use mathlib.Core.List.Perm
use mathlib.Core.List.{Nodup-cons, Nodup, Nodup-nil, Mem, mem-cons, not-mem-nil}
use mathlib.Core.Logic.Or
use mathlib.Core.HLevel.{⊥_prop}
use atomic_mint_swap.Base.{
  ◌<◌, ◌++◌, ℕ, ◌+◌, ◌≡◌, refl, subst, some, List, [], ◌∷◌, Perm, arith, eq_iff,
}
use atomic_mint_swap.Base.Dict.{lookup, insert}
use atomic_mint_swap.Error.{unsupported_mint}
use atomic_mint_swap.Effect.{ok, err}
use atomic_mint_swap.Liquidity.{
  MintLiquidity, LiquidityManager, add_proofs, remove_proofs, select_proofs, get_balance,
  get_proofs,
}
use atomic_mint_swap.Liquidity.Select.{Selects, select_proofs-Selects}
use atomic_mint_swap.Liquidity.Balance.{IsBacked, IsSolvent, remove_proofs-exact}
use atomic_mint_swap.Liquidity.{initialize_liquidity, initialize_each, initialize_mint, mint_tokens}
use atomic_mint_swap.Liquidity.Select.{value}
use atomic_mint_swap.Liquidity.Secrets.{secrets}
use atomic_mint_swap.Base.Word.{u64_mod}
use atomic_mint_swap.Liquidity.Initialize.{AllFresh, Grows, initialize_liquidity-IsSolvent}
use atomic_mint_swap.Liquidity.Ledger.{
  Change, deposit, withdraw, of_list, worth, held, promised_all, after_all, ledger,
}
use atomic_mint_swap.Liquidity.Ledger.Follows.{AllAllowed, get_balance-after_all}
use atomic_mint_swap.Tests.Sample.{sample, proof_laws}

abbrev holding : List (ℕ × ℕ)
holding = (4, 1) ∷ (8, 2) ∷ []

abbrev entry : MintLiquidity sample
entry = record { mint_url = "a"; balance = 12; proofs = holding; last_updated = 0 }

abbrev manager : LiquidityManager sample
manager = record { liquidity = ("a", entry) ∷ []; wallets = ("a", "a") ∷ [] }

manager_entry : lookup "a" manager.liquidity ≡ some entry
unfolding lookup
manager_entry = refl

ne_self : {a : ℕ} {b : ℕ} → (a ≡ b → ⊥) → ¬ Mem a (b ∷ [])
ne_self h m = Or.elim ⊥_prop (mem-cons.0 m) h not-mem-nil

entry-IsBacked : IsBacked sample entry
entry-IsBacked = record {
  balanced = refl;
  fits = omega arith;
  distinct = Nodup-cons.1 (ne_self (λ e. omega arith), Nodup-cons.1 (not-mem-nil, Nodup-nil));
}

manager-IsSolvent : IsSolvent sample manager
unfolding lookup
manager-IsSolvent = record {
  at_mint = λ url l e.
      let same : entry ≡ l = ground (arith, eq_iff "a" url) in
      subst (IsBacked sample) same entry-IsBacked;
}

-- The largest proof covers 5 sats alone.
select_five : select_proofs sample "a" 5 manager ≡ ok ((8, 2) ∷ [])
unfolding select_proofs lookup
select_five = refl

select_unknown : select_proofs sample "b" 5 manager ≡ err (unsupported_mint "b")
unfolding select_proofs lookup
select_unknown = refl

select_proofs-Selects_example :
    (selected : List (ℕ × ℕ)) × (select_proofs sample "a" 5 manager ≡ ok selected)
    × Selects sample 5 holding selected
select_proofs-Selects_example =
    select_proofs-Selects sample "a" 5 manager entry manager_entry (omega arith) (omega arith)

ne_both : {a : ℕ} {b c : ℕ} → (a ≡ b → ⊥) → (a ≡ c → ⊥) → ¬ Mem a (b ∷ c ∷ [])
ne_both h k m = Or.elim ⊥_prop (mem-cons.0 m) h (ne_self k)

remove_proofs_went : (remove_proofs sample "a" ((8, 2) ∷ []) manager 5).0 ≡ ok tt
unfolding remove_proofs lookup
remove_proofs_went = refl

remove_proofs-exact_example :
    let m = (remove_proofs sample "a" ((8, 2) ∷ []) manager 5).1 in
    Perm (get_proofs sample "a" m) ((4, 1) ∷ [])
    × (get_balance sample "a" m + 8 ≡ get_balance sample "a" manager)
remove_proofs-exact_example =
    remove_proofs-exact sample proof_laws "a" ((8, 2) ∷ []) manager 5 entry manager_entry
      manager-IsSolvent ((4, 1) ∷ []) (Perm.swap (8, 2) (4, 1) []) remove_proofs_went

-- A withdrawal, a deposit at a mint that is not served, and one that is.
abbrev changes : List (Change sample)
changes = withdraw "a" ((8, 2) ∷ []) ∷ deposit "b" ((2, 3) ∷ []) ∷ []

changes_allowed : AllAllowed sample changes manager 5
unfolding lookup insert remove_proofs
changes_allowed = (
  λ l e.
      let same : entry ≡ l = ground (arith) in
      subst (λ l. (rest : List (ℕ × ℕ)) × Perm l.proofs ((8, 2) ∷ rest)) same
        ((4, 1) ∷ [], Perm.swap (8, 2) (4, 1) []),
  (λ l e. absurd (cc), tt),
)

get_balance-after_all_example :
    let m = after_all sample changes manager 5 in
    let bag = held sample "a" (promised_all sample changes (ledger sample manager)) in
    (of_list sample (get_proofs sample "a" m) ≡ bag) × (get_balance sample "a" m ≡ worth sample bag)
get_balance-after_all_example =
    get_balance-after_all sample proof_laws changes "a" manager 5 changes_allowed manager-IsSolvent

balance_left : get_balance sample "a" (after_all sample changes manager 5) ≡ 4
unfolding lookup insert remove_proofs add_proofs get_balance
balance_left = refl

abbrev Fits : List (ℕ × ℕ) → List (ℕ × ℕ) → Type 0
Fits old ps = (value sample (old ++ ps) < u64_mod) × Nodup (secrets sample (old ++ ps))

-- The mint hands out ten sats under a secret that is the number of calls so far.
minted_fresh : AllFresh sample 10 manager.wallets manager 5
unfolding mint_tokens lookup
minted_fresh = (
  λ ps e l known.
      let new : (10, 6) ∷ [] ≡ ps = cc in
      let same : entry ≡ l = cc in
      subst (λ l. Fits l.proofs ps) same
        (subst (Fits holding) new (
          omega arith,
          Nodup-cons.1 (
            ne_both (λ e. omega arith) (λ e. omega arith),
            Nodup-cons.1 (ne_self (λ e. omega arith), Nodup-cons.1 (not-mem-nil, Nodup-nil)),
          ),
        )),
  tt,
)

initialize_liquidity-IsSolvent_example :
    let m = (initialize_liquidity sample (λ ws. ws) 10 manager 5).1 in
    Grows sample manager m × IsSolvent sample m
initialize_liquidity-IsSolvent_example =
    initialize_liquidity-IsSolvent sample proof_laws (λ ws. ws) 10 manager 5 minted_fresh
      manager-IsSolvent

ten_more : get_balance sample "a" (initialize_liquidity sample (λ ws. ws) 10 manager 5).1 ≡ 22
unfolding initialize_liquidity initialize_each initialize_mint mint_tokens add_proofs get_balance
    lookup insert
ten_more = refl
