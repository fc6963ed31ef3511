-- ===== src/Liquidity/Ledger.antt =====
-- The proofs of each mint as a bag: what the liquidity manager holds, whatever the order in which it
-- keeps it. A deposit and a withdrawal act on the bags, and the balance is what a bag is worth.
pub mod Follows
use mathlib.Core.Option
use mathlib.Core.Quot
use mathlib.Core.Quot.{Quot, Quot-set}
use mathlib.Core.List.Perm
use mathlib.Core.List.{Nodup}
use native.Mathlib.Nat.{ℕ_set}
use atomic_mint_swap.Base.{
  ℕ, ◌<◌, String, ◌≡◌, refl, sym, ap, ◌∙◌, subst, inl, inr, Option, Option-cases, Bool-cases,
  fun_ext, none, some, List, [], ◌∷◌, ◌++◌, Perm, arith, retain, ◌==◌, eq_iff, if◌then◌else◌,
}
use atomic_mint_swap.Base.Dict.{lookup, insert, lookup-insert}
use atomic_mint_swap.Base.Perms.{sum_by-perm, retain-perm}
use atomic_mint_swap.Base.Word.{u64_mod}
use atomic_mint_swap.Effect.{Attempt, done, refused}
use atomic_mint_swap.Env.{Env}
use atomic_mint_swap.Env.Laws.{ProofLaws}
use atomic_mint_swap.Liquidity.{
  MintLiquidity, LiquidityManager, add_proofs, remove_proofs, get_balance, get_proofs,
}
use atomic_mint_swap.Liquidity.Select.{value}
use atomic_mint_swap.Liquidity.Secrets.{secrets, kept}
use atomic_mint_swap.Liquidity.Balance.{
  IsSolvent, with_entry, add_proofs-IsSolvent, remove_proofs-IsSolvent, add_proofs_done,
  remove_proofs_done, proofs_refused, credited, debited,
}

module _ (env : Env) where
  open env.cdk use {Proof, amount}

  abbrev pub Bag : Type 0
  Bag = Quot (λ (xs ys : List Proof). Perm xs ys)

  abbrev pub of_list : List Proof → Bag
  of_list = Quot.mk

  unfoldable pub worth : Bag → ℕ
  worth = Quot.lift ℕ_set (value env) λ xs ys h. sum_by-perm amount h

  unfoldable pub join : List Proof → Bag → Bag
  join ps =
      Quot.lift Quot-set (λ xs. of_list (xs ++ ps)) λ xs ys h. Quot.sound (Perm.append_right ps h)

  -- A proof goes where its secret is among those of `ps`.
  unfoldable pub without : List Proof → Bag → Bag
  without ps =
      Quot.lift Quot-set (λ xs. of_list (retain (kept env ps) xs))
        λ xs ys h. Quot.sound (retain-perm (kept env ps) h)

  -- The bags of the mints that are served.
  abbrev pub Ledger : Type 0
  Ledger = String → Option Bag

  abbrev pub held : String → Ledger → Bag
  held url g = elim (g url) [ none ↦ of_list [] | some b ↦ b ]

  abbrev pub at_mint : String → (Bag → Bag) → Ledger → Ledger
  at_mint url f g u = if u == url then Option.map f (g u) else g u

  pub data Change : Type 0 where
    deposit : String → List Proof → Change
    withdraw : String → List Proof → Change

  -- Where the ecash library cannot add the amounts up, nothing changes.
  abbrev pub if_counted : Attempt String ℕ → Ledger → Ledger → Ledger
  if_counted (done n) new g = new
  if_counted (refused e) new g = g

  abbrev pub promised : Change → Ledger → Ledger
  promised (deposit url ps) g = if_counted (env.cdk.total_amount ps) (at_mint url (join ps) g) g
  promised (withdraw url ps) g = if_counted (env.cdk.total_amount ps) (at_mint url (without ps) g) g

  abbrev pub promised_all : List Change → Ledger → Ledger
  promised_all [] g = g
  promised_all (c ∷ cs) g = promised_all cs (promised c g)

  abbrev pub after : Change → LiquidityManager env → env.World → LiquidityManager env × env.World
  after (deposit url ps) m w = let r = add_proofs env url ps m w in (r.1, r.2)
  after (withdraw url ps) m w = let r = remove_proofs env url ps m w in (r.1, r.2)

  abbrev pub after_all : List Change → LiquidityManager env → env.World → LiquidityManager env
  after_all [] m w = m
  after_all (c ∷ cs) m w = let (m', w') = after c m w in after_all cs m' w'

  abbrev pub ledger : LiquidityManager env → Ledger
  ledger m url = Option.map (λ (l : MintLiquidity env). of_list l.proofs) (lookup url m.liquidity)
