-- ===== src/Liquidity/Ledger/Follows.antt =====
-- The manager's proofs and balances are those of the bags, whatever deposits and withdrawals it has
-- seen.
use mathlib.Core.List.{Nodup}
use atomic_mint_swap.Base.{
  ℕ, ◌<◌, String, ◌≡◌, refl, sym, ap, ◌∙◌, inl, inr, Option-cases, Bool-cases, fun_ext, none, some,
  List, [], ◌∷◌, ◌++◌, Perm, arith, ◌==◌, eq_iff,
}
use atomic_mint_swap.Base.Dict.{lookup, insert, lookup-insert}
use atomic_mint_swap.Base.Word.{u64_mod}
use atomic_mint_swap.Effect.{Attempt, done, refused}
use atomic_mint_swap.Env.{Env}
use atomic_mint_swap.Env.Laws.{ProofLaws}
use atomic_mint_swap.Liquidity.{
  MintLiquidity, LiquidityManager, add_proofs, remove_proofs, get_balance, get_proofs,
}
use atomic_mint_swap.Liquidity.Select.{value}
use atomic_mint_swap.Liquidity.Secrets.{secrets, kept}
use atomic_mint_swap.Liquidity.Balance.{
  IsSolvent, with_entry, add_proofs-IsSolvent, remove_proofs-IsSolvent, add_proofs_done,
  remove_proofs_done, proofs_refused, credited, debited,
}
use atomic_mint_swap.Liquidity.Ledger.{
  Bag, of_list, worth, join, without, held, at_mint, Change, deposit, withdraw, if_counted,
  promised, promised_all, after, after_all, ledger,
}

module _ (env : Env) where
  open env.cdk use {Proof, amount}

  -- What a deposit may bring, and what a withdrawal may take: a part of what is held.
  abbrev pub Allowed : Change env → LiquidityManager env → Type 0
  Allowed (deposit url ps) m =
      (l : MintLiquidity env)
      → lookup url m.liquidity ≡ some l
      → (value env (l.proofs ++ ps) < u64_mod) × Nodup (secrets env (l.proofs ++ ps))
  Allowed (withdraw url ps) m =
      (l : MintLiquidity env)
      → lookup url m.liquidity ≡ some l
      → (rest : List Proof) × Perm l.proofs (ps ++ rest)

  abbrev pub AllAllowed : List (Change env) → LiquidityManager env → env.World → Type 0
  AllAllowed [] m w = Unit
  AllAllowed (c ∷ cs) m w = let (m', w') = after env c m w in Allowed c m × AllAllowed cs m' w'

  -- An entry with other proofs.
  ledger-with_entry :
      (url : String) (m : LiquidityManager env) (l l' : MintLiquidity env) (f : Bag env → Bag env)
      → lookup url m.liquidity ≡ some l
      → of_list env l'.proofs ≡ f (of_list env l.proofs)
      → ledger env (with_entry env m url l') ≡ at_mint env url f (ledger env m)
  ledger-with_entry url m l l' f known e = fun_ext λ u. elim (Bool-cases (u == url)) [
    | inl same ↦
        let it : u ≡ url = (eq_iff u url).0 same in
        let now : lookup u (insert url l' m.liquidity) ≡ some l' =
          ground (arith, lookup-insert url u l' m.liquidity, eq_iff url u) in
        let was : lookup u m.liquidity ≡ some l = ap (λ k. lookup k m.liquidity) it ∙ known in
        rw (now, same, was) (ap some e)
    | inr other ↦
        let now : lookup u (insert url l' m.liquidity) ≡ lookup u m.liquidity =
          ground (arith, lookup-insert url u l' m.liquidity, eq_iff url u, eq_iff u url) in
        rw (now, other) refl
  ]

  -- At a mint that is not served, nothing changes.
  pub unserved :
      (url : String) (ps : List Proof) (m : LiquidityManager env) (w : env.World)
      → lookup url m.liquidity ≡ none
      → ((add_proofs env url ps m w).1 ≡ m) × ((remove_proofs env url ps m w).1 ≡ m)
  unfolding add_proofs remove_proofs
  unserved url ps m w h = (ground (arith, h), ground (arith, h))

  at_mint_unserved :
      (url : String) (f : Bag env → Bag env) (m : LiquidityManager env)
      → lookup url m.liquidity ≡ none
      → at_mint env url f (ledger env m) ≡ ledger env m
  at_mint_unserved url f m h = fun_ext λ u. elim (Bool-cases (u == url)) [
    | inl same ↦
        let it : u ≡ url = (eq_iff u url).0 same in
        let was : lookup u m.liquidity ≡ none = ap (λ k. lookup k m.liquidity) it ∙ h in
        rw (same, was) refl
    | inr other ↦ rw other refl
  ]

  -- A change of one mint's proofs by `f`, where it is served and the amounts are added up.
  ledger_follows :
      (url : String) (f : Bag env → Bag env) (r : Attempt String ℕ) (m m' : LiquidityManager env)
      → (lookup url m.liquidity ≡ none → m' ≡ m)
      → ((l : MintLiquidity env) (e : String)
          → lookup url m.liquidity ≡ some l
          → r ≡ refused e
          → m' ≡ m)
      → ((l : MintLiquidity env) (n : ℕ)
          → lookup url m.liquidity ≡ some l
          → r ≡ done n
          → (l' : MintLiquidity env) × (m' ≡ with_entry env m url l')
            × (of_list env l'.proofs ≡ f (of_list env l.proofs)))
      → if_counted env r (at_mint env url f (ledger env m)) (ledger env m) ≡ ledger env m'
  ledger_follows url f r m m' unknown failed went = elim (Option-cases (lookup url m.liquidity)) [
    | inl h ↦ same r h ∙ ap (ledger env) (sym (unknown h))
    | inr (l, h) ↦ known r l h (λ e. failed l e h) (λ n. went l n h)
  ]
    where
      same :
          (r : Attempt String ℕ)
          → lookup url m.liquidity ≡ none
          → if_counted env r (at_mint env url f (ledger env m)) (ledger env m) ≡ ledger env m
      same (done n) h = at_mint_unserved url f m h
      same (refused e) h = refl

      known :
          (r : Attempt String ℕ) (l : MintLiquidity env)
          → lookup url m.liquidity ≡ some l
          → ((e : String) → r ≡ refused e → m' ≡ m)
          → ((n : ℕ)
              → r ≡ done n
              → (l' : MintLiquidity env) × (m' ≡ with_entry env m url l')
                × (of_list env l'.proofs ≡ f (of_list env l.proofs)))
          → if_counted env r (at_mint env url f (ledger env m)) (ledger env m) ≡ ledger env m'
      known (refused e) l h failed went = ap (ledger env) (sym (failed e refl))
      known (done n) l h failed went =
          let (l', now, e) = went n refl in
          sym (ap (ledger env) now ∙ ledger-with_entry url m l l' f h e)

  after-promised :
      (c : Change env) (m : LiquidityManager env) (w : env.World)
      → promised env c (ledger env m) ≡ ledger env (after env c m w).0
  unfolding join without
  after-promised (deposit url ps) m w =
      ledger_follows url (join env ps) (env.cdk.total_amount ps) m _
        (λ h. (unserved url ps m w h).0)
        (λ l e h r. ap (λ r. r.1) (proofs_refused env url ps m w l h e r).0)
        λ l n h r. (
          credited env l ps n (env.host.now w).0,
          ap (λ r. r.1) (add_proofs_done env url ps m w l h n r),
          refl,
        )
  after-promised (withdraw url ps) m w =
      ledger_follows url (without env ps) (env.cdk.total_amount ps) m _
        (λ h. (unserved url ps m w h).1)
        (λ l e h r. ap (λ r. r.1) (proofs_refused env url ps m w l h e r).1)
        λ l n h r. (
          debited env l ps n (env.host.now w).0,
          ap (λ r. r.1) (remove_proofs_done env url ps m w l h n r),
          refl,
        )

  get_proofs-held :
      (url : String) (m : LiquidityManager env)
      → of_list env (get_proofs env url m) ≡ held env url (ledger env m)
  unfolding get_proofs
  get_proofs-held url m = elim (Option-cases (lookup url m.liquidity)) [
    | inl h ↦ rw (h, get_proofs, held) refl
    | inr (l, h) ↦ rw (h, get_proofs, held) refl
  ]

  get_balance-worth :
      (url : String) (m : LiquidityManager env)
      → IsSolvent env m
      → get_balance env url m ≡ worth env (held env url (ledger env m))
  unfolding get_balance worth
  get_balance-worth url m solvent = elim (Option-cases (lookup url m.liquidity)) [
    | inl h ↦ rw (h, get_balance, held) refl
    | inr (l, h) ↦ rw (h, get_balance, held) (solvent.at_mint url l h).balanced
  ]

  module _ (laws : ProofLaws env.cdk) where
    pub after-IsSolvent :
        (c : Change env) (m : LiquidityManager env) (w : env.World)
        → Allowed c m
        → IsSolvent env m
        → IsSolvent env (after env c m w).0
    after-IsSolvent (deposit url ps) m w allowed solvent =
        elim (Option-cases (lookup url m.liquidity)) [
          | inl h ↦ rw (unserved url ps m w h).0 solvent
          | inr (l, h) ↦
              let (fits, distinct) = allowed l h in
              add_proofs-IsSolvent env laws url ps m w l h solvent fits distinct
        ]
    after-IsSolvent (withdraw url ps) m w allowed solvent =
        elim (Option-cases (lookup url m.liquidity)) [
          | inl h ↦ rw (unserved url ps m w h).1 solvent
          | inr (l, h) ↦
              let (rest, split) = allowed l h in
              remove_proofs-IsSolvent env laws url ps m w l h solvent rest split
        ]

    after_all-follows :
        (cs : List (Change env)) (m : LiquidityManager env) (w : env.World)
        → AllAllowed cs m w
        → IsSolvent env m
        → IsSolvent env (after_all env cs m w)
          × (promised_all env cs (ledger env m) ≡ ledger env (after_all env cs m w))
    after_all-follows [] m w allowed solvent = (solvent, refl)
    after_all-follows (c ∷ cs) m w (now, rest) solvent =
        let (m', w') = after env c m w in
        let (kept, follows) = after_all-follows cs m' w' rest (after-IsSolvent c m w now solvent) in
        (kept, ap (promised_all env cs) (after-promised c m w) ∙ follows)

    -- Where the ecash library adds amounts up right and tells secrets apart: after deposits and
    -- withdrawals on a solvent manager, in any order and whether they succeed or fail, each deposit
    -- to a mint that is served bringing new secrets and a sum that stays a `u64`, and each withdrawal
    -- from one taking a part of what the mint holds then, `get_proofs` returns for every mint, in
    -- some order, the bag of proofs that the mint holds where each change has acted on the bags as
    -- it promises, and `get_balance` is what that bag is worth.
    pub get_balance-after_all :
        (cs : List (Change env)) (url : String) (m : LiquidityManager env) (w : env.World)
        → AllAllowed cs m w
        → IsSolvent env m
        → let m' = after_all env cs m w in
          let bag = held env url (promised_all env cs (ledger env m)) in
          (of_list env (get_proofs env url m') ≡ bag) × (get_balance env url m' ≡ worth env bag)
    get_balance-after_all cs url m w allowed solvent =
        let (kept, follows) = after_all-follows cs m w allowed solvent in
        (
          get_proofs-held url (after_all env cs m w) ∙ ap (held env url) (sym follows),
          get_balance-worth url (after_all env cs m w) kept
              ∙ ap (λ g. worth env (held env url g)) (sym follows),
        )
