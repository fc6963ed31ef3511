-- ===== src/Liquidity/Balance.antt =====
-- The balance that the manager reports against the proofs that it holds.
use mathlib.Core.List.Perm
use mathlib.Core.List.{Nodup, Nodup-append, map-append}
use mathlib.Core.Path.{subst}
use atomic_mint_swap.Base.{
  ℕ, ◌+◌, ◌-◌, ◌<◌, String, ◌≡◌, sym, inl, inr, some, List, ◌++◌, Perm, arith, sum_by-append,
  retain, Bool-cases, ◌==◌,
}
use atomic_mint_swap.Base.Dict.{lookup, insert, lookup-insert, lookup-insert_self}
use atomic_mint_swap.Base.Perms.{sum_by-perm}
use atomic_mint_swap.Base.Word.{u64_mod, add_u64}
use atomic_mint_swap.Error.{cdk_error}
use atomic_mint_swap.Effect.{ok, err, Attempt-cases, done, refused}
use atomic_mint_swap.Env.{Env}
use atomic_mint_swap.Env.Laws.{ProofLaws}
use atomic_mint_swap.Liquidity.{
  MintLiquidity, LiquidityManager, add_proofs, remove_proofs, get_balance, get_proofs,
}
use atomic_mint_swap.Liquidity.Select.{value}
use atomic_mint_swap.Liquidity.Secrets.{secrets, kept, retain-kept-perm}

module _ (env : Env) where
  open env.cdk use {Proof, amount}

  -- A mint's balance is the sum of its proofs, which fits in a `u64`, and no secret is held twice.
  pub record IsBacked (l : MintLiquidity env) : Type 0 where
    pub balanced : l.balance ≡ value env l.proofs
    pub fits : value env l.proofs < u64_mod
    pub distinct : Nodup (secrets env l.proofs)

  pub record IsSolvent (m : LiquidityManager env) : Type 0 where
    pub at_mint :
        (url : String) (l : MintLiquidity env) → lookup url m.liquidity ≡ some l → IsBacked l

  insert-IsSolvent :
      (m : LiquidityManager env) (url : String) (l : MintLiquidity env)
      → IsSolvent m
      → IsBacked l
      → IsSolvent (record m { liquidity = insert url l m.liquidity })
  insert-IsSolvent m url l h b = record {
    at_mint = λ u k e. elim (Bool-cases (url == u)) [
      | inl same ↦
          let entry : l ≡ k = ground (arith, lookup-insert url u l m.liquidity) in
          subst IsBacked entry b
      | inr other ↦ h.at_mint u k (ground (arith, lookup-insert url u l m.liquidity))
    ];
  }

  pub entry_seen :
      (m : LiquidityManager env) (url : String) (l : MintLiquidity env)
      → lookup url m.liquidity ≡ some l
      → (get_proofs env url m ≡ l.proofs) × (get_balance env url m ≡ l.balance)
  unfolding get_proofs get_balance
  entry_seen m url l known = ground arith

  -- The entry after `add_proofs` and after `remove_proofs`.
  abbrev pub credited : MintLiquidity env → List Proof → ℕ → env.host.Time → MintLiquidity env
  credited l ps n now = record l {
    balance = add_u64 l.balance n;
    proofs = l.proofs ++ ps;
    last_updated = now;
  }

  abbrev pub debited : MintLiquidity env → List Proof → ℕ → env.host.Time → MintLiquidity env
  debited l ps n now = record l {
    balance = l.balance - n;
    proofs = retain (kept env ps) l.proofs;
    last_updated = now;
  }

  abbrev pub with_entry : LiquidityManager env → String → MintLiquidity env → LiquidityManager env
  with_entry m url l = record m { liquidity = insert url l m.liquidity }

  module _ (url : String) (ps : List Proof) (m : LiquidityManager env) (w : env.World)
      (l : MintLiquidity env) (known : lookup url m.liquidity ≡ some l) where
    pub add_proofs_done :
        (n : ℕ)
        → env.cdk.total_amount ps ≡ done n
        → add_proofs env url ps m w
          ≡ (ok tt, with_entry m url (credited l ps n (env.host.now w).0), (env.host.now w).1)
    unfolding add_proofs
    add_proofs_done n e = ground arith

    pub remove_proofs_done :
        (n : ℕ)
        → env.cdk.total_amount ps ≡ done n
        → remove_proofs env url ps m w
          ≡ (ok tt, with_entry m url (debited l ps n (env.host.now w).0), (env.host.now w).1)
    unfolding remove_proofs
    remove_proofs_done n e = ground arith

    pub proofs_refused :
        (e : String)
        → env.cdk.total_amount ps ≡ refused e
        → let failure = err (cdk_error "Failed to calculate total amount: " e) in
          (add_proofs env url ps m w ≡ (failure, m, w))
          × (remove_proofs env url ps m w ≡ (failure, m, w))
    unfolding add_proofs remove_proofs
    proofs_refused e h = ground arith

  module _ (laws : ProofLaws env.cdk) (url : String) (ps : List Proof) (m : LiquidityManager env)
      (w : env.World) (l : MintLiquidity env) (known : lookup url m.liquidity ≡ some l)
      (solvent : IsSolvent m) where
    credited-IsBacked :
        (n : ℕ) (t : env.host.Time)
        → env.cdk.total_amount ps ≡ done n
        → value env (l.proofs ++ ps) < u64_mod
        → Nodup (secrets env (l.proofs ++ ps))
        → IsBacked (credited l ps n t)
    credited-IsBacked n t e fits distinct =
        let sum = laws.total_sum ps n e in
        let both = sum_by-append amount l.proofs ps in
        let old = (solvent.at_mint url l known).balanced in
        record { balanced = ground arith; fits = fits; distinct = distinct }

    -- On a solvent manager, `add_proofs` of proofs with new secrets, to a known mint whose sum stays
    -- a `u64`, keeps the manager solvent however it ends.
    pub add_proofs-IsSolvent :
        value env (l.proofs ++ ps) < u64_mod
        → Nodup (secrets env (l.proofs ++ ps))
        → IsSolvent (add_proofs env url ps m w).1
    add_proofs-IsSolvent fits distinct = elim (Attempt-cases (env.cdk.total_amount ps)) [
      | inl (e, h) ↦ rw ((proofs_refused url ps m w l known e h).0) solvent
      | inr (n, h) ↦
          rw (add_proofs_done url ps m w l known n h)
            (insert-IsSolvent m url _ solvent (credited-IsBacked n _ h fits distinct))
    ]

    rest-Nodup :
        (ps rest : List Proof) {held : List Proof}
        → Perm held (ps ++ rest)
        → Nodup (secrets env held)
        → Nodup (secrets env rest)
    rest-Nodup ps rest split distinct =
        (Nodup-append.0 (
          subst Nodup (map-append env.cdk.secret ps rest)
            (Perm.nodup (Perm.map env.cdk.secret split) distinct))).1

    debited-IsBacked :
        (n : ℕ) (t : env.host.Time) (rest : List Proof)
        → env.cdk.total_amount ps ≡ done n
        → Perm l.proofs (ps ++ rest)
        → IsBacked (debited l ps n t)
    debited-IsBacked n t rest e split =
        let backed = solvent.at_mint url l known in
        let stays = retain-kept-perm env laws l.proofs ps rest split backed.distinct in
        let sum = laws.total_sum ps n e in
        let both = sum_by-append amount ps rest in
        let held = sum_by-perm amount split in
        let left = sum_by-perm amount stays in
        let old = backed.balanced in
        let within = backed.fits in
        record {
          balanced = omega arith;
          fits = omega arith;
          distinct =
              Perm.nodup (Perm.symm (Perm.map env.cdk.secret stays))
                (rest-Nodup ps rest split backed.distinct);
        }

    -- On a solvent manager, `remove_proofs` of a part of what a known mint holds keeps the manager
    -- solvent however it ends.
    pub remove_proofs-IsSolvent :
        (rest : List Proof)
        → Perm l.proofs (ps ++ rest)
        → IsSolvent (remove_proofs env url ps m w).1
    remove_proofs-IsSolvent rest split = elim (Attempt-cases (env.cdk.total_amount ps)) [
      | inl (e, h) ↦ rw ((proofs_refused url ps m w l known e h).1) solvent
      | inr (n, h) ↦
          rw (remove_proofs_done url ps m w l known n h)
            (insert-IsSolvent m url _ solvent (debited-IsBacked n _ rest h split))
    ]

    -- If `remove_proofs` of a part of what a solvent manager holds on a known mint succeeds, then
    -- the rest is what the mint still holds, in some order, and the balance has fallen by exactly the
    -- value of the removed proofs.
    pub remove_proofs-exact :
        (rest : List Proof)
        → Perm l.proofs (ps ++ rest)
        → (remove_proofs env url ps m w).0 ≡ ok tt
        → let m' = (remove_proofs env url ps m w).1 in
          Perm (get_proofs env url m') rest
          × (get_balance env url m' + value env ps ≡ get_balance env url m)
    remove_proofs-exact rest split went = elim (Attempt-cases (env.cdk.total_amount ps)) [
      | inl (e, h) ↦ cc ((proofs_refused url ps m w l known e h).1)
      | inr (n, h) ↦
          let k = debited l ps n (env.host.now w).0 in
          let stays =
            retain-kept-perm env laws l.proofs ps rest split
              (solvent.at_mint url l known).distinct in
          let after =
            entry_seen (with_entry m url k) url k (lookup-insert_self url k m.liquidity) in
          let before = (entry_seen m url l known).1 in
          rw (remove_proofs_done url ps m w l known n h) (
            subst (λ x. Perm x rest) (sym after.0) stays,
            omega (
              arith,
              after.1,
              before,
              (debited-IsBacked n (env.host.now w).0 rest h split).balanced,
              sum_by-perm amount stays,
              sum_by-append amount ps rest,
              sum_by-perm amount split,
              (solvent.at_mint url l known).balanced,
            ),
          )
    ]
