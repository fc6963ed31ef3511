-- ===== src/Liquidity/New.antt =====
-- `LiquidityManager::new` of cashu-broker/src/liquidity.rs: what it starts with.
use mathlib.Core.List.{Nodup-nil}
use atomic_mint_swap.Base.{
  String, ◌≡◌, refl, sym, ap, ◌∙◌, subst, inl, inr, some, List, [], ◌∷◌, arith, Bool-cases, ◌==◌,
}
use atomic_mint_swap.Base.Dict.{lookup, insert, lookup-insert, lookup-insert_self}
use atomic_mint_swap.Error.{BrokerError, cdk_error}
use atomic_mint_swap.Effect.{Outcome, ok, err, panic, attempt, or_fail}
use atomic_mint_swap.Effect.Frame.{Keeps-attempt, Keeps-or_fail}
use atomic_mint_swap.Effect.Success.{Post, Post-mono, Post-ok, Post-proceed, Post-reads}
use atomic_mint_swap.Env.{Env}
use atomic_mint_swap.Types.{MintConfig}
use atomic_mint_swap.Liquidity.{MintLiquidity, LiquidityManager, add_mint, add_mints, new}
use atomic_mint_swap.Liquidity.Balance.{IsSolvent}

module _ (env : Env) where
  open env use {World, cdk.{Wallet}}

  -- The mint has an entry without proofs, and a wallet.
  pub record Opens (m : LiquidityManager env) (url : String) : Type 0 where
    pub entry : MintLiquidity env
    pub at_entry : lookup url m.liquidity ≡ some entry
    pub wallet : Wallet
    pub at_wallet : lookup url m.wallets ≡ some wallet

  pub record IsEmpty (m : LiquidityManager env) : Type 0 where
    pub at_mint :
        (url : String) (l : MintLiquidity env)
        → lookup url m.liquidity ≡ some l
        → (l.balance ≡ 0) × (l.proofs ≡ [])

  -- What one round of the loop has added.
  record Adds (url : String) (m m' : LiquidityManager env) : Type 0 where
    entry : MintLiquidity env
    no_balance : entry.balance ≡ 0
    no_proofs : entry.proofs ≡ []
    wallet : Wallet
    liquidity : m'.liquidity ≡ insert url entry m.liquidity
    wallets : m'.wallets ≡ insert url wallet m.wallets

  add_mint-Adds :
      (mint : MintConfig) (m : LiquidityManager env) (w : World)
      → Post (λ r m' w'. Adds mint.mint_url m m') (add_mint env mint m w)
  unfolding add_mint
  add_mint-Adds mint m w =
      let Q : Unit {0} → LiquidityManager env → World → Type 0 =
        λ r m' w'. Adds mint.mint_url m m' in
      let opened = attempt (cdk_error "Failed to create memory store: ") env.cdk.memory_empty m w in
      Post-reads Q _ m opened ((Keeps-attempt (λ x. x) _ env.cdk.memory_empty).at m w)
        λ store w1 e1.
          let (seed, w2) = env.host.random_bytes 64 w1 in
          let made =
            or_fail (cdk_error "Failed to create wallet: ")
              (env.cdk.wallet_new mint.mint_url store seed) m w2 in
          Post-reads Q _ m made ((Keeps-or_fail (λ x. x) _ _).at m w2) λ wallet w3 e3.
            let entry : MintLiquidity env = record {
              mint_url = mint.mint_url;
              balance = 0;
              proofs = [];
              last_updated = (env.host.now w3).0;
            } in
            let added : Adds mint.mint_url m (record {
              liquidity = insert mint.mint_url entry m.liquidity;
              wallets = insert mint.mint_url wallet m.wallets;
            }) =
              record {
                entry = entry;
                no_balance = refl;
                no_proofs = refl;
                wallet = wallet;
                liquidity = refl;
                wallets = refl;
              } in
            added

  Adds-IsEmpty :
      (url : String) (m m' : LiquidityManager env) → Adds url m m' → IsEmpty m → IsEmpty m'
  Adds-IsEmpty url m m' a h = record {
    at_mint = λ u l e. elim (Bool-cases (url == u)) [
      | inl same ↦
          let entry : a.entry ≡ l =
            ground (arith, a.liquidity, lookup-insert url u a.entry m.liquidity) in
          (
            ap (λ (x : MintLiquidity env). x.balance) (sym entry) ∙ a.no_balance,
            ap (λ (x : MintLiquidity env). x.proofs) (sym entry) ∙ a.no_proofs,
          )
      | inr other ↦
          h.at_mint u l (ground (arith, a.liquidity, lookup-insert url u a.entry m.liquidity))
    ];
  }

  Adds-Opens :
      (url other : String) (m m' : LiquidityManager env)
      → Adds url m m'
      → Opens m other
      → Opens m' other
  Adds-Opens url other m m' a h = elim (Bool-cases (url == other)) [
    | inl same ↦ record {
      entry = a.entry;
      at_entry = ground (arith, a.liquidity, lookup-insert url other a.entry m.liquidity);
      wallet = a.wallet;
      at_wallet = ground (arith, a.wallets, lookup-insert url other a.wallet m.wallets);
    }
    | inr different ↦ record {
      entry = h.entry;
      at_entry =
          ground (arith, a.liquidity, h.at_entry, lookup-insert url other a.entry m.liquidity);
      wallet = h.wallet;
      at_wallet =
          ground (arith, a.wallets, h.at_wallet, lookup-insert url other a.wallet m.wallets);
    }
  ]

  Adds-Opens_self : (url : String) (m m' : LiquidityManager env) → Adds url m m' → Opens m' url
  Adds-Opens_self url m m' a = record {
    entry = a.entry;
    at_entry = ap (lookup url) a.liquidity ∙ lookup-insert_self url a.entry m.liquidity;
    wallet = a.wallet;
    at_wallet = ap (lookup url) a.wallets ∙ lookup-insert_self url a.wallet m.wallets;
  }

  abbrev pub OpensAll : LiquidityManager env → List MintConfig → Type 0
  OpensAll m [] = Unit
  OpensAll m (mint ∷ mints) = Opens m mint.mint_url × OpensAll m mints

  -- What the loop has reached from `m`.
  record Loops (mints : List MintConfig) (m m' : LiquidityManager env) : Type 0 where
    empty : IsEmpty m → IsEmpty m'
    opens : OpensAll m' mints
    keeps : (url : String) → Opens m url → Opens m' url

  add_mints-Loops :
      (mints : List MintConfig) (m : LiquidityManager env) (w : World)
      → Post (λ r m' w'. Loops mints m m') (add_mints env mints m w)
  unfolding add_mints
  add_mints-Loops [] m w = record { empty = λ h. h; opens = tt; keeps = λ url h. h }
  add_mints-Loops (mint ∷ mints) m w =
      let Q : Unit {0} → LiquidityManager env → World → Type 0 =
        λ r m' w'. Loops (mint ∷ mints) m m' in
      Post-proceed Q _ (add_mint env mint m w) λ a m1 w1 e1.
        let first : Adds mint.mint_url m m1 =
          subst (Post (λ r m' w'. Adds mint.mint_url m m')) e1 (add_mint-Adds mint m w) in
        Post-mono (λ r m' w'. Loops mints m1 m') Q (add_mints env mints m1 w1)
          (λ r m2 w2 rest. record {
            empty = λ h. rest.empty (Adds-IsEmpty mint.mint_url m m1 first h);
            opens =
                (rest.keeps mint.mint_url (Adds-Opens_self mint.mint_url m m1 first), rest.opens);
            keeps = λ url h. rest.keeps url (Adds-Opens mint.mint_url url m m1 first h);
          })
          (add_mints-Loops mints m1 w1)

  IsEmpty-IsSolvent : (m : LiquidityManager env) → IsEmpty m → IsSolvent env m
  IsEmpty-IsSolvent m h = record {
    at_mint = λ url l e.
        let (no_balance, no_proofs) = h.at_mint url l e in
        record {
          balanced = rw (no_balance, no_proofs);
          fits = rw no_proofs (omega arith);
          distinct = rw no_proofs Nodup-nil;
        };
  }

  -- How `new` ends, from its loop.
  abbrev ended :
      Outcome BrokerError (Unit {0}) × LiquidityManager env × World
      → Outcome BrokerError (LiquidityManager env) × World
  ended (r, m, w) = (elim r [ ok _ ↦ ok m | err e ↦ err e | panic ↦ panic ], w)

  ended-eq-ok :
      (r : Outcome BrokerError (Unit {0}) × LiquidityManager env × World) (m : LiquidityManager env)
      → (ended r).0 ≡ ok m
      → (r.0 ≡ ok tt) × (r.1 ≡ m)
  ended-eq-ok (ok tt, m', w') m e = (refl, cc)
  ended-eq-ok (err x, m', w') m e = absurd (cc)
  ended-eq-ok (panic, m', w') m e = absurd (cc)

  -- Where `new` succeeds, every configured mint has an entry and a wallet, every balance is zero
  -- without a proof, and the manager is solvent.
  pub new-Opens :
      (mints : List MintConfig) (w : World) (m : LiquidityManager env)
      → (new env mints w).0 ≡ ok m
      → OpensAll m mints × IsEmpty m × IsSolvent env m
  unfolding new lookup
  new-Opens mints w m e =
      let start : LiquidityManager env = record { liquidity = []; wallets = [] } in
      let looped = add_mints env mints start w in
      let (went, same) = ended-eq-ok looped m e in
      let loops = Post-ok (Loops mints start) looped tt (add_mints-Loops mints start w) went in
      let none_yet : IsEmpty start = record { at_mint = λ url l found. ground arith } in
      subst (λ x. OpensAll x mints × IsEmpty x × IsSolvent env x) same
        (loops.opens, loops.empty none_yet, IsEmpty-IsSolvent _ (loops.empty none_yet))
