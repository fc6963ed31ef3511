-- ===== src/Liquidity/Initialize.antt =====
-- `initialize_liquidity` of cashu-broker/src/liquidity.rs: what it leaves, however it ends.
use mathlib.Core.List.{append-nil, append_assoc}
use atomic_mint_swap.Base.{
  ℕ, String, ◌≡◌, refl, sym, ap, ◌∙◌, subst, inl, inr, Bool-cases, Option, Option-cases, none, some,
  List, [], ◌∷◌, ◌++◌, arith, eq_iff, ◌==◌,
}
use atomic_mint_swap.Base.Dict.{Dict, lookup, insert, lookup-insert}
use atomic_mint_swap.Effect.{Outcome, ok, err, panic, Action, settle, pure, Attempt-cases}
use atomic_mint_swap.Effect.Frame.{Keeps, keeps_rules}
use atomic_mint_swap.Effect.Invariant.{Inv-proceed}
use atomic_mint_swap.Env.{Env}
use atomic_mint_swap.Env.Laws.{ProofLaws}
use atomic_mint_swap.Liquidity.{
  MintLiquidity, LiquidityManager, add_proofs, get_proofs, mint_tokens, initialize_mint,
  initialize_each, initialize_liquidity,
}
use atomic_mint_swap.Liquidity.Balance.{
  IsSolvent, with_entry, entry_seen, credited, add_proofs_done, proofs_refused,
}
use atomic_mint_swap.Liquidity.Ledger.{deposit}
use atomic_mint_swap.Liquidity.Ledger.Follows.{Allowed, after-IsSolvent, unserved}

module _ {W S E F A B : Type 0} (P : S → Type 0) where
  Inv-settle :
      (k : A → Action W S F B) (h : E → Action W S F B) (r : Outcome E A × S × W)
      → P r.1
      → ((a : A) (s : S) (w : W) → r ≡ (ok a, s, w) → P (k a s w).1)
      → ((e : E) (s : S) (w : W) → r ≡ (err e, s, w) → P (h e s w).1)
      → P (settle k h r).1
  Inv-settle k h (ok a, s, w) p went failed = went a s w refl
  Inv-settle k h (err e, s, w) p went failed = failed e s w refl
  Inv-settle k h (panic, s, w) p went failed = p

module _ (env : Env) where
  open env use {World, cdk.{Proof, Wallet}}

  mint_tokens-Keeps :
      (wallet : Wallet) (n : ℕ) → Keeps (λ (m : LiquidityManager env). m) (mint_tokens env wallet n)
  unfolding mint_tokens
  mint_tokens-Keeps wallet n = search keeps_rules

  -- The wallets stay, and each mint holds what it held, with more behind it.
  pub record Grows (m m' : LiquidityManager env) : Type 0 where
    pub wallets : m'.wallets ≡ m.wallets
    pub held :
        (url : String) → (new : List Proof) × (get_proofs env url m' ≡ get_proofs env url m ++ new)

  Grows-same : (m m' : LiquidityManager env) → m' ≡ m → Grows m m'
  Grows-same m m' e = record {
    wallets = ap (λ (x : LiquidityManager env). x.wallets) e;
    held = λ url. ([], ap (get_proofs env url) e ∙ sym (append-nil (get_proofs env url m)));
  }

  Grows-trans : (m m1 m2 : LiquidityManager env) → Grows m m1 → Grows m1 m2 → Grows m m2
  Grows-trans m m1 m2 g h = record {
    wallets = h.wallets ∙ g.wallets;
    held = λ url.
        let (new, e) = g.held url in
        let (more, d) = h.held url in
        (new ++ more, d ∙ ap (λ ps. ps ++ more) e ∙ append_assoc (get_proofs env url m) new more);
  }

  credited-Grows :
      (url : String) (ps : List Proof) (n : ℕ) (t : env.host.Time) (m : LiquidityManager env)
      (l : MintLiquidity env)
      → lookup url m.liquidity ≡ some l
      → Grows m (with_entry env m url (credited env l ps n t))
  unfolding get_proofs
  credited-Grows url ps n t m l known = record {
    wallets = refl;
    held = λ u.
        let k = credited env l ps n t in
        let entry = lookup-insert url u k m.liquidity in
        elim (Bool-cases (url == u)) [
          | inl same ↦
              let it : url ≡ u = (eq_iff url u).0 same in
              let was : lookup u m.liquidity ≡ some l =
                ap (λ j. lookup j m.liquidity) (sym it) ∙ known in
              let now : lookup u (insert url k m.liquidity) ≡ some k =
                ground (arith, entry, same) in
              (
                ps,
                (entry_seen env (with_entry env m url k) u k now).0
                    ∙ ap (λ xs. xs ++ ps) (sym (entry_seen env m u l was).0),
              )
          | inr other ↦
              let now : lookup u (insert url k m.liquidity) ≡ lookup u m.liquidity =
                ground (arith, entry, other) in
              (
                [],
                ap (λ (o : Option (MintLiquidity env)). elim o [ none ↦ [] | some x ↦ x.proofs ])
                      now
                    ∙ sym (append-nil (get_proofs env u m)),
              )
        ];
  }

  add_proofs-Grows :
      (url : String) (ps : List Proof) (m : LiquidityManager env) (w : World)
      → Grows m (add_proofs env url ps m w).1
  add_proofs-Grows url ps m w = elim (Option-cases (lookup url m.liquidity)) [
    | inl h ↦ Grows-same m _ (unserved env url ps m w h).0
    | inr (l, h) ↦ elim (Attempt-cases (env.cdk.total_amount ps)) [
      | inl (e, r) ↦ Grows-same m _ (ap (λ r. r.1) (proofs_refused env url ps m w l h e r).0)
      | inr (n, r) ↦
          rw (add_proofs_done env url ps m w l h n r)
            (credited-Grows url ps n (env.host.now w).0 m l h)
    ]
  ]

  -- The tokens that a mint hands out are new, and fit beside those that are held.
  abbrev pub Fresh : ℕ → String × Wallet → LiquidityManager env → World → Type 0
  Fresh n (url, wallet) m w =
      (ps : List Proof) → (mint_tokens env wallet n m w).0 ≡ ok ps → Allowed env (deposit url ps) m

  abbrev pub AllFresh : ℕ → List (String × Wallet) → LiquidityManager env → World → Type 0
  AllFresh n [] m w = Unit
  AllFresh n (e ∷ es) m w =
      let (r, m', w') = initialize_mint env n e m w in Fresh n e m w × AllFresh n es m' w'

  module _ (laws : ProofLaws env.cdk) where
    record Funded (m m' : LiquidityManager env) : Type 0 where
      grows : Grows m m'
      solvent : IsSolvent env m → IsSolvent env m'

    initialize_mint-Funded :
        (n : ℕ) (e : String × Wallet) (m : LiquidityManager env) (w : World)
        → Fresh n e m w
        → Funded m (initialize_mint env n e m w).1
    unfolding initialize_mint
    initialize_mint-Funded n (url, wallet) m w fresh =
        let minted = mint_tokens env wallet n m w in
        let same = (mint_tokens-Keeps wallet n).at m w in
        let left : (m' : LiquidityManager env) → m' ≡ m → Funded m m' =
          λ m' e. record { grows = Grows-same m m' e; solvent = subst (IsSolvent env) (sym e) } in
        Inv-settle (Funded m) (λ ps. add_proofs env url ps) (λ e. pure tt) minted (left _ same)
          (λ ps m1 w1 e.
            let it : m1 ≡ m = sym (ap (λ r. r.1) e) ∙ same in
            subst (λ x. Funded m (add_proofs env url ps x w1).1) (sym it)
              (record {
                grows = add_proofs-Grows url ps m w1;
                solvent =
                    after-IsSolvent env laws (deposit url ps) m w1 (fresh ps (ap (λ r. r.0) e));
              }))
          (λ x m1 w1 e. left m1 (sym (ap (λ r. r.1) e) ∙ same))

    initialize_each-Funded :
        (n : ℕ) (es : List (String × Wallet)) (m : LiquidityManager env) (w : World)
        → AllFresh n es m w
        → Funded m (initialize_each env n es m w).1
    unfolding initialize_each
    initialize_each-Funded n [] m w fresh = record { grows = Grows-same m m refl; solvent = λ h. h }
    initialize_each-Funded n (e ∷ es) m w (now, rest) =
        Inv-proceed (Funded m) _ (initialize_mint env n e m w) (initialize_mint-Funded n e m w now)
          λ u m1 w1 went p.
            let fresh : AllFresh n es m1 w1 = subst (λ r. AllFresh n es r.1 r.2) went rest in
            let q = initialize_each-Funded n es m1 w1 fresh in
            record {
              grows = Grows-trans m m1 _ p.grows q.grows;
              solvent = λ h. q.solvent (p.solvent h);
            }

    -- Where the ecash library adds amounts up right and tells secrets apart, and the tokens that a
    -- mint hands out have new secrets and a sum that stays a `u64` beside those that are held there:
    -- however `initialize_liquidity` ends, in whatever order it goes through the wallets and whichever
    -- mints fail, the wallets are what they were, each mint holds what it held, with what is new
    -- behind it, and the manager is solvent, if it was.
    pub initialize_liquidity-IsSolvent :
        (order : Dict Wallet → Dict Wallet) (n : ℕ) (m : LiquidityManager env) (w : World)
        → AllFresh n (order m.wallets) m w
        → IsSolvent env m
        → let m' = (initialize_liquidity env order n m w).1 in Grows m m' × IsSolvent env m'
    unfolding initialize_liquidity
    initialize_liquidity-IsSolvent order n m w fresh h =
        let f = initialize_each-Funded n (order m.wallets) m w fresh in (f.grows, f.solvent h)
