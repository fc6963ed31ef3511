-- ===== src/Liquidity.antt =====
-- cashu-broker/src/liquidity.rs: the broker's ecash on each mint.
pub mod Select
pub mod Secrets
pub mod Balance
pub mod New
pub mod Ledger
pub mod Initialize
use atomic_mint_swap.Base.{
  ℕ, ◌+◌, ◌-◌, String, Bool, true, false, ◌||◌, not, Option, none, some, List, [], ◌∷◌, ◌++◌, map,
  ltb, leb, retain, if◌then◌else◌,
}
use atomic_mint_swap.Base.Dict.{Dict, lookup, insert}
use atomic_mint_swap.Base.Word.{add_u64}
use atomic_mint_swap.Error.{BrokerError, unsupported_mint, insufficient_liquidity, cdk_error}
use atomic_mint_swap.Effect.{
  Outcome, ok, err, panic, Attempt, Action, pure, raise, or_raise, perform, gets, lift, modify,
  ◌>>=◌, ◌>>◌, or_fail, attempt, settle,
}
use atomic_mint_swap.Env.{Env}
use atomic_mint_swap.Types.{MintConfig}

module _ (env : Env) where
  open env use {World, cdk.{Proof, Secret, Wallet, secret_eq, total_amount}, host.{Time}}

  pub record MintLiquidity : Type 0 where
    pub mint_url : String
    pub balance : ℕ
    pub proofs : List Proof
    pub last_updated : Time

  pub record LiquidityManager : Type 0 where
    pub liquidity : Dict MintLiquidity
    pub wallets : Dict Wallet

  abbrev pub Managed : Type 0 → Type 0
  Managed A = Action World LiquidityManager BrokerError A

  -- One round of the loop of `LiquidityManager::new`.
  unfoldable pub add_mint : MintConfig → Managed (Unit {0})
  add_mint mint = do
    localstore ← attempt (cdk_error "Failed to create memory store: ") env.cdk.memory_empty
    seed ← perform (env.host.random_bytes 64)
    wallet ←
        or_fail (cdk_error "Failed to create wallet: ")
          (env.cdk.wallet_new mint.mint_url localstore seed)
    now ← perform env.host.now
    modify λ s. record {
      liquidity =
          insert mint.mint_url
            (record { mint_url = mint.mint_url; balance = 0; proofs = []; last_updated = now })
            s.liquidity;
      wallets = insert mint.mint_url wallet s.wallets;
    }

  unfoldable pub add_mints : List MintConfig → Managed (Unit {0})
  unfolding add_mint
  add_mints [] = pure tt
  add_mints (mint ∷ mints) = do add_mint mint; add_mints mints

  -- `LiquidityManager::new`
  unfoldable pub new : List MintConfig → World → Outcome BrokerError LiquidityManager × World
  unfolding add_mints
  new mints w =
      let (r, m, w') = add_mints mints (record { liquidity = []; wallets = [] }) w in
      (elim r [ ok _ ↦ ok m | err e ↦ err e | panic ↦ panic ], w')

  unfoldable pub get_balance : String → LiquidityManager → ℕ
  get_balance mint_url m = elim (lookup mint_url m.liquidity) [ none ↦ 0 | some l ↦ l.balance ]

  unfoldable pub get_proofs : String → LiquidityManager → List Proof
  get_proofs mint_url m = elim (lookup mint_url m.liquidity) [ none ↦ [] | some l ↦ l.proofs ]

  -- `proofs` joins what is held. The sum of the amounts is added to the balance, which wraps in a
  -- release build.
  unfoldable pub add_proofs : String → List Proof → Managed (Unit {0})
  add_proofs mint_url proofs = do
    held ← gets (λ s. lookup mint_url s.liquidity)
    mint_liq ← or_raise held (unsupported_mint mint_url)
    amount ← or_fail (cdk_error "Failed to calculate total amount: ") (total_amount proofs)
    now ← perform env.host.now
    modify λ s. record s {
      liquidity =
          insert mint_url
            (record mint_liq {
              balance = add_u64 mint_liq.balance amount;
              proofs = mint_liq.proofs ++ proofs;
              last_updated = now;
            })
            s.liquidity;
    }

  unfoldable pub has_secret : List Proof → Secret → Bool
  has_secret [] s = false
  has_secret (p ∷ ps) s = secret_eq (env.cdk.secret p) s || has_secret ps s

  -- What is held under a secret of `proofs_to_remove` goes; the balance falls by the sum of
  -- `proofs_to_remove`, and stops at 0.
  unfoldable pub remove_proofs : String → List Proof → Managed (Unit {0})
  unfolding has_secret
  remove_proofs mint_url proofs_to_remove = do
    held ← gets (λ s. lookup mint_url s.liquidity)
    mint_liq ← or_raise held (unsupported_mint mint_url)
    amount ←
        or_fail (cdk_error "Failed to calculate total amount: ") (total_amount proofs_to_remove)
    now ← perform env.host.now
    modify λ s. record s {
      liquidity =
          insert mint_url
            (record mint_liq {
              proofs =
                  retain (λ p. not (has_secret proofs_to_remove (env.cdk.secret p)))
                    mint_liq.proofs;
              balance = mint_liq.balance - amount;
              last_updated = now;
            })
            s.liquidity;
    }

  -- `sort_by` is stable: a proof stays in front of those of the same amount.
  place : Proof → List Proof → List Proof
  place p [] = p ∷ []
  place p (q ∷ qs) =
      if leb (env.cdk.amount q) (env.cdk.amount p) then p ∷ q ∷ qs else q ∷ place p qs

  unfoldable pub sort_largest_first : List Proof → List Proof
  unfolding place
  sort_largest_first [] = []
  sort_largest_first (p ∷ ps) = place p (sort_largest_first ps)

  -- The greedy loop: what is selected from here on, and the total at its end.
  unfoldable pub select_from : ℕ → ℕ → List Proof → List Proof × ℕ
  select_from amount total [] = ([], total)
  select_from amount total (p ∷ ps) =
      let (selected, t) = select_from amount (add_u64 total (env.cdk.amount p)) ps in
      if leb amount total then ([], total) else (p ∷ selected, t)

  unfoldable pub select_proofs : String → ℕ → LiquidityManager → Outcome BrokerError (List Proof)
  unfolding sort_largest_first select_from
  select_proofs mint_url amount m = elim (lookup mint_url m.liquidity) [
    | none ↦ err (unsupported_mint mint_url)
    | some mint_liq ↦
        let (selected, total) = select_from amount 0 (sort_largest_first mint_liq.proofs) in
        if ltb total amount then err (insufficient_liquidity mint_url amount total) else ok selected
  ]

  unfoldable pub can_swap : String → ℕ → LiquidityManager → Bool
  unfolding get_balance
  can_swap mint_url amount m = leb amount (get_balance mint_url m)

  unfoldable pub get_wallet : String → LiquidityManager → Outcome BrokerError Wallet
  get_wallet mint_url m = elim (lookup mint_url m.wallets) [
    | none ↦ err (unsupported_mint mint_url)
    | some w ↦ ok w
  ]

  -- `order` is the order in which the map yields its entries.
  unfoldable pub get_all_liquidity :
      (order : Dict MintLiquidity → Dict MintLiquidity) → LiquidityManager → List MintLiquidity
  get_all_liquidity order m = map (λ e. e.1) (order m.liquidity)

  unfoldable pub mint_tokens : Wallet → ℕ → Managed (List Proof)
  mint_tokens wallet amount = do
    quote ← attempt (cdk_error "Failed to create mint quote: ") (env.cdk.mint_quote wallet amount)
    attempt (cdk_error "Failed to mint: ") (env.cdk.mint wallet quote)

  -- One round of the loop of `initialize_liquidity`: a mint that fails is skipped with a warning.
  unfoldable pub initialize_mint : ℕ → String × Wallet → Managed (Unit {0})
  unfolding mint_tokens add_proofs
  initialize_mint amount (mint_url, wallet) s w =
      settle (λ proofs. add_proofs mint_url proofs) (λ e. pure tt) (mint_tokens wallet amount s w)

  unfoldable pub initialize_each : ℕ → List (String × Wallet) → Managed (Unit {0})
  unfolding initialize_mint
  initialize_each amount [] = pure tt
  initialize_each amount (e ∷ rest) = do initialize_mint amount e; initialize_each amount rest

  -- `order` is the order in which the map of wallets yields its entries.
  unfoldable pub initialize_liquidity : (order : Dict Wallet → Dict Wallet) → ℕ → Managed (Unit {0})
  unfolding initialize_each
  initialize_liquidity order amount_per_mint = do
    wallets ← gets (λ s. s.wallets)
    initialize_each amount_per_mint (order wallets)
