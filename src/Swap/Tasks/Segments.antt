-- ===== src/Swap/Tasks/Segments.antt =====
-- What one step of a request does to the guards on the quotes and to the payouts of a quote.
use atomic_mint_swap.Base.{
  ℕ, ◌+◌, ◌≤◌, String, ◌≡◌, ◌≢◌, refl, ap, subst, ◌⊎◌, Bool, true, false, Option, none, some, List,
  arith, eq_iff, ◌==◌, if◌then◌else◌, Bool-cases,
}
use atomic_mint_swap.Base.Dict.{lookup}
use atomic_mint_swap.Error.{BrokerError}
use atomic_mint_swap.Effect.{Outcome, ok, err, panic, proceed, modify, pure, ◌>>◌}
use atomic_mint_swap.Env.{Env, Bytes}
use atomic_mint_swap.Types.{SwapQuote}
use atomic_mint_swap.Swap.Quote.{QuoteData, Coordinator, QuoteKeys, store_quote}
use atomic_mint_swap.Swap.Execute.{
  lock_tokens, find_quote, claim_tokens, bank, finish_execution, finish_quote,
}
use atomic_mint_swap.Swap.Execute.Atomic.{lock_tokens-reads, find_quote-reads, claim_tokens-reads}
use atomic_mint_swap.Swap.Closing.{bank-Keeps, finish_execution-Keeps}
use atomic_mint_swap.Swap.Tasks.Pending.{
  is_pending, check_pending-reads, check_pending-eq-ok, is_pending-mark_accepted,
  is_pending-finish_quote, is_pending-store_quote,
}
use atomic_mint_swap.Swap.Tasks.{
  read, write, RwLock, RwLockLaws, Task, preparing, minting, recording, prepared, completing,
  claiming, banking, finishing, closing, closed, storing, stored, reads_quotes, writes_quotes, Held,
  Moved, next, check_pending, mint_and_mark, mark_accepted, add_execution, advance,
}

module _ (env : Env) where
  abbrev pub one : Bool → ℕ
  one true = 1
  one false = 0

  -- The request has paid the quote out: the tokens are minted and locked to the client.
  unfoldable pub pays : String → Task env → ℕ
  pays id (recording j ps) = one (j == id)
  pays id (prepared j (ok ps)) = one (j == id)
  pays id _ = 0

  -- The request is minting for the quote.
  unfoldable pub mints : String → Task env → ℕ
  mints id (minting j q key) = one (j == id)
  mints id _ = 0

  -- The request is about to store a quote under the id.
  unfoldable pub stores : String → Task env → ℕ
  stores id (storing keys quote) = one (quote.quote_id == id)
  stores id _ = 0

  -- What holds of a request `t` beside others that hold the guards `h`, mint for the quote, have
  -- paid it and are about to store it.
  pub record Local (id : String) (h : Held env) (minters paid storers : ℕ) (m : Moved env)
      : Type 0 where
    pub few : minters ≤ h.quotes_written
    pub alone :
        (h.quotes_written + writes_quotes env m.0 ≡ 0)
        ⊎ ((h.quotes_written + writes_quotes env m.0 ≡ 1)
            × (h.quotes_read + reads_quotes env m.0 ≡ 0))
    pub mint : (minters + mints id m.0 ≡ 0) ⊎ (is_pending env id m.1.quotes ≡ true)
    pub once :
        (paid + pays id m.0 ≡ 0)
        ⊎ ((paid + pays id m.0 ≡ 1) × (is_pending env id m.1.quotes ≡ false))
    pub fresh : storers + stores id m.0 ≡ 0

  some_injective : {A : Type 0} {m m' : A} → some m ≡ some m' → m ≡ m'
  some_injective e = cc

  granted :
      {A : Type 0} (b : Bool) (m m' : A)
      → (if b then some m else none) ≡ some m'
      → (b ≡ true) × (m ≡ m')
  granted true m m' e = (refl, cc)
  granted false m m' e = absurd (cc)

  -- A segment that ends in `next`, by its outcome.
  Local-next :
      {A B : Type 0} (id : String) (h : Held env) (n p st : ℕ) (go : A → Task env)
      (stop : Outcome BrokerError B → Task env)
      (r : Outcome BrokerError A × Coordinator env × env.World)
      → ((a : A) → r.0 ≡ ok a → Local id h n p st (go a, r.1, r.2))
      → ((o : Outcome BrokerError B) → ((b : B) → o ≢ ok b) → Local id h n p st (stop o, r.1, r.2))
      → Local id h n p st (next env go stop r)
  Local-next id h n p st go stop (ok a, s, w) f g = f a refl
  Local-next id h n p st go stop (err e, s, w) f g = g (err e) (λ b. cc)
  Local-next id h n p st go stop (panic, s, w) f g = g panic (λ b. cc)

  pays_failed :
      (id j : String) (o : Outcome BrokerError (List env.cdk.Proof))
      → ((ps : List env.cdk.Proof) → o ≢ ok ps)
      → pays id (prepared j o) ≡ 0
  unfolding pays
  pays_failed id j (ok ps) h = absurd (h ps refl)
  pays_failed id j (err e) h = refl
  pays_failed id j panic h = refl

  module _ (lock : RwLock) (laws : RwLockLaws lock) (id : String) (h : Held env) (n p st : ℕ) where
    preparing-Local :
        (j : String) (pk : Bytes) (s : Coordinator env) (w : env.World)
        → Local id h n p st (preparing j pk, s, w)
        → lock.grants write (0 + h.quotes_read) (0 + h.quotes_written) ≡ true
        → Local id h n p st
            (next env (λ r. minting j r.0 r.1) (prepared j) (check_pending env j pk s w))
    unfolding writes_quotes reads_quotes mints pays stores
    preparing-Local j pk s w l free =
        let same = (check_pending-reads env (λ s. s.quotes) j pk).at s w in
        let idle = laws.write_alone (0 + h.quotes_read) (0 + h.quotes_written) free in
        Local-next id h n p st (λ r. minting j r.0 r.1) (prepared j) (check_pending env j pk s w)
          (λ a e. let was = check_pending-eq-ok env j pk s w a e in ground (arith, l, eq_iff j id))
          (λ o k. let no = pays_failed id j o k in ground (arith, l))

    minted-Local :
        (j : String) (q : QuoteData env) (key : Bytes) (s : Coordinator env) (w : env.World)
        (r : Outcome BrokerError (List env.cdk.Proof) × Coordinator env × env.World)
        → Local id h n p st (minting j q key, s, w)
        → r.1 ≡ s
        → Local id h n p st (
            next env
              (recording j)
              (prepared j)
              (proceed (λ ps. modify (mark_accepted env j q) >> pure ps) r))
    unfolding writes_quotes reads_quotes mints pays stores
    minted-Local j q key s w (ok ps, s', w') l same =
        ground (arith, l, is_pending-mark_accepted env id j q s', ap (λ x. x.quotes) same)
    minted-Local j q key s w (err e, s', w') l same = ground (arith, l, ap (λ x. x.quotes) same)
    minted-Local j q key s w (panic, s', w') l same = ground (arith, l, ap (λ x. x.quotes) same)

    completing-Local :
        (j : String) (ps : List env.cdk.Proof) (s : Coordinator env) (w : env.World)
        → Local id h n p st (completing j ps, s, w)
        → lock.grants read (0 + h.quotes_read) (0 + h.quotes_written) ≡ true
        → Local id h n p st (next env (λ q. claiming j q ps) closed (find_quote env j s w))
    unfolding writes_quotes reads_quotes mints pays stores
    completing-Local j ps s w l free =
        let same = (find_quote-reads env (λ s. s.quotes) j).at s w in
        let idle = laws.read_shared (0 + h.quotes_read) (0 + h.quotes_written) free in
        Local-next id h n p st (λ q. claiming j q ps) closed (find_quote env j s w)
          (λ a e. ground (arith, l)) (λ o k. ground (arith, l))

    claiming-Local :
        (j : String) (q : QuoteData env) (ps : List env.cdk.Proof) (s : Coordinator env)
        (w : env.World)
        → Local id h n p st (claiming j q ps, s, w)
        → Local id h n p st (next env (banking j q) closed (claim_tokens env q ps s w))
    unfolding writes_quotes reads_quotes mints pays stores
    claiming-Local j q ps s w l =
        let same = (claim_tokens-reads env (λ s. s.quotes) q ps).at s w in
        Local-next id h n p st (banking j q) closed (claim_tokens env q ps s w)
          (λ a e. ground (arith, l)) (λ o k. ground (arith, l))

    banking-Local :
        (j : String) (q : QuoteData env) (new : Option (List env.cdk.Proof)) (s : Coordinator env)
        (w : env.World)
        → Local id h n p st (banking j q new, s, w)
        → Local id h n p st
            (next env (λ _. finishing j) closed (bank env q.quote.from_mint new s w))
    unfolding writes_quotes reads_quotes mints pays stores
    banking-Local j q new s w l =
        let same = (bank-Keeps env (λ s. s.quotes) (λ s m. refl) q.quote.from_mint new).at s w in
        Local-next id h n p st (λ _. finishing j) closed (bank env q.quote.from_mint new s w)
          (λ a e. ground (arith, l)) (λ o k. ground (arith, l))

    finishing-Local :
        (j : String) (s : Coordinator env) (w : env.World)
        → Local id h n p st (finishing j, s, w)
        → Local id h n p st
            (next env (λ _. closing j) closed (finish_execution env j (lookup j s.executions) s w))
    unfolding writes_quotes reads_quotes mints pays stores
    finishing-Local j s w l =
        let same =
          (finish_execution-Keeps env (λ s. s.quotes) (λ s es. refl) j (lookup j s.executions)).at s
            w in
        Local-next id h n p st (λ _. closing j) closed
          (finish_execution env j (lookup j s.executions) s w) (λ a e. ground (arith, l))
          (λ o k. ground (arith, l))

    closing-Local :
        (j : String) (s : Coordinator env) (w : env.World)
        → Local id h n p st (closing j, s, w)
        → lock.grants write (0 + h.quotes_read) (0 + h.quotes_written) ≡ true
        → Local id h n p st (closed (ok tt), finish_quote env j (lookup j s.quotes) s, w)
    unfolding writes_quotes reads_quotes mints pays stores
    closing-Local j s w l free =
        let idle = laws.write_alone (0 + h.quotes_read) (0 + h.quotes_written) free in
        let kept = is_pending-finish_quote env id j s in
        ground (arith, l, Bool-cases (is_pending env id s.quotes))

    storing-Local :
        (keys : QuoteKeys env) (q : SwapQuote env) (s : Coordinator env) (w : env.World)
        → Local id h n p st (storing keys q, s, w)
        → lock.grants write (0 + h.quotes_read) (0 + h.quotes_written) ≡ true
        → Local id h n p st (stored q, store_quote env keys q s, w)
    unfolding writes_quotes reads_quotes mints pays stores
    storing-Local keys q s w l free =
        let idle = laws.write_alone (0 + h.quotes_read) (0 + h.quotes_written) free in
        let other : (q.quote_id == id) ≡ false = ground (arith, l) in
        ground (arith, l, is_pending-store_quote env id keys q s other)

    recording-Local :
        (j : String) (ps : List env.cdk.Proof) (s : Coordinator env) (w : env.World)
        → Local id h n p st (recording j ps, s, w)
        → Local id h n p st (prepared j (ok ps), add_execution env j ps s, w)
    unfolding writes_quotes reads_quotes mints pays stores add_execution
    recording-Local j ps s w l = ground (arith, l)

    -- Every step of a request keeps what holds of it.
    pub Local-advance :
        (t : Task env) (s : Coordinator env) (w : env.World) (m : Moved env)
        → Local id h n p st (t, s, w)
        → advance env lock h t s w ≡ some m
        → Local id h n p st m
    unfolding advance mint_and_mark
    Local-advance (preparing j pk) s w m l e =
        let (free, k) = granted _ _ m e in
        subst (Local id h n p st) k (preparing-Local j pk s w l free)
    Local-advance (completing j ps) s w m l e =
        let (free, k) = granted _ _ m e in
        subst (Local id h n p st) k (completing-Local j ps s w l free)
    Local-advance (closing j) s w m l e =
        let (free, k) = granted _ _ m e in subst (Local id h n p st) k (closing-Local j s w l free)
    Local-advance (storing keys q) s w m l e =
        let (free, k) = granted _ _ m e in
        subst (Local id h n p st) k (storing-Local keys q s w l free)
    Local-advance (recording j ps) s w m l e =
        let (free, k) = granted _ _ m e in subst (Local id h n p st) k (recording-Local j ps s w l)
    Local-advance (finishing j) s w m l e =
        let (free, k) = granted _ _ m e in subst (Local id h n p st) k (finishing-Local j s w l)
    Local-advance (minting j q key) s w m l e = subst (Local id h n p st) (some_injective e) (
        minted-Local j q key s w (lock_tokens env q key s w) l
          ((lock_tokens-reads env (λ x. x) q key).at s w))
    Local-advance (claiming j q ps) s w m l e =
        subst (Local id h n p st) (some_injective e) (claiming-Local j q ps s w l)
    Local-advance (banking j q new) s w m l e =
        subst (Local id h n p st) (some_injective e) (banking-Local j q new s w l)
    Local-advance (prepared j r) s w m l e = absurd (cc)
    Local-advance (closed r) s w m l e = absurd (cc)
    Local-advance (stored q) s w m l e = absurd (cc)
