-- ===== src/Swap/Tasks.antt =====
-- cashu-broker/src/swap.rs: the requests that run at once. A request stands at one of the points
-- where it waits for a lock or for a mint, with the guards that it holds there; what it does up to
-- the next such point is one step.
pub mod Alone
pub mod Pending
pub mod Segments
pub mod Payouts
pub mod Deadlock
use atomic_mint_swap.Base.{
  ℕ, ◌+◌, String, ◌≡◌, Bool, true, false, not, Option, none, some, List, [], ◌∷◌, ◌++◌, sum_by,
  if◌then◌else◌,
}
use atomic_mint_swap.Base.Dict.{lookup, insert}
use atomic_mint_swap.Error.{BrokerError}
use atomic_mint_swap.Effect.{Outcome, ok, err, panic, pure, modify, raise_if, ◌>>=◌, ◌>>◌}
use atomic_mint_swap.Env.{Env, Bytes}
use atomic_mint_swap.Types.{SwapQuote}
use atomic_mint_swap.Types.Status.{pending, accepted, status_eq}
use atomic_mint_swap.Swap.Quote.{QuoteData, Coordinator, Coordinated, QuoteKeys, store_quote}
use atomic_mint_swap.Swap.Execute.{
  find_quote, with_status, client_lock, lock_tokens, serialize_proofs, not_pending, bank,
  finish_execution, finish_quote, claim_tokens,
}

pub data Access : Type 0 where
  read write : Access

-- `tokio::sync::RwLock`: may a request take the lock while others hold so many guards for reading
-- and for writing?
pub record RwLock : Type 0 where
  pub grants : Access → (readers : ℕ) → (writers : ℕ) → Bool

pub record RwLockLaws (lock : RwLock) : Type 0 where
  pub write_alone : (r w : ℕ) → lock.grants write r w ≡ true → (r ≡ 0) × (w ≡ 0)
  pub read_shared : (r w : ℕ) → lock.grants read r w ≡ true → w ≡ 0
  pub write_free : lock.grants write 0 0 ≡ true
  pub read_free : (r : ℕ) → lock.grants read r 0 ≡ true

module _ (env : Env) where
  open env use {World, cdk.{Proof}}

  pub data Task : Type 0 where
    -- `prepare_swap`: before `self.quotes.write()`, before the calls of the wallet, and before
    -- `self.executions.write()`
    preparing : String → Bytes → Task
    minting : String → QuoteData env → Bytes → Task
    recording : String → List Proof → Task
    prepared : String → Outcome BrokerError (List Proof) → Task
    -- `complete_swap`: before `self.quotes.read()`, before `wallet.swap`, before
    -- `liquidity.add_proofs`, before `self.executions.write()` and before `self.quotes.write()`
    completing : String → List Proof → Task
    claiming : String → QuoteData env → List Proof → Task
    banking : String → QuoteData env → Option (List Proof) → Task
    finishing : String → Task
    closing : String → Task
    closed : Outcome BrokerError (Unit {0}) → Task
    -- `create_quote`, before `self.quotes.write()`
    storing : QuoteKeys env → SwapQuote env → Task
    stored : SwapQuote env → Task

  -- The guards that a request holds where it stands.
  unfoldable pub reads_quotes : Task → ℕ
  reads_quotes (claiming id q ps) = 1
  reads_quotes (banking id q new) = 1
  reads_quotes (finishing id) = 1
  reads_quotes _ = 0

  unfoldable pub writes_quotes : Task → ℕ
  writes_quotes (minting id q lock) = 1
  writes_quotes (recording id ps) = 1
  writes_quotes _ = 0

  unfoldable pub writes_executions : Task → ℕ
  writes_executions (closing id) = 1
  writes_executions _ = 0

  -- The guards that some requests hold. No request reads the executions.
  pub record Held : Type 0 where
    pub quotes_read : ℕ
    pub quotes_written : ℕ
    pub executions_written : ℕ

  unfoldable pub held : List Task → Held
  held ts = record {
    quotes_read = sum_by reads_quotes ts;
    quotes_written = sum_by writes_quotes ts;
    executions_written = sum_by writes_executions ts;
  }

  -- What a segment of a request leads to.
  abbrev pub Moved : Type 0
  Moved = Task × Coordinator env × World

  abbrev pub next :
      {A B : Type 0}
      → (A → Task)
      → (Outcome BrokerError B → Task)
      → Outcome BrokerError A × Coordinator env × World
      → Moved
  next go stop (ok a, s, w) = (go a, s, w)
  next go stop (err e, s, w) = (stop (err e), s, w)
  next go stop (panic, s, w) = (stop panic, s, w)

  -- `prepare_swap` from the first lock to the first call of the wallet.
  unfoldable pub check_pending : String → Bytes → Coordinated env (QuoteData env × Bytes)
  check_pending quote_id client_pubkey = do
    q ← find_quote env quote_id
    raise_if (not (status_eq q.quote.status pending)) (not_pending env quote_id)
    lock ← client_lock env q client_pubkey
    pure (q, lock)

  -- `quote_data.quote.status = SwapStatus::Accepted`
  unfoldable pub mark_accepted : String → QuoteData env → Coordinator env → Coordinator env
  unfolding with_status
  mark_accepted quote_id q s = record s {
    quotes = insert quote_id (with_status env accepted q) s.quotes;
  }

  -- The calls of the wallet in `prepare_swap`, and the mark.
  unfoldable pub mint_and_mark : String → QuoteData env → Bytes → Coordinated env (List Proof)
  unfolding mark_accepted
  mint_and_mark quote_id q lock = do
    proofs ← lock_tokens env q lock
    modify (mark_accepted quote_id q)
    pure proofs

  unfoldable pub add_execution : String → List Proof → Coordinator env → Coordinator env
  unfolding serialize_proofs
  add_execution quote_id proofs s = record s {
    executions =
        insert quote_id
          (record {
            quote_id = quote_id;
            client_tokens = [];
            broker_tokens = serialize_proofs env proofs;
            client_swap_complete = false;
            broker_swap_complete = false;
            completed_at = none;
          })
          s.executions;
  }

  module _ (lock : RwLock) where
    abbrev when : Bool → Moved → Option Moved
    when granted moved = if granted then some moved else none

    -- May the request take the lock of the quotes, or that of the executions for writing, beside
    -- others that hold `h`? A guard of its own bars it like one of theirs.
    abbrev quotes_free : Access → Held → Task → Bool
    quotes_free access h t =
        lock.grants access (reads_quotes t + h.quotes_read) (writes_quotes t + h.quotes_written)

    abbrev executions_free : Held → Task → Bool
    executions_free h t = lock.grants write 0 (writes_executions t + h.executions_written)

    -- One step of a request beside others that hold `h`, if no lock bars it.
    unfoldable pub advance : Held → Task → Coordinator env → World → Option Moved
    unfolding reads_quotes writes_quotes writes_executions
    advance h (preparing id pk) s w =
        when (quotes_free write h (preparing id pk))
          (next (λ r. minting id r.0 r.1) (prepared id) (check_pending id pk s w))
    advance h (minting id q key) s w =
        some (next (recording id) (prepared id) (mint_and_mark id q key s w))
    advance h (recording id ps) s w =
        when (executions_free h (recording id ps)) (prepared id (ok ps), add_execution id ps s, w)
    advance h (completing id ps) s w =
        when (quotes_free read h (completing id ps))
          (next (λ q. claiming id q ps) closed (find_quote env id s w))
    advance h (claiming id q ps) s w = some (next (banking id q) closed (claim_tokens env q ps s w))
    advance h (banking id q new) s w =
        some (next (λ _. finishing id) closed (bank env q.quote.from_mint new s w))
    advance h (finishing id) s w =
        when (executions_free h (finishing id))
          (next (λ _. closing id) closed (finish_execution env id (lookup id s.executions) s w))
    advance h (closing id) s w =
        when (quotes_free write h (closing id))
          (closed (ok tt), finish_quote env id (lookup id s.quotes) s, w)
    advance h (storing keys quote) s w =
        when (quotes_free write h (storing keys quote))
          (stored quote, store_quote env keys quote s, w)
    advance h (prepared id r) s w = none
    advance h (closed r) s w = none
    advance h (stored q) s w = none

  pub record System : Type 0 where
    pub tasks : List Task
    pub coordinator : Coordinator env
    pub world : World

  module _ (lock : RwLock) where
    -- Any request may take the next step.
    pub data Step (x y : System) : Type 0 where
      run :
          (before : List Task) (t t' : Task) (after : List Task)
          → x.tasks ≡ before ++ t ∷ after
          → y.tasks ≡ before ++ t' ∷ after
          → advance lock (held (before ++ after)) t x.coordinator x.world
            ≡ some (t', y.coordinator, y.world)
          → Step x y

    pub data Reach (x : System) : System → Type 0 where
      here : Reach x x
      later : {y z : System} → Reach x y → Step y z → Reach x z
