-- ===== src/Database/Rows.antt =====
-- The rows and tables of the database, and how a statement runs.
use atomic_mint_swap.Base.{
  ℕ, String, Bool, false, ◌||◌, Option, none, some, List, [], ◌∷◌, take, ◌==◌, map,
}
use atomic_mint_swap.Base.Word.{ℤ, pos, negsuc}
use atomic_mint_swap.Error.{BrokerError, database}
use atomic_mint_swap.Effect.{ok, err, Attempt, done, refused, Action}
use atomic_mint_swap.Env.{Env}

pub record SwapRecord : Type 0 where
  pub id : String
  pub quote_id : String
  pub source_proofs : String
  pub target_proofs : Option String
  pub encrypted_signature : Option String
  pub decrypted_signature : Option String
  pub adaptor_secret : Option String
  pub started_at : String
  pub completed_at : Option String

pub record LiquidityEvent : Type 0 where
  pub id : Option ℤ
  pub mint_url : String
  pub event_type : String
  pub amount : ℤ
  pub balance_after : ℤ
  pub quote_id : Option String
  pub created_at : String

-- Is `x` one of the values of a column?
unfoldable pub has : String → List String → Bool
has x [] = false
has x (y ∷ ys) = y == x || has x ys

-- `LIMIT n`: a negative limit is none.
unfoldable pub limit_rows : {A : Type 0} → ℤ → List A → List A
limit_rows (pos n) rows = take n rows
limit_rows (negsuc n) rows = rows

module _ (env : Env) where
  pub record QuoteRecord : Type 0 where
    pub id : String
    pub source_mint : String
    pub target_mint : String
    pub amount_in : ℤ
    pub amount_out : ℤ
    pub fee : ℤ
    pub fee_rate : env.host.F64
    pub broker_pubkey : String
    pub adaptor_point : String
    pub tweaked_pubkey : String
    pub status : String
    pub created_at : String
    pub expires_at : String
    pub accepted_at : Option String
    pub completed_at : Option String
    pub user_pubkey : Option String
    pub error_message : Option String

  pub record Tables : Type 0 where
    pub quotes : List QuoteRecord
    pub swaps : List SwapRecord
    pub liquidity_events : List LiquidityEvent
    pub next_event_id : ℕ

  abbrev pub Stored : Type 0 → Type 0
  Stored A = Action env.World Tables BrokerError A

  abbrev pub quote_ids : Tables → List String
  quote_ids t = map (λ q. q.id) t.quotes

  abbrev pub run : {A : Type 0} → Option String → (Tables → Attempt String (A × Tables)) → Stored A
  run (some e) f t w = (err (database e), t, w)
  run none f t w = elim (f t) [
    | done (a, t') ↦ (ok a, t', w)
    | refused e ↦ (err (database e), t, w)
  ]

  -- A statement, whose errors are `BrokerError::Database(e.to_string())`.
  unfoldable pub execute : {A : Type 0} → (Tables → Attempt String (A × Tables)) → Stored A
  execute f t w = let (fault, w') = env.driver.fault w in run fault f t w'

  unfoldable pub query : {A : Type 0} → (Tables → A) → Stored A
  unfolding execute
  query f = execute (λ t. done (f t, t))
