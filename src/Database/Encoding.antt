-- ===== src/Database/Encoding.antt =====
-- What the INSERT statements of cashu-broker/src/db.rs bind, and what its `FromRow` reads back.
pub mod RoundTrip
use atomic_mint_swap.Base.{String, Bool, false, ◌≡◌, refl, Option, none, some, [], ◌∷◌}
use atomic_mint_swap.Base.Word.{ℤ}
use atomic_mint_swap.Base.Dict.{Dict, lookup}
use atomic_mint_swap.Effect.{Attempt, done, refused}
use atomic_mint_swap.Env.{Env}
use atomic_mint_swap.Database.Rows.{QuoteRecord, SwapRecord, LiquidityEvent}
use atomic_mint_swap.Database.Quotes
use atomic_mint_swap.Database.Swaps

-- A value that is bound.
pub data Value (F64 : Type 0) : Type 0 where
  null : Value F64
  text : String → Value F64
  integer : ℤ → Value F64
  real : F64 → Value F64

unfoldable pub text_or_null : {F64 : Type 0} → Option String → Value F64
text_or_null none = null
text_or_null (some s) = text s

-- sqlx over SQLite: the row that an INSERT of values into columns leaves, and `try_get` of a column
-- at each type that the code reads.
pub record Sql (F64 : Type 0) : Type 1 where
  pub Row : Type 0
  pub stored : Dict (Value F64) → Row
  pub get_text : String → Row → Attempt String String
  pub get_optional_text : String → Row → Attempt String (Option String)
  pub get_integer : String → Row → Attempt String ℤ
  pub get_real : String → Row → Attempt String F64

-- What was bound is read back, and a column that the INSERT does not name is NULL.
-- A NaN is stored as NULL.
pub record SqlLaws {F64 : Type 0} (is_nan : F64 → Bool) (sql : Sql F64) : Type 0 where
  pub text_at :
      (columns : Dict (Value F64)) (name s : String)
      → lookup name columns ≡ some (text s)
      → sql.get_text name (sql.stored columns) ≡ done s
  pub optional_text_at :
      (columns : Dict (Value F64)) (name : String) (s : Option String)
      → lookup name columns ≡ some (text_or_null s)
      → sql.get_optional_text name (sql.stored columns) ≡ done s
  pub optional_text_absent :
      (columns : Dict (Value F64)) (name : String)
      → lookup name columns ≡ none
      → sql.get_optional_text name (sql.stored columns) ≡ done none
  pub integer_at :
      (columns : Dict (Value F64)) (name : String) (n : ℤ)
      → lookup name columns ≡ some (integer n)
      → sql.get_integer name (sql.stored columns) ≡ done n
  pub real_at :
      (columns : Dict (Value F64)) (name : String) (x : F64)
      → lookup name columns ≡ some (real x)
      → is_nan x ≡ false
      → sql.get_real name (sql.stored columns) ≡ done x

-- `?` on the result of `try_get`
infixl 5 ◌>>=◌
abbrev ◌>>=◌ : {T A B : Type 0} → Attempt T A → (A → Attempt T B) → Attempt T B
done a >>= f = f a
refused e >>= f = refused e

-- The columns and the bound values of `create_swap`.
unfoldable pub swap_columns : {F64 : Type 0} → SwapRecord → Dict (Value F64)
unfolding text_or_null
swap_columns swap =
    ("id", text swap.id)
    ∷ ("quote_id", text swap.quote_id)
    ∷ ("source_proofs", text swap.source_proofs)
    ∷ ("encrypted_signature", text_or_null swap.encrypted_signature)
    ∷ ("started_at", text swap.started_at)
    ∷ []

-- The columns and the bound values of `record_liquidity_event`.
unfoldable pub event_columns : {F64 : Type 0} → LiquidityEvent → Dict (Value F64)
unfolding text_or_null
event_columns event =
    ("mint_url", text event.mint_url)
    ∷ ("event_type", text event.event_type)
    ∷ ("amount", integer event.amount)
    ∷ ("balance_after", integer event.balance_after)
    ∷ ("quote_id", text_or_null event.quote_id)
    ∷ ("created_at", text event.created_at)
    ∷ []

-- `.ok()` on the result of `try_get`
abbrev pub ok_or_none : {A : Type 0} → Attempt String A → Option A
ok_or_none (done a) = some a
ok_or_none (refused e) = none

module _ {F64 : Type 0} (sql : Sql F64) where
  -- `LiquidityEvent::from_row`
  unfoldable pub event_from_row : sql.Row → Attempt String LiquidityEvent
  event_from_row row = do
    let id = ok_or_none (sql.get_integer "id" row)
    mint_url ← sql.get_text "mint_url" row
    event_type ← sql.get_text "event_type" row
    amount ← sql.get_integer "amount" row
    balance_after ← sql.get_integer "balance_after" row
    quote_id ← sql.get_optional_text "quote_id" row
    created_at ← sql.get_text "created_at" row
    done (record {
      id = id;
      mint_url = mint_url;
      event_type = event_type;
      amount = amount;
      balance_after = balance_after;
      quote_id = quote_id;
      created_at = created_at;
    })

  -- `SwapRecord::from_row`
  unfoldable pub swap_from_row : sql.Row → Attempt String SwapRecord
  swap_from_row row = do
    id ← sql.get_text "id" row
    quote_id ← sql.get_text "quote_id" row
    source_proofs ← sql.get_text "source_proofs" row
    target_proofs ← sql.get_optional_text "target_proofs" row
    encrypted_signature ← sql.get_optional_text "encrypted_signature" row
    decrypted_signature ← sql.get_optional_text "decrypted_signature" row
    adaptor_secret ← sql.get_optional_text "adaptor_secret" row
    started_at ← sql.get_text "started_at" row
    completed_at ← sql.get_optional_text "completed_at" row
    done (record {
      id = id;
      quote_id = quote_id;
      source_proofs = source_proofs;
      target_proofs = target_proofs;
      encrypted_signature = encrypted_signature;
      decrypted_signature = decrypted_signature;
      adaptor_secret = adaptor_secret;
      started_at = started_at;
      completed_at = completed_at;
    })

module _ (env : Env) where
  -- The columns and the bound values of `create_quote`.
  unfoldable pub quote_columns : QuoteRecord env → Dict (Value env.host.F64)
  unfolding text_or_null
  quote_columns quote =
      ("id", text quote.id)
      ∷ ("source_mint", text quote.source_mint)
      ∷ ("target_mint", text quote.target_mint)
      ∷ ("amount_in", integer quote.amount_in)
      ∷ ("amount_out", integer quote.amount_out)
      ∷ ("fee", integer quote.fee)
      ∷ ("fee_rate", real quote.fee_rate)
      ∷ ("broker_pubkey", text quote.broker_pubkey)
      ∷ ("adaptor_point", text quote.adaptor_point)
      ∷ ("tweaked_pubkey", text quote.tweaked_pubkey)
      ∷ ("status", text quote.status)
      ∷ ("created_at", text quote.created_at)
      ∷ ("expires_at", text quote.expires_at)
      ∷ ("user_pubkey", text_or_null quote.user_pubkey)
      ∷ []

  module _ (sql : Sql env.host.F64) where
    -- `QuoteRecord::from_row`
    unfoldable pub quote_from_row : sql.Row → Attempt String (QuoteRecord env)
    quote_from_row row = do
      id ← sql.get_text "id" row
      source_mint ← sql.get_text "source_mint" row
      target_mint ← sql.get_text "target_mint" row
      amount_in ← sql.get_integer "amount_in" row
      amount_out ← sql.get_integer "amount_out" row
      fee ← sql.get_integer "fee" row
      fee_rate ← sql.get_real "fee_rate" row
      broker_pubkey ← sql.get_text "broker_pubkey" row
      adaptor_point ← sql.get_text "adaptor_point" row
      tweaked_pubkey ← sql.get_text "tweaked_pubkey" row
      status ← sql.get_text "status" row
      created_at ← sql.get_text "created_at" row
      expires_at ← sql.get_text "expires_at" row
      accepted_at ← sql.get_optional_text "accepted_at" row
      completed_at ← sql.get_optional_text "completed_at" row
      user_pubkey ← sql.get_optional_text "user_pubkey" row
      error_message ← sql.get_optional_text "error_message" row
      done (record {
        id = id;
        source_mint = source_mint;
        target_mint = target_mint;
        amount_in = amount_in;
        amount_out = amount_out;
        fee = fee;
        fee_rate = fee_rate;
        broker_pubkey = broker_pubkey;
        adaptor_point = adaptor_point;
        tweaked_pubkey = tweaked_pubkey;
        status = status;
        created_at = created_at;
        expires_at = expires_at;
        accepted_at = accepted_at;
        completed_at = completed_at;
        user_pubkey = user_pubkey;
        error_message = error_message;
      })
