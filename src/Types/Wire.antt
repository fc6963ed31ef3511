-- ===== src/Types/Wire.antt =====
-- The serde formats of cashu-broker/src/types.rs: its helper modules, and what the derives make of
-- the attributes of the structures, as serde documents them. A structure becomes a map from field
-- names to values; `none` stands for an error, whose text is left out.
pub mod RoundTrip
use atomic_mint_swap.Base.{
  ℕ, String, Bool, true, false, ◌&&◌, ◌||◌, Option, none, some, List, [], ◌∷◌, ◌++◌, ltb, ◌==◌,
  if◌then◌else◌,
}
use atomic_mint_swap.Effect.{Attempt, done, refused}
use atomic_mint_swap.Env.{Env, Bytes}
use atomic_mint_swap.Types.{MintConfig, SwapRequest, SwapQuote}
use atomic_mint_swap.Types.Status.{SwapStatus, pending, accepted, completed, expired, failed}

-- A value of serde's data model, as far as these types use it.
pub data Value (F64 : Type 0) : Type 0 where
  null : Value F64
  text : String → Value F64
  number : ℕ → Value F64
  real : F64 → Value F64
  numbers : List ℕ → Value F64

abbrev pub Entries : Type 0 → Type 0
Entries F64 = List (String × Value F64)

-- `?`
infixl 5 ◌>>=◌
abbrev pub ◌>>=◌ : {A B : Type 0} → Option A → (A → Option B) → Option B
none >>= f = none
some a >>= f = f a

abbrev pub or_error : {A : Type 0} → Attempt String A → Option A
or_error (done a) = some a
or_error (refused e) = none

-- The values of the entries under one of the names of a field.
unfoldable pub is_name : String → List String → Bool
is_name key [] = false
is_name key (n ∷ ns) = key == n || is_name key ns

unfoldable pub values : {F64 : Type 0} → List String → Entries F64 → List (Value F64)
unfolding is_name
values names [] = []
values names ((key, v) ∷ es) =
    let rest = values names es in if is_name key names then v ∷ rest else rest

-- A field stands once; a second entry under its name or an alias is an error.
unfoldable pub field :
    {F64 A : Type 0}
    → (missing : Option A) → (Value F64 → Option A)
    → List String
    → Entries F64
    → Option A
unfolding values
field missing read names es = elim (values names es) [ [] ↦ missing | v ∷ vs ↦ once read v vs ]
  where
    once : {F64 A : Type 0} → (Value F64 → Option A) → Value F64 → List (Value F64) → Option A
    once read v [] = read v
    once read v (x ∷ xs) = none

abbrev pub required :
    {F64 A : Type 0} → (Value F64 → Option A) → List String → Entries F64 → Option A
required read = field none read

abbrev pub are_u8 : List ℕ → Bool
are_u8 [] = true
are_u8 (n ∷ ns) = ltb n 256 && are_u8 ns

unfoldable pub variant : String → Option SwapStatus
variant s =
    if s == "pending"
    then some pending
    else if s == "accepted"
    then some accepted
    else if s == "completed"
    then some completed
    else if s == "expired"
    then some expired
    else if s == "failed"
    then some failed
    else none

module _ {F64 : Type 0} where
  -- How the types of the fields are read.
  unfoldable pub read_text : Value F64 → Option String
  read_text (text s) = some s
  read_text _ = none

  unfoldable pub read_u64 : Value F64 → Option ℕ
  read_u64 (number n) = some n
  read_u64 _ = none

  unfoldable pub read_bytes : Value F64 → Option Bytes
  read_bytes (numbers ns) = if are_u8 ns then some ns else none
  read_bytes _ = none

  abbrev pub read_option : {A : Type 0} → (Value F64 → Option A) → Value F64 → Option (Option A)
  read_option read null = some none
  read_option read (text s) = read (text s) >>= λ a. some (some a)
  read_option read (number n) = read (number n) >>= λ a. some (some a)
  read_option read (real x) = read (real x) >>= λ a. some (some a)
  read_option read (numbers ns) = read (numbers ns) >>= λ a. some (some a)

  -- `skip_serializing_if = "Option::is_none"`
  abbrev pub unless_none : {A : Type 0} → String → (A → Value F64) → Option A → Entries F64
  unless_none name write none = []
  unless_none name write (some a) = (name, write a) ∷ []

  -- `rename_all = "lowercase"`
  unfoldable pub write_status : SwapStatus → Value F64
  write_status pending = text "pending"
  write_status accepted = text "accepted"
  write_status completed = text "completed"
  write_status expired = text "expired"
  write_status failed = text "failed"

  unfoldable pub read_status : Value F64 → Option SwapStatus
  unfolding variant
  read_status (text s) = variant s
  read_status _ = none

  unfoldable pub mint_entries : MintConfig → Entries F64
  mint_entries m =
      ("mint_url", text m.mint_url) ∷ ("name", text m.name) ∷ ("unit", text m.unit) ∷ []

  unfoldable pub mint_from_entries : Entries F64 → Option MintConfig
  mint_from_entries es = do
    mint_url ← required read_text ("mint_url" ∷ []) es
    name ← required read_text ("name" ∷ []) es
    unit ← required read_text ("unit" ∷ []) es
    some (record { mint_url = mint_url; name = name; unit = unit })

  unfoldable pub request_entries : SwapRequest → Entries F64
  request_entries r =
      unless_none "client_id" text r.client_id
      ++ ("from_mint", text r.from_mint)
        ∷ ("to_mint", text r.to_mint)
        ∷ ("amount", number r.amount)
        ∷ unless_none "client_public_key" numbers r.client_public_key

  unfoldable pub request_from_entries : Entries F64 → Option SwapRequest
  request_from_entries es = do
    client_id ← field (some none) (read_option read_text) ("client_id" ∷ []) es
    from_mint ← required read_text ("from_mint" ∷ "source_mint" ∷ []) es
    to_mint ← required read_text ("to_mint" ∷ "target_mint" ∷ []) es
    amount ← required read_u64 ("amount" ∷ []) es
    client_public_key ←
        field (some none) (read_option read_bytes) ("client_public_key" ∷ "user_pubkey" ∷ []) es
    some (record {
      client_id = client_id;
      from_mint = from_mint;
      to_mint = to_mint;
      amount = amount;
      client_public_key = client_public_key;
    })

module _ (env : Env) where
  open env.host use {F64}

  -- `hex_serde`
  unfoldable pub hex_serialize : Bytes → Value F64
  hex_serialize bytes = text (env.host.hex_encode bytes)

  unfoldable pub hex_deserialize : Value F64 → Option Bytes
  unfolding read_text
  hex_deserialize v = do hex_str ← read_text v; or_error (env.host.hex_decode hex_str)

  -- `hex_serde_opt`
  unfoldable pub hex_opt_serialize : Option Bytes → Value F64
  hex_opt_serialize (some b) = text (env.host.hex_encode b)
  hex_opt_serialize none = null

  unfoldable pub hex_opt_deserialize : Value F64 → Option (Option Bytes)
  unfolding read_text
  hex_opt_deserialize v = do
    opt_str ← read_option read_text v
    elim opt_str [
      | none ↦ some none
      | some s ↦ or_error (env.host.hex_decode s) >>= λ b. some (some b)
    ]

  unfoldable pub read_f64 : Value F64 → Option F64
  read_f64 (real x) = some x
  read_f64 (number n) = some (env.host.f64_from_u64 n)
  read_f64 _ = none

  unfoldable pub quote_entries : SwapQuote env → Entries F64
  unfolding hex_serialize hex_opt_serialize write_status
  quote_entries q =
      ("id", text q.quote_id)
        ∷ ("source_mint", text q.from_mint)
        ∷ ("target_mint", text q.to_mint)
        ∷ ("amount_in", number q.input_amount)
        ∷ ("amount_out", number q.output_amount)
        ∷ ("fee", number q.fee)
        ∷ ("fee_rate", real q.fee_rate)
        ∷ ("broker_pubkey", hex_serialize q.broker_public_key)
        ∷ ("adaptor_point", hex_serialize q.adaptor_point)
        ∷ unless_none "tweaked_pubkey" (λ b. hex_opt_serialize (some b)) q.tweaked_pubkey
      ++ ("expires_in", number q.expires_in) ∷ ("status", write_status q.status) ∷ []

  -- `adaptor_secret` has no default, and neither has `tweaked_pubkey`, which is read `with` a
  -- function; `expires_at` is never read.
  unfoldable pub quote_from_entries : Entries F64 → Option (SwapQuote env)
  unfolding hex_deserialize hex_opt_deserialize
  quote_from_entries es = do
    quote_id ← required read_text ("id" ∷ "quote_id" ∷ []) es
    from_mint ← required read_text ("source_mint" ∷ "from_mint" ∷ []) es
    to_mint ← required read_text ("target_mint" ∷ "to_mint" ∷ []) es
    input_amount ← required read_u64 ("amount_in" ∷ "input_amount" ∷ []) es
    output_amount ← required read_u64 ("amount_out" ∷ "output_amount" ∷ []) es
    fee ← required read_u64 ("fee" ∷ []) es
    fee_rate ← required read_f64 ("fee_rate" ∷ []) es
    broker_public_key ← required hex_deserialize ("broker_pubkey" ∷ "broker_public_key" ∷ []) es
    adaptor_point ← required hex_deserialize ("adaptor_point" ∷ []) es
    tweaked_pubkey ← required hex_opt_deserialize ("tweaked_pubkey" ∷ []) es
    adaptor_secret ← required read_bytes ("adaptor_secret" ∷ []) es
    expires_in ← required read_u64 ("expires_in" ∷ []) es
    status ← required read_status ("status" ∷ []) es
    some (record {
      quote_id = quote_id;
      from_mint = from_mint;
      to_mint = to_mint;
      input_amount = input_amount;
      output_amount = output_amount;
      fee = fee;
      fee_rate = fee_rate;
      broker_public_key = broker_public_key;
      adaptor_point = adaptor_point;
      tweaked_pubkey = tweaked_pubkey;
      adaptor_secret = adaptor_secret;
      expires_in = expires_in;
      expires_at = none;
      status = status;
    })
