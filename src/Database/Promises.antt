-- ===== src/Database/Promises.antt =====
-- What each call that writes to the database promises of its quotes, as a map from ids to records.
use mathlib.Core.Option
use atomic_mint_swap.Base.{
  String, Bool, false, true, not, ◌&&◌, ◌||◌, Option, none, some, List, [], ◌∷◌, ◌==◌,
  if◌then◌else◌,
}
use atomic_mint_swap.Env.{Env}
use atomic_mint_swap.Types.Status.{SwapStatus, pending, accepted, completed, expired, failed}
use atomic_mint_swap.Database.Rows.{QuoteRecord, Tables}
use atomic_mint_swap.Database.Quotes.{find_quote}
use atomic_mint_swap.Database.Statements.{
  Statement, insert_quote, set_quote_status, delete_expired, insert_swap, finish_swap, insert_event,
}

-- The five texts that a status may have.
abbrev pub is_known : String → Bool
is_known st =
    ("pending" == st)
    || (("accepted" == st) || (("completed" == st) || (("expired" == st) || ("failed" == st))))

module _ (env : Env) where
  abbrev pub Store : Type 0
  Store = String → Option (QuoteRecord env)

  abbrev pub store : Tables env → Store
  store t id = find_quote env id t.quotes

  -- A statement that the driver fails leaves the store alone.
  abbrev pub unless_fault : env.World → Store → Store → Store × env.World
  unless_fault w new old =
      let (fault, w') = env.driver.fault w in (elim fault [ none ↦ new | some e ↦ old ], w')

  abbrev pub is_free : Option (QuoteRecord env) → Bool
  is_free none = true
  is_free (some q) = false

  -- An INSERT adds a row with a fee rate that is a number and a known status under an id that is
  -- free, without its later times and message.
  abbrev pub put : QuoteRecord env → Store → Store
  put q kept id =
      if not (env.host.f64_is_nan q.fee_rate) && (is_known q.status && is_free (kept q.id))
      then (if q.id == id
          then some (record {
            id = q.id;
            source_mint = q.source_mint;
            target_mint = q.target_mint;
            amount_in = q.amount_in;
            amount_out = q.amount_out;
            fee = q.fee;
            fee_rate = q.fee_rate;
            broker_pubkey = q.broker_pubkey;
            adaptor_point = q.adaptor_point;
            tweaked_pubkey = q.tweaked_pubkey;
            status = q.status;
            created_at = q.created_at;
            expires_at = q.expires_at;
            accepted_at = none;
            completed_at = none;
            user_pubkey = q.user_pubkey;
            error_message = none;
          })
          else kept id)
      else kept id

  -- A change of status sets the text of the status; the time of acceptance where it is accepted; the
  -- time of completion where it is completed; and the message, which may be none, where it is
  -- expired or failed.
  abbrev pub marked : SwapStatus → Option String → String → QuoteRecord env → QuoteRecord env
  marked pending message now q = record q { status = "pending" }
  marked accepted message now q = record q { status = "accepted"; accepted_at = some now }
  marked completed message now q = record q { status = "completed"; completed_at = some now }
  marked expired message now q = record q { status = "expired"; error_message = message }
  marked failed message now q = record q { status = "failed"; error_message = message }

  -- A deletion takes what is pending and past its time.
  abbrev pub unless_expired : String → QuoteRecord env → Option (QuoteRecord env)
  unless_expired now q =
      if (q.status == "pending") && env.driver.text_lt q.expires_at now then none else some q

  abbrev pub promised : Statement env → Store → env.World → Store × env.World
  promised (insert_quote q) kept w = unless_fault w (put q kept) kept
  promised (set_quote_status id st m) kept w =
      let (now, w1) = env.host.utc_now w in
      unless_fault w1 (λ j. if j == id then Option.map (marked st m now) (kept j) else kept j) kept
  promised delete_expired kept w =
      let (now, w1) = env.host.utc_now w in
      unless_fault w1 (λ j. Option.bind (kept j) (unless_expired now)) kept
  promised (insert_swap s) kept w = unless_fault w kept kept
  promised (finish_swap id target dec secret) kept w = unless_fault (env.host.utc_now w).1 kept kept
  promised (insert_event ev) kept w = unless_fault w kept kept

  abbrev pub promised_all : List (Statement env) → Store → env.World → Store
  promised_all [] kept w = kept
  promised_all (s ∷ ss) kept w = let (kept', w') = promised s kept w in promised_all ss kept' w'
