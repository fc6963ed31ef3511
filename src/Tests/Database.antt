-- ===== src/Tests/Database.antt =====
-- A database with one pending quote, and the theorems applied to it.
use mathlib.Core.Option
use atomic_mint_swap.Base.{◌≡◌, refl, none, some, List, [], ◌∷◌}
use atomic_mint_swap.Base.Word.{pos}
use atomic_mint_swap.Effect.{ok}
use atomic_mint_swap.Types.Status.{accepted, to_string}
use atomic_mint_swap.Database.Rows.{QuoteRecord, SwapRecord, Tables, has}
use atomic_mint_swap.Database.Quotes.{set_status, is_status, find_quote, get_quote, is_stale}
use atomic_mint_swap.Database.Swaps.{create_swap, get_swap_by_quote}
use atomic_mint_swap.Database.Consistency.{IsConsistent}
use atomic_mint_swap.Database.Statements.{
  Statement, insert_quote, set_quote_status, insert_swap, delete_expired, after_all,
}
use atomic_mint_swap.Database.Lookups.{get_swap_by_quote-create_swap}
use atomic_mint_swap.Database.Promises.{store, promised_all}
use atomic_mint_swap.Database.Store.{get_quote-after_all}
use atomic_mint_swap.Tests.Sample.{sample}

abbrev pub quote : QuoteRecord sample
quote = record {
  id = "id";
  source_mint = "b";
  target_mint = "a";
  amount_in = pos 1000;
  amount_out = pos 995;
  fee = pos 5;
  fee_rate = 5;
  broker_pubkey = "04";
  adaptor_point = "03";
  tweaked_pubkey = "07";
  status = "pending";
  created_at = "2025-01-16T00:00:00+00:00";
  expires_at = "2025-01-16T00:05:00+00:00";
  accepted_at = none;
  completed_at = none;
  user_pubkey = some "09";
  error_message = none;
}

abbrev pub swap : SwapRecord
swap = record {
  id = "uuid";
  quote_id = "id";
  source_proofs = "[]";
  target_proofs = some "[1]";
  encrypted_signature = some "03";
  decrypted_signature = none;
  adaptor_secret = none;
  started_at = "2025-01-16T00:01:00+00:00";
  completed_at = none;
}

abbrev pub empty : Tables sample
empty = record { quotes = []; swaps = []; liquidity_events = []; next_event_id = 1 }

abbrev pub one_quote : Tables sample
one_quote = record empty { quotes = quote ∷ [] }

empty-IsConsistent : IsConsistent sample empty
empty-IsConsistent = record {
  ids = tt;
  statuses = tt;
  swaps_distinct = tt;
  one_swap = tt;
  swaps_refer = tt;
  event_types = tt;
  events_refer = tt;
}

abbrev history : List (Statement sample)
history =
    insert_quote quote
    ∷ set_quote_status "id" accepted none
    ∷ insert_swap swap
    ∷ insert_swap swap
    ∷ delete_expired
    ∷ []

create_swap_went : (create_swap sample swap one_quote 0).0 ≡ ok tt
unfolding create_swap
create_swap_went = refl

get_swap_by_quote-create_swap_example :
    (found : SwapRecord) × ((get_swap_by_quote sample "id"
        (create_swap sample swap one_quote 0).1
        5).0
      ≡ ok (some found))
    × (found.id ≡ swap.id)
    × (found.source_proofs ≡ swap.source_proofs)
    × (found.target_proofs ≡ none)
get_swap_by_quote-create_swap_example =
    get_swap_by_quote-create_swap sample swap one_quote 0 5 create_swap_went refl

get_quote-after_all_example :
    (get_quote sample "id" (after_all sample history empty 0) 9).0
    ≡ ok (promised_all sample history (store sample empty) 0 "id")
get_quote-after_all_example =
    get_quote-after_all sample history "id" empty 0 9 empty-IsConsistent refl

-- The quote is there, accepted.
promised_accepted :
    Option.map (λ q. q.status) (promised_all sample history (store sample empty) 0 "id")
    ≡ some "accepted"
unfolding has set_status is_stale is_status to_string Option.bind find_quote
promised_accepted = refl
