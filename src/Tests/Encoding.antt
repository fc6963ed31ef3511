-- ===== src/Tests/Encoding.antt =====
-- Reading a stored row of each table, with rows as association lists.
use atomic_mint_swap.Base.{String, ◌≡◌, refl, ap, ◌∙◌, Option, none, some}
use atomic_mint_swap.Base.Word.{ℤ, pos, negsuc}
use atomic_mint_swap.Base.Dict.{Dict, lookup}
use atomic_mint_swap.Effect.{Attempt, done, refused}
use atomic_mint_swap.Database.Rows.{LiquidityEvent}
use atomic_mint_swap.Database.Quotes
use atomic_mint_swap.Database.Swaps
use atomic_mint_swap.Database.Encoding.{
  Value, null, text, integer, real, text_or_null, Sql, SqlLaws, quote_columns, quote_from_row,
  swap_columns, swap_from_row, event_columns, event_from_row,
}
use atomic_mint_swap.Database.Encoding.RoundTrip.{from_row-columns}
use atomic_mint_swap.Tests.Sample.{sample}
use atomic_mint_swap.Tests.Database.{quote, swap}

abbrev as_text : Option (Value sample.host.F64) → Attempt String String
as_text (some (text s)) = done s
as_text _ = refused "no text"

abbrev as_optional_text : Option (Value sample.host.F64) → Attempt String (Option String)
as_optional_text none = done none
as_optional_text (some null) = done none
as_optional_text (some (text s)) = done (some s)
as_optional_text _ = refused "no text"

abbrev as_integer : Option (Value sample.host.F64) → Attempt String ℤ
as_integer (some (integer n)) = done n
as_integer _ = refused "no integer"

abbrev as_real : Option (Value sample.host.F64) → Attempt String sample.host.F64
as_real (some (real x)) = done x
as_real _ = refused "no real"

abbrev sql : Sql sample.host.F64
sql = record {
  Row = Dict (Value sample.host.F64);
  stored = λ columns. columns;
  get_text = λ name row. as_text (lookup name row);
  get_optional_text = λ name row. as_optional_text (lookup name row);
  get_integer = λ name row. as_integer (lookup name row);
  get_real = λ name row. as_real (lookup name row);
}

optional_text : (s : Option String) → as_optional_text (some (text_or_null s)) ≡ done s
unfolding text_or_null
optional_text none = refl
optional_text (some s) = refl

sql_laws : SqlLaws sample.host.f64_is_nan sql
sql_laws = record {
  text_at = λ columns name s e. ap as_text e;
  optional_text_at = λ columns name s e. ap as_optional_text e ∙ optional_text s;
  optional_text_absent = λ columns name e. ap as_optional_text e;
  integer_at = λ columns name n e. ap as_integer e;
  real_at = λ columns name x e k. ap as_real e;
}

abbrev event : LiquidityEvent
event = record {
  id = none;
  mint_url = "a";
  event_type = "swap_out";
  amount = pos 995;
  balance_after = negsuc 4;
  quote_id = some "id";
  created_at = "2025-01-16T00:02:00+00:00";
}

from_row-columns_example :
    (quote_from_row sample sql (sql.stored (quote_columns sample quote))
      ≡ done (Quotes.inserted sample quote))
    × (swap_from_row sql (sql.stored (swap_columns swap)) ≡ done (Swaps.inserted swap))
    × (event_from_row sql (sql.stored (event_columns event)) ≡ done event)
unfolding lookup event_columns
from_row-columns_example = from_row-columns sample sql sql_laws quote swap event refl
