-- ===== src/Types/Status.antt =====
-- `SwapStatus` of cashu-broker/src/types.rs, with its `Display` and `FromStr`.
pub mod RoundTrip
use Prim.Native.Char.{code}
use Prim.Native.String.{◌++◌}
use atomic_mint_swap.Base.{
  ℕ, ◌+◌, String, ◌≡◌, Bool, true, false, ◌&&◌, List, [], ◌∷◌, map, leb, eqb, if◌then◌else◌,
}
use atomic_mint_swap.Effect.{Attempt, done, refused}

pub data SwapStatus : Type 0 where
  pending accepted completed expired failed : SwapStatus

-- `Display`
unfoldable pub to_string : SwapStatus → String
to_string pending = "pending"
to_string accepted = "accepted"
to_string completed = "completed"
to_string expired = "expired"
to_string failed = "failed"

-- The derived `PartialEq`.
abbrev pub status_eq : SwapStatus → SwapStatus → Bool
status_eq pending pending = true
status_eq accepted accepted = true
status_eq completed completed = true
status_eq expired expired = true
status_eq failed failed = true
status_eq _ _ = false

-- The code points of a text. `String` has its own `[]` and `∷`.
abbrev pub codes : String → List ℕ
codes String.[] = []
codes (String.◌∷◌ c s) = code c ∷ codes s

-- `to_lowercase` on one ASCII character. No other character lower-cases to letters of the five
-- words that `from_str` knows, so it is left as it is.
unfoldable pub lowercase : ℕ → ℕ
lowercase c = if leb b'A' c && leb c b'Z' then c + 32 else c

unfoldable pub codes_eq : List ℕ → List ℕ → Bool
codes_eq [] [] = true
codes_eq (a ∷ x) (b ∷ y) = eqb a b && codes_eq x y
codes_eq _ _ = false

-- The `match` of `from_str` on the text in lower case.
unfoldable pub match_status : String → List ℕ → Attempt String SwapStatus
match_status s l =
    if codes_eq l (codes "pending")
    then done pending
    else if codes_eq l (codes "accepted")
    then done accepted
    else if codes_eq l (codes "completed")
    then done completed
    else if codes_eq l (codes "expired")
    then done expired
    else if codes_eq l (codes "failed")
    then done failed
    else refused ("Invalid swap status: " ++ s)

-- `FromStr`
unfoldable pub from_str : String → Attempt String SwapStatus
unfolding match_status lowercase codes_eq
from_str s = match_status s (map lowercase (codes s))
