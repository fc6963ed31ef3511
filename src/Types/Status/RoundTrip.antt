-- ===== src/Types/Status/RoundTrip.antt =====
-- Printing and parsing a status.
use atomic_mint_swap.Base.{ℕ, String, ◌≡◌, refl, ◌↔◌, true, List, [], ◌∷◌, map, arith}
use mathlib.Core.Logic.Iff
use atomic_mint_swap.Effect.{done}
use atomic_mint_swap.Types.Status.{
  SwapStatus, pending, accepted, completed, expired, failed, to_string, from_str, match_status,
  lowercase, codes, codes_eq,
}

codes_eq_iff : (x y : List ℕ) → (codes_eq x y ≡ true) ↔ (x ≡ y)
unfolding codes_eq
codes_eq_iff [] [] = ground arith
codes_eq_iff [] (b ∷ y) = ground arith
codes_eq_iff (a ∷ x) [] = ground arith
codes_eq_iff (a ∷ x) (b ∷ y) = ground (arith, codes_eq_iff x y)

-- Every printed status parses back to itself.
pub from_str-to_string : (st : SwapStatus) → from_str (to_string st) ≡ done st
unfolding from_str to_string
from_str-to_string pending = refl
from_str-to_string accepted = refl
from_str-to_string completed = refl
from_str-to_string expired = refl
from_str-to_string failed = refl

match_status_iff :
    (s : String) (l : List ℕ) (st : SwapStatus)
    → (match_status s l ≡ done st) ↔ (codes_eq l (codes (to_string st)) ≡ true)
unfolding match_status to_string
match_status_iff s l pending = ground (
  arith,
  codes_eq_iff l (codes "pending"),
  codes_eq_iff l (codes "accepted"),
  codes_eq_iff l (codes "completed"),
  codes_eq_iff l (codes "expired"),
  codes_eq_iff l (codes "failed"),
)
match_status_iff s l _ = ground (
  arith,
  codes_eq_iff l (codes "pending"),
  codes_eq_iff l (codes "accepted"),
  codes_eq_iff l (codes "completed"),
  codes_eq_iff l (codes "expired"),
  codes_eq_iff l (codes "failed"),
)

-- A text parses to a status exactly when, in lower case, it is what the status prints.
pub from_str_iff :
    (s : String) (st : SwapStatus)
    → (from_str s ≡ done st) ↔ (map lowercase (codes s) ≡ codes (to_string st))
unfolding from_str
from_str_iff s st =
    Iff.trans (match_status_iff s (map lowercase (codes s)) st)
      (codes_eq_iff (map lowercase (codes s)) (codes (to_string st)))
