-- ===== src/Config/Text.antt =====
-- What cashu-broker/src/config.rs uses of the standard library on texts: `parse` of an unsigned
-- number, `split(',')` and `trim`.
use Prim.Native.Char.{Char, code}
use atomic_mint_swap.Base.{
  ℕ, ◌+◌, ◌-◌, ◌*◌, String, Bool, ◌&&◌, ◌||◌, not, List, [], ◌∷◌, ltb, leb, eqb, if◌then◌else◌,
  ◌==◌,
}
use atomic_mint_swap.Effect.{Attempt, done, refused}
use atomic_mint_swap.Types.Status.{codes}

unfoldable pub is_digit : ℕ → Bool
is_digit c = leb b'0' c && leb c b'9'

-- The digits from here on, onto what is read so far, for a type with the largest value `max`.
unfoldable pub parse_digits : (max acc : ℕ) → List ℕ → Attempt String ℕ
unfolding is_digit
parse_digits max acc [] = done acc
parse_digits max acc (c ∷ cs) =
    let n = acc * 10 + (c - b'0') in
    let rest = parse_digits max n cs in
    if not (is_digit c)
    then refused "invalid digit found in string"
    else if ltb max n
    then refused "number too large to fit in target type"
    else rest

unfoldable pub parse_codes : ℕ → List ℕ → Attempt String ℕ
unfolding parse_digits
parse_codes max [] = refused "cannot parse integer from empty string"
parse_codes max (c ∷ []) = parse_digits max 0 (c ∷ [])
parse_codes max (c ∷ d ∷ cs) =
    if eqb c b'+' then parse_digits max 0 (d ∷ cs) else parse_digits max 0 (c ∷ d ∷ cs)

-- `str::parse` of an unsigned number
unfoldable pub parse_unsigned : ℕ → String → Attempt String ℕ
unfolding parse_codes
parse_unsigned max s = parse_codes max (codes s)

-- The characters with the property White_Space.
unfoldable pub is_space : ℕ → Bool
is_space c =
    leb 9 c && leb c 13
    || eqb c 32
    || eqb c 133
    || eqb c 160
    || eqb c 5760
    || leb 8192 c && leb c 8202
    || eqb c 8232
    || eqb c 8233
    || eqb c 8239
    || eqb c 8287
    || eqb c 12288

unfoldable pub trim_start : String → String
unfolding is_space
trim_start String.[] = ""
trim_start (String.◌∷◌ c s) =
    let rest = trim_start s in if is_space (code c) then rest else String.◌∷◌ c s

unfoldable pub trim_end : String → String
unfolding is_space
trim_end String.[] = ""
trim_end (String.◌∷◌ c s) =
    let rest = trim_end s in if rest == "" && is_space (code c) then "" else String.◌∷◌ c rest

unfoldable pub trim : String → String
unfolding trim_start trim_end
trim s = trim_end (trim_start s)

-- The character belongs to the first piece.
abbrev push_front : Char → List String → List String
push_front c [] = String.◌∷◌ c "" ∷ []
push_front c (piece ∷ pieces) = String.◌∷◌ c piece ∷ pieces

unfoldable pub split_commas : String → List String
split_commas String.[] = "" ∷ []
split_commas (String.◌∷◌ c s) =
    let rest = split_commas s in if eqb (code c) b',' then "" ∷ rest else push_front c rest
