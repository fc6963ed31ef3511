-- ===== src/Tests/Wire.antt =====
-- A quote as it is written and read, where hex is a code in two letters.
use Prim.Native.Char.{code}
use atomic_mint_swap.Base.{
  ℕ, zero, suc, String, ◌≡◌, refl, ap, ◌∙◌, none, some, [], ◌∷◌, ◌+◌, arith, eqb, if◌then◌else◌,
}
use atomic_mint_swap.Effect.{done}
use atomic_mint_swap.Env.{Env, Bytes}
use atomic_mint_swap.Types.{MintConfig, SwapRequest, SwapQuote}
use atomic_mint_swap.Types.Status.{pending}
use atomic_mint_swap.Types.Wire.{
  numbers, mint_entries, mint_from_entries, request_entries, request_from_entries, quote_entries,
  quote_from_entries,
}
use atomic_mint_swap.Types.Wire.RoundTrip.{from_entries-entries, quote_entries-private}
use atomic_mint_swap.Tests.Sample.{sample, host}

-- A byte `n` is `n` times the first letter, and then the second.
abbrev stroke : ℕ → String → String
stroke zero s = String.◌∷◌ "b" s
stroke (suc n) s = String.◌∷◌ "a" (stroke n s)

abbrev encode : Bytes → String
encode [] = ""
encode (n ∷ ns) = stroke n (encode ns)

-- `n` letters of the next byte have been read.
abbrev decode : ℕ → String → Bytes
decode n String.[] = []
decode n (String.◌∷◌ c s) = if eqb (code c) b'a' then decode (suc n) s else n ∷ decode 0 s

decode-stroke : (n m : ℕ) (s : String) → decode m (stroke n s) ≡ (m + n) ∷ decode 0 s
decode-stroke zero m s = ground arith
decode-stroke (suc n) m s = decode-stroke n (suc m) s ∙ ap (λ k. k ∷ decode 0 s) (omega arith)

decode-encode : (b : Bytes) → decode 0 (encode b) ≡ b
decode-encode [] = refl
decode-encode (n ∷ ns) =
    decode-stroke n 0 (encode ns)
    ∙ ap (λ b. (0 + n) ∷ b) (decode-encode ns)
    ∙ ap (λ k. k ∷ ns) (omega arith)

abbrev coded : Env
coded = record sample {
  host = record host { hex_encode = encode; hex_decode = λ s. done (decode 0 s) };
}

hex_law : (b : Bytes) → coded.host.hex_decode (coded.host.hex_encode b) ≡ done b
hex_law b = ap done (decode-encode b)

abbrev mint : MintConfig
mint = record { mint_url = "a"; name = "A"; unit = "sat" }

abbrev request : SwapRequest
request = record {
  client_id = none;
  from_mint = "b";
  to_mint = "a";
  amount = 1000;
  client_public_key = some (9 ∷ 255 ∷ []);
}

abbrev quote : SwapQuote coded
quote = record {
  quote_id = "id";
  from_mint = "b";
  to_mint = "a";
  input_amount = 1000;
  output_amount = 995;
  fee = 5;
  fee_rate = 5;
  broker_public_key = 4 ∷ [];
  adaptor_point = 3 ∷ 0 ∷ [];
  tweaked_pubkey = some (7 ∷ []);
  adaptor_secret = 3 ∷ [];
  expires_in = 300;
  expires_at = some 305;
  status = pending;
}

from_entries-entries_example :
    (mint_from_entries {F64 = ℕ} (mint_entries mint) ≡ some mint)
    × (request_from_entries {F64 = ℕ} (request_entries request) ≡ some request)
    × (quote_from_entries coded (("adaptor_secret", numbers (3 ∷ [])) ∷ quote_entries coded quote)
        ≡ some (record quote { expires_at = none }))
from_entries-entries_example =
    from_entries-entries coded hex_law mint request quote (7 ∷ []) refl refl refl

quote_entries-private_example :
    (quote_entries coded (record quote { adaptor_secret = 8 ∷ []; expires_at = none })
      ≡ quote_entries coded quote)
    × (quote_from_entries coded (quote_entries coded quote) ≡ none)
quote_entries-private_example = quote_entries-private coded hex_law quote (8 ∷ []) none
