-- ===== src/Types/Wire/RoundTrip.antt =====
-- What is read back of what the types write.
use atomic_mint_swap.Base.{◌≡◌, refl, subst, true, Option, none, some, inl, inr, Option-cases, ◌∷◌}
use atomic_mint_swap.Effect.{done}
use atomic_mint_swap.Env.{Env, Bytes}
use atomic_mint_swap.Types.{MintConfig, SwapRequest, SwapQuote}
use atomic_mint_swap.Types.Status.{SwapStatus, pending, accepted, completed, expired, failed}
use atomic_mint_swap.Types.Wire.{
  numbers, is_name, values, field, are_u8, read_text, read_u64, read_bytes, variant, write_status,
  read_status, mint_entries, mint_from_entries, request_entries, request_from_entries,
  hex_serialize, hex_deserialize, hex_opt_serialize, hex_opt_deserialize, read_f64, quote_entries,
  quote_from_entries,
}

mint_from_entries-mint_entries :
    (F64 : Type 0) (m : MintConfig) → mint_from_entries {F64 = F64} (mint_entries m) ≡ some m
unfolding mint_from_entries mint_entries field values is_name read_text
mint_from_entries-mint_entries F64 m = refl

read_status-write_status :
    (F64 : Type 0) (st : SwapStatus) → read_status {F64 = F64} (write_status st) ≡ some st
unfolding read_status write_status variant
read_status-write_status F64 pending = refl
read_status-write_status F64 accepted = refl
read_status-write_status F64 completed = refl
read_status-write_status F64 expired = refl
read_status-write_status F64 failed = refl

-- The key of a request, where it has one, is made of bytes.
abbrev pub HasBytes : Option Bytes → Type 0
HasBytes none = Unit
HasBytes (some k) = are_u8 k ≡ true

request_from_entries-request_entries :
    (F64 : Type 0) (r : SwapRequest)
    → HasBytes r.client_public_key
    → request_from_entries {F64 = F64} (request_entries r) ≡ some r
unfolding request_from_entries request_entries field values is_name read_text read_u64 read_bytes
request_from_entries-request_entries F64 r u = elim (Option-cases r.client_id) [
  | inl e ↦ elim (Option-cases r.client_public_key) [
    | inl k ↦ rw (e, k) refl
    | inr (b, k) ↦ let v : are_u8 b ≡ true = subst HasBytes k u in rw (e, k, v) refl
  ]
  | inr (c, e) ↦ elim (Option-cases r.client_public_key) [
    | inl k ↦ rw (e, k) refl
    | inr (b, k) ↦ let v : are_u8 b ≡ true = subst HasBytes k u in rw (e, k, v) refl
  ]
]

module _ (env : Env)
    (hex_law : (b : Bytes) → env.host.hex_decode (env.host.hex_encode b) ≡ done b) where
  open env.host use {F64}

  quote_from_entries-quote_entries :
      (q : SwapQuote env) (k : Bytes)
      → are_u8 q.adaptor_secret ≡ true
      → q.tweaked_pubkey ≡ some k
      → quote_from_entries env (("adaptor_secret", numbers q.adaptor_secret) ∷ quote_entries env q)
        ≡ some (record q { expires_at = none })
  unfolding quote_from_entries quote_entries field values is_name read_text read_u64 read_f64
      read_bytes hex_serialize hex_deserialize hex_opt_serialize hex_opt_deserialize
  quote_from_entries-quote_entries q k u e =
      rw
        (
          e,
          u,
          hex_law q.broker_public_key,
          hex_law q.adaptor_point,
          hex_law k,
          read_status-write_status F64 q.status,
        )
        refl

  unread : (q : SwapQuote env) → quote_from_entries env (quote_entries env q) ≡ none
  unfolding quote_from_entries quote_entries field values is_name read_text read_u64 read_f64
      hex_serialize hex_deserialize hex_opt_serialize hex_opt_deserialize
  unread q = elim (Option-cases q.tweaked_pubkey) [
    | inl e ↦ rw (e, hex_law q.broker_public_key, hex_law q.adaptor_point) refl
    | inr (k, e) ↦ rw (e, hex_law q.broker_public_key, hex_law q.adaptor_point, hex_law k) refl
  ]

  -- Where hex decodes what it encodes: a mint and a request whose key is made of bytes are read back
  -- from what they are written as, and so is a quote that has a tweaked key and whose secret is made
  -- of bytes from what it is written as with its secret added, but for its time of expiry.
  pub from_entries-entries :
      (m : MintConfig) (r : SwapRequest) (q : SwapQuote env) (k : Bytes)
      → HasBytes r.client_public_key
      → are_u8 q.adaptor_secret ≡ true
      → q.tweaked_pubkey ≡ some k
      → (mint_from_entries {F64 = F64} (mint_entries m) ≡ some m)
        × (request_from_entries {F64 = F64} (request_entries r) ≡ some r)
        × (quote_from_entries env
              (("adaptor_secret", numbers q.adaptor_secret) ∷ quote_entries env q)
            ≡ some (record q { expires_at = none }))
  from_entries-entries m r q k bytes u e = (
    mint_from_entries-mint_entries F64 m,
    request_from_entries-request_entries F64 r bytes,
    quote_from_entries-quote_entries q k u e,
  )

  -- Where hex decodes what it encodes: what a quote is written as is the same whatever its secret
  -- and its time of expiry are, and is never read back as a quote.
  pub quote_entries-private :
      (q : SwapQuote env) (secret : Bytes) (expires_at : Option env.host.Time)
      → (quote_entries env (record q { adaptor_secret = secret; expires_at = expires_at })
          ≡ quote_entries env q)
        × (quote_from_entries env (quote_entries env q) ≡ none)
  unfolding quote_entries
  quote_entries-private q secret expires_at = (refl, unread q)
