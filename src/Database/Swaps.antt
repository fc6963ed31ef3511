-- ===== src/Database/Swaps.antt =====
-- The swap repository.
use atomic_mint_swap.Base.{
  String, not, Option, none, some, List, [], ◌∷◌, ◌++◌, map, ◌==◌, ◌||◌, if◌then◌else◌,
}
use atomic_mint_swap.Effect.{done, refused, perform, ◌>>=◌}
use atomic_mint_swap.Env.{Env}
use atomic_mint_swap.Database.Rows.{SwapRecord, Stored, quote_ids, has, execute, query}

-- What INSERT binds. It leaves out `target_proofs`, which stays NULL whatever the record holds.
unfoldable pub inserted : SwapRecord → SwapRecord
inserted s = record s {
  target_proofs = none;
  decrypted_signature = none;
  adaptor_secret = none;
  completed_at = none;
}

unfoldable pub find_swap : (SwapRecord → String) → String → List SwapRecord → Option SwapRecord
find_swap key k [] = none
find_swap key k (s ∷ ss) = if key s == k then some s else find_swap key k ss

-- `UPDATE … WHERE id = ?`
unfoldable pub update_swaps : String → (SwapRecord → SwapRecord) → List SwapRecord → List SwapRecord
update_swaps id f [] = []
update_swaps id f (s ∷ ss) = (if s.id == id then f s else s) ∷ update_swaps id f ss

abbrev pub swap_ids : List SwapRecord → List String
swap_ids = map (λ s. s.id)

abbrev pub swap_quotes : List SwapRecord → List String
swap_quotes = map (λ s. s.quote_id)

module _ (env : Env) where
  -- `id` and `quote_id` are unique, and the quote exists.
  unfoldable pub create_swap : SwapRecord → Stored env (Unit {0})
  unfolding inserted has execute
  create_swap swap = execute env λ t.
      if has swap.id (swap_ids t.swaps) || has swap.quote_id (swap_quotes t.swaps)
      then refused env.driver.unique_failed
      else if not (has swap.quote_id (quote_ids env t))
      then refused env.driver.foreign_key_failed
      else done (tt, record t { swaps = t.swaps ++ inserted swap ∷ [] })

  unfoldable pub complete_swap :
      String → String → Option String → Option String → Stored env (Unit {0})
  unfolding update_swaps execute
  complete_swap id target_proofs decrypted_signature adaptor_secret = do
    completed_at ← perform env.host.utc_now
    execute env λ t. done (
      tt,
      record t {
        swaps =
            update_swaps id
              (λ s. record s {
                target_proofs = some target_proofs;
                decrypted_signature = decrypted_signature;
                adaptor_secret = adaptor_secret;
                completed_at = some completed_at;
              })
              t.swaps;
      },
    )

  unfoldable pub get_swap : String → Stored env (Option SwapRecord)
  unfolding find_swap query
  get_swap id = query env (λ t. find_swap (λ s. s.id) id t.swaps)

  unfoldable pub get_swap_by_quote : String → Stored env (Option SwapRecord)
  unfolding find_swap query
  get_swap_by_quote quote_id = query env (λ t. find_swap (λ s. s.quote_id) quote_id t.swaps)
