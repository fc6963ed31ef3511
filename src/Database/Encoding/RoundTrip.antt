-- ===== src/Database/Encoding/RoundTrip.antt =====
-- What the INSERT statements bind is what `FromRow` reads back.
use atomic_mint_swap.Base.{Bool, false, ◌≡◌, refl}
use atomic_mint_swap.Base.Dict.{Dict, lookup}
use atomic_mint_swap.Effect.{done}
use atomic_mint_swap.Env.{Env}
use atomic_mint_swap.Database.Rows.{QuoteRecord, SwapRecord, LiquidityEvent}
use atomic_mint_swap.Database.Quotes
use atomic_mint_swap.Database.Swaps
use atomic_mint_swap.Database.Encoding.{
  Value, Sql, SqlLaws, ok_or_none, swap_columns, swap_from_row, event_columns, event_from_row,
  quote_columns, quote_from_row,
}

module _ {F64 : Type 0} (is_nan : F64 → Bool) (sql : Sql F64) where
  swap_from_row-swap_columns :
      (laws : SqlLaws is_nan sql) (swap : SwapRecord)
      → swap_from_row sql (sql.stored (swap_columns swap)) ≡ done (Swaps.inserted swap)
  unfolding swap_from_row swap_columns Swaps.inserted lookup
  swap_from_row-swap_columns laws swap =
      let columns : Dict (Value F64) = swap_columns swap in
      rw (
        laws.text_at columns "id" swap.id refl,
        laws.text_at columns "quote_id" swap.quote_id refl,
        laws.text_at columns "source_proofs" swap.source_proofs refl,
        laws.optional_text_absent columns "target_proofs" refl,
        laws.optional_text_at columns "encrypted_signature" swap.encrypted_signature refl,
        laws.optional_text_absent columns "decrypted_signature" refl,
        laws.optional_text_absent columns "adaptor_secret" refl,
        laws.text_at columns "started_at" swap.started_at refl,
        laws.optional_text_absent columns "completed_at" refl,
      )

  event_from_row-event_columns :
      (laws : SqlLaws is_nan sql) (event : LiquidityEvent)
      → let row = sql.stored (event_columns event) in
        event_from_row sql row ≡ done (record event { id = ok_or_none (sql.get_integer "id" row) })
  unfolding event_from_row event_columns lookup
  event_from_row-event_columns laws event =
      let columns : Dict (Value F64) = event_columns event in
      rw (
        laws.text_at columns "mint_url" event.mint_url refl,
        laws.text_at columns "event_type" event.event_type refl,
        laws.integer_at columns "amount" event.amount refl,
        laws.integer_at columns "balance_after" event.balance_after refl,
        laws.optional_text_at columns "quote_id" event.quote_id refl,
        laws.text_at columns "created_at" event.created_at refl,
      )

module _ (env : Env) where
  module _ (sql : Sql env.host.F64) where
    quote_from_row-quote_columns :
        (laws : SqlLaws env.host.f64_is_nan sql) (quote : QuoteRecord env)
        → env.host.f64_is_nan quote.fee_rate ≡ false
        → quote_from_row env sql (sql.stored (quote_columns env quote))
          ≡ done (Quotes.inserted env quote)
    unfolding quote_from_row quote_columns Quotes.inserted lookup
    quote_from_row-quote_columns laws quote number =
        let columns : Dict (Value env.host.F64) = quote_columns env quote in
        rw (
          laws.text_at columns "id" quote.id refl,
          laws.text_at columns "source_mint" quote.source_mint refl,
          laws.text_at columns "target_mint" quote.target_mint refl,
          laws.integer_at columns "amount_in" quote.amount_in refl,
          laws.integer_at columns "amount_out" quote.amount_out refl,
          laws.integer_at columns "fee" quote.fee refl,
          laws.real_at columns "fee_rate" quote.fee_rate refl number,
          laws.text_at columns "broker_pubkey" quote.broker_pubkey refl,
          laws.text_at columns "adaptor_point" quote.adaptor_point refl,
          laws.text_at columns "tweaked_pubkey" quote.tweaked_pubkey refl,
          laws.text_at columns "status" quote.status refl,
          laws.text_at columns "created_at" quote.created_at refl,
          laws.text_at columns "expires_at" quote.expires_at refl,
          laws.optional_text_absent columns "accepted_at" refl,
          laws.optional_text_absent columns "completed_at" refl,
          laws.optional_text_at columns "user_pubkey" quote.user_pubkey refl,
          laws.optional_text_absent columns "error_message" refl,
        )

    -- What the INSERT statements bind is what is read back: the row that `create_quote` leaves, if
    -- the fee rate is not NaN, is read as the record without its times of acceptance and completion and its error message, the
    -- row that `create_swap` leaves as the record without its target proofs, decrypted signature,
    -- adaptor secret and time of completion, and the row that `record_liquidity_event` leaves as the
    -- event with the number of the row, where it can be read.
    pub from_row-columns :
        (laws : SqlLaws env.host.f64_is_nan sql) (quote : QuoteRecord env) (swap : SwapRecord)
        (event : LiquidityEvent)
        → env.host.f64_is_nan quote.fee_rate ≡ false
        → let row = sql.stored (event_columns event) in
          (quote_from_row env sql (sql.stored (quote_columns env quote))
            ≡ done (Quotes.inserted env quote))
          × (swap_from_row sql (sql.stored (swap_columns swap)) ≡ done (Swaps.inserted swap))
          × (event_from_row sql row
              ≡ done (record event { id = ok_or_none (sql.get_integer "id" row) }))
    from_row-columns laws quote swap event number = (
      quote_from_row-quote_columns laws quote number,
      swap_from_row-swap_columns env.host.f64_is_nan sql laws swap,
      event_from_row-event_columns env.host.f64_is_nan sql laws event,
    )
