-- ===== src/Api/Refusals.antt =====
-- What `accept_quote` and `complete_quote` answer for a quote that is not open.
use atomic_mint_swap.Base.{
  ℕ, String, ◌≡◌, ◌≢◌, refl, ap, inl, inr, Bool-cases, Option, Option-cases, none, some, arith,
  eq_iff, ◌==◌, false,
}
use atomic_mint_swap.Effect.{ok, err}
use atomic_mint_swap.Env.{Env}
use atomic_mint_swap.Types.Status.{SwapStatus, pending, accepted, to_string}
use atomic_mint_swap.Database.Rows.{QuoteRecord, execute, query}
use atomic_mint_swap.Database.Quotes.{find_quote, get_quote}
use atomic_mint_swap.Database.Lookups.{status_at}
use atomic_mint_swap.Api.Types.{
  ApiError, AppState, AcceptQuoteRequest, CompleteQuoteRequest, into_response,
}
use atomic_mint_swap.Api.Handlers.{load_quote, bad_status, no_quote, accept_quote, complete_quote}

module _ (env : Env) where
  abbrev pub refusal : String → String → Option String → ApiError
  refusal id wanted none = no_quote env id
  refusal id wanted (some status) = bad_status env id wanted status

  abbrev pub refusal_status : Option String → ℕ
  refusal_status none = 404
  refusal_status (some status) = 400

  module _ (id : String) (s : AppState env) (w : env.World)
      (fine : (env.driver.fault w).0 ≡ none) where
    loads_none :
        find_quote env id s.db.quotes ≡ none
        → load_quote env id s w ≡ (err (no_quote env id), s, (env.driver.fault w).1)
    unfolding load_quote get_quote query execute
    loads_none absent = ground (arith, fine, absent)

    loads_some :
        (q : QuoteRecord env)
        → find_quote env id s.db.quotes ≡ some q
        → load_quote env id s w ≡ (ok q, s, (env.driver.fault w).1)
    unfolding load_quote get_quote query execute
    loads_some q found = ground (arith, fine, found)

    has_other :
        (q : QuoteRecord env) (st : SwapStatus)
        → find_quote env id s.db.quotes ≡ some q
        → status_at env id s.db.quotes ≢ some (to_string st)
        → (q.status == to_string st) ≡ false
    has_other q st found closed = elim (Bool-cases (q.status == to_string st)) [
      | inl same ↦ absurd (closed (rw found (ap some ((eq_iff q.status (to_string st)).0 same))))
      | inr other ↦ other
    ]

    accept_quote-closed :
        (req : AcceptQuoteRequest)
        → status_at env id s.db.quotes ≢ some (to_string pending)
        → accept_quote env id req s w ≡ (
          err (refusal id " is not pending" (status_at env id s.db.quotes)),
          s,
          (env.driver.fault w).1,
        )
    unfolding accept_quote
    accept_quote-closed req closed = elim (Option-cases (find_quote env id s.db.quotes)) [
      | inl absent ↦ rw (loads_none absent, absent) refl
      | inr (q, found) ↦ rw (loads_some q found, has_other q pending found closed, found) refl
    ]

    complete_quote-closed :
        (req : CompleteQuoteRequest)
        → status_at env id s.db.quotes ≢ some (to_string accepted)
        → complete_quote env id req s w ≡ (
          err (refusal id " is not accepted" (status_at env id s.db.quotes)),
          s,
          (env.driver.fault w).1,
        )
    unfolding complete_quote
    complete_quote-closed req closed = elim (Option-cases (find_quote env id s.db.quotes)) [
      | inl absent ↦ rw (loads_none absent, absent) refl
      | inr (q, found) ↦ rw (loads_some q found, has_other q accepted found closed, found) refl
    ]

    refusal-status :
        (wanted : String) (stored : Option String)
        → (into_response (refusal id wanted stored)).status ≡ refusal_status stored
    unfolding into_response no_quote bad_status
    refusal-status wanted none = refl
    refusal-status wanted (some st) = refl

    -- Where the database meets no fault, and has no quote of the id or one that is neither pending
    -- nor accepted, `accept_quote` and `complete_quote` refuse it whatever else the request says,
    -- without a change to the database or the broker and without a call of a mint: with a 404 where
    -- there is no such quote, and otherwise with a 400 that tells its status.
    pub closed_refused :
        (a : AcceptQuoteRequest) (c : CompleteQuoteRequest)
        → status_at env id s.db.quotes ≢ some (to_string pending)
        → status_at env id s.db.quotes ≢ some (to_string accepted)
        → let stored = status_at env id s.db.quotes in
          let accepting = refusal id " is not pending" stored in
          let completing = refusal id " is not accepted" stored in
          (accept_quote env id a s w ≡ (err accepting, s, (env.driver.fault w).1))
          × (complete_quote env id c s w ≡ (err completing, s, (env.driver.fault w).1))
          × ((into_response accepting).status ≡ refusal_status stored)
          × ((into_response completing).status ≡ refusal_status stored)
    closed_refused a c not_pending not_accepted =
        let stored = status_at env id s.db.quotes in
        (
          accept_quote-closed a not_pending,
          complete_quote-closed c not_accepted,
          refusal-status " is not pending" stored,
          refusal-status " is not accepted" stored,
        )
