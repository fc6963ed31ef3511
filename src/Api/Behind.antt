-- ===== src/Api/Behind.antt =====
-- The database never claims more of a quote than the coordinator has done, however a handler ends.
pub mod Handlers
pub mod Offer
pub mod Serve
use mathlib.Core.Option
use atomic_mint_swap.Base.{
  String, ◌≡◌, ◌≢◌, refl, sym, subst, ap, ◌∙◌, ◌⊎◌, inl, inr, Option, none, some, Option-cases,
  arith, List,
}
use atomic_mint_swap.Effect.{perform, pure, ◌>>=◌, ◌>>◌}
use atomic_mint_swap.Effect.Invariant.{convert-state}
use atomic_mint_swap.Env.{Env, Bytes}
use atomic_mint_swap.Types.Status.{SwapStatus, pending, accepted, completed, to_string}
use atomic_mint_swap.Swap.Lifecycle.{status_of, prepare_swap-status}
use atomic_mint_swap.Swap.Completed.{complete_swap-status}
use atomic_mint_swap.Broker.{Broker, Brokered}
use atomic_mint_swap.Broker
use atomic_mint_swap.Database.Rows.{QuoteRecord, Stored, Tables}
use atomic_mint_swap.Database.Quotes.{update_quote_status}
use atomic_mint_swap.Database.Lookups.{status_at}
use atomic_mint_swap.Database.Changes.{update_quote_status-cases}
use atomic_mint_swap.Api.Invariant.{seen}
use atomic_mint_swap.Api.Types.{AppState, broker, on_broker, on_db}

abbrev pub IsPaid : Option SwapStatus → Type 0
IsPaid held = (held ≡ some accepted) ⊎ (held ≡ some completed)

-- A quote that the database calls accepted has been paid out, and one that it calls completed has
-- been completed.
pub record Agrees (stored : Option String) (held : Option SwapStatus) : Type 0 where
  pub paid_out : stored ≡ some (to_string accepted) → IsPaid held
  pub was_completed : stored ≡ some (to_string completed) → held ≡ some completed

-- What an operation of the coordinator may do to the status of a quote.
abbrev pub Advances : Option SwapStatus → Option SwapStatus → Type 0
Advances held held' =
    (held' ≡ held) ⊎ (((held ≡ some pending) × (held' ≡ some accepted)) ⊎ (held' ≡ some completed))

Agrees-Advances :
    (stored : Option String) (held held' : Option SwapStatus)
    → Agrees stored held
    → Advances held held'
    → Agrees stored held'
Agrees-Advances stored held held' a (inl same) = subst (Agrees stored) (sym same) a
Agrees-Advances stored held held' a (inr (inl (was, now))) = record {
  paid_out = λ e. inl now;
  was_completed = λ e. let was_completed = a.was_completed e in absurd (cc);
}
Agrees-Advances stored held held' a (inr (inr now)) = record {
  paid_out = λ e. inr now;
  was_completed = λ e. now;
}

pub Agrees-accepted :
    (stored : Option String) (held : Option SwapStatus)
    → IsPaid held
    → Agrees (Option.map (λ s. to_string accepted) stored) held
unfolding to_string
Agrees-accepted none held p = record {
  paid_out = λ h. absurd (cc);
  was_completed = λ h. absurd (cc);
}
Agrees-accepted (some s) held p = record { paid_out = λ h. p; was_completed = λ h. absurd (cc) }

pub Agrees-completed :
    (stored : Option String) (held : Option SwapStatus) → held ≡ some completed → Agrees stored held
Agrees-completed stored held e = record { paid_out = λ h. inr e; was_completed = λ h. e }

pub Agrees-pending :
    (stored : Option String) (held : Option SwapStatus)
    → stored ≡ some (to_string pending)
    → Agrees stored held
unfolding to_string
Agrees-pending stored held e = record {
  paid_out = λ h. absurd (cc);
  was_completed = λ h. absurd (cc);
}

-- Of a quote that the coordinator does not hold, the database claims neither.
pub Agrees-absent :
    (stored : Option String) (held held' : Option SwapStatus)
    → held ≡ none
    → Agrees stored held
    → Agrees stored held'
Agrees-absent stored held held' e a = record {
  paid_out = λ h. absurd (elim (a.paid_out h) [ inl p ↦ cc | inr p ↦ cc ]);
  was_completed = λ h. let p = a.was_completed h in absurd (cc);
}

module _ (env : Env) where
  pub record IsBehind (s : AppState env) : Type 0 where
    pub at :
        (id : String)
        → Agrees (status_at env id s.db.quotes) (status_of env id s.service.coordinator)

  pub IsBehind-keeps : (s s' : AppState env) → seen env s' ≡ seen env s → IsBehind s → IsBehind s'
  IsBehind-keeps s s' same h = record {
    at = λ id.
        subst (λ p. Agrees (status_at env id p.1) (status_of env id p.0.coordinator)) (sym same)
          (h.at id);
  }

  -- A call of the broker, by what it does to the status of each quote.
  pub on_broker-IsBehind :
      {A : Type 0} (m : Brokered env A) (s : AppState env) (w : env.World)
      → ((id : String)
          → Agrees (status_at env id s.db.quotes) (status_of env id s.service.coordinator)
          → Agrees (status_at env id s.db.quotes) (status_of env id (m s.service w).1.coordinator))
      → IsBehind s
      → IsBehind (on_broker env m s w).1
  on_broker-IsBehind m s w moves h =
      let after : AppState env = record s { service = (m s.service w).1 } in
      let behind : IsBehind after = record { at = λ id. moves id (h.at id) } in
      subst IsBehind (sym (convert-state broker ((m s.service w).0, after, (m s.service w).2)))
        behind

  pub accept_quote-Advances :
      (id : String) (pk : Bytes) (b : Broker env) (w : env.World) (j : String)
      → Advances
          (status_of env j b.coordinator)
          (status_of env j (Broker.accept_quote env id pk b w).1.coordinator)
  unfolding Broker.accept_quote
  accept_quote-Advances id pk b w j = elim (prepare_swap-status env id j pk b.coordinator w) [
    | inl same ↦ inl same
    | inr (mine, was, now) ↦ inr (inl (was, now))
  ]

  pub complete_swap-Advances :
      (id : String) (ps : List env.cdk.Proof) (b : Broker env) (w : env.World) (j : String)
      → Advances
          (status_of env j b.coordinator)
          (status_of env j (Broker.complete_swap env id ps b w).1.coordinator)
  unfolding Broker.complete_swap
  complete_swap-Advances id ps b w j = elim (complete_swap-status env id j ps b.coordinator w) [
    | inl same ↦ inl same
    | inr (mine, was, now) ↦ inr (inr now)
  ]

  pub accept_quote-Agrees :
      (id : String) (pk : Bytes) (b : Broker env) (w : env.World) (j : String)
      (stored : Option String)
      → Agrees stored (status_of env j b.coordinator)
      → Agrees stored (status_of env j (Broker.accept_quote env id pk b w).1.coordinator)
  accept_quote-Agrees id pk b w j stored a =
      Agrees-Advances stored _ _ a (accept_quote-Advances id pk b w j)

  pub complete_swap-Agrees :
      (id : String) (ps : List env.cdk.Proof) (b : Broker env) (w : env.World) (j : String)
      (stored : Option String)
      → Agrees stored (status_of env j b.coordinator)
      → Agrees stored (status_of env j (Broker.complete_swap env id ps b w).1.coordinator)
  complete_swap-Agrees id ps b w j stored a =
      Agrees-Advances stored _ _ a (complete_swap-Advances id ps b w j)

  -- A call of the database, by what it does to the status of each quote.
  pub on_db-IsBehind :
      {A : Type 0} (m : Stored env A) (s : AppState env) (w : env.World)
      → ((id : String)
          → Agrees (status_at env id s.db.quotes) (status_of env id s.service.coordinator)
          → Agrees (status_at env id (m s.db w).1.quotes) (status_of env id s.service.coordinator))
      → IsBehind s
      → IsBehind (on_db env m s w).1
  on_db-IsBehind m s w moves h =
      let after : AppState env = record s { db = (m s.db w).1 } in
      let behind : IsBehind after = record { at = λ id. moves id (h.at id) } in
      subst IsBehind (sym (convert-state broker ((m s.db w).0, after, (m s.db w).2))) behind

  pub update_quote_status-IsBehind :
      (id : String) (st : SwapStatus) (s : AppState env) (w : env.World)
      → ((stored : Option String)
          → Agrees (Option.map (λ x. to_string st) stored) (status_of env id s.service.coordinator))
      → IsBehind s
      → IsBehind (on_db env (update_quote_status env id st none) s w).1
  update_quote_status-IsBehind id st s w to h =
      on_db-IsBehind (update_quote_status env id st none) s w
        (λ j a. elim (update_quote_status-cases env id j st none s.db w) [
          | inl same ↦ subst (λ x. Agrees x (status_of env j s.service.coordinator)) (sym same) a
          | inr (mine, now) ↦
              subst (λ x. Agrees x (status_of env j s.service.coordinator)) (sym now)
                (subst
                  (λ i.
                    Agrees (Option.map (λ x. to_string st) (status_at env j s.db.quotes))
                      (status_of env i s.service.coordinator))
                  (sym mine) (to (status_at env j s.db.quotes)))
        ])
        h
