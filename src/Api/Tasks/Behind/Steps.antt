-- ===== src/Api/Tasks/Behind/Steps.antt =====
-- A step of a handler keeps the database behind, and what the other handlers have seen.
use mathlib.Core.Option
use atomic_mint_swap.Base.{String, ◌≡◌, refl, sym, subst, ap, ◌∙◌, inl, inr, Option, none, some}
use atomic_mint_swap.Effect.{Outcome, ok, err, panic}
use atomic_mint_swap.Env.{Env}
use atomic_mint_swap.Types.Status.{SwapStatus, accepted, completed, to_string}
use atomic_mint_swap.Swap.Lifecycle.{status_of}
use atomic_mint_swap.Swap.Quote.{Coordinator}
use atomic_mint_swap.Broker.{Broker, Brokered}
use atomic_mint_swap.Broker
use atomic_mint_swap.Database.Quotes.{create_quote, update_quote_status}
use atomic_mint_swap.Database.Changes.{create_quote-cases}
use atomic_mint_swap.Api.Types.{ApiError, AppState, on_broker, on_db}
use atomic_mint_swap.Api.Behind.{
  Agrees, Agrees-accepted, Agrees-completed, Agrees-pending, IsBehind, on_broker-IsBehind,
  on_db-IsBehind, update_quote_status-IsBehind, accept_quote-Advances, complete_swap-Advances,
  accept_quote-Agrees, complete_swap-Agrees,
}
use atomic_mint_swap.Api.Tasks.{
  Handling, asking, inserting, asked, accepting, paying, marking, adding, answered, completing,
  claiming, closing, finding, finishing, finished, ask, insert_quote, pay, Resumed, next, last,
  resume, load_pending, load_accepted, find_stored_swap, add_swap, finish_swap,
}
use atomic_mint_swap.Api.Tasks.Segments.{
  load_pending-Keeps, load_accepted-Keeps, find_stored_swap-Keeps, add_swap-Keeps,
  finish_swap-Keeps, ask-state, ask-pending, insert_quote-state, pay-state, pay-accepted,
  claim-completed,
}
use atomic_mint_swap.Api.Tasks.Behind.{
  Saw, Forward-Advances, Sound, Sound-Keeps, Sound-on_db, Sound-on_broker, ChoosesFresh,
  request_quote-Sound,
}

module _ (env : Env) where
  pub record Kept (s : AppState env) (m : Resumed env) : Type 0 where
    pub sound : Sound env s m.1
    pub saw : Saw env m.0 m.1.service.coordinator

  -- A segment that goes on, or ends the handler.
  Kept-next :
      {A B : Type 0} (go : A → Handling env) (stop : Outcome ApiError B → Handling env)
      (s : AppState env) (r : Outcome ApiError A × AppState env × env.World)
      → Sound env s r.1
      → ((a : A) (s' : AppState env) (w' : env.World)
          → r ≡ (ok a, s', w')
          → Saw env (go a) s'.service.coordinator)
      → ((o : Outcome ApiError B) (c : Coordinator env) → Saw env (stop o) c)
      → Kept s (next env go stop r)
  Kept-next go stop s (ok a, s', w') sound saw ends = record {
    sound = sound;
    saw = saw a s' w' refl;
  }
  Kept-next go stop s (err e, s', w') sound saw ends = record {
    sound = sound;
    saw = ends (err e) _;
  }
  Kept-next go stop s (panic, s', w') sound saw ends = record { sound = sound; saw = ends panic _ }

  Sound-state : (s s1 s2 : AppState env) → s2 ≡ s1 → Sound env s s1 → Sound env s s2
  Sound-state s s1 s2 e h = subst (Sound env s) (sym e) h

  -- The change of a quote's status in the database.
  mark-Sound :
      (id : String) (st : SwapStatus) (s : AppState env) (w : env.World)
      → ((stored : Option String)
          → Agrees (Option.map (λ x. to_string st) stored) (status_of env id s.service.coordinator))
      → IsBehind env s
      → Sound env s (on_db env (update_quote_status env id st none) s w).1
  mark-Sound id st s w a h =
      Sound-on_db env (update_quote_status env id st none) s w
        (update_quote_status-IsBehind env id st s w a h)

  abbrev pub Keeping : AppState env → Option (Resumed env) → Type 0
  Keeping s none = Unit
  Keeping s (some m) = Kept s m

  last-Kept :
      {B : Type 0} (stop : Outcome ApiError B → Handling env) (s : AppState env)
      (r : Outcome ApiError B × AppState env × env.World)
      → Sound env s r.1
      → ((o : Outcome ApiError B) (c : Coordinator env) → Saw env (stop o) c)
      → Kept s (last env stop r)
  last-Kept stop s (o, s', w') sound ends = record { sound = sound; saw = ends o _ }

  pub resume-Keeping :
      (t : Handling env) (s : AppState env) (w : env.World)
      → ChoosesFresh env t s w
      → Saw env t s.service.coordinator
      → IsBehind env s
      → Keeping s (resume env t s w)
  unfolding resume
  resume-Keeping (asking req) s w fresh saw h =
      Kept-next (λ r. inserting r.0 r.1) asked s (ask env req s w)
        (Sound-state s _ _ (ask-state env req s w) (request_quote-Sound env req s w fresh h))
        (λ r s' w' e. ask-pending env req s w r (ap (λ x. x.0) e)) λ o c. tt
  resume-Keeping (inserting q row) s w fresh saw h =
      last-Kept asked s (insert_quote env q row s w)
        (Sound-state s _ _ (insert_quote-state env q row s w) (
          Sound-on_db env (create_quote env row) s w (
            on_db-IsBehind env (create_quote env row) s w
              (λ j a. elim (create_quote-cases env row j s.db w) [
                | inl same ↦
                    subst (λ x. Agrees x (status_of env j s.service.coordinator)) (sym same) a
                | inr new ↦ Agrees-pending _ _ (new ∙ ap some saw)
              ])
              h)))
        λ o c. tt
  resume-Keeping (accepting id req) s w fresh saw h =
      Kept-next (λ r. paying id req r.0 r.1) answered s (load_pending env id req s w)
        (Sound-Keeps env (load_pending env id req) s w (load_pending-Keeps env id req) h)
        (λ r s' w' e. tt) λ o c. tt
  resume-Keeping (paying id req row pk) s w fresh saw h =
      let call = Broker.accept_quote env id pk in
      Kept-next (marking id req row) answered s (pay env id pk s w)
        (Sound-state s _ _ (pay-state env id pk s w) (
          Sound-on_broker env call s w
            (on_broker-IsBehind env call s w
              (λ j a. accept_quote-Agrees env id pk s.service w j _ a) h)
            (Forward-Advances env _ _ (accept_quote-Advances env id pk s.service w))))
        (λ tp s' w' e. inl (pay-accepted env id pk s s' w w' tp e).1) λ o c. tt
  resume-Keeping (marking id req row tp) s w fresh saw h =
      Kept-next (λ _. adding id req row tp) answered s
        (on_db env (update_quote_status env id accepted none) s w)
        (mark-Sound id accepted s w (λ stored. Agrees-accepted stored _ saw) h) (λ r s' w' e. tt)
        λ o c. tt
  resume-Keeping (adding id req row tp) s w fresh saw h =
      last-Kept answered s (add_swap env id req row tp s w)
        (Sound-Keeps env (add_swap env id req row tp) s w (add_swap-Keeps env id req row tp) h)
        λ o c. tt
  resume-Keeping (completing id req) s w fresh saw h =
      Kept-next (λ r. claiming id req r.0 r.1) finished s (load_accepted env id req s w)
        (Sound-Keeps env (load_accepted env id req) s w (load_accepted-Keeps env id req) h)
        (λ r s' w' e. tt) λ o c. tt
  resume-Keeping (claiming id req row ps) s w fresh saw h =
      let call = Broker.complete_swap env id ps in
      Kept-next (λ _. closing id req row) finished s (on_broker env call s w)
        (Sound-on_broker env call s w
          (on_broker-IsBehind env call s w (λ j a. complete_swap-Agrees env id ps s.service w j _ a)
            h)
          (Forward-Advances env _ _ (complete_swap-Advances env id ps s.service w)))
        (λ u s' w' e. claim-completed env id ps s s' w w' e) λ o c. tt
  resume-Keeping (closing id req row) s w fresh saw h =
      Kept-next (λ _. finding id req row) finished s
        (on_db env (update_quote_status env id completed none) s w)
        (mark-Sound id completed s w
          (λ stored. Agrees-completed (Option.map (λ x. to_string completed) stored) _ saw) h)
        (λ r s' w' e. tt) λ o c. tt
  resume-Keeping (finding id req row) s w fresh saw h =
      Kept-next (finishing req row) finished s (find_stored_swap env id s w)
        (Sound-Keeps env (find_stored_swap env id) s w (find_stored_swap-Keeps env id) h)
        (λ r s' w' e. tt) λ o c. tt
  resume-Keeping (finishing req row sw) s w fresh saw h =
      last-Kept finished s (finish_swap env req row sw s w)
        (Sound-Keeps env (finish_swap env req row sw) s w (finish_swap-Keeps env req row sw) h)
        λ o c. tt
  resume-Keeping (asked o) s w fresh saw h = tt
  resume-Keeping (answered o) s w fresh saw h = tt
  resume-Keeping (finished o) s w fresh saw h = tt
