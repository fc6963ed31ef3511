-- ===== src/Swap/Quote/Created.antt =====
-- What a quote that was created says, and where it is found.
use atomic_mint_swap.Base.{
  ◌≤◌, String, ◌≡◌, subst, sym, ap, ◌-◌, ◌==◌, if◌then◌else◌, ◌∙◌, some, arith,
}
use atomic_mint_swap.Base.Dict.{lookup, lookup-insert, lookup-insert_self}
use atomic_mint_swap.Effect.{ok, ◌>>=◌}
use atomic_mint_swap.Effect.Frame.{>>=-eq-ok}
use atomic_mint_swap.Env.{Env, Bytes}
use atomic_mint_swap.Env.Laws.{GroupLaws}
use atomic_mint_swap.Types.{BrokerConfig, SwapRequest, SwapQuote}
use atomic_mint_swap.Types.Status.{pending}
use atomic_mint_swap.Adaptor.{
  adaptor_point_from_secret, add_scalars, tweak_public_key, point_to_compressed_bytes,
}
use atomic_mint_swap.Adaptor.Keys.{tweak_public_key-add_scalars}
use atomic_mint_swap.Liquidity.{can_swap, get_balance}
use atomic_mint_swap.Swap.Quote.{
  QuoteData, Coordinator, QuoteKeys, validate_swap_request, generate_keys, build_quote, store_quote,
  issue_quote, create_quote, output_after_fee, swap_fee,
}
use atomic_mint_swap.Swap.Execute.{get_quote}
use atomic_mint_swap.Swap.Quote.Atomic.{generate_keys-reads}
use atomic_mint_swap.Swap.Quote.Validate.{IsServed, Validated, validate_swap_request-Validated}

module _ (env : Env) where
  abbrev point_bytes : env.curve.Scalar → Bytes
  point_bytes x = point_to_compressed_bytes env.curve (adaptor_point_from_secret env.curve x)

  -- The points of the keys are those of its secrets, and the tweaked key is their sum.
  pub record AreSound (k : QuoteKeys env) : Type 0 where
    pub adaptor_ok : k.adaptor_point_bytes ≡ point_bytes k.adaptor_secret
    pub broker_ok : k.broker_pubkey_bytes ≡ point_bytes k.broker_swap_key
    pub tweaked : env.curve.Point
    pub tweaked_sum :
        tweak_public_key env.curve
          (adaptor_point_from_secret env.curve k.broker_swap_key)
          (adaptor_point_from_secret env.curve k.adaptor_secret)
        ≡ ok tweaked
    pub tweaked_ok : k.tweaked_pubkey_bytes ≡ point_to_compressed_bytes env.curve tweaked

  generate_keys-AreSound :
      (s : Coordinator env) (w : env.World) (k : QuoteKeys env)
      → (generate_keys env s w).0 ≡ ok k
      → AreSound k
  unfolding generate_keys
  generate_keys-AreSound s w k h =
      let (t, w1) = env.host.random_scalar w in
      let (x, w2) = env.host.random_scalar w1 in
      let sum : (p : env.curve.Point) × (tweak_public_key env.curve
              (adaptor_point_from_secret env.curve x) (adaptor_point_from_secret env.curve t)
            ≡ ok p) =
        ground arith in
      record {
        adaptor_ok = ground (arith, sum.1);
        broker_ok = ground (arith, sum.1);
        tweaked = sum.0;
        tweaked_sum = ground (arith, sum.1);
        tweaked_ok = ground (arith, sum.1);
      }

  -- How a quote came about.
  pub record Creates (config : BrokerConfig env) (request : SwapRequest) (s s' : Coordinator env)
      (q : SwapQuote env) : Type 0 where
    pub keys : QuoteKeys env
    pub sound : AreSound keys
    pub expires_at : env.host.Time
    pub id : Bytes
    pub served : IsServed env config request
    pub funded :
        output_after_fee env config request.amount ≤ get_balance env request.to_mint s.manager
    pub built : q ≡ build_quote env config request keys expires_at id
    pub stored : s' ≡ store_quote env keys q s

  module _ (config : BrokerConfig env) (request : SwapRequest) (q : SwapQuote env) where
    issue_quote_lem :
        (k : QuoteKeys env) (s : Coordinator env) (w : env.World)
        → (issue_quote env config request k s w).0 ≡ ok q
        → (t : env.host.Time) × (id : Bytes) × (q ≡ build_quote env config request k t id)
          × ((issue_quote env config request k s w).1 ≡ store_quote env k q s)
    unfolding issue_quote
    issue_quote_lem k s w h =
        let (now, w1) = env.host.now w in
        let due : (t : env.host.Time) × (env.host.add_seconds now config.quote_expiry_seconds
              ≡ some t) =
          ground arith in
        (due.0, (env.host.random_bytes 16 w1).0, ground (arith, due.1), ground (arith, due.1))

    -- The checks of `create_quote` have passed, and the rest of it runs.
    create_quote_passed :
        (s : Coordinator env) (w : env.World)
        → (create_quote env config request s w).0 ≡ ok q
        → (validate_swap_request env config request ≡ ok tt)
          × (output_after_fee env config request.amount ≤ get_balance env request.to_mint s.manager)
          × (create_quote env config request s w
              ≡ (generate_keys env >>= issue_quote env config request) s w)
    unfolding create_quote can_swap
    create_quote_passed s w h = (ground arith, ground arith, ground arith)

    create_quote-Creates :
        (s : Coordinator env) (w : env.World)
        → (create_quote env config request s w).0 ≡ ok q
        → Creates config request s (create_quote env config request s w).1 q
    create_quote-Creates s w h =
        let (validated, funded, whole) = create_quote_passed s w h in
        let (k, s', w', made, rest) =
          >>=-eq-ok (generate_keys env) (issue_quote env config request) s w
            (subst (λ r. r.0 ≡ ok q) whole h) in
        let issued : (issue_quote env config request k s' w').0 ≡ ok q =
          ap (λ r. r.0) (sym (whole ∙ rest)) ∙ h in
        let (t, id, built, stored) = issue_quote_lem k s' w' issued in
        let same : s' ≡ s = ap (λ r. r.1) (sym made) ∙ (generate_keys-reads env (λ x. x)).at s w in
        record {
          keys = k;
          sound = generate_keys-AreSound s w k (ap (λ r. r.0) made);
          expires_at = t;
          id = id;
          served =
              subst (Validated env config request) validated
                (validate_swap_request-Validated env config request);
          funded = funded;
          built = built;
          stored = ap (λ r. r.1) (whole ∙ rest) ∙ stored ∙ ap (store_quote env k q) same;
        }

    -- A quote that `create_quote` returns is for a request that is served; it names its mints and its
    -- amount; the fee is the amount times the configured rate, computed on floats, rounded up and cast
    -- back; the output is the amount less the fee, stopping at 0, and the target mint's balance covers
    -- it; and it is pending.
    pub create_quote-terms :
        (s : Coordinator env) (w : env.World)
        → (create_quote env config request s w).0 ≡ ok q
        → IsServed env config request
          × (q.from_mint ≡ request.from_mint)
          × (q.to_mint ≡ request.to_mint)
          × (q.input_amount ≡ request.amount)
          × (q.fee
              ≡ env.host.f64_as_u64 (
                  env.host.f64_ceil
                    (env.host.f64_mul (env.host.f64_from_u64 request.amount) config.fee_rate)))
          × (q.fee_rate ≡ config.fee_rate)
          × (q.output_amount ≡ request.amount - q.fee)
          × (q.output_amount ≤ get_balance env request.to_mint s.manager)
          × (q.status ≡ pending)
    unfolding build_quote output_after_fee swap_fee
    create_quote-terms s w h =
        let c = create_quote-Creates s w h in
        let b = c.built in
        let funded = c.funded in
        (
          c.served,
          ap (λ x. x.from_mint) b,
          ap (λ x. x.to_mint) b,
          ap (λ x. x.input_amount) b,
          ap (λ x. x.fee) b,
          ap (λ x. x.fee_rate) b,
          ground arith,
          ground arith,
          ap (λ x. x.status) b,
        )

    -- After `create_quote` has returned a quote, the quote is found under its id, and every other
    -- id finds what it found before.
    pub create_quote-stored :
        (s : Coordinator env) (w : env.World) (id : String)
        → (create_quote env config request s w).0 ≡ ok q
        → let s' = (create_quote env config request s w).1 in
          get_quote env id s' ≡ (if q.quote_id == id then some q else get_quote env id s)
    unfolding get_quote store_quote
    create_quote-stored s w id h =
        let c = create_quote-Creates s w h in
        let d : QuoteData env = record {
          quote = q;
          broker_swap_key = c.keys.broker_swap_key;
          adaptor_secret = c.keys.adaptor_secret;
        } in
        rw c.stored (ground (arith, lookup-insert q.quote_id id d s.quotes))

    -- Under the laws of the curve's group, where the key and the secret that `create_quote` stored
    -- under a new quote's id can be added, the tweaked public key that the quote publishes is the
    -- public key of their sum.
    pub create_quote-tweaked_pubkey :
        (laws : GroupLaws env.curve)
        → (s : Coordinator env) (w : env.World) (d : QuoteData env) (x : env.curve.Scalar)
        → (create_quote env config request s w).0 ≡ ok q
        → lookup q.quote_id (create_quote env config request s w).1.quotes ≡ some d
        → add_scalars env.curve d.broker_swap_key d.adaptor_secret ≡ ok x
        → q.tweaked_pubkey ≡ some (point_bytes x)
    unfolding store_quote build_quote
    create_quote-tweaked_pubkey laws s w d x h found sum =
        let c = create_quote-Creates s w h in
        let k = c.keys in
        let d' : QuoteData env = record {
          quote = q;
          broker_swap_key = k.broker_swap_key;
          adaptor_secret = k.adaptor_secret;
        } in
        let stored : lookup q.quote_id (create_quote env config request s w).1.quotes ≡ some d' =
          rw c.stored (lookup-insert_self q.quote_id d' s.quotes) in
        let same : d ≡ d' = ground (arith, stored) in
        let tweak =
          tweak_public_key-add_scalars env.curve laws k.broker_swap_key k.adaptor_secret x (
            subst
              (λ (e : QuoteData env).
                add_scalars env.curve e.broker_swap_key e.adaptor_secret ≡ ok x)
              same sum) in
        ap (λ r. r.tweaked_pubkey) c.built
        ∙ ap some (ground (arith, tweak, c.sound.tweaked_sum, c.sound.tweaked_ok))
