-- ===== src/Swap/Lock.antt =====
-- Whose tokens `prepare_swap` makes: the key that the payout is locked to.
use atomic_mint_swap.Base.{String, ◌≡◌, refl, ap, some, false, List, arith}
use atomic_mint_swap.Error.{BrokerError, cdk_error}
use atomic_mint_swap.Base.Dict.{lookup}
use atomic_mint_swap.Effect.{ok, done, refused, Attempt, lift, attempt, or_fail}
use atomic_mint_swap.Effect.Success.{Post, Post-proceed, Post-value}
use atomic_mint_swap.Env.{Env, Bytes}
use atomic_mint_swap.Env.Laws.{GroupLaws}
use atomic_mint_swap.Adaptor.{adaptor_point_from_secret, add_scalars, point_to_compressed_bytes}
use atomic_mint_swap.Adaptor.Keys.{
  tweak_public_key-add_scalars, compressed_bytes_to_point-point_to_compressed_bytes,
}
use atomic_mint_swap.Liquidity.{get_wallet}
use atomic_mint_swap.Swap.Quote.{QuoteData, Coordinator}
use atomic_mint_swap.Swap.Execute.{client_lock, lock_tokens, pay_out, find_quote, prepare_swap}

module _ (env : Env) where
  open env use {World, cdk, cdk.{Proof}}

  abbrev point_bytes : env.curve.Scalar → Bytes
  point_bytes x = point_to_compressed_bytes env.curve (adaptor_point_from_secret env.curve x)

  -- Under the laws of the curve's group, for a client who sends the public key of `c`, the lock is
  -- the public key of `c` plus the adaptor secret, where the two can be added, and nothing changes.
  client_lock-add_scalars :
      (laws : GroupLaws env.curve)
      → (q : QuoteData env) (c x : env.curve.Scalar) (s : Coordinator env) (w : World)
      → add_scalars env.curve c q.adaptor_secret ≡ ok x
      → client_lock env q (point_bytes c) s w ≡ (ok (point_bytes x), s, w)
  unfolding client_lock
  client_lock-add_scalars laws q c x s w h = rw (
    compressed_bytes_to_point-point_to_compressed_bytes env.curve laws
        (adaptor_point_from_secret env.curve c),
    tweak_public_key-add_scalars env.curve laws c q.adaptor_secret x h,
  )

  -- How the proofs of a payout came about: the wallet of the target mint prepared to send the output
  -- amount, with no fee on top, under the conditions of the key whose bytes are `lock`; what it sent
  -- is a token; and the proofs are that token's.
  pub record Sends (q : QuoteData env) (lock : Bytes) (s : Coordinator env) (ps : List Proof)
      : Type 0 where
    pub wallet : cdk.Wallet
    pub known : get_wallet env q.quote.to_mint s.manager ≡ ok wallet
    pub key : cdk.PublicKey
    pub keyed : cdk.public_key_from_slice lock ≡ done key
    pub before_send : World
    pub prepared : cdk.PreparedSend
    pub before_confirm : World
    pub prepared_runs :
        cdk.prepare_send wallet q.quote.output_amount (cdk.new_p2pk key) false before_send
        ≡ (done prepared, before_confirm)
    pub token : cdk.Token
    pub after_confirm : World
    pub confirmed : cdk.confirm prepared before_confirm ≡ (done token, after_confirm)
    pub keysets : cdk.Keysets
    pub extracted : cdk.token_proofs token keysets ≡ done ps

  attempt_ok :
      {A : Type 0} (f : String → BrokerError) (call : World → Attempt String A × World)
      (s s' : Coordinator env) (w w' : World) (a : A)
      → attempt f call s w ≡ (ok a, s', w')
      → (call w ≡ (done a, w')) × (s' ≡ s)
  attempt_ok f call s s' w w' a h = ground arith

  or_fail_ok :
      {A : Type 0} (f : String → BrokerError) (r : Attempt String A) (s : Coordinator env)
      (w : World) (a : A)
      → (or_fail {W = World} f r s w).0 ≡ ok a
      → r ≡ done a
  or_fail_ok f (done b) s w a h = ground arith
  or_fail_ok f (refused e) s w a h = absurd (cc)

  Post-or_fail :
      {A : Type 0} (Q : A → Coordinator env → World → Type 0) (f : String → BrokerError)
      (r : Attempt String A) (s : Coordinator env) (w : World)
      → ((a : A) → r ≡ done a → Q a s w)
      → Post Q (or_fail {W = World} f r s w)
  Post-or_fail Q f (done a) s w h = h a refl
  Post-or_fail Q f (refused e) s w h = tt

  lock_tokens-Sends :
      (q : QuoteData env) (lock : Bytes) (s : Coordinator env) (w : World) (ps : List Proof)
      → (lock_tokens env q lock s w).0 ≡ ok ps
      → Sends q lock s ps
  unfolding lock_tokens
  lock_tokens-Sends q lock s w ps h =
      let Q : List Proof → Coordinator env → World → Type 0 = λ ps s' w'. Sends q lock s ps in
      let whole : Post Q (lock_tokens env q lock s w) =
        Post-proceed Q _ (lift (get_wallet env q.quote.to_mint s.manager) s w) λ wallet s1 w1 e1.
          Post-proceed Q _
            (attempt (cdk_error "Failed to create mint quote: ")
              (cdk.mint_quote wallet q.quote.output_amount) s1 w1)
            λ mq s2 w2 e2.
              Post-proceed Q _
                (attempt (cdk_error "Failed to mint tokens: ")
                  (cdk.wait_and_mint_quote wallet mq 60) s2 w2)
                λ minted s3 w3 e3.
                  Post-proceed Q _
                    (or_fail (cdk_error "Failed to create public key: ")
                      (cdk.public_key_from_slice lock) s3 w3)
                    λ key s4 w4 e4.
                      Post-proceed Q _
                        (attempt (cdk_error "Failed to prepare locked tokens: ")
                          (cdk.prepare_send wallet q.quote.output_amount (cdk.new_p2pk key) false)
                          s4 w4)
                        λ prep s5 w5 e5.
                          Post-proceed Q _
                            (attempt (cdk_error "Failed to create locked tokens: ")
                              (cdk.confirm prep) s5 w5)
                            λ token s6 w6 e6.
                              Post-proceed Q _
                                (attempt (cdk_error "Failed to get keysets: ")
                                  (cdk.get_mint_keysets wallet) s6 w6)
                                λ keysets s7 w7 e7.
                                  Post-or_fail Q _ (cdk.token_proofs token keysets) s7 w7 λ ps k.
                                    record {
                                      wallet = wallet;
                                      known = ap (λ r. r.0) e1;
                                      key = key;
                                      keyed =
                                          or_fail_ok _ (cdk.public_key_from_slice lock) s3 w3 key
                                            (ap (λ r. r.0) e4);
                                      before_send = w4;
                                      prepared = prep;
                                      before_confirm = w5;
                                      prepared_runs =
                                          (attempt_ok
                                            (cdk_error "Failed to prepare locked tokens: ")
                                            (cdk.prepare_send wallet q.quote.output_amount
                                              (cdk.new_p2pk key) false)
                                            s4 s5 w4 w5 prep e5).0;
                                      token = token;
                                      after_confirm = w6;
                                      confirmed =
                                          (attempt_ok (cdk_error "Failed to create locked tokens: ")
                                            (cdk.confirm prep) s5 s6 w5 w6 token e6).0;
                                      keysets = keysets;
                                      extracted = k;
                                    } in
      Post-value Q (lock_tokens env q lock s w) ps whole h

  pay_out-lock_tokens :
      (id : String) (pk lock : Bytes) (q : QuoteData env) (s : Coordinator env) (w : World)
      (ps : List Proof)
      → client_lock env q pk s w ≡ (ok lock, s, w)
      → (pay_out env id pk q s w).0 ≡ ok ps
      → (lock_tokens env q lock s w).0 ≡ ok ps
  unfolding pay_out
  pay_out-lock_tokens id pk lock q s w ps e h = ground (arith, e)

  prepare_swap-pay_out :
      (id : String) (pk : Bytes) (q : QuoteData env) (s : Coordinator env) (w : World)
      (ps : List Proof)
      → lookup id s.quotes ≡ some q
      → (prepare_swap env id pk s w).0 ≡ ok ps
      → (pay_out env id pk q s w).0 ≡ ok ps
  unfolding prepare_swap find_quote
  prepare_swap-pay_out id pk q s w ps e h = ground (arith, e)

  -- Under the laws of the curve's group, for a client who sends the public key of `c`, where `c` and
  -- the adaptor secret of the quote can be added, the proofs that `prepare_swap` returns are those of
  -- a token of the output amount that the wallet of the target mint has sent under the conditions of
  -- the public key of their sum.
  pub prepare_swap-Sends :
      (laws : GroupLaws env.curve)
      → (id : String) (q : QuoteData env) (c x : env.curve.Scalar) (s : Coordinator env) (w : World)
        (ps : List Proof)
      → lookup id s.quotes ≡ some q
      → add_scalars env.curve c q.adaptor_secret ≡ ok x
      → (prepare_swap env id (point_bytes c) s w).0 ≡ ok ps
      → Sends q (point_bytes x) s ps
  prepare_swap-Sends laws id q c x s w ps found sum h =
      let locked = client_lock-add_scalars laws q c x s w sum in
      let paid = prepare_swap-pay_out id (point_bytes c) q s w ps found h in
      lock_tokens-Sends q (point_bytes x) s w ps
        (pay_out-lock_tokens id (point_bytes c) (point_bytes x) q s w ps locked paid)
