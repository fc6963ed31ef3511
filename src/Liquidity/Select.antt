-- ===== src/Liquidity/Select.antt =====
-- What `select_proofs` promises: a part of the held proofs that covers the amount, with no proof
-- too many, the largest first; and that it fails exactly where all the held proofs do not cover it.
use mathlib.Core.List.Perm
use native.Mathlib.Nat.{le_trans}
use atomic_mint_swap.Base.{
  ℕ, ◌+◌, ◌≤◌, ◌<◌, String, ◌≡◌, refl, ap, subst, ◌⊎◌, inl, inr, some, List, [], ◌∷◌, ◌++◌, Perm,
  arith, sum_by, sum_by-append, All, All-mono, ltb, leb, Bool-cases, ltb→lt, if◌then◌else◌,
}
use atomic_mint_swap.Base.Dict.{lookup}
use atomic_mint_swap.Base.Perms.{sum_by-perm}
use atomic_mint_swap.Base.Word.{u64_mod, add_u64}
use atomic_mint_swap.Error.{insufficient_liquidity}
use atomic_mint_swap.Effect.{ok, err}
use atomic_mint_swap.Env.{Env}
use atomic_mint_swap.Liquidity.{
  MintLiquidity, LiquidityManager, place, sort_largest_first, select_from, select_proofs,
}

module _ (env : Env) where
  open env.cdk use {Proof, amount}

  abbrev pub value : List Proof → ℕ
  value = sum_by amount

  place-perm : (p : Proof) (ps : List Proof) → Perm (place env p ps) (p ∷ ps)
  unfolding place
  place-perm p [] = Perm.refl (p ∷ [])
  place-perm p (q ∷ qs) = elim (Bool-cases (leb (amount q) (amount p))) [
    | inl e ↦ rw (e, place) (Perm.refl (p ∷ q ∷ qs))
    | inr e ↦ rw (e, place) (Perm.trans (Perm.cons q (place-perm p qs)) (Perm.swap p q qs))
  ]

  pub sort_largest_first-perm : (ps : List Proof) → Perm (sort_largest_first env ps) ps
  unfolding sort_largest_first
  sort_largest_first-perm [] = Perm.nil
  sort_largest_first-perm (p ∷ ps) =
      Perm.trans (place-perm p (sort_largest_first env ps))
        (Perm.cons p (sort_largest_first-perm ps))

  -- Amounts fall along the list.
  abbrev pub IsDescending : List Proof → Type 0
  IsDescending [] = Unit
  IsDescending (p ∷ ps) = All (λ q. amount q ≤ amount p) ps × IsDescending ps

  place-All :
      (n : ℕ) (p : Proof) (ps : List Proof)
      → amount p ≤ n
      → All (λ q. amount q ≤ n) ps
      → All (λ q. amount q ≤ n) (place env p ps)
  unfolding place
  place-All n p [] h k = (h, tt)
  place-All n p (q ∷ qs) h k = ground (arith, place-All n p qs h k.1)

  place-IsDescending :
      (p : Proof) (ps : List Proof) → IsDescending ps → IsDescending (place env p ps)
  unfolding place
  place-IsDescending p [] h = (tt, tt)
  place-IsDescending p (q ∷ qs) h = elim (Bool-cases (leb (amount q) (amount p))) [
    | inl e ↦
        let below : amount q ≤ amount p = ground arith in
        rw (e, place) ((below, All-mono _ _ qs (λ x k. le_trans k below) h.0), h)
    | inr e ↦
        rw (e, place) (place-All (amount q) p qs (ground arith) h.0, place-IsDescending p qs h.1)
  ]

  pub sort_largest_first-IsDescending : (ps : List Proof) → IsDescending (sort_largest_first env ps)
  unfolding sort_largest_first
  sort_largest_first-IsDescending [] = tt
  sort_largest_first-IsDescending (p ∷ ps) =
      place-IsDescending p (sort_largest_first env ps) (sort_largest_first-IsDescending ps)

  -- What the greedy loop leaves behind.
  left_from : ℕ → ℕ → List Proof → List Proof
  left_from n total [] = []
  left_from n total (p ∷ ps) =
      if leb n total then p ∷ ps else left_from n (add_u64 total (amount p)) ps

  -- The loop selects a front part of the list and sums it, if no sum leaves the `u64`s; it stops
  -- early only where the amount is reached.
  select_from_lem :
      (n total : ℕ) (ps : List Proof)
      → total + value ps < u64_mod
      → (ps ≡ (select_from env n total ps).0 ++ left_from n total ps)
        × ((select_from env n total ps).1 ≡ total + value (select_from env n total ps).0)
        × ((left_from n total ps ≡ []) ⊎ (n ≤ (select_from env n total ps).1))
  unfolding select_from left_from
  select_from_lem n total [] h = ground arith
  select_from_lem n total (p ∷ ps) h =
      let step : add_u64 total (amount p) ≡ total + amount p = ground arith in
      ground (arith, step, select_from_lem n (add_u64 total (amount p)) ps (ground arith))

  -- Without its last proof the selection does not reach the amount.
  select_from-minimal :
      (n total : ℕ) (ps qs : List Proof) (q : Proof)
      → total + value ps < u64_mod
      → (select_from env n total ps).0 ≡ qs ++ q ∷ []
      → total + value qs < n
  unfolding select_from
  select_from-minimal n total [] [] q h e = cc
  select_from-minimal n total [] (r ∷ rs) q h e = cc
  select_from-minimal n total (p ∷ ps) [] q h e = ground arith
  select_from-minimal n total (p ∷ ps) (r ∷ rs) q h e =
      let step : add_u64 total (amount p) ≡ total + amount p = ground arith in
      ground (arith, step, select_from-minimal n (add_u64 total (amount p)) ps rs q (ground arith))

  -- Every selected proof is at least as large as every proof that is left.
  front_largest :
      (xs ys : List Proof)
      → IsDescending (xs ++ ys)
      → All (λ x. All (λ y. amount y ≤ amount x) ys) xs
  front_largest [] ys h = tt
  front_largest (x ∷ xs) ys h = (All-append_right xs h.0, front_largest xs ys h.1)
    where
      All-append_right :
          (xs : List Proof)
          → All (λ y. amount y ≤ amount x) (xs ++ ys)
          → All (λ y. amount y ≤ amount x) ys
      All-append_right [] h = h
      All-append_right (z ∷ zs) h = All-append_right zs h.1

  last_split : (l : List Proof) → (l ≡ []) ⊎ ((qs : List Proof) × (q : Proof) × (l ≡ qs ++ q ∷ []))
  last_split [] = inl refl
  last_split (x ∷ l) = inr (elim (last_split l) [
    | inl e ↦ ([], x, ap (◌∷◌ x) e)
    | inr (qs, q, e) ↦ (x ∷ qs, q, ap (◌∷◌ x) e)
  ])

  -- What a selection of `selected` for the amount `n` out of `held` promises.
  pub record Selects (n : ℕ) (held selected : List Proof) : Type 0 where
    pub rest : List Proof
    pub split : Perm held (selected ++ rest)
    pub covers : n ≤ value selected
    pub minimal :
        (selected ≡ [])
        ⊎ ((qs : List Proof) × (q : Proof) × (selected ≡ qs ++ q ∷ []) × (value qs < n))
    pub largest : All (λ x. All (λ y. amount y ≤ amount x) rest) selected

  module _ (n : ℕ) (held : List Proof) (fits : value held < u64_mod) where
    sorted : List Proof
    sorted = sort_largest_first env held

    sorted_fits : 0 + value sorted < u64_mod
    unfolding sorted
    sorted_fits = omega (arith, sum_by-perm amount (sort_largest_first-perm held))

    picked : List Proof × ℕ
    picked = select_from env n 0 (sort_largest_first env held)

    select-Selects : n ≤ picked.1 → Selects n held picked.0
    unfolding picked sorted
    select-Selects reached =
        let s = select_from_lem n 0 (sort_largest_first env held) sorted_fits in
        record {
          rest = left_from n 0 (sort_largest_first env held);
          split = subst (λ l. Perm held l) s.0 (Perm.symm (sort_largest_first-perm held));
          covers = ground (arith, s.1);
          minimal = elim (last_split picked.0) [
            | inl e ↦ inl e
            | inr (qs, q, e) ↦
                let below =
                  select_from-minimal n 0 (sort_largest_first env held) qs q sorted_fits e in
                inr (qs, q, e, omega arith)
          ];
          largest =
              front_largest _ _ (subst IsDescending s.0 (sort_largest_first-IsDescending held));
        }

    select_short : picked.1 < n → picked.1 ≡ value held
    unfolding picked sorted
    select_short short =
        let s = select_from_lem n 0 (sort_largest_first env held) sorted_fits in
        elim s.2 [
          | inl none_left ↦ omega (
            arith,
            s.1,
            ap value s.0,
            sum_by-append amount picked.0 (left_from n 0 (sort_largest_first env held)),
            ap value none_left,
            sum_by-perm amount (sort_largest_first-perm held),
          )
          | inr reached ↦ absurd (omega arith)
        ]

    value-picked : picked.1 ≤ value held
    unfolding picked sorted
    value-picked =
        let s = select_from_lem n 0 (sort_largest_first env held) sorted_fits in
        omega (
          arith,
          s.1,
          ap value s.0,
          sum_by-append amount picked.0 (left_from n 0 (sort_largest_first env held)),
          sum_by-perm amount (sort_largest_first-perm held),
        )

  module _ (url : String) (n : ℕ) (m : LiquidityManager env) (l : MintLiquidity env)
      (known : lookup url m.liquidity ≡ some l) (fits : value l.proofs < u64_mod) where
    -- On a known mint whose proofs sum to a `u64`, `select_proofs` succeeds if they cover the
    -- amount. The selection and the proofs that are left are a permutation of the held proofs; the
    -- selection covers the amount; it is empty, or does not cover the amount without its last proof;
    -- and none of its proofs is smaller than one that is left.
    pub select_proofs-Selects :
        n ≤ value l.proofs
        → (selected : List Proof) × (select_proofs env url n m ≡ ok selected)
          × Selects n l.proofs selected
    unfolding select_proofs picked
    select_proofs-Selects enough = elim (Bool-cases (ltb (picked n l.proofs fits).1 n)) [
      | inl short ↦
          let below = ltb→lt (picked n l.proofs fits).1 n short in
          absurd (omega (arith, below, select_short n l.proofs fits below))
      | inr reached ↦
          ((picked n l.proofs fits).0, ground arith, select-Selects n l.proofs fits (ground arith))
    ]

    -- On a known mint whose proofs sum to a `u64`, `select_proofs` fails if they do not cover the
    -- amount, and the error reports what is held there.
    pub select_proofs-short :
        value l.proofs < n
        → select_proofs env url n m ≡ err (insufficient_liquidity url n (value l.proofs))
    unfolding select_proofs picked
    select_proofs-short short = ground (
      arith,
      value-picked n l.proofs fits,
      select_short n l.proofs fits (ground (arith, value-picked n l.proofs fits)),
    )
