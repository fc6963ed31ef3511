-- ===== src/Liquidity/Secrets.antt =====
-- Proofs told apart by their secrets: what `retain` in `remove_proofs` keeps.
use mathlib.Core.List.Perm
use mathlib.Core.List.{
  Mem, Nodup, Nodup-append, Disjoint, mem-cons_self, mem-cons_of_mem, map-append,
}
use mathlib.Core.Path.{◌∙◌, ap₂}
use atomic_mint_swap.Base.{
  ◌≡◌, refl, subst, inl, inr, Bool, true, false, not, List, [], ◌∷◌, ◌++◌, map, Perm, arith, All,
  All-mono, retain, Bool-cases,
}
use atomic_mint_swap.Base.Perms.{retain-perm, retain-append, retain-none, retain-All}
use atomic_mint_swap.Env.{Env}
use atomic_mint_swap.Env.Laws.{ProofLaws}
use atomic_mint_swap.Liquidity.{has_secret}

module _ (env : Env) where
  open env.cdk use {Proof, Secret, secret, secret_eq}

  abbrev pub secrets : List Proof → List Secret
  secrets = map secret

  abbrev pub kept : List Proof → Proof → Bool
  kept removed p = not (has_secret env removed (secret p))

  module _ (laws : ProofLaws env.cdk) where
    mem-secrets : (ps : List Proof) (s : Secret) → has_secret env ps s ≡ true → Mem s (secrets ps)
    unfolding has_secret
    mem-secrets [] s h = cc
    mem-secrets (p ∷ ps) s h = elim (Bool-cases (secret_eq (secret p) s)) [
      | inl e ↦
          subst (λ x. Mem x (secrets (p ∷ ps))) ((laws.secret_eq_iff (secret p) s).0 e)
            mem-cons_self
      | inr e ↦ mem-cons_of_mem (secret p) (mem-secrets ps s (ground arith))
    ]

    has_own_secrets : (ps : List Proof) → All (λ p. kept ps p ≡ false) ps
    unfolding has_secret
    has_own_secrets [] = tt
    has_own_secrets (p ∷ ps) = (
      ground (arith, (laws.secret_eq_iff (secret p) (secret p)).1 refl),
      All-mono _ _ ps (λ x h. ground arith) (has_own_secrets ps),
    )

    lacks_secrets :
        (removed ps : List Proof)
        → Disjoint (secrets removed) (secrets ps)
        → All (λ p. kept removed p ≡ true) ps
    lacks_secrets removed [] d = tt
    lacks_secrets removed (p ∷ ps) d = (
      elim (Bool-cases (has_secret env removed (secret p))) [
        | inl e ↦ absurd (d (secret p) (mem-secrets removed (secret p) e) mem-cons_self)
        | inr e ↦ rw e
      ],
      lacks_secrets removed ps (λ x u y. d x u (mem-cons_of_mem (secret p) y)),
    )

    kept_of_split :
        (removed rest : List Proof)
        → Disjoint (secrets removed) (secrets rest)
        → retain (kept removed) (removed ++ rest) ≡ rest
    kept_of_split removed rest apart =
        retain-append (kept removed) removed rest
        ∙ ap₂ ◌++◌ (retain-none (kept removed) removed (has_own_secrets removed))
            (retain-All (kept removed) rest (lacks_secrets removed rest apart))

    -- Where no secret is held twice, `retain` takes away exactly the proofs that are to go.
    pub retain-kept-perm :
        (held removed rest : List Proof)
        → Perm held (removed ++ rest)
        → Nodup (secrets held)
        → Perm (retain (kept removed) held) rest
    retain-kept-perm held removed rest split distinct =
        let together = Perm.nodup (Perm.map secret split) distinct in
        let apart = (Nodup-append.0 (subst Nodup (map-append secret removed rest) together)).2 in
        rw (← kept_of_split removed rest apart) (retain-perm (kept removed) split)
