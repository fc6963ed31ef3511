-- ===== src/Env/Laws.antt =====
-- What the documentation of the outside code promises, as hypotheses of the theorems that use it.
use atomic_mint_swap.Base.{ℕ, ◌≡◌, ◌↔◌, true, some, List, Perm, String, length, sum_by}
use atomic_mint_swap.Effect.{done}
use atomic_mint_swap.Env.{Curve, Cdk, Driver}

-- Scalar multiplication of the generator is a homomorphism; a point survives its encoding in 33
-- bytes.
pub record GroupLaws (c : Curve) : Type 0 where
  pub base_add :
      (a b s : c.Scalar)
      → c.scalar_add a b ≡ some s
      → c.point_add (c.base_mul a) (c.base_mul b) ≡ some (c.base_mul s)
  pub from_to_bytes : (p : c.Point) → c.point_from_bytes (c.point_to_bytes p) ≡ some p
  pub bytes_length : (p : c.Point) → length (c.point_to_bytes p) ≡ 33

module _ {World : Type 0} where
  -- `total_amount` is the sum of the amounts, where that fits in a `u64`, and secrets are compared
  -- by a test that decides equality.
  pub record ProofLaws (k : Cdk World) : Type 0 where
    pub total_sum :
        (ps : List k.Proof) (n : ℕ) → k.total_amount ps ≡ done n → sum_by k.amount ps ≡ n
    pub secret_eq_iff : (a b : k.Secret) → (k.secret_eq a b ≡ true) ↔ (a ≡ b)

  -- `ORDER BY` yields the same rows.
  pub record OrderLaws (d : Driver World) : Type 1 where
    pub order_perm :
        (A : Type 0) (key : A → String) (rows : List A) → Perm (d.order_desc A key rows) rows
