-- ===== src/Adaptor/Keys.antt =====
-- The tweaked keys under the laws of the curve's group, and the round trip of a point.
use atomic_mint_swap.Base.{◌≡◌, arith}
use atomic_mint_swap.Effect.{ok}
use atomic_mint_swap.Env.{Curve}
use atomic_mint_swap.Env.Laws.{GroupLaws}
use atomic_mint_swap.Adaptor.{
  adaptor_point_from_secret, add_scalars, tweak_public_key, point_to_compressed_bytes,
  compressed_bytes_to_point,
}

module _ (c : Curve) where
  -- Under the laws of the curve's group, where the key and the secret can be added, the tweaked
  -- public key P + T is the public key of their sum.
  pub tweak_public_key-add_scalars :
      (laws : GroupLaws c) (x t s : c.Scalar)
      → add_scalars c x t ≡ ok s
      → tweak_public_key c (adaptor_point_from_secret c x) (adaptor_point_from_secret c t)
        ≡ ok (adaptor_point_from_secret c s)
  unfolding tweak_public_key adaptor_point_from_secret add_scalars
  tweak_public_key-add_scalars laws x t s h = ground (arith, laws.base_add x t s)

  -- A point that was encoded decodes to itself.
  pub compressed_bytes_to_point-point_to_compressed_bytes :
      (laws : GroupLaws c) (p : c.Point)
      → compressed_bytes_to_point c (point_to_compressed_bytes c p) ≡ ok p
  unfolding compressed_bytes_to_point point_to_compressed_bytes
  compressed_bytes_to_point-point_to_compressed_bytes laws p =
      ground (arith, laws.from_to_bytes p, laws.bytes_length p)
