-- ===== src/Adaptor.antt =====
-- cashu-broker/src/adaptor.rs: `AdaptorContext`, and the point encoding helpers of
-- cashu-broker/src/swap.rs.
pub mod Keys
use Prim.Native.Nat.{ℕ}
use atomic_mint_swap.Base.{
  String, Bool, true, false, Option, none, some, eqb, length, if◌then◌else◌,
}
use atomic_mint_swap.Error.{BrokerError, adaptor_signature}
use atomic_mint_swap.Effect.{Outcome, ok, err, panic}
use atomic_mint_swap.Env.{Curve, Bytes}

module _ (c : Curve) where
  open c use {
    Scalar, Point, EvenPoint, KeyPair, Message, EncryptedSignature, Signature, base_mul, point_add,
    scalar_add,
  }

  -- T = t * G
  unfoldable pub adaptor_point_from_secret : Scalar → Point
  adaptor_point_from_secret secret = base_mul secret

  unfoldable pub create_encrypted_signature :
      Scalar → Point → Bytes → Outcome BrokerError EncryptedSignature
  create_encrypted_signature signing_key encryption_point message = ok (
      c.encrypted_sign (c.new_xonly signing_key) encryption_point
        (c.message_plain "cashu-swap" message))

  verify_with :
      Option EvenPoint → Point → Message → EncryptedSignature → Outcome BrokerError (Unit {0})
  verify_with none _ _ _ = err (adaptor_signature "Failed to convert public key to EvenY")
  verify_with (some p) encryption_point msg encrypted_sig =
      if c.verify_encrypted p encryption_point msg encrypted_sig
      then ok tt
      else err (adaptor_signature "Encrypted signature verification failed")

  unfoldable pub verify_encrypted_signature :
      Point → Point → Bytes → EncryptedSignature → Outcome BrokerError (Unit {0})
  unfolding verify_with
  verify_encrypted_signature public_key encryption_point message encrypted_sig =
      verify_with (c.from_xonly_bytes (c.to_xonly_bytes public_key)) encryption_point
        (c.message_plain "cashu-swap" message) encrypted_sig

  unfoldable pub decrypt_signature : Scalar → EncryptedSignature → Outcome BrokerError Signature
  decrypt_signature decryption_secret encrypted_sig = ok (c.decrypt decryption_secret encrypted_sig)

  recovered : Option Scalar → Outcome BrokerError Scalar
  recovered none = err (adaptor_signature "Failed to recover adaptor secret")
  recovered (some t) = ok t

  unfoldable pub recover_adaptor_secret :
      Point → EncryptedSignature → Signature → Outcome BrokerError Scalar
  unfolding recovered
  recover_adaptor_secret encryption_point encrypted_sig revealed_sig =
      recovered (c.recover encryption_point encrypted_sig revealed_sig)

  -- `expect`
  abbrev or_die : {A : Type 0} → Option A → Outcome BrokerError A
  or_die none = panic
  or_die (some a) = ok a

  -- The sum of two scalars panics where it is zero.
  unfoldable pub add_scalars : Scalar → Scalar → Outcome BrokerError Scalar
  add_scalars a b = or_die (scalar_add a b)

  -- P' = P + T
  unfoldable pub tweak_public_key : Point → Point → Outcome BrokerError Point
  tweak_public_key pubkey tweak = or_die (point_add pubkey tweak)

  unfoldable pub point_to_compressed_bytes : Point → Bytes
  point_to_compressed_bytes p = c.point_to_bytes p

  decoded : Option Point → Outcome BrokerError Point
  decoded none = err (adaptor_signature "Invalid point bytes")
  decoded (some p) = ok p

  unfoldable pub compressed_bytes_to_point : Bytes → Outcome BrokerError Point
  unfolding decoded
  compressed_bytes_to_point bytes =
      if eqb (length bytes) 33
      then decoded (c.point_from_bytes bytes)
      else err (adaptor_signature "Invalid point bytes length")

  unfoldable pub scalar_to_bytes : Scalar → Bytes
  scalar_to_bytes s = c.scalar_to_bytes s
