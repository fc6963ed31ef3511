-- ===== src/Env.antt =====
-- What the program calls and does not implement, as records of operations: the curve (schnorr_fun),
-- the Cashu wallets (cdk), the host (clock, randomness, floats, hex, JSON) and the database driver.
-- `World` is everything outside the program; a call that is not a pure function reads and changes it.
pub mod Laws
use Prim.Native.String.{◌++◌}
use atomic_mint_swap.Base.{ℕ, String, Bool, Option, List}
use atomic_mint_swap.Base.Word.{ℤ}
use atomic_mint_swap.Effect.{Attempt}

abbrev pub Bytes : Type 0
Bytes = List ℕ

-- schnorr_fun and secp256kfun. `none` is the point at infinity and the zero scalar.
pub record Curve : Type 1 where
  pub Scalar : Type 0
  pub Point : Type 0
  pub EvenPoint : Type 0
  pub KeyPair : Type 0
  pub Message : Type 0
  pub EncryptedSignature : Type 0
  pub Signature : Type 0
  -- `g!(s * G).normalize()`, `g!(p + q).normalize().non_zero()`, `scalar_add(a, b).non_zero()`
  pub base_mul : Scalar → Point
  pub point_add : Point → Point → Option Point
  pub scalar_add : Scalar → Scalar → Option Scalar
  pub point_to_bytes : Point → Bytes
  pub point_from_bytes : Bytes → Option Point
  pub scalar_to_bytes : Scalar → Bytes
  pub to_xonly_bytes : Point → Bytes
  pub from_xonly_bytes : Bytes → Option EvenPoint
  pub new_xonly : Scalar → KeyPair
  pub message_plain : String → Bytes → Message
  pub encrypted_sign : KeyPair → Point → Message → EncryptedSignature
  pub verify_encrypted : EvenPoint → Point → Message → EncryptedSignature → Bool
  pub decrypt : Scalar → EncryptedSignature → Signature
  pub recover : Point → EncryptedSignature → Signature → Option Scalar

-- cdk and cdk_sqlite. A failed call gives the `{:?}` text of its error.
pub record Cdk (World : Type 0) : Type 1 where
  pub Proof : Type 0
  pub Secret : Type 0
  pub Wallet : Type 0
  pub LocalStore : Type 0
  pub MintQuote : Type 0
  pub PublicKey : Type 0
  pub SpendingConditions : Type 0
  pub PreparedSend : Type 0
  pub Token : Type 0
  pub Keysets : Type 0
  pub amount : Proof → ℕ
  pub secret : Proof → Secret
  pub secret_eq : Secret → Secret → Bool
  pub total_amount : List Proof → Attempt String ℕ
  pub memory_empty : World → Attempt String LocalStore × World
  pub wallet_new : String → LocalStore → Bytes → Attempt String Wallet
  pub mint_quote : Wallet → ℕ → World → Attempt String MintQuote × World
  pub mint : Wallet → MintQuote → World → Attempt String (List Proof) × World
  -- the last number is the seconds to wait for the payment
  pub wait_and_mint_quote : Wallet → MintQuote → ℕ → World → Attempt String (List Proof) × World
  pub public_key_from_slice : Bytes → Attempt String PublicKey
  pub new_p2pk : PublicKey → SpendingConditions
  pub prepare_send :
      Wallet
      → ℕ
      → SpendingConditions
      → (include_fee : Bool) → World
      → Attempt String PreparedSend × World
  pub confirm : PreparedSend → World → Attempt String Token × World
  pub get_mint_keysets : Wallet → World → Attempt String Keysets × World
  pub token_proofs : Token → Keysets → Attempt String (List Proof)
  pub swap : Wallet → ℕ → List Proof → World → Attempt String (Option (List Proof)) × World

-- The clock, the random generator, `f64`, hex, serde_json, chrono and uuid.
pub record Host (World Scalar Proof : Type 0) : Type 1 where
  pub Time : Type 0
  pub now : World → Time × World
  pub add_seconds : Time → ℕ → Option Time
  pub random_bytes : ℕ → World → Bytes × World
  pub random_scalar : World → Scalar × World
  pub F64 : Type 0
  pub f64_from_u64 : ℕ → F64
  pub f64_mul : F64 → F64 → F64
  pub f64_ceil : F64 → F64
  pub f64_as_u64 : F64 → ℕ
  pub f64_is_nan : F64 → Bool
  pub hex_encode : Bytes → String
  pub hex_decode : String → Attempt String Bytes
  -- `serde_json::to_vec`, `to_string` and `from_str` of a list of proofs
  pub proofs_to_vec : List Proof → Attempt String Bytes
  pub proofs_to_json : List Proof → Attempt String String
  pub proofs_from_json : String → Attempt String (List Proof)
  -- `Utc::now().to_rfc3339()`, the same some seconds later (`none` where chrono overflows), and
  -- `Uuid::new_v4().to_string()`
  pub utc_now : World → String × World
  pub utc_after : ℤ → World → Option String × World
  pub new_uuid : World → String × World

-- sqlx over SQLite. A statement may fail as a whole before it has an effect, with the text of the
-- error; so it does where a constraint of the schema is violated. `text_lt` is the order of two TEXT
-- values, and `order_desc` is `ORDER BY … DESC`.
pub record Driver (World : Type 0) : Type 1 where
  pub fault : World → Option String × World
  pub not_null_failed : String
  pub unique_failed : String
  pub foreign_key_failed : String
  pub check_failed : String
  pub text_lt : String → String → Bool
  pub order_desc : (A : Type 0) → (A → String) → List A → List A

pub record Env : Type 1 where
  pub World : Type 0
  pub curve : Curve
  pub cdk : Cdk World
  pub host : Host World curve.Scalar cdk.Proof
  pub driver : Driver World
