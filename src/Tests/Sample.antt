-- ===== src/Tests/Sample.antt =====
-- A small world in which every call outside the program succeeds, but for a statement of the
-- database after a thousand calls. `World` counts the calls, and gives time and randomness. A scalar and a point are numbers, and a proof is its amount with its
-- secret.
use Prim.Native.String.{compare}
use text.Mathlib.Text.{is_lt}
use atomic_mint_swap.Base.{
  false, ℕ, zero, suc, ◌+◌, ◌-◌, ◌*◌, ◌/◌, String, ◌≡◌, refl, ◌↔◌, true, ◌&&◌, Option, none, some,
  List, [], ◌∷◌, eqb, ltb, if◌then◌else◌, arith, sum_by, length,
}
use atomic_mint_swap.Effect.{Attempt, done}
use atomic_mint_swap.Env.{Env, Curve, Cdk, Host, Driver, Bytes}
use atomic_mint_swap.Env.Laws.{GroupLaws, ProofLaws}

abbrev pub zeros : ℕ → List ℕ
zeros zero = []
zeros (suc n) = 0 ∷ zeros n

abbrev first_byte : Bytes → Option ℕ
first_byte [] = none
first_byte (x ∷ xs) = some x

abbrev pub curve : Curve
curve = record {
  Scalar = ℕ;
  Point = ℕ;
  EvenPoint = ℕ;
  KeyPair = ℕ;
  Message = Bytes;
  EncryptedSignature = ℕ × ℕ;
  Signature = ℕ;
  base_mul = λ s. s;
  point_add = λ p q. some (p + q);
  scalar_add = λ a b. some (a + b);
  point_to_bytes = λ p. p ∷ zeros 32;
  point_from_bytes = first_byte;
  scalar_to_bytes = λ s. s ∷ [];
  to_xonly_bytes = λ p. p ∷ [];
  from_xonly_bytes = first_byte;
  new_xonly = λ s. s;
  message_plain = λ tag m. m;
  encrypted_sign = λ k t m. (k, t);
  verify_encrypted = λ p t m e. eqb p e.0 && eqb t e.1;
  decrypt = λ t e. e.0 + t;
  recover = λ p e g. some (g - e.0);
}

abbrev pub cdk : Cdk ℕ
cdk = record {
  Proof = ℕ × ℕ;
  Secret = ℕ;
  Wallet = String;
  LocalStore = Unit {0};
  MintQuote = ℕ;
  PublicKey = Bytes;
  SpendingConditions = Bytes;
  PreparedSend = ℕ × Bytes;
  Token = ℕ × Bytes;
  Keysets = Unit {0};
  amount = λ p. p.0;
  secret = λ p. p.1;
  secret_eq = eqb;
  total_amount = λ ps. done (sum_by (λ (p : ℕ × ℕ). p.0) ps);
  memory_empty = λ w. (done tt, w + 1);
  wallet_new = λ url store seed. done url;
  mint_quote = λ wallet n w. (done n, w + 1);
  mint = λ wallet n w. (done ((n, w) ∷ []), w + 1);
  wait_and_mint_quote = λ wallet n secs w. (done ((n, w) ∷ []), w + 1);
  public_key_from_slice = λ b. done b;
  new_p2pk = λ k. k;
  prepare_send = λ wallet n cond fee w. (done (n, cond), w + 1);
  confirm = λ p w. (done p, w + 1);
  get_mint_keysets = λ wallet w. (done tt, w + 1);
  token_proofs = λ t ks. done ((t.0, 77) ∷ []);
  swap = λ wallet n ps w. (done (some ((n, w) ∷ [])), w + 1);
}

abbrev pub host : Host ℕ ℕ (ℕ × ℕ)
host = record {
  Time = ℕ;
  now = λ w. (w, w + 1);
  add_seconds = λ t n. some (t + n);
  random_bytes = λ n w. (w ∷ [], w + 1);
  random_scalar = λ w. (w, w + 1);
  F64 = ℕ;
  f64_from_u64 = λ n. n * 1000;
  f64_mul = λ a b. a * b / 1000;
  f64_ceil = λ a. (a + 999) / 1000 * 1000;
  f64_as_u64 = λ a. a / 1000;
  f64_is_nan = λ a. false;
  hex_encode = λ b. "id";
  hex_decode = λ s. done (9 ∷ zeros 32);
  proofs_to_vec = λ ps. done (length ps ∷ []);
  proofs_to_json = λ ps. done "[]";
  proofs_from_json = λ s. done [];
  utc_now = λ w. ("2025-01-17T00:00:00+00:00", w + 1);
  utc_after = λ n w. (some "2025-01-17T00:05:00+00:00", w + 1);
  new_uuid = λ w. ("uuid", w + 1);
}

abbrev pub driver : Driver ℕ
driver = record {
  fault = λ w. (if ltb w 1000 then none else some "disk I/O error", w + 1);
  not_null_failed = "NOT NULL constraint failed";
  unique_failed = "UNIQUE constraint failed";
  foreign_key_failed = "FOREIGN KEY constraint failed";
  check_failed = "CHECK constraint failed";
  text_lt = λ s t. is_lt (compare s t);
  order_desc = λ A key rows. rows;
}

abbrev pub sample : Env
sample = record { World = ℕ; curve = curve; cdk = cdk; host = host; driver = driver }

pub group_laws : GroupLaws curve
group_laws = record { base_add = λ a b s h. h; from_to_bytes = λ p. refl; bytes_length = λ p. refl }

eqb_iff : (a b : ℕ) → (eqb a b ≡ true) ↔ (a ≡ b)
eqb_iff a b = ground arith

done_injective : {a b : ℕ} → ◌≡◌ {A = Attempt String ℕ} (done a) (done b) → a ≡ b
done_injective h = cc

pub proof_laws : ProofLaws {World = ℕ} cdk
proof_laws = record { total_sum = λ ps n h. done_injective h; secret_eq_iff = eqb_iff }
