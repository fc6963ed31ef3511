-- ===== src/Base/Word.antt =====
-- `u64` and `i64`. Values stay plain numbers; a wrap-around is written where the code can wrap.
use Prim.Native.Nat.{ℕ, ◌+◌, ◌-◌, ◌%◌, ◌^◌, ◌<◌}
use mathlib.Core.Path.{◌≡◌}
use native.Mathlib.Omega.{arith}
use atomic_mint_swap.Base.Tests.{ltb, if◌then◌else◌}

abbrev pub u64_mod : ℕ
u64_mod = 2 ^ 64

-- `a + b` as a release build computes it.
abbrev pub add_u64 : ℕ → ℕ → ℕ
add_u64 a b = (a + b) % u64_mod

-- `negsuc n` is -(n + 1).
pub data ℤ : Type 0 where
  pos : ℕ → ℤ
  negsuc : ℕ → ℤ

-- `n as i64`: the same bits, read as two's complement.
unfoldable pub as_i64 : ℕ → ℤ
as_i64 n = if ltb n (2 ^ 63) then pos n else negsuc (u64_mod - n - 1)

-- `z as u64`
unfoldable pub as_u64 : ℤ → ℕ
as_u64 (pos n) = n % u64_mod
as_u64 (negsuc n) = (u64_mod - 1 - n % u64_mod) % u64_mod

-- A cast to `i64` and back is the identity on every `u64`.
pub as_u64-as_i64 : (n : ℕ) → n < u64_mod → as_u64 (as_i64 n) ≡ n
unfolding as_u64 as_i64
as_u64-as_i64 n h = ground arith
