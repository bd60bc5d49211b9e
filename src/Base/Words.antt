-- ===== src/Base/Words.antt =====
-- Machine words: uint64_t (and size_t) arithmetic with its wrap-around, and int32_t node numbers.
use Prim.Native.Nat.{ℕ, ◌+◌, ◌-◌, ◌%◌, ◌^◌}
use mathlib.Core.Path.{◌≡◌}
use mathlib.Core.Logic.{◌↔◌}
use mathlib.Core.Bool.{Bool, true, false}
use native.Mathlib.Omega.{arith}
use first_principle_cs.Base.Tests.{◌==◌}

abbrev pub u64 : ℕ
u64 = 2 ^ 64

abbrev pub u32 : ℕ
u32 = 2 ^ 32

abbrev pub add64 : ℕ → ℕ → ℕ
add64 a b = (a + b) % u64

-- `-` on ℕ stops at 0, so the modulus is added first.
abbrev pub sub64 : ℕ → ℕ → ℕ
sub64 a b = (a + u64 - b) % u64

-- int32_t: `negsuc n` is -(n + 1).
pub data ℤ : Type 0 where
  pos : ℕ → ℤ
  negsuc : ℕ → ℤ

abbrev pub same_id : ℤ → ℤ → Bool
same_id (pos a) (pos b) = a == b
same_id (negsuc a) (negsuc b) = a == b
same_id (pos a) (negsuc b) = false
same_id (negsuc a) (pos b) = false

abbrev pub is_nonneg : ℤ → Bool
is_nonneg (pos a) = true
is_nonneg (negsuc a) = false

-- -1, the source's "no node".
abbrev pub no_id : ℤ
no_id = negsuc 0

pub same_id_iff : (a b : ℤ) → (same_id a b ≡ true) ↔ (a ≡ b)
same_id_iff a b = ground arith
