-- ===== src/Common/Integers.antt =====
-- Go's `int` where it may be below zero.
use Prim.Native.Nat.{ℕ}
use mathlib.Core.Path.{◌≡◌, refl}
use mathlib.Core.Bool.{Bool, true, false}
use native.Mathlib.Omega.{arith}
use p2p_netcat_go_wrk.Common.Tests.{ltb}

-- `negsuc n` is -(n + 1).
pub data ℤ : Type 0 where
  pos : ℕ → ℤ
  negsuc : ℕ → ℤ

abbrev pub lt : ℤ → ℤ → Bool
lt (pos m) (pos n) = ltb m n
lt (pos m) (negsuc n) = false
lt (negsuc m) (pos n) = true
lt (negsuc m) (negsuc n) = ltb n m

pub lt_asym : (a b : ℤ) → lt a b ≡ true → lt b a ≡ false
lt_asym (pos m) (pos n) h = ground arith
lt_asym (pos m) (negsuc n) h = cc
lt_asym (negsuc m) (pos n) h = refl
lt_asym (negsuc m) (negsuc n) h = ground arith

-- `a ≤ b` and `b ≤ c` give `a ≤ c`.
pub not-lt_trans : (a b c : ℤ) → lt b a ≡ false → lt c b ≡ false → lt c a ≡ false
not-lt_trans (pos m) (pos n) (pos k) h h' = ground arith
not-lt_trans (pos m) (pos n) (negsuc k) h h' = cc
not-lt_trans (pos m) (negsuc n) c h h' = cc
not-lt_trans (negsuc m) (pos n) (pos k) h h' = refl
not-lt_trans (negsuc m) (pos n) (negsuc k) h h' = cc
not-lt_trans (negsuc m) (negsuc n) (pos k) h h' = refl
not-lt_trans (negsuc m) (negsuc n) (negsuc k) h h' = ground arith
