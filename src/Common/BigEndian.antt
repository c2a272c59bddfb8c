-- ===== src/Common/BigEndian.antt =====
-- Go's `binary.BigEndian`. The writers take a value that is already a uint16, uint32 or uint64.
use Prim.Native.Nat.{ℕ, ◌+◌, ◌*◌, ◌/◌, ◌%◌, ◌^◌, ◌<◌}
use mathlib.Core.Path.{◌≡◌, refl}
use mathlib.Core.List.{[], ◌∷◌, ◌++◌}
use native.Mathlib.Omega.{arith}
use p2p_netcat_go_wrk.Common.Lists.{Bytes, IsByte, All, length}

-- The low byte of `n` shifted right by `k` bits.
abbrev pub byte_at : ℕ → ℕ → ℕ
byte_at k n = n / 2 ^ k % 256

unfoldable pub put_u16 : ℕ → Bytes
put_u16 n = byte_at 8 n ∷ byte_at 0 n ∷ []

unfoldable pub put_u32 : ℕ → Bytes
put_u32 n = byte_at 24 n ∷ byte_at 16 n ∷ byte_at 8 n ∷ byte_at 0 n ∷ []

unfoldable pub put_u64 : ℕ → Bytes
unfolding put_u32
put_u64 n = put_u32 (n / 2 ^ 32) ++ put_u32 n

-- Reading past the end would panic; every caller has checked the length.
unfoldable pub u16 : Bytes → ℕ
u16 (a ∷ b ∷ _) = a * 256 + b
u16 _ = 0

unfoldable pub u32 : Bytes → ℕ
u32 (a ∷ b ∷ c ∷ d ∷ _) = ((a * 256 + b) * 256 + c) * 256 + d
u32 _ = 0

unfoldable pub u64 : Bytes → ℕ
unfolding u32
u64 (a ∷ b ∷ c ∷ d ∷ rest) = u32 (a ∷ b ∷ c ∷ d ∷ []) * 2 ^ 32 + u32 rest
u64 _ = 0

pub u16-put_u16 : (n : ℕ) (rest : Bytes) → n < 2 ^ 16 → u16 (put_u16 n ++ rest) ≡ n
unfolding u16 put_u16
u16-put_u16 n rest h = omega arith

pub u32-put_u32 : (n : ℕ) (rest : Bytes) → n < 2 ^ 32 → u32 (put_u32 n ++ rest) ≡ n
unfolding u32 put_u32
u32-put_u32 n rest h = omega arith

pub u64-put_u64 : (n : ℕ) (rest : Bytes) → n < 2 ^ 64 → u64 (put_u64 n ++ rest) ≡ n
unfolding u64 put_u64
u64-put_u64 n rest h = omega arith

pub length-put_u16 : (n : ℕ) → length (put_u16 n) ≡ 2
unfolding put_u16
length-put_u16 n = refl

pub length-put_u32 : (n : ℕ) → length (put_u32 n) ≡ 4
unfolding put_u32
length-put_u32 n = refl

pub length-put_u64 : (n : ℕ) → length (put_u64 n) ≡ 8
unfolding put_u64
length-put_u64 n = refl

pub u16-lt : (s : Bytes) → All IsByte s → u16 s < 2 ^ 16
unfolding u16
u16-lt [] h = omega arith
u16-lt (a ∷ []) h = omega arith
u16-lt (a ∷ b ∷ s) h = omega arith

pub put_u16-u16 : (a b : ℕ) → a < 256 → b < 256 → put_u16 (u16 (a ∷ b ∷ [])) ≡ a ∷ b ∷ []
unfolding u16 put_u16
put_u16-u16 a b ha hb = ground arith

u32-lt : (s : Bytes) → All IsByte s → u32 s < 2 ^ 32
unfolding u32
u32-lt [] h = omega arith
u32-lt (a ∷ []) h = omega arith
u32-lt (a ∷ b ∷ []) h = omega arith
u32-lt (a ∷ b ∷ c ∷ []) h = omega arith
u32-lt (a ∷ b ∷ c ∷ d ∷ s) h = omega arith

pub u64-lt : (s : Bytes) → All IsByte s → u64 s < 2 ^ 64
unfolding u64
u64-lt [] h = omega arith
u64-lt (a ∷ []) h = omega arith
u64-lt (a ∷ b ∷ []) h = omega arith
u64-lt (a ∷ b ∷ c ∷ []) h = omega arith
u64-lt (a ∷ b ∷ c ∷ d ∷ s) h =
    let high = u32-lt (a ∷ b ∷ c ∷ d ∷ []) (h.0, (h.1.0, (h.1.1.0, (h.1.1.1.0, tt)))) in
    let low = u32-lt s h.1.1.1.1 in omega (arith, high, low)
