-- ===== src/Common/Times.antt =====
-- Go's `time.Time` at the second: a time counts nanoseconds since the year 1, and one that is made
-- from seconds is below zero where its 64 bits wrap around.
use Prim.Native.Nat.{ℕ, ◌+◌, ◌-◌, ◌*◌, ◌/◌, ◌%◌, ◌^◌, ◌<◌, ◌≤◌}
use mathlib.Core.Path.{◌≡◌}
use mathlib.Core.Bool.{Bool, true, false, ◌&&◌, ◌||◌}
use native.Mathlib.Omega.{arith}
use mathlib.Core.Logic.{inl, inr}
use p2p_netcat_go_wrk.Common.Tests.{ltb, ◌==◌, if◌then◌else◌, Bool-cases}
use p2p_netcat_go_wrk.Common.Integers.{ℤ, pos, negsuc, lt}

abbrev pub second : ℕ
second = 1000000000

-- The seconds from the year 1 to 1970.
abbrev pub unix_to_internal : ℕ
unix_to_internal = 62135596800

-- `time.Unix(int64(seconds), 0)` in seconds since the year 1, which wrap around in 64 bits.
unfoldable pub unix_time : ℕ → ℤ
unix_time seconds =
    let internal = (seconds + unix_to_internal) % 2 ^ 64 in
    if ltb internal (2 ^ 63) then pos internal else negsuc (2 ^ 64 - 1 - internal)

-- `a.After(b)` and `a.Before(b)` for a time of whole seconds.
abbrev pub is_after : ℤ → ℕ → Bool
is_after seconds time = lt (pos (time / second)) seconds

abbrev pub same_second : ℤ → ℕ → Bool
same_second (pos n) second_ = n == second_
same_second (negsuc n) second_ = false

abbrev pub is_before : ℤ → ℕ → Bool
is_before seconds time =
    lt seconds (pos (time / second))
    || (same_second seconds (time / second) && ltb 0 (time % second))

-- A time that is not before another one, in nanoseconds since the year 1.
pub not_before :
    (seconds time : ℕ)
    → is_before (unix_time seconds) time ≡ false
    → ((seconds + unix_to_internal) % 2 ^ 64 < 2 ^ 63)
      × (time ≤ (seconds + unix_to_internal) % 2 ^ 64 * second)
unfolding unix_time
not_before seconds time h =
    elim (Bool-cases (ltb ((seconds + unix_to_internal) % 2 ^ 64) (2 ^ 63))) [
      | inl e ↦
          let at_pos : is_before (pos ((seconds + unix_to_internal) % 2 ^ 64)) time ≡ false =
            rw e at h in
          (ground arith, ground arith)
      | inr e ↦
          let at_neg : is_before (negsuc (2 ^ 64 - 1 - (seconds + unix_to_internal) % 2 ^ 64)) time
              ≡ false =
            rw e at h in
          cc (at_neg)
    ]

pub not_after :
    (seconds time : ℕ)
    → (seconds + unix_to_internal) < 2 ^ 63
    → is_after (unix_time seconds) time ≡ false
    → (seconds + unix_to_internal) * second ≤ time
unfolding unix_time
not_after seconds time small h =
    let e : ltb ((seconds + unix_to_internal) % 2 ^ 64) (2 ^ 63) ≡ true = ground arith in
    let shown : ltb (time / second) ((seconds + unix_to_internal) % 2 ^ 64) ≡ false = rw e at h in
    ground arith
