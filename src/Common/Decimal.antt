-- ===== src/Common/Decimal.antt =====
-- `strconv.Itoa` and `%d` of a number that is not negative, and `strconv.Atoi`.
use Prim.Native.Nat.{ℕ, zero, suc, ◌+◌, ◌-◌, ◌*◌, ◌/◌, ◌%◌, ◌^◌, ◌≤◌, ◌<◌, min}
use mathlib.Core.Path.{◌≡◌, ap, ◌∙◌}
use mathlib.Core.Bool.{Bool, true, ◌&&◌}
use mathlib.Core.Option.{Option, none, some}
use mathlib.Core.List.{[], ◌∷◌}
use native.Mathlib.Nat.{pow-suc}
use native.Mathlib.Omega.{arith}
use p2p_netcat_go_wrk.Common.Tests.{leb, ltb, ◌==◌, if◌then◌else◌}
use p2p_netcat_go_wrk.Common.Lists.{Bytes, length, All}

-- The digits of `n` in front of `acc`, for `n` below 10 ^ fuel.
digits : ℕ → ℕ → Bytes → Bytes
digits zero n acc = acc
digits (suc f) n acc =
    let here = (b'0' + n % 10) ∷ acc in
    let more = digits f (n / 10) here in if ltb n 10 then here else more

-- Nineteen digits hold every `int`, and twenty every uint64.
unfoldable pub decimal : ℕ → Bytes
unfolding digits
decimal n = digits 20 n []

unfoldable pub is_digit : ℕ → Bool
is_digit c = leb b'0' c && leb c b'9'

-- A text of digits only; the empty text has the value that stands before it.
unfoldable pub parse_digits : ℕ → Bytes → Option ℕ
parse_digits n [] = some n
parse_digits n (c ∷ s) =
    let rest = parse_digits (n * 10 + (c - b'0')) s in if is_digit c then rest else none

abbrev max_int : ℕ
max_int = 2 ^ 63 - 1

abbrev in_int_range : Option ℕ → Option ℕ
in_int_range none = none
in_int_range (some n) = if leb n max_int then some n else none

abbrev unsigned : Bytes → Option ℕ
unsigned [] = none
unsigned (c ∷ s) = in_int_range (parse_digits 0 (c ∷ s))

-- A minus sign makes the number zero or negative, and every caller refuses what is below one: the
-- model answers `some 0` where Go answers a number that is not positive.
abbrev negative : Option ℕ → Option ℕ
negative none = none
negative (some n) = if leb n (2 ^ 63) then some 0 else none

abbrev signed : Bytes → Option ℕ
signed [] = none
signed (c ∷ s) = negative (parse_digits 0 (c ∷ s))

-- `strconv.Atoi`, with every number below zero read as 0.
unfoldable pub atoi : Bytes → Option ℕ
unfolding parse_digits is_digit
atoi [] = none
atoi (c ∷ s) = if c == b'+' then unsigned s else if c == b'-' then signed s else unsigned (c ∷ s)

is_digit-digit : (n : ℕ) → is_digit (b'0' + n % 10) ≡ true
unfolding is_digit
is_digit-digit n = ground arith

parse_digits-digits :
    (f n : ℕ) (acc : Bytes) → n < 10 ^ f → parse_digits 0 (digits f n acc) ≡ parse_digits n acc
unfolding digits parse_digits
parse_digits-digits zero n acc h = let e : 0 ≡ n = omega arith in rw (← e)
parse_digits-digits (suc f) n acc h =
    ground (
      arith,
      is_digit-digit n,
      pow-suc 10 f,
      parse_digits-digits f (n / 10) ((b'0' + n % 10) ∷ acc),
    )

-- A number of at most twenty digits reads back.
pub parse_digits-decimal : (n : ℕ) → n < 10 ^ 20 → parse_digits 0 (decimal n) ≡ some n
unfolding decimal parse_digits
parse_digits-decimal n h = parse_digits-digits 20 n [] h

pub decimal-injective : (a b : ℕ) → a < 10 ^ 20 → b < 10 ^ 20 → decimal a ≡ decimal b → a ≡ b
decimal-injective a b ha hb e =
    cc (parse_digits-decimal a ha, parse_digits-decimal b hb, ap (parse_digits 0) e)

-- No digit is a colon or a NUL, so a text may follow a number behind one of these.
digits-are_digits :
    (f n : ℕ) (acc : Bytes)
    → All (λ c. is_digit c ≡ true) acc
    → All (λ c. is_digit c ≡ true) (digits f n acc)
unfolding digits
digits-are_digits zero n acc h = h
digits-are_digits (suc f) n acc h = ground (
  arith,
  is_digit-digit n,
  digits-are_digits f (n / 10) ((b'0' + n % 10) ∷ acc) (is_digit-digit n, h),
)

pub decimal-are_digits : (n : ℕ) → All (λ c. is_digit c ≡ true) (decimal n)
unfolding decimal
decimal-are_digits n = digits-are_digits 20 n [] tt

length-digits : (f n : ℕ) (acc : Bytes) → length acc + min f 1 ≤ length (digits f n acc)
unfolding digits
length-digits zero n acc = omega arith
length-digits (suc f) n acc = ground (arith, length-digits f (n / 10) ((b'0' + n % 10) ∷ acc))

atoi_of_digits :
    (s : Bytes)
    → 0 < length s
    → All (λ c. is_digit c ≡ true) s
    → atoi s ≡ in_int_range (parse_digits 0 s)
unfolding atoi
atoi_of_digits [] h d = absurd (omega arith)
atoi_of_digits (c ∷ s) h d = ground arith

-- `Atoi` reads back what `Itoa` printed of an `int` that is not negative.
pub atoi-decimal : (n : ℕ) → n < 2 ^ 63 → atoi (decimal n) ≡ some n
unfolding decimal
atoi-decimal n h =
    atoi_of_digits (decimal n) (omega (arith, length-digits 20 n [])) (decimal-are_digits n)
    ∙ rw (parse_digits-decimal n (omega arith)) (ground arith)
