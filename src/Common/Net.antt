-- ===== src/Common/Net.antt =====
-- `strings.TrimSpace`, `net.SplitHostPort` and the port test of the program, over texts as lists of
-- code points.
use Prim.Native.Nat.{ℕ}
use mathlib.Core.Bool.{Bool, true, false, ◌&&◌, ◌||◌, not}
use mathlib.Core.Option.{Option, none, some}
use mathlib.Core.List.{[], ◌∷◌, ◌++◌}
use p2p_netcat_go_wrk.Common.Tests.{leb, ◌==◌, if◌then◌else◌}
use p2p_netcat_go_wrk.Common.Lists.{Bytes}
use p2p_netcat_go_wrk.Common.Results.{Result, ok, err}

-- `unicode.IsSpace`
is_space : ℕ → Bool
is_space c =
    (leb 9 c && leb c 13)
    || c == 0x20
    || c == 0x85
    || c == 0xa0
    || c == 0x1680
    || (leb 0x2000 c && leb c 0x200a)
    || c == 0x2028
    || c == 0x2029
    || c == 0x202f
    || c == 0x205f
    || c == 0x3000

-- `strings.TrimSpace(s) == ""`
unfoldable pub is_blank : Bytes → Bool
unfolding is_space
is_blank [] = true
is_blank (c ∷ s) = is_space c && is_blank s

unfoldable drop_spaces : Bytes → Bytes
unfolding is_space
drop_spaces [] = []
drop_spaces (c ∷ s) = let rest = drop_spaces s in if is_space c then rest else c ∷ s

unfoldable end_step : ℕ → Bytes → Bytes
unfolding is_space
end_step c [] = if is_space c then [] else c ∷ []
end_step c (d ∷ s) = c ∷ d ∷ s

unfoldable drop_end : Bytes → Bytes
unfolding end_step
drop_end [] = []
drop_end (c ∷ s) = end_step c (drop_end s)

-- `strings.TrimSpace`
unfoldable pub trim_space : Bytes → Bytes
unfolding drop_end drop_spaces
trim_space s = drop_end (drop_spaces s)

pub data AddressError : Type 0 where
  missing_port too_many_colons missing_bracket unexpected_open unexpected_close : AddressError

unfoldable pub has : ℕ → Bytes → Bool
has c [] = false
has c (b ∷ s) = b == c || has c s

-- The text up to the last colon, and what follows it.
abbrev last_colon_step : ℕ → Option (Bytes × Bytes) → Bytes → Option (Bytes × Bytes)
last_colon_step c (some (host, port)) s = some (c ∷ host, port)
last_colon_step c none s = if c == b':' then some ([], s) else none

unfoldable pub split_last_colon : Bytes → Option (Bytes × Bytes)
split_last_colon [] = none
split_last_colon (c ∷ s) = last_colon_step c (split_last_colon s) s

-- The text up to the first closing bracket, and what follows it.
abbrev close_step : ℕ → Option (Bytes × Bytes) → Bytes → Option (Bytes × Bytes)
close_step c more s =
    if c == b']'
    then some ([], s)
    else elim more [ none ↦ none | some (inside, rest) ↦ some (c ∷ inside, rest) ]

unfoldable pub split_close : Bytes → Option (Bytes × Bytes)
split_close [] = none
split_close (c ∷ s) = close_step c (split_close s) s

-- What follows the bracket must be the last colon and the port.
abbrev after_bracket : Bytes → Bytes → Result AddressError (Bytes × Bytes)
after_bracket host [] = err missing_port
after_bracket host (c ∷ port) =
    if not (c == b':')
    then err missing_port
    else if has b':' port
    then err too_many_colons
    else if has b'[' (host ++ b']' ∷ c ∷ port)
    then err unexpected_open
    else if has b']' port
    then err unexpected_close
    else ok (host, port)

abbrev bracketed : Option (Bytes × Bytes) → Result AddressError (Bytes × Bytes)
bracketed none = err missing_bracket
bracketed (some (host, rest)) = after_bracket host rest

abbrev plain_address : Bytes → Bytes → Result AddressError (Bytes × Bytes)
plain_address host port =
    if has b':' host
    then err too_many_colons
    else if has b'[' (host ++ port)
    then err unexpected_open
    else if has b']' (host ++ port)
    then err unexpected_close
    else ok (host, port)

abbrev split_address : Bytes → Option (Bytes × Bytes) → Result AddressError (Bytes × Bytes)
split_address s none = err missing_port
split_address [] (some (host, port)) = plain_address host port
split_address (c ∷ s) (some (host, port)) =
    if c == b'[' then bracketed (split_close s) else plain_address host port

unfoldable pub split_host_port : Bytes → Result AddressError (Bytes × Bytes)
split_host_port s = split_address s (split_last_colon s)
