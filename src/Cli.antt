-- ===== src/Cli.antt =====
-- internal/cli/root.go: the options of the command line, their validation, the choice of the pairing
-- token, and what a listener runs for a stream. An int may be below zero; a text is its code points.
pub mod Rules
pub mod Acceptor
mod Runs
use p2p_netcat_go_wrk.Common.{
  ℕ, Bool, true, false, ◌||◌, ◌&&◌, not, Option, none, some, List, [], ◌∷◌, ◌++◌, ltb, ◌==◌,
  if◌then◌else◌, Bytes, length, Result, ok, err, ◌>>=◌, ◌>>◌, fail_if, or_fail, first_error,
}
use p2p_netcat_go_wrk.Common.Text.{codes, bytes_eq}
use p2p_netcat_go_wrk.Common.Net.{trim_space}
use p2p_netcat_go_wrk.Common.Integers.{ℤ, pos, negsuc, lt}
use p2p_netcat_go_wrk.Pairing.{Token}

pub record Options : Type 0 where
  pub listen : Bool
  pub keep_open : Bool
  pub timeout : ℤ
  pub timeout_explicit : Bool
  pub quit_delay : ℤ
  pub destination : Bytes
  pub port : ℤ
  pub socks : Bool
  pub tor : Bool
  pub upstream_socks : Bytes
  pub interactive : Bool
  pub zero : Bool
  pub exec : Bytes
  pub udp : Bool
  pub udp_idle_timeout : ℤ
  pub transport_port : ℤ
  pub ipv4 : Bool
  pub ipv6 : Bool
  pub relays : List Bytes
  pub no_webrtc : Bool
  pub allow_unauthenticated_listener : Bool
  pub allow_unauthenticated_native_webrtc : Bool
  pub pairing_token : Bytes
  pub pairing_token_file : Bytes

-- `command.Flags().Changed` of the two flags that are asked for.
pub record Changed : Type 0 where
  pub udp_idle_timeout : Bool
  pub port : Bool

pub data Error : Type 0 where
  bad_timeout negative negative_idle idle_without_udp bad_port both_families udp_without_port :
      Error
  udp_combined keep_open_client zero_listener exec_client exec_combined bad_destination : Error
  socks_client socks_combined interactive_combined port_combined tor_listener quit_delay_mode :
      Error
  tor_without_relay tor_udp_relay too_many_args allow_useless unauthenticated tor_upstream : Error
  allow_native_useless token_file_unreadable tokens_differ bad_token invalid_token : Error
  wrong_peer wrong_port : Error

abbrev pub is_zero : ℤ → Bool
is_zero (pos n) = n == 0
is_zero (negsuc n) = false

abbrev pub is_set : Bytes → Bool
is_set s = not (bytes_eq s [])

abbrev starts_with : Bytes → Bytes → Bool
starts_with [] text = true
starts_with (c ∷ prefix) [] = false
starts_with (c ∷ prefix) (d ∷ text) = d == c && starts_with prefix text

-- `strings.Contains`
unfoldable pub contains : Bytes → Bytes → Bool
contains part [] = starts_with part []
contains part (c ∷ text) = let rest = contains part text in starts_with part (c ∷ text) || rest

abbrev pub any_udp : List Bytes → Bool
any_udp [] = false
any_udp (relay ∷ relays) = contains (codes "/udp/") relay || any_udp relays

unfoldable pub privileged_listener_mode : Options → Bool
privileged_listener_mode o = o.interactive || is_set o.exec || o.socks || not (is_zero o.port)

-- `token` is the variable P2P_NETCAT_TOKEN of the environment.
unfoldable pub pairing_token_configured : Bytes → Options → Bool
pairing_token_configured token o =
    is_set (trim_space o.pairing_token)
    || is_set (trim_space o.pairing_token_file)
    || is_set (trim_space token)

-- The tests on numbers.
abbrev pub check_numbers : Changed → Options → List (Bool × Error)
check_numbers changed o =
    (not (lt (pos 0) o.timeout), bad_timeout)
    ∷ (
      lt o.quit_delay (pos 0) || lt o.transport_port (pos 0) || lt (pos 65535) o.transport_port,
      negative,
    )
    ∷ (lt o.udp_idle_timeout (pos 0), negative_idle)
    ∷ (changed.udp_idle_timeout && not o.udp, idle_without_udp)
    ∷ (lt o.port (pos 0) || lt (pos 65535) o.port || (changed.port && is_zero o.port), bad_port)
    ∷ []

-- The tests on combined modes.
abbrev pub check_modes : Options → List (Bool × Error)
check_modes o =
    (o.ipv4 && o.ipv6, both_families)
    ∷ (o.udp && is_zero o.port, udp_without_port)
    ∷ (
      o.udp && (o.socks || o.interactive || o.zero || is_set o.exec || not (is_zero o.quit_delay)),
      udp_combined,
    )
    ∷ (o.keep_open && not o.listen, keep_open_client)
    ∷ (o.zero && o.listen, zero_listener)
    ∷ (is_set o.exec && not o.listen, exec_client)
    ∷ (is_set o.exec && (not (is_zero o.port) || is_set o.destination || o.socks), exec_combined)
    ∷ (is_set o.destination && (not o.listen || is_zero o.port), bad_destination)
    ∷ (o.socks && not o.listen, socks_client)
    ∷ (o.socks && (is_set o.destination || not (is_zero o.port)), socks_combined)
    ∷ (
      o.interactive && (is_set o.exec || o.socks || not (is_zero o.port) || is_set o.destination),
      interactive_combined,
    )
    ∷ (not o.listen && not (is_zero o.port) && (o.interactive || o.zero), port_combined)
    ∷ (o.tor && o.listen, tor_listener)
    ∷ (
      not (is_zero o.quit_delay)
          && (not (is_zero o.port) || o.socks || o.interactive || o.zero || is_set o.exec),
      quit_delay_mode,
    )
    ∷ (o.tor && length o.relays == 0, tor_without_relay)
    ∷ (o.tor && any_udp o.relays, tor_udp_relay)
    ∷ []

-- The tests on who may connect, with the number of arguments.
abbrev pub check_access : Bytes → ℕ → Options → List (Bool × Error)
check_access token args o =
    (o.listen && ltb 1 args, too_many_args)
    ∷ (
      o.allow_unauthenticated_listener && (not o.listen || not (privileged_listener_mode o)),
      allow_useless,
    )
    ∷ (
      o.listen
          && privileged_listener_mode o
          && not (pairing_token_configured token o)
          && not o.allow_unauthenticated_listener,
      unauthenticated,
    )
    ∷ (o.tor && is_set o.upstream_socks, tor_upstream)
    ∷ (o.allow_unauthenticated_native_webrtc && (o.no_webrtc || o.tor), allow_native_useless)
    ∷ []

unfoldable pub validate_options : Changed → Bytes → ℕ → Options → Result Error (Unit {0})
validate_options changed token args o = do
  first_error (check_numbers changed o)
  first_error (check_modes o)
  first_error (check_access token args o)

-- What `runServerSession` runs.
pub data SessionMode : Type 0 where
  udp_forward pty_server socks_server tcp_forward exec_command bridge : SessionMode

unfoldable pub session_mode : Options → SessionMode
session_mode o =
    if o.udp
    then udp_forward
    else if o.interactive
    then pty_server
    else if o.socks
    then socks_server
    else if not (is_zero o.port)
    then tcp_forward
    else if is_set o.exec
    then exec_command
    else bridge

unfoldable pub native_webrtc_enabled : Options → Bool → Bool
native_webrtc_enabled o authenticated =
    not o.no_webrtc && not o.tor && (authenticated || o.allow_unauthenticated_native_webrtc)

-- What the program takes from the operating system, from Decode and Validate of the pairing token, and
-- from the order in which Go ranges over a map.
pub record Sources : Type 0 where
  pub variable : Bytes
  pub read_token_file : Bytes → Option Bytes
  pub decode : Bytes → Option Token
  pub is_valid : Token → Bool
  pub shuffle : List Bytes → List Bytes

abbrev pub when_set : Bytes → List Bytes
when_set value = if is_set value then value ∷ [] else []

-- The entry of the token file, which may be empty.
abbrev pub file_source : Sources → Bytes → Result Error (List Bytes)
file_source env path =
    if is_set path
    then or_fail (env.read_token_file path) token_file_unreadable
      >>= (λ text. ok (trim_space text ∷ []))
    else ok []

-- The values of the map `sources`.
unfoldable pub token_sources : Sources → Options → Result Error (List Bytes)
token_sources env o = do
  file ← file_source env (trim_space o.pairing_token_file)
  ok (when_set (trim_space o.pairing_token) ++ (file ++ when_set (trim_space env.variable)))

-- The loop over the sources, from the value that has been selected.
unfoldable pub select_token : Bytes → List Bytes → Result Error Bytes
select_token selected [] = ok selected
select_token selected (value ∷ values) = do
  fail_if (is_set selected && not (bytes_eq selected value)) tokens_differ
  select_token value values

abbrev pub decode_selected : Sources → Bytes → Result Error (Option Token)
decode_selected env selected = do
  token ← or_fail (env.decode selected) bad_token
  fail_if (not (env.is_valid token)) invalid_token
  ok (some token)

abbrev pub load_from : Sources → List Bytes → Result Error (Option Token)
load_from env [] = ok none
load_from env (value ∷ values) =
    select_token [] (env.shuffle (value ∷ values)) >>= (λ selected. decode_selected env selected)

unfoldable pub load_token : Sources → Options → Result Error (Option Token)
load_token env o = token_sources env o >>= (λ values. load_from env values)

unfoldable pub validate_token_for : Sources → Token → Bytes → ℕ → Result Error (Unit {0})
validate_token_for env token expected service = do
  fail_if (not (bytes_eq token.peer_id expected)) wrong_peer
  fail_if (not (token.service == service)) wrong_port
  fail_if (not (env.is_valid token)) invalid_token

-- Options that take a value, as booleanShortOptionRequested lists them.
abbrev takes_value : Bytes → Bool
takes_value value =
    bytes_eq value (codes "-I")
    || bytes_eq value (codes "-w")
    || bytes_eq value (codes "-d")
    || bytes_eq value (codes "-p")
    || bytes_eq value (codes "-e")
    || bytes_eq value (codes "--identity")
    || bytes_eq value (codes "--timeout")
    || bytes_eq value (codes "--destination")
    || bytes_eq value (codes "--port")
    || bytes_eq value (codes "--exec")

-- An argument such as `-vT`, in which a flag without a value is looked for.
abbrev in_cluster : ℕ → Bytes → Bool
in_cluster shorthand (dash ∷ first ∷ second ∷ rest) =
    (dash == b'-')
    && not (first == b'-')
    && not (contains (first ∷ []) (codes "Iwdpe"))
    && contains (shorthand ∷ []) (first ∷ second ∷ rest)
in_cluster shorthand _ = false

unfoldable pub short_option_requested : Bool → List Bytes → ℕ → Bytes → Bool
short_option_requested skip [] shorthand longhand = false
short_option_requested true (value ∷ args) shorthand longhand =
    short_option_requested false args shorthand longhand
short_option_requested false (value ∷ args) shorthand longhand =
    let skipped = short_option_requested true args shorthand longhand in
    let rest = short_option_requested false args shorthand longhand in
    if bytes_eq value (codes "--" ++ longhand) || bytes_eq value (b'-' ∷ shorthand ∷ [])
    then true
    else if takes_value value
    then skipped
    else in_cluster shorthand value || rest

unfoldable pub boolean_short_option_requested : List Bytes → ℕ → Bytes → Bool
boolean_short_option_requested args shorthand longhand =
    short_option_requested false args shorthand longhand

abbrev pub quiet_requested : List Bytes → Bool
quiet_requested args = boolean_short_option_requested args b'q' (codes "quiet")

abbrev pub tor_requested : List Bytes → Bool
tor_requested args = boolean_short_option_requested args b'T' (codes "tor")
