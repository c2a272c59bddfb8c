-- ===== src/Cli/Runs.antt =====
-- Runs of the command line's checks, and the theorems at concrete options.
use p2p_netcat_go_wrk.Common.{
  ◌≤◌, ◌≡◌, ◌≢◌, refl, true, false, none, some, List, [], ◌∷◌, if◌then◌else◌, Bytes, length, ok,
  err, ◌==◌,
}
use p2p_netcat_go_wrk.Common.Text.{codes, bytes_eq}
use p2p_netcat_go_wrk.Common.Net.{trim_space}
use p2p_netcat_go_wrk.Common.Integers.{pos}
use p2p_netcat_go_wrk.Common.Sorted.{member}
use p2p_netcat_go_wrk.Pairing.{Token}
use p2p_netcat_go_wrk.Cli.{
  Options, Changed, unauthenticated, tokens_differ, contains, is_set, privileged_listener_mode,
  pairing_token_configured, validate_options, pty_server, socks_server, exec_command, udp_forward,
  tcp_forward, bridge, session_mode, Sources, token_sources, select_token, load_token,
  short_option_requested, boolean_short_option_requested, tor_requested,
}
use p2p_netcat_go_wrk.Cli.Acceptor.{
  Acceptor, new_acceptor, handle_stream, authentication_over, Event, begins, continues, arrives,
  answered, passed_in, Within, served_bounded,
}
use p2p_netcat_go_wrk.Cli.Rules.{session_mode_asked, privileged_has_token}

-- `p2p-nc -l`, with the defaults of the flags.
abbrev listening : Options
listening = record {
  listen = true;
  keep_open = false;
  timeout = pos 30;
  timeout_explicit = false;
  quit_delay = pos 0;
  destination = [];
  port = pos 0;
  socks = false;
  tor = false;
  upstream_socks = [];
  interactive = false;
  zero = false;
  exec = [];
  udp = false;
  udp_idle_timeout = pos 0;
  transport_port = pos 0;
  ipv4 = false;
  ipv6 = false;
  relays = [];
  no_webrtc = false;
  allow_unauthenticated_listener = false;
  allow_unauthenticated_native_webrtc = false;
  pairing_token = [];
  pairing_token_file = [];
}

abbrev unchanged : Changed
unchanged = record { udp_idle_timeout = false; port = false }

-- `-i` with a token in the environment.
abbrev terminal : Options
terminal = record listening { interactive = true }

abbrev a_token : Token
a_token = record {
  version = 1;
  peer_id = 7 ∷ [];
  service = 80;
  secret = [];
  relay_hints = [];
  expires_at = none;
}

abbrev given : Sources
given = record {
  variable = codes "t";
  read_token_file = λ path. some [];
  decode = λ text. if bytes_eq text (codes "t") then some a_token else none;
  is_valid = λ t. true;
  shuffle = λ values. values;
}

terminal_passes : validate_options unchanged (codes "t") 0 terminal ≡ ok tt
unfolding validate_options privileged_listener_mode pairing_token_configured trim_space bytes_eq
    contains
terminal_passes = refl

-- The same without a token is refused.
terminal_refused : validate_options unchanged [] 0 terminal ≡ err unauthenticated
unfolding validate_options privileged_listener_mode pairing_token_configured trim_space bytes_eq
    contains
terminal_refused = refl

terminal_loads : load_token given terminal ≡ ok (some a_token)
unfolding load_token token_sources select_token trim_space bytes_eq
terminal_loads = refl

session_mode_asked_example :
    (true ≡ true → session_mode terminal ≡ pty_server)
    × (false ≡ true → session_mode terminal ≡ socks_server)
    × (is_set [] ≡ true → session_mode terminal ≡ exec_command)
    × (true ≡ false → session_mode terminal ≡ (if false then udp_forward else tcp_forward))
    × (privileged_listener_mode terminal ≡ false → session_mode terminal ≡ bridge)
session_mode_asked_example = session_mode_asked unchanged (codes "t") 0 terminal terminal_passes

terminal_mode : session_mode terminal ≢ bridge
unfolding session_mode
terminal_mode = λ e. cc (e)

privileged_has_token_example :
    (token : Token) × (some a_token ≡ some token) × (given.is_valid token ≡ true)
privileged_has_token_example =
    privileged_has_token unchanged 0 given terminal (some a_token) terminal_passes refl refl
      terminal_mode terminal_loads

-- A token file that is empty, beside a token in the environment: what happens depends on the order in
-- which Go ranges over the map.
abbrev empty_file : Options
empty_file = record listening { pairing_token_file = codes "f" }

file_first : load_token given empty_file ≡ ok (some a_token)
unfolding load_token token_sources select_token trim_space bytes_eq
file_first = refl

abbrev swap : List Bytes → List Bytes
swap (a ∷ b ∷ rest) = b ∷ a ∷ rest
swap values = values

variable_first : load_token (record given { shuffle = swap }) empty_file ≡ err tokens_differ
unfolding load_token token_sources select_token trim_space bytes_eq
variable_first = refl

-- `-vT` asks for Tor, `--tor=true` is not seen.
tor_in_cluster : tor_requested (codes "-vT" ∷ []) ≡ true
unfolding boolean_short_option_requested short_option_requested bytes_eq contains
tor_in_cluster = refl

tor_with_value : tor_requested (codes "--tor=true" ∷ []) ≡ false
unfolding boolean_short_option_requested short_option_requested bytes_eq contains
tor_with_value = refl

-- Two streams arrive, and both pass the handshake.
abbrev both_waiting : Acceptor
both_waiting = handle_stream false true 2 (handle_stream false true 1 new_acceptor)

first_waits : member ◌==◌ 1 both_waiting.authenticating ≡ true
unfolding member handle_stream
first_waits = refl

second_waits : member ◌==◌ 2 (authentication_over false true 1 both_waiting).authenticating ≡ true
unfolding member handle_stream authentication_over
second_waits = refl

abbrev both_over : Acceptor
both_over = authentication_over false true 2 (authentication_over false true 1 both_waiting)

abbrev both_events : List Event
both_events = answered true 2 ∷ answered true 1 ∷ arrives 2 ∷ arrives 1 ∷ []

served_bounded_example :
    (false ≡ false → length both_over.served ≤ 1)
    × (true ≡ true → Within both_over.served (passed_in both_events))
served_bounded_example = served_bounded false true both_events both_over (
    continues
      (continues (continues (continues begins (arrives 1) tt) (arrives 2) tt) (answered true 1)
        first_waits)
      (answered true 2) second_waits)
