-- ===== src/Cli/Rules.antt =====
-- What the validation of the options leaves for the rest of the program.
use p2p_netcat_go_wrk.Common.{
  ℕ, ◌≡◌, ◌≢◌, ◌∙◌, sym, ap, refl, true, false, not, Bool-cases, inl, inr, Option, some, List, [],
  ◌∷◌, ◌++◌, if◌then◌else◌, Bytes, ok, fail_if, or_fail, ◌>>=◌, ◌>>◌, then_iff, fail_if_ok,
  first_error, AllPass, first_error-AllPass, ok-injective, bind_ok, arith,
}
use p2p_netcat_go_wrk.Common.Net.{trim_space}
use p2p_netcat_go_wrk.Pairing.{Token}
use p2p_netcat_go_wrk.Cli.{
  Options, Changed, bad_token, invalid_token, is_zero, is_set, privileged_listener_mode,
  pairing_token_configured, check_numbers, check_modes, check_access, validate_options, udp_forward,
  pty_server, socks_server, tcp_forward, exec_command, bridge, session_mode, Sources, when_set,
  token_file_unreadable, file_source, token_sources, select_token, load_from, load_token,
}

-- The part of a validation that passed.
validated :
    (changed : Changed) (token : Bytes) (args : ℕ) (o : Options)
    → validate_options changed token args o ≡ ok tt
    → AllPass (check_modes o) × AllPass (check_access token args o)
unfolding validate_options
validated changed token args o h =
    let numbers = first_error (check_numbers changed o) in
    let modes = first_error (check_modes o) in
    let access = first_error (check_access token args o) in
    let (m, a) = (then_iff modes access).0 ((then_iff numbers (modes >> access)).0 h).1 in
    (first_error-AllPass (check_modes o) m, first_error-AllPass (check_access token args o) a)

-- A listener whose options pass runs the mode that they ask for, whatever the order in which they are
-- tested: a terminal for -i, SOCKS for -S, the command for -e, and forwarding for -p, of datagrams with
-- -u; and it copies the stream to the standard streams only if none of these is asked for.
pub session_mode_asked :
    (changed : Changed) (token : Bytes) (args : ℕ) (o : Options)
    → validate_options changed token args o ≡ ok tt
    → (o.interactive ≡ true → session_mode o ≡ pty_server)
      × (o.socks ≡ true → session_mode o ≡ socks_server)
      × (is_set o.exec ≡ true → session_mode o ≡ exec_command)
      × (is_zero o.port ≡ false → session_mode o ≡ (if o.udp then udp_forward else tcp_forward))
      × (privileged_listener_mode o ≡ false → session_mode o ≡ bridge)
unfolding session_mode privileged_listener_mode
session_mode_asked changed token args o h =
    let (modes, access) = validated changed token args o h in
    let (c1, (c2, (c3, (c4, (c5, (c6, (c7, (c8, (c9, (c10, (c11, rest))))))))))) = modes in
    (λ k. ground arith, λ k. ground arith, λ k. ground arith, λ k. ground arith, λ k. ground arith)

load_from-some :
    (env : Sources) (value : Bytes) (values : List Bytes) (t : Option Token)
    → load_from env (value ∷ values) ≡ ok t
    → (token : Token) × (t ≡ some token) × (env.is_valid token ≡ true)
load_from-some env value values t h =
    let (selected, c, h1) = bind_ok (select_token [] (env.shuffle (value ∷ values))) _ h in
    let (token, d, h2) = bind_ok (or_fail (env.decode selected) bad_token) _ h1 in
    let (u, v, h3) = bind_ok (fail_if (not (env.is_valid token)) invalid_token) _ h2 in
    let v' = fail_if_ok (not (env.is_valid token)) invalid_token v in
    (token, sym (ok-injective h3), ground (arith, v'))

append_empty : (xs ys : List Bytes) → xs ++ ys ≡ [] → (xs ≡ []) × (ys ≡ [])
append_empty [] ys h = (refl, h)
append_empty (x ∷ xs) ys h = cc

when_set_empty : (value : Bytes) → when_set value ≡ [] → is_set value ≡ false
when_set_empty value h = elim (Bool-cases (is_set value)) [ inl e ↦ cc (rw e at h) | inr e ↦ e ]

file_source_empty :
    (env : Sources) (path : Bytes) → file_source env path ≡ ok [] → is_set path ≡ false
file_source_empty env path h = elim (Bool-cases (is_set path)) [
  | inl e ↦
      let opened = or_fail (env.read_token_file path) token_file_unreadable in
      let read : (opened >>= (λ text. ok (trim_space text ∷ []))) ≡ ok [] = rw e at h in
      let (text, o, bad) = bind_ok opened (λ text. ok (trim_space text ∷ [])) read in
      cc (ok-injective bad)
  | inr e ↦ e
]

token_sources_some :
    (env : Sources) (o : Options) (values : List Bytes)
    → pairing_token_configured env.variable o ≡ true
    → token_sources env o ≡ ok values
    → values ≢ []
unfolding token_sources pairing_token_configured
token_sources_some env o values configured h empty =
    let given = trim_space o.pairing_token in
    let path = trim_space o.pairing_token_file in
    let variable = trim_space env.variable in
    let (file, f, h1) = bind_ok (file_source env path) _ h in
    let (a, rest) =
      append_empty (when_set given) (file ++ when_set variable) (ok-injective h1 ∙ empty) in
    let (b, c) = append_empty file (when_set variable) rest in
    let no_given = when_set_empty given a in
    let no_variable = when_set_empty variable c in
    let no_file = file_source_empty env path (f ∙ ap (λ (x : List Bytes). ok x) b) in
    cc (rw (no_given, no_file, no_variable) at configured)

load_from_any :
    (env : Sources) (values : List Bytes) (t : Option Token)
    → values ≢ []
    → load_from env values ≡ ok t
    → (token : Token) × (t ≡ some token) × (env.is_valid token ≡ true)
load_from_any env [] t some_left h = elim (some_left refl) [ ]
load_from_any env (value ∷ values) t some_left h = load_from-some env value values t h

-- A listener that runs a terminal, a command, SOCKS or forwarding, without the option that allows
-- anyone to use it, has a valid pairing token when its options pass and the token is loaded.
pub privileged_has_token :
    (changed : Changed) (args : ℕ) (env : Sources) (o : Options) (t : Option Token)
    → validate_options changed env.variable args o ≡ ok tt
    → o.listen ≡ true
    → o.allow_unauthenticated_listener ≡ false
    → session_mode o ≢ bridge
    → load_token env o ≡ ok t
    → (token : Token) × (t ≡ some token) × (env.is_valid token ≡ true)
unfolding load_token
privileged_has_token changed args env o t h listens strict mode loads =
    let (values, s, h1) = bind_ok (token_sources env o) _ loads in
    let asked = session_mode_asked changed env.variable args o h in
    let (modes, access) = validated changed env.variable args o h in
    let (c1, (c2, (c3, rest))) = access in
    let privileged : privileged_listener_mode o ≡ true =
      elim (Bool-cases (privileged_listener_mode o)) [
        | inl e ↦ e
        | inr e ↦ elim (mode (asked.4 e)) [ ]
      ] in
    let configured : pairing_token_configured env.variable o ≡ true = ground arith in
    load_from_any env values t (token_sources_some env o values configured s) h1
