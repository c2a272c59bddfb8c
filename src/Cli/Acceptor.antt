-- ===== src/Cli/Acceptor.antt =====
-- runListener: which streams get a session. Of a listener that is not persistent only one does, and
-- with a pairing token only an authenticated one.
use p2p_netcat_go_wrk.Common.{
  ℕ, ◌≤◌, ◌≡◌, refl, Bool, true, false, ◌||◌, ◌&&◌, not, List, [], ◌∷◌, ◌==◌, if◌then◌else◌, length,
  All, arith,
}
use p2p_netcat_go_wrk.Common.Sorted.{member}
use p2p_netcat_go_wrk.Cli.{Options, is_zero}

-- `persistent`
unfoldable pub is_persistent : Options → Bool
is_persistent o = o.keep_open || o.interactive || o.socks || not (is_zero o.port)

-- A stream is a number. `authenticating` are the streams whose admission handshake is in progress,
-- `served` those that got a session, `refused` those that were reset.
pub record Acceptor : Type 0 where
  pub accepted : Bool
  pub authenticating : List ℕ
  pub served : List ℕ
  pub refused : List ℕ

abbrev pub new_acceptor : Acceptor
new_acceptor = record { accepted = false; authenticating = []; served = []; refused = [] }

abbrev refuse : ℕ → Acceptor → Acceptor
refuse stream a = record a { refused = stream ∷ a.refused }

abbrev serve : ℕ → Acceptor → Acceptor
serve stream a = record a { accepted = true; served = stream ∷ a.served }

-- `handleStream`, with whether there is a pairing token.
unfoldable pub handle_stream : Bool → Bool → ℕ → Acceptor → Acceptor
handle_stream persistent token stream a =
    if a.accepted && not persistent && not token
    then refuse stream a
    else if token
    then record a { authenticating = stream ∷ a.authenticating }
    else serve stream a

-- The rest of it behind AuthenticateServer.
unfoldable pub authentication_over : Bool → Bool → ℕ → Acceptor → Acceptor
authentication_over persistent passed stream a =
    if not passed
    then refuse stream a
    else if a.accepted && not persistent
    then refuse stream a
    else serve stream a

-- What happens at a listener: a stream arrives, or AuthenticateServer answers for one.
pub data Event : Type 0 where
  arrives : ℕ → Event
  answered : Bool → ℕ → Event

abbrev handle : Bool → Bool → Event → Acceptor → Acceptor
handle persistent token (arrives stream) a = handle_stream persistent token stream a
handle persistent token (answered passed stream) a = authentication_over persistent passed stream a

-- AuthenticateServer answers only for a stream that is being authenticated.
abbrev pub Possible : Event → Acceptor → Type 0
Possible (arrives stream) a = Unit {0}
Possible (answered passed stream) a = member ◌==◌ stream a.authenticating ≡ true

-- What happened so far, the latest first.
pub data Reachable (persistent token : Bool) : List Event → Acceptor → Type 0 where
  begins : Reachable persistent token [] new_acceptor
  continues :
      {events : List Event} {a : Acceptor}
      → Reachable persistent token events a
      → (e : Event) → Possible e a
      → Reachable persistent token (e ∷ events) (handle persistent token e a)

-- The streams for which AuthenticateServer answered that they passed.
abbrev pub passed_in : List Event → List ℕ
passed_in [] = []
passed_in (answered true stream ∷ events) = stream ∷ passed_in events
passed_in (_ ∷ events) = passed_in events

-- The streams of one list are all in another one.
abbrev pub Within : List ℕ → List ℕ → Type 0
Within streams known = All (λ (s : ℕ). member ◌==◌ s known ≡ true) streams

-- The sessions against the flag and the streams that passed.
pub record Bounded (persistent token : Bool) (known : List ℕ) (a : Acceptor) : Type 0 where
  pub one : persistent ≡ false → length a.served ≤ 1
  pub none_yet : a.accepted ≡ false → length a.served ≤ 0
  pub proved : token ≡ true → Within a.served known

Within-cons :
    (stream : ℕ) (streams known : List ℕ) → Within streams known → Within streams (stream ∷ known)
unfolding member
Within-cons stream [] known w = tt
Within-cons stream (s ∷ streams) known (h, hs) = (ground arith, Within-cons stream streams known hs)

member_first : (stream : ℕ) (known : List ℕ) → member ◌==◌ stream (stream ∷ known) ≡ true
unfolding member
member_first stream known = ground arith

module _ (persistent token : Bool) where
  Bounded-if :
      (known : List ℕ) (test : Bool) (a b : Acceptor)
      → (test ≡ true → Bounded persistent token known a)
      → (test ≡ false → Bounded persistent token known b)
      → Bounded persistent token known (if test then a else b)
  Bounded-if known true a b h k = h refl
  Bounded-if known false a b h k = k refl

  serve-Bounded :
      (known : List ℕ) (stream : ℕ) (a : Acceptor)
      → (persistent ≡ false → a.accepted ≡ false)
      → (token ≡ true → member ◌==◌ stream known ≡ true)
      → Bounded persistent token known a
      → Bounded persistent token known (serve stream a)
  serve-Bounded known stream a first is_known b = record {
    one = λ h. omega (arith, b.none_yet (first h));
    none_yet = λ h. cc;
    proved = λ h. (is_known h, b.proved h);
  }

  refuse-Bounded :
      (known : List ℕ) (stream : ℕ) (a : Acceptor)
      → Bounded persistent token known a
      → Bounded persistent token known (refuse stream a)
  refuse-Bounded known stream a b = record { one = b.one; none_yet = b.none_yet; proved = b.proved }

  handle_stream-Bounded :
      (known : List ℕ) (stream : ℕ) (a : Acceptor)
      → Bounded persistent token known a
      → Bounded persistent token known (handle_stream persistent token stream a)
  unfolding handle_stream
  handle_stream-Bounded known stream a b =
      let waiting = record a { authenticating = stream ∷ a.authenticating } in
      Bounded-if known (a.accepted && not persistent && not token) (refuse stream a)
        (if token then waiting else serve stream a) (λ h. refuse-Bounded known stream a b)
        (λ h.
          Bounded-if known token waiting (serve stream a)
            (λ k. record { one = b.one; none_yet = b.none_yet; proved = b.proved })
            (λ k. serve-Bounded known stream a (λ p. ground arith) (λ t. cc (k, t)) b))

  known_more :
      (known : List ℕ) (stream : ℕ) (a : Acceptor)
      → Bounded persistent token known a
      → Bounded persistent token (stream ∷ known) a
  known_more known stream a b = record {
    one = b.one;
    none_yet = b.none_yet;
    proved = λ t. Within-cons stream a.served known (b.proved t);
  }

  authentication_over-Bounded :
      (events : List Event) (passed : Bool) (stream : ℕ) (a : Acceptor)
      → Bounded persistent token (passed_in events) a
      → Bounded persistent token
          (passed_in (answered passed stream ∷ events))
          (authentication_over persistent passed stream a)
  unfolding authentication_over
  authentication_over-Bounded events false stream a b = refuse-Bounded (passed_in events) stream a b
  authentication_over-Bounded events true stream a b =
      let known = stream ∷ passed_in events in
      let still = known_more (passed_in events) stream a b in
      Bounded-if known (a.accepted && not persistent) (refuse stream a) (serve stream a)
        (λ k. refuse-Bounded known stream a still)
        (λ k.
          serve-Bounded known stream a (λ p. ground arith)
            (λ t. member_first stream (passed_in events)) still)

  Reachable-Bounded :
      {events : List Event} {a : Acceptor}
      → Reachable persistent token events a
      → Bounded persistent token (passed_in events) a
  Reachable-Bounded begins = record {
    one = λ h. omega arith;
    none_yet = λ h. omega arith;
    proved = λ h. tt;
  }
  Reachable-Bounded (continues {events} {a} r (arrives stream) possible) =
      handle_stream-Bounded (passed_in events) stream a (Reachable-Bounded r)
  Reachable-Bounded (continues {events} {a} r (answered passed stream) possible) =
      authentication_over-Bounded events passed stream a (Reachable-Bounded r)

-- Whatever streams arrive and however their handshakes end, in any order: a listener that is not
-- persistent serves at most one stream, and a listener with a pairing token serves only streams for
-- which AuthenticateServer answered that they passed.
pub served_bounded :
    (persistent token : Bool) (events : List Event) (a : Acceptor)
    → Reachable persistent token events a
    → (persistent ≡ false → length a.served ≤ 1)
      × (token ≡ true → Within a.served (passed_in events))
served_bounded persistent token events a r =
    let b = Reachable-Bounded persistent token r in (b.one, b.proved)
