-- ===== src/WebRtc/Link.antt =====
-- nativewebrtc/endpoint.go: peerLink, which stands between a stream and the connection that carries it
-- at the time. A nativePeer is a number.
use p2p_netcat_go_wrk.Common.{ℕ, Bool, true, false, ◌||◌, Option, none, some, ◌==◌, if◌then◌else◌}

pub record Link : Type 0 where
  pub peer : Option ℕ
  pub closed : Bool

abbrev pub is_some {ℓ} : {A : Type ℓ} → Option A → Bool
is_some none = false
is_some (some a) = true

abbrev pub new_link : ℕ → Link
new_link peer = record { peer = some peer; closed = false }

pub data SendOutcome : Type 0 where
  send_blocks send_refused : SendOutcome
  sends_to : ℕ → SendOutcome

abbrev pub route : Option ℕ → SendOutcome
route none = send_blocks
route (some peer) = sends_to peer

-- Where `Send` hands the frame on; it waits while no connection is attached.
abbrev pub send_route : Link → SendOutcome
send_route l = if l.closed then send_refused else route l.peer

abbrev pub attach : ℕ → Link → Bool × Link
attach peer l =
    if l.closed || is_some l.peer then (false, l) else (true, record l { peer = some peer })

abbrev pub same_peer : Option ℕ → ℕ → Bool
same_peer none peer = false
same_peer (some other) peer = other == peer

abbrev pub detach : ℕ → Link → Bool × Link
detach peer l = if same_peer l.peer peer then (true, record l { peer = none }) else (false, l)

-- With the connection that is then to be closed.
abbrev pub close_link : Link → Option ℕ × Link
close_link l = if l.closed then (none, l) else (l.peer, record { peer = none; closed = true })
