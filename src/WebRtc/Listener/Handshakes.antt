-- ===== src/WebRtc/Listener/Handshakes.antt =====
-- The limits on handshakes in progress.
use p2p_netcat_go_wrk.Common.{
  ℕ, ◌+◌, ◌-◌, Bool, true, false, ◌||◌, not, Option, none, some, List, [], leb, ◌==◌, if◌then◌else◌,
  Bytes,
}
use p2p_netcat_go_wrk.Common.Maps.{find, delete, insert}
use p2p_netcat_go_wrk.WebRtc.Wire.{is_client_id}

abbrev pub max_concurrent_handshakes : ℕ
max_concurrent_handshakes = 32

abbrev pub max_concurrent_handshakes_peer : ℕ
max_concurrent_handshakes_peer = 2

pub record Handshakes : Type 0 where
  pub handshakes : ℕ
  pub peer_handshakes : List (Bytes × ℕ)

abbrev pub no_handshakes : Handshakes
no_handshakes = record { handshakes = 0; peer_handshakes = [] }

-- A missing key reads as zero.
abbrev pub count_of : Option ℕ → ℕ
count_of none = 0
count_of (some n) = n

abbrev pub peer_count : Bytes → Handshakes → ℕ
peer_count remote h = count_of (find remote h.peer_handshakes)

unfoldable pub begin_handshake : Bytes → Handshakes → Bool × Handshakes
begin_handshake remote h =
    if not (is_client_id remote)
    then (false, h)
    else if leb max_concurrent_handshakes h.handshakes
        || leb max_concurrent_handshakes_peer (peer_count remote h)
    then (false, h)
    else (
      true,
      record {
        handshakes = h.handshakes + 1;
        peer_handshakes = insert remote (peer_count remote h + 1) h.peer_handshakes;
      },
    )

abbrev pub set_count : Bytes → ℕ → List (Bytes × ℕ) → List (Bytes × ℕ)
set_count remote n m = if n == 0 then delete remote m else insert remote n m

-- Called once for each handshake that has begun, so neither count goes below zero.
unfoldable pub end_handshake : Bytes → Handshakes → Handshakes
end_handshake remote h = record {
  handshakes = h.handshakes - 1;
  peer_handshakes = set_count remote (peer_count remote h - 1) h.peer_handshakes;
}
