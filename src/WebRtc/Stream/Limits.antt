-- ===== src/WebRtc/Stream/Limits.antt =====
-- How the count of bytes in flight moves.
use p2p_netcat_go_wrk.Common.{◌+◌, ◌<◌, ◌≤◌, true, false, ◌≡◌, ◌⊎◌, Bytes, length}
use p2p_netcat_go_wrk.WebRtc.Stream.{
  Stream, WriteOutcome, write_blocks, write_failed, wrote, flow_window_bytes, write,
}
use p2p_netcat_go_wrk.WebRtc.Stream.Steps.{Step, writes}

-- What a write does to the count, by its outcome.
abbrev pub Written : Bytes → Stream → WriteOutcome × Stream → Type 0
Written payload s (write_blocks, s') =
    (s' ≡ s) × (0 < s.in_flight) × (flow_window_bytes < s.in_flight + length payload)
Written payload s (write_failed e, s') =
    (s'.in_flight ≤ s.in_flight) × (s.flow_enabled ≡ true → s'.in_flight ≡ s.in_flight)
Written payload s (wrote n, s') =
    (n ≡ length payload)
    × (s.flow_enabled ≡ false → s'.in_flight ≡ s.in_flight)
    × (s.flow_enabled ≡ true
        → (s'.in_flight ≡ s.in_flight + length payload)
          × ((s.in_flight ≡ 0) ⊎ (s'.in_flight ≤ flow_window_bytes)))

-- What a step does to the count.
abbrev pub Moves : {s s' : Stream} {taken given : Bytes} → Step s taken given s' → Type 0
Moves (writes p payload s) = Written payload s (write p payload s)
Moves {s} {s'} _ = s'.in_flight ≤ s.in_flight
