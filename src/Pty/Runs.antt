-- ===== src/Pty/Runs.antt =====
-- Runs of the terminal frames, and the theorems at concrete frames.
use p2p_netcat_go_wrk.Common.{
  ◌<◌, ◌≤◌, ◌≡◌, refl, ◌⊎◌, none, some, [], ◌∷◌, ◌++◌, Bytes, length, ok,
}
use p2p_netcat_go_wrk.Common.BigEndian.{put_u32}
use p2p_netcat_go_wrk.Common.Io.{Writer, plain, write_full, failed, Sends}
use p2p_netcat_go_wrk.Pty.{
  max_frame_length, frame_too_long, stream_error, write_frame, read_frame, frame_data,
}
use p2p_netcat_go_wrk.Pty.RoundTrip.{frame_bytes, write_frame_outcome, read_frame-write_frame}

abbrev hello : Bytes
hello = b'h' ∷ b'i' ∷ []

abbrev broken : Writer
broken = record { out = []; answers = record { limit = 3; failure = some 32 } ∷ [] }

write_stops :
    write_frame frame_data hello broken ≡ (some (stream_error (failed 32)), plain (0 ∷ 0 ∷ 0 ∷ []))
unfolding write_frame write_full put_u32
write_stops = refl

write_frame_outcome_example :
    (length hello ≤ max_frame_length × Sends [] (frame_bytes 0 hello) (write_frame 0 hello broken))
    ⊎ (max_frame_length < length hello
        × (write_frame 0 hello broken ≡ (some frame_too_long, broken)))
write_frame_outcome_example = write_frame_outcome 0 hello broken

write_hello : (write_frame 1 hello (plain [])).0 ≡ none
unfolding write_frame write_full put_u32
write_hello = refl

read_frame-write_frame_example :
    (added : Bytes) × ((write_frame 1 hello (plain [])).1.out ≡ [] ++ added)
    × (read_frame (added ++ (4 ∷ [])) ≡ ok (record { kind = 1; content = hello }, 4 ∷ []))
read_frame-write_frame_example = read_frame-write_frame 1 hello (plain []) (4 ∷ []) write_hello
