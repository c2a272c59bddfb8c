-- ===== src/Datagram/Runs.antt =====
-- Runs of the packet frames, and the theorems at concrete packets.
use p2p_netcat_go_wrk.Common.{
  ◌<◌, ◌≤◌, ◌≡◌, refl, ◌⊎◌, none, some, [], ◌∷◌, ◌++◌, Bytes, length, ok, err,
}
use p2p_netcat_go_wrk.Common.BigEndian.{put_u16, u16}
use p2p_netcat_go_wrk.Common.Io.{
  Writer, plain, write_full, read_full, short_write, unexpected_eof, Sends,
}
use p2p_netcat_go_wrk.Datagram.{
  max_payload_length, payload_too_large, write_payload, read_payload, write, read, write_each,
  read_each,
}
use p2p_netcat_go_wrk.Datagram.RoundTrip.{frame, write_outcome, read_each-write_each}

-- A writer that takes one byte, then two, then everything.
abbrev slow : Writer
slow = record {
  out = 9 ∷ [];
  answers = record { limit = 1; failure = none } ∷ record { limit = 2; failure = none } ∷ [];
}

abbrev two : Bytes
two = 7 ∷ 8 ∷ []

written_slowly : write (7 ∷ 8 ∷ []) slow ≡ (none, plain (9 ∷ 0 ∷ 2 ∷ 7 ∷ 8 ∷ []))
unfolding write write_full put_u16
written_slowly = refl

write_stops :
    write (7 ∷ []) (record {
      out = [];
      answers = record { limit = 2; failure = none } ∷ record { limit = 0; failure = none } ∷ [];
    })
    ≡ (some (write_payload short_write), plain (0 ∷ 1 ∷ []))
unfolding write write_full put_u16
write_stops = refl

write_outcome_example :
    (length two ≤ max_payload_length × Sends slow.out (frame two) (write two slow))
    ⊎ (max_payload_length < length two × (write two slow ≡ (some payload_too_large, slow)))
write_outcome_example = write_outcome two slow

two_writes : (write_each (two ∷ [] ∷ []) slow).0 ≡ none
unfolding write_each write write_full put_u16
two_writes = refl

read_each-write_each_example :
    (added : Bytes) × ((write_each (two ∷ [] ∷ []) slow).1.out ≡ slow.out ++ added)
    × (read_each 2 (added ++ (5 ∷ [])) ≡ ok (two ∷ [] ∷ [], 5 ∷ []))
read_each-write_each_example = read_each-write_each (two ∷ [] ∷ []) slow (5 ∷ []) two_writes

read_cut : read (0 ∷ 2 ∷ 7 ∷ []) ≡ err (read_payload unexpected_eof)
unfolding read read_full u16
read_cut = refl
