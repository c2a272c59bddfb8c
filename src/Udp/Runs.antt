-- ===== src/Udp/Runs.antt =====
-- A run of the associations, and the theorem at it.
use p2p_netcat_go_wrk.Common.{
  ℕ, ◌≤◌, ◌≡◌, refl, some, List, [], ◌∷◌, ◌++◌, Bytes, length, get_elem?,
}
use p2p_netcat_go_wrk.Common.Text.{codes, bytes_eq}
use p2p_netcat_go_wrk.Common.Maps.{find, delete}
use p2p_netcat_go_wrk.Udp.{
  Association, Forward, no_associations, packet_read, take_packet, association_over,
}
use p2p_netcat_go_wrk.Udp.Packets.{Subsequence, packets_of}
use p2p_netcat_go_wrk.Udp.Reading.{begins, reads, takes}
use p2p_netcat_go_wrk.Udp.Order.{association_in_order}

-- Packets of two sources, the first of which is taken.
abbrev two_sources : Forward
two_sources = take_packet 0 (
    packet_read (codes "a") (codes "3")
      (packet_read (codes "b") (codes "2") (packet_read (codes "a") (codes "1") no_associations)))

abbrev arrived : List (Bytes × Bytes)
arrived = (codes "a", codes "1") ∷ (codes "b", codes "2") ∷ (codes "a", codes "3") ∷ []

two_sources_channels :
    two_sources.channels
    ≡ record { source = codes "a"; packets = codes "3" ∷ []; taken = codes "1" ∷ [] }
      ∷ record { source = codes "b"; packets = codes "2" ∷ []; taken = [] }
      ∷ []
unfolding packet_read take_packet find delete bytes_eq
two_sources_channels = refl

-- A source whose association is over gets a new one.
renewed :
    (packet_read (codes "a") (codes "4") (association_over (codes "a") 0 two_sources)).associations
    ≡ (codes "a", 2) ∷ (codes "b", 1) ∷ []
unfolding packet_read take_packet association_over find delete bytes_eq
renewed = refl

association_in_order_example :
    (length two_sources.associations ≤ 256)
    × ((id : ℕ) (a : Association)
        → get_elem? two_sources.channels id ≡ some a
        → Subsequence (a.taken ++ a.packets) (packets_of a.source arrived)
          × (length a.packets ≤ 256))
    × ((key : Bytes) (id : ℕ)
        → find key two_sources.associations ≡ some id
        → (a : Association) × (get_elem? two_sources.channels id ≡ some a) × (a.source ≡ key))
association_in_order_example = association_in_order arrived two_sources (
    takes 0 (
      reads (codes "a") (codes "3")
        (reads (codes "b") (codes "2") (reads (codes "a") (codes "1") begins))))
