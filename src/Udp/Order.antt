-- ===== src/Udp/Order.antt =====
-- Each association carries the packets of one source, in order.
use p2p_netcat_go_wrk.Common.{
  ℕ, ◌≤◌, ◌≡◌, sym, ap, subst, refl, Bool-cases, inl, inr, some, List, [], ◌∷◌, ◌++◌, append_assoc,
  Bytes, length, get_elem?, get_elem?-modify, arith,
}
use p2p_netcat_go_wrk.Common.Maps.{find, find-delete, length-delete}
use p2p_netcat_go_wrk.Udp.{
  Association, Forward, take_first, take_packet_of, take_packet, is_association, association_over,
}
use p2p_netcat_go_wrk.Udp.Packets.{Subsequence, packets_of}
use p2p_netcat_go_wrk.Udp.Reading.{
  Reachable, begins, reads, takes, ends, Carries, IsSound, known-modify, packet_read-IsSound,
}

take_first_source :
    (packets : List Bytes) (a : Association) → (take_first packets a).source ≡ a.source
take_first_source [] a = refl
take_first_source (p ∷ packets) a = refl

take_packet_of-Carries :
    (read : List (Bytes × Bytes)) (a : Association) (packets : List Bytes)
    → a.packets ≡ packets
    → Carries read a
    → Carries read (take_first packets a)
take_packet_of-Carries read a [] e c = c
take_packet_of-Carries read a (p ∷ packets) e c = record {
  in_order = rw (append_assoc a.taken (p ∷ []) packets) (rw e at c.in_order);
  bounded = let b = c.bounded in omega (arith, b, ap (λ (x : List Bytes). length x) e);
}

take_packet-IsSound :
    (read : List (Bytes × Bytes)) (id : ℕ) (f : Forward)
    → IsSound read f
    → IsSound read (take_packet id f)
unfolding take_packet
take_packet-IsSound read id f s = record {
  known = known-modify read [] [] f id take_packet_of (λ a. take_first_source a.packets a) s;
  carries = λ j b h.
      let (a, found, which) = get_elem?-modify id j take_packet_of f.channels b h in
      elim which [
        | inl (e, is) ↦
            subst (λ (x : Association). Carries read x) (sym is)
              (take_packet_of-Carries read a a.packets refl (s.carries j a found))
        | inr (apart, is) ↦
            subst (λ (x : Association). Carries read x) (sym is) (s.carries j a found)
      ];
  few = s.few;
}

association_over-IsSound :
    (read : List (Bytes × Bytes)) (key : Bytes) (id : ℕ) (f : Forward)
    → IsSound read f
    → IsSound read (association_over key id f)
unfolding association_over
association_over-IsSound read key id f s =
    elim (Bool-cases (is_association (find key f.associations) id)) [
      | inl here ↦ rw here (record {
        known = λ k j h. s.known k j (ground (arith, find-delete k key f.associations));
        carries = s.carries;
        few = omega (arith, s.few, length-delete key f.associations);
      })
      | inr other ↦ rw other s
    ]

reached-IsSound : {read : List (Bytes × Bytes)} {f : Forward} → Reachable read f → IsSound read f
unfolding find
reached-IsSound begins = record { known = λ k id h. cc; carries = λ id a h. cc; few = omega arith }
reached-IsSound (reads {read} {f} key payload r) =
    packet_read-IsSound read key payload f (reached-IsSound r)
reached-IsSound (takes {read} {f} id r) = take_packet-IsSound read id f (reached-IsSound r)
reached-IsSound (ends {read} {f} key id r) =
    association_over-IsSound read key id f (reached-IsSound r)

-- Whatever packets arrive, are taken and whatever associations end, in any order: what an association
-- has taken and has queued are packets of its own source, each at most once and in the order of their
-- arrival; at most 256 packets are queued, and at most 256 associations are in the map, each of its own
-- source.
pub association_in_order :
    (read : List (Bytes × Bytes)) (f : Forward)
    → Reachable read f
    → (length f.associations ≤ 256)
      × ((id : ℕ) (a : Association)
          → get_elem? f.channels id ≡ some a
          → Subsequence (a.taken ++ a.packets) (packets_of a.source read)
            × (length a.packets ≤ 256))
      × ((key : Bytes) (id : ℕ)
          → find key f.associations ≡ some id
          → (a : Association) × (get_elem? f.channels id ≡ some a) × (a.source ≡ key))
association_in_order read f r =
    let s = reached-IsSound r in
    (s.few, λ id a h. let c = s.carries id a h in (c.in_order, c.bounded), s.known)
