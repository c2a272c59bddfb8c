-- ===== src/Udp/Reading.antt =====
-- A packet that is read keeps the invariant of the associations.
use p2p_netcat_go_wrk.Common.{
  ℕ, ◌≤◌, ◌<◌, ◌≡◌, ◌≢◌, ◌∙◌, sym, ap, subst, refl, true, Bool-cases, Option-cases, inl, inr, some,
  List, [], ◌∷◌, ◌++◌, append_assoc, leb, ◌==◌, ==_iff, Bytes, length, length-append, get_elem?,
  modify, get_elem?-modify_same, get_elem?-modify_other, get_elem?-modify, get_elem?-append_some,
  append-nil, get_elem?-append, get_elem?-length, arith,
}
use p2p_netcat_go_wrk.Common.Text.{bytes_eq, bytes_eq→eq, bytes_eq_self}
use p2p_netcat_go_wrk.Common.Maps.{find, find-insert, length-delete}
use p2p_netcat_go_wrk.Udp.{
  max_udp_associations, udp_packet_queue_depth, Association, Forward, no_associations, Report,
  report, has_room, queue_packet, offer, add_association, packet_read, take_packet,
  association_over, limit_reached, queue_full,
}
use p2p_netcat_go_wrk.Udp.Packets.{
  Subsequence, Subsequence-passed, Subsequence-kept, packets_of, packets_of-append,
  Subsequence-none,
}

-- The packets that have been read, the latest last, against the state that is reached.
pub data Reachable : List (Bytes × Bytes) → Forward → Type 0 where
  begins : Reachable [] no_associations
  reads :
      {read : List (Bytes × Bytes)} {f : Forward}
      → (key payload : Bytes) → Reachable read f
      → Reachable (read ++ (key, payload) ∷ []) (packet_read key payload f)
  takes :
      {read : List (Bytes × Bytes)} {f : Forward}
      → (id : ℕ) → Reachable read f
      → Reachable read (take_packet id f)
  ends :
      {read : List (Bytes × Bytes)} {f : Forward}
      → (key : Bytes) (id : ℕ) → Reachable read f
      → Reachable read (association_over key id f)

-- An association against the packets of its source.
pub record Carries (read : List (Bytes × Bytes)) (a : Association) : Type 0 where
  pub in_order : Subsequence (a.taken ++ a.packets) (packets_of a.source read)
  pub bounded : length a.packets ≤ udp_packet_queue_depth

pub record IsSound (read : List (Bytes × Bytes)) (f : Forward) : Type 0 where
  pub known :
      (key : Bytes) (id : ℕ)
      → find key f.associations ≡ some id
      → (a : Association) × (get_elem? f.channels id ≡ some a) × (a.source ≡ key)
  pub carries : (id : ℕ) (a : Association) → get_elem? f.channels id ≡ some a → Carries read a
  pub few : length f.associations ≤ max_udp_associations

module _ (read : List (Bytes × Bytes)) (key payload : Bytes) where
  Carries-passed : (a : Association) → Carries read a → Carries (read ++ (key, payload) ∷ []) a
  Carries-passed a c = record {
    in_order =
        rw (packets_of-append a.source read ((key, payload) ∷ []))
          (elim (Bool-cases (bytes_eq key a.source)) [
            | inl e ↦ rw e (
                Subsequence-passed (a.taken ++ a.packets) (packets_of a.source read) payload
                  c.in_order)
            | inr e ↦ rw (e, append-nil (packets_of a.source read)) c.in_order
          ]);
    bounded = c.bounded;
  }

  Carries-queued :
      (a : Association)
      → a.source ≡ key
      → has_room (some a) ≡ true
      → Carries read a
      → Carries (read ++ (key, payload) ∷ []) (queue_packet payload a)
  Carries-queued a same room c = record {
    in_order =
        rw
          (
            packets_of-append a.source read ((key, payload) ∷ []),
            same,
            bytes_eq_self key,
            ← append_assoc a.taken a.packets (payload ∷ []),
          )
          (Subsequence-kept (a.taken ++ a.packets) (packets_of key read) payload
            (rw (← same) c.in_order));
    bounded = ground (arith, length-append a.packets (payload ∷ []));
  }

  IsSound-passed : (f : Forward) → IsSound read f → IsSound (read ++ (key, payload) ∷ []) f
  IsSound-passed f s = record {
    known = s.known;
    carries = λ id a found. Carries-passed a (s.carries id a found);
    few = s.few;
  }

  report-IsSound :
      (r : Report) (f : Forward)
      → IsSound read f
      → IsSound (read ++ (key, payload) ∷ []) (report r f)
  report-IsSound r f s =
      let s' = IsSound-passed f s in record { known = s'.known; carries = s'.carries; few = s'.few }

  -- A write that keeps the source of an association.
  pub known-modify :
      (f : Forward) (i : ℕ) (change : Association → Association)
      → ((a : Association) → (change a).source ≡ a.source)
      → IsSound read f
      → (k : Bytes) (id : ℕ) → find k f.associations ≡ some id
      → (a : Association) × (get_elem? (modify i change f.channels) id ≡ some a) × (a.source ≡ k)
  known-modify f i change keeps s k id h =
      let (a, found, owner) = s.known k id h in
      elim (Bool-cases (i == id)) [
        | inl e ↦
            let same = (==_iff i id).0 e in
            (
              change a,
              subst (λ (x : ℕ). get_elem? (modify i change f.channels) x ≡ some (change a)) same
                  (get_elem?-modify_same i change f.channels a (rw same found)),
              keeps a ∙ owner,
            )
        | inr e ↦
            let apart : i ≢ id = ground arith in
            (a, get_elem?-modify_other i id change f.channels apart ∙ found, owner)
      ]

  offer-IsSound :
      (id : ℕ) (f : Forward)
      → find key f.associations ≡ some id
      → IsSound read f
      → IsSound (read ++ (key, payload) ∷ []) (offer key payload id f)
  offer-IsSound id f here s = elim (Bool-cases (has_room (get_elem? f.channels id))) [
    | inl room ↦
        let (own, there, source) = s.known key id here in
        rw room (record {
          known = known-modify f id (queue_packet payload) (λ a. refl) s;
          carries = λ j b h.
              let (a, found, which) = get_elem?-modify id j (queue_packet payload) f.channels b h in
              elim which [
                | inl (e, is) ↦
                    let same : own ≡ a =
                      cc (there, found, ap (λ (x : ℕ). get_elem? f.channels x) e) in
                    let at_room : has_room (some own) ≡ true = rw there at room in
                    let queued = Carries-queued own source at_room (s.carries id own there) in
                    subst (λ (x : Association). Carries (read ++ (key, payload) ∷ []) x)
                      (ap (queue_packet payload) same ∙ sym is) queued
                | inr (apart, is) ↦
                    subst (λ (x : Association). Carries (read ++ (key, payload) ∷ []) x) (sym is)
                      (Carries-passed a (s.carries j a found))
              ];
          few = s.few;
        })
    | inr full ↦ rw full (report-IsSound (queue_full key) f s)
  ]

  add_association-IsSound :
      (f : Forward)
      → length f.associations < max_udp_associations
      → IsSound read f
      → IsSound read (add_association key f)
  add_association-IsSound f room s =
      let new : Association = record { source = key; packets = []; taken = [] } in
      record {
        known = λ k id h. elim (Bool-cases (bytes_eq key k)) [
          | inl e ↦
              let at_new : some (length f.channels) ≡ some id =
                ground (arith, e, find-insert k key (length f.channels) f.associations) in
              let place : length f.channels ≡ id = cc (at_new) in
              (
                new,
                subst (λ (x : ℕ). get_elem? (f.channels ++ new ∷ []) x ≡ some new) place
                    (get_elem?-length f.channels new),
                bytes_eq→eq key k e,
              )
          | inr e ↦
              let (a, found, owner) =
                s.known k id
                  (ground (arith, e, find-insert k key (length f.channels) f.associations)) in
              (a, get_elem?-append f.channels (new ∷ []) id a found, owner)
        ];
        carries = λ id a h. elim (get_elem?-append_some f.channels new id a h) [
          | inl found ↦ s.carries id a found
          | inr (e, is) ↦
              subst (λ (x : Association). Carries read x) (sym is)
                (record {
                  in_order = Subsequence-none (packets_of key read);
                  bounded = omega arith;
                })
        ];
        few = omega (arith, room, length-delete key f.associations);
      }

  pub packet_read-IsSound :
      (f : Forward)
      → IsSound read f
      → IsSound (read ++ (key, payload) ∷ []) (packet_read key payload f)
  unfolding packet_read
  packet_read-IsSound f s = elim (Option-cases (find key f.associations)) [
    | inr (id, h) ↦ rw h (offer-IsSound id f h s)
    | inl h ↦ rw h (elim (Bool-cases (leb max_udp_associations (length f.associations))) [
      | inl full ↦ rw full (report-IsSound (limit_reached key) f s)
      | inr room ↦
          let added = add_association key f in
          let here : find key added.associations ≡ some (length f.channels) =
            ground
              (arith, bytes_eq_self key, find-insert key key (length f.channels) f.associations) in
          rw room (
            offer-IsSound (length f.channels) added here
              (add_association-IsSound f (ground arith) s))
    ])
  ]
