-- ===== src/Daemon/Relays.antt =====
-- The order in which relays are tried.
use p2p_netcat_go_wrk.Common.{
  ◌≡◌, ◌∙◌, ap, refl, Bool, true, false, Bool-cases, inl, inr, List, [], ◌∷◌, ◌++◌, append-nil, map,
  All, arith, if◌then◌else◌, ◌==◌,
}
use p2p_netcat_go_wrk.Common.Integers.{ℤ, pos, negsuc, lt, lt_asym, not-lt_trans}
use p2p_netcat_go_wrk.TunnelConfig.{Relay}
use p2p_netcat_go_wrk.Daemon.{sink, sink_all, turn, sort_relays, relay_addrs}

-- Every relay comes before those of a higher priority: ascending, and descending for the list that the
-- loop holds the other way round.
abbrev pub Ascending : List Relay → Type 0
Ascending [] = Unit
Ascending (r ∷ rs) = All (λ q. lt q.priority r.priority ≡ false) rs × Ascending rs

abbrev Descending : List Relay → Type 0
Descending [] = Unit
Descending (r ∷ rs) = All (λ q. lt r.priority q.priority ≡ false) rs × Descending rs

abbrev pub same : ℤ → ℤ → Bool
same (pos m) (pos n) = m == n
same (negsuc m) (negsuc n) = m == n
same _ _ = false

-- The relays of one priority, in order.
abbrev pub at : ℤ → List Relay → List Relay
at p [] = []
at p (r ∷ rs) = let rest = at p rs in if same r.priority p then r ∷ rest else rest

lt-same : (a b p : ℤ) → lt a b ≡ true → same a p ≡ true → same b p ≡ false
lt-same (pos a) (pos b) (pos p) h e = ground arith
lt-same (pos a) (pos b) (negsuc p) h e = cc
lt-same (pos a) (negsuc b) p h e = cc
lt-same (negsuc a) (pos b) (pos p) h e = cc
lt-same (negsuc a) (pos b) (negsuc p) h e = refl
lt-same (negsuc a) (negsuc b) (pos p) h e = cc
lt-same (negsuc a) (negsuc b) (negsuc p) h e = ground arith

at-sink : (p : ℤ) (r : Relay) (rs : List Relay) → at p (sink r rs) ≡ at p (r ∷ rs)
unfolding sink
at-sink p r [] = refl
at-sink p r (q ∷ rs) = elim (Bool-cases (lt r.priority q.priority)) [
  | inl lower ↦ elim (Bool-cases (same r.priority p)) [
    | inl here ↦
        let apart = lt-same r.priority q.priority p lower here in
        rw (lower, apart, here) (at-sink p r rs ∙ rw here)
    | inr there ↦ rw (lower, there, at-sink p r rs, there)
  ]
  | inr level ↦ rw level
]

All-above :
    (r q : Relay) (rs : List Relay)
    → lt r.priority q.priority ≡ false
    → All (λ x. lt q.priority x.priority ≡ false) rs
    → All (λ x. lt r.priority x.priority ≡ false) rs
All-above r q [] h hs = tt
All-above r q (x ∷ rs) h (h', hs) =
    (not-lt_trans x.priority q.priority r.priority h' h, All-above r q rs h hs)

All-sink :
    (b r : Relay) (rs : List Relay)
    → lt b.priority r.priority ≡ false
    → All (λ x. lt b.priority x.priority ≡ false) rs
    → All (λ x. lt b.priority x.priority ≡ false) (sink r rs)
unfolding sink
All-sink b r [] h hs = (h, tt)
All-sink b r (q ∷ rs) h (h', hs) = elim (Bool-cases (lt r.priority q.priority)) [
  | inl lower ↦ rw lower (h', All-sink b r rs h hs)
  | inr level ↦ rw level (h, (h', hs))
]

sink-Descending : (r : Relay) (rs : List Relay) → Descending rs → Descending (sink r rs)
unfolding sink
sink-Descending r [] h = (tt, tt)
sink-Descending r (q ∷ rs) (h, hs) = elim (Bool-cases (lt r.priority q.priority)) [
  | inl lower ↦
      rw lower (All-sink q r rs (lt_asym r.priority q.priority lower) h, sink-Descending r rs hs)
  | inr level ↦ rw level ((level, All-above r q rs level h), (h, hs))
]

sink_all-Descending : (sorted rs : List Relay) → Descending sorted → Descending (sink_all sorted rs)
sink_all-Descending sorted [] h = h
sink_all-Descending sorted (r ∷ rs) h =
    sink_all-Descending (sink r sorted) rs (sink-Descending r sorted h)

turn-Ascending :
    (before rs : List Relay)
    → Ascending before
    → Descending rs
    → All (λ r. All (λ b. lt b.priority r.priority ≡ false) before) rs
    → Ascending (turn before rs)
turn-Ascending before [] a d h = a
turn-Ascending before (r ∷ rs) a (d, ds) (h, hs) =
    turn-Ascending (r ∷ before) rs (h, a) ds (both rs d hs)
  where
    both :
        (rs : List Relay)
        → All (λ q. lt r.priority q.priority ≡ false) rs
        → All (λ q. All (λ b. lt b.priority q.priority ≡ false) before) rs
        → All (λ q. All (λ b. lt b.priority q.priority ≡ false) (r ∷ before)) rs
    both [] x y = tt
    both (q ∷ qs) (x, xs) (y, ys) = ((x, y), both qs xs ys)

at-turn : (p : ℤ) (before rs : List Relay) → at p (turn before rs) ≡ turn (at p before) (at p rs)
at-turn p before [] = refl
at-turn p before (r ∷ rs) = elim (Bool-cases (same r.priority p)) [
  | inl here ↦ at-turn p (r ∷ before) rs ∙ rw here
  | inr there ↦ at-turn p (r ∷ before) rs ∙ rw there
]

at-sink_all :
    (p : ℤ) (sorted rs : List Relay) → at p (sink_all sorted rs) ≡ turn (at p sorted) (at p rs)
at-sink_all p sorted [] = refl
at-sink_all p sorted (r ∷ rs) = elim (Bool-cases (same r.priority p)) [
  | inl here ↦ at-sink_all p (sink r sorted) rs ∙ rw (at-sink p r sorted, here)
  | inr there ↦ at-sink_all p (sink r sorted) rs ∙ rw (at-sink p r sorted, there)
]

turn-turn : (end xs ys : List Relay) → turn end (turn xs ys) ≡ turn (ys ++ end) xs
turn-turn end xs [] = refl
turn-turn end xs (y ∷ ys) = turn-turn end (y ∷ xs) ys

nothing_before :
    (rs : List Relay)
    → All (λ (r : Relay). All (λ (b : Relay). lt b.priority r.priority ≡ false) []) rs
nothing_before [] = tt
nothing_before (r ∷ rs) = (tt, nothing_before rs)

-- The addresses of the relays are handed on in the order of a list that is ascending by priority and
-- in which the relays of any one priority are those of the configuration, in the same order.
pub relay_addrs_sorted :
    (rs : List Relay)
    → (sorted : List Relay) × (relay_addrs rs ≡ map (λ r. r.addr) sorted)
      × Ascending sorted
      × ((p : ℤ) → at p sorted ≡ at p rs)
unfolding relay_addrs
relay_addrs_sorted rs =
    let reversed = sink_all [] rs in
    (
      sort_relays rs,
      refl,
      turn-Ascending [] reversed tt (sink_all-Descending [] rs tt) (nothing_before reversed),
      λ p.
          at-turn p [] reversed
          ∙ ap (λ (l : List Relay). turn [] l) (at-sink_all p [] rs)
          ∙ turn-turn [] [] (at p rs)
          ∙ append-nil (at p rs),
    )
