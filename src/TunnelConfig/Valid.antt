-- ===== src/TunnelConfig/Valid.antt =====
-- Which configurations `validate` accepts.
use p2p_netcat_go_wrk.Common.{
  ℕ, ◌+◌, ◌≡◌, ◌≢◌, ◌↔◌, some, refl, subst, inl, inr, ◌⊎◌, false, none, List, [], ◌∷◌, arith, Bytes,
  All, length, ok, bind_ok, then_iff, fail_if, fail_if_ok, fail_if_iff, wrap, wrap_ok, wrap_iff,
  ◌==◌, Option,
}
use p2p_netcat_go_wrk.Common.Net.{is_blank, split_host_port}
use p2p_netcat_go_wrk.TunnelConfig.{
  Tunnel, Relay, Config, Error, no_tunnels, relay_addr_required, bad_tunnel, bad_upstream_socks,
  name_required, duplicate_name, validate_tunnel, find_name, find_port, refuse_found, is_server,
  claim_port, check_tunnels, check_relays, check_upstream, validate,
}
use p2p_netcat_go_wrk.TunnelConfig.Rules.{validate_tunnel_iff}
use p2p_netcat_go_wrk.TunnelConfig.Names.{
  IsGood, Separate, Clear, with_port, All-step, claim_port_parts, claim_port_whole,
}

refuse_found_iff :
    {A : Type 0} (e : A → Error) (o : Option A) → (refuse_found e o ≡ ok tt) ↔ (o ≡ none)
refuse_found_iff e none = (λ h. refl, λ h. refl)
refuse_found_iff e (some a) = (λ h. cc, λ h. cc)

check_tunnels_parts :
    (i : ℕ) (names : List (Bytes × ℕ)) (ports : List (ℕ × Bytes)) (ts : List Tunnel)
    → check_tunnels i names ports ts ≡ ok tt
    → All IsGood ts × Separate ts × All (Clear names ports) ts
unfolding check_tunnels
check_tunnels_parts i names ports [] h = (tt, tt, tt)
check_tunnels_parts i names ports (t ∷ ts) h =
    let (v, h1) = (then_iff (wrap (bad_tunnel i) (validate_tunnel t)) _).0 h in
    let (n, h2) = (then_iff (fail_if (length t.name == 0) (name_required i)) _).0 h1 in
    let (f, h3) = (then_iff (refuse_found (duplicate_name i) (find_name t.name names)) _).0 h2 in
    let (ports', c, h4) = bind_ok (claim_port (is_server t.mode) i t ports) _ h3 in
    let (free, e) = claim_port_parts i t ports ports' c in
    let h5 =
      subst (λ (p : List (ℕ × Bytes)). check_tunnels (i + 1) ((t.name, i) ∷ names) p ts ≡ ok tt) e
        h4 in
    let (good, separate, clear) =
      check_tunnels_parts (i + 1) ((t.name, i) ∷ names) (with_port t ports) ts h5 in
    let (apart, clear') = (All-step t i names ports ts).0 clear in
    let named : length t.name ≢ 0 =
      ground (arith, fail_if_ok (length t.name == 0) (name_required i) n) in
    (
      (((validate_tunnel_iff t).0 ((wrap_iff _ _).0 v), named), good),
      (apart, separate),
      (((refuse_found_iff _ _).0 f, free), clear'),
    )

check_tunnels_whole :
    (i : ℕ) (names : List (Bytes × ℕ)) (ports : List (ℕ × Bytes)) (ts : List Tunnel)
    → All IsGood ts
    → Separate ts
    → All (Clear names ports) ts
    → check_tunnels i names ports ts ≡ ok tt
unfolding check_tunnels
check_tunnels_whole i names ports [] _ _ _ = refl
check_tunnels_whole i names ports (t ∷ ts) ((runs, named), good) (apart, separate)
      ((f, free), clear) =
    let n : (length t.name == 0) ≡ false = ground arith in
    rw (
      (validate_tunnel_iff t).1 runs,
      n,
      f,
      claim_port_whole i t ports free,
      check_tunnels_whole (i + 1) ((t.name, i) ∷ names) (with_port t ports) ts good separate
          ((All-step t i names ports ts).1 (apart, clear)),
    )

check_relays_iff :
    (i : ℕ) (rs : List Relay) → (check_relays i rs ≡ ok tt) ↔ All (λ r. is_blank r.addr ≡ false) rs
unfolding check_relays
check_relays_iff i [] = (λ h. tt, λ h. refl)
check_relays_iff i (r ∷ rs) = (
  λ h.
      let (a, b) = (then_iff (fail_if (is_blank r.addr) (relay_addr_required i)) _).0 h in
      ((fail_if_iff _ _).0 a, (check_relays_iff (i + 1) rs).0 b),
  λ (a, b). rw (a, (check_relays_iff (i + 1) rs).1 b),
)

-- The proxy, where one is given.
abbrev pub IsProxy : Bytes → Type 0
IsProxy s = (s ≡ []) ⊎ ((host : Bytes) × (port : Bytes) × (split_host_port s ≡ ok (host, port)))

check_upstream_iff : (s : Bytes) → (check_upstream s ≡ ok tt) ↔ IsProxy s
check_upstream_iff [] = (λ h. inl refl, λ h. refl)
check_upstream_iff (c ∷ s) = (
  λ h.
      let ((host, port), e, _) = bind_ok (wrap bad_upstream_socks (split_host_port (c ∷ s))) _ h in
      inr (host, port, wrap_ok _ _ e),
  λ h. elim h [ inl e ↦ cc | inr (host, port, e) ↦ rw e ],
)

abbrev pub IsValid : Config → Type 0
IsValid c =
    (c.tunnels ≢ [])
    × IsProxy c.upstream_socks
    × All (λ r. is_blank r.addr ≡ false) c.relays
    × All IsGood c.tunnels
    × Separate c.tunnels

All-Clear : (ts : List Tunnel) → All (Clear [] []) ts
unfolding find_name find_port
All-Clear [] = tt
All-Clear (t ∷ ts) = ((refl, λ _. refl), All-Clear ts)

nonempty_iff : (ts : List Tunnel) → ((length ts == 0) ≡ false) ↔ (ts ≢ [])
nonempty_iff [] = (λ h. cc, λ h. elim (h refl) [ ])
nonempty_iff (t ∷ ts) = (λ h. ground arith, λ h. ground arith)

-- A configuration is accepted exactly when it has a tunnel, its proxy (if any) is `host:port`, no
-- relay address is blank, every tunnel has a name and can run, no two tunnels have one name, and no
-- two servers have one logical port.
pub validate_iff : (c : Config) → (validate c ≡ ok tt) ↔ IsValid c
unfolding validate
validate_iff c = (
  λ h.
      let (n, h1) = (then_iff (fail_if (length c.tunnels == 0) no_tunnels) _).0 h in
      let (u, h2) = (then_iff (check_upstream c.upstream_socks) _).0 h1 in
      let (r, h3) = (then_iff (check_relays 0 c.relays) _).0 h2 in
      let (good, separate, _) = check_tunnels_parts 0 [] [] c.tunnels h3 in
      (
        (nonempty_iff c.tunnels).0 ((fail_if_iff _ _).0 n),
        (check_upstream_iff c.upstream_socks).0 u,
        (check_relays_iff 0 c.relays).0 r,
        good,
        separate,
      ),
  λ (n, u, r, good, separate). rw (
    (nonempty_iff c.tunnels).1 n,
    (check_upstream_iff c.upstream_socks).1 u,
    (check_relays_iff 0 c.relays).1 r,
    check_tunnels_whole 0 [] [] c.tunnels good separate (All-Clear c.tunnels),
  ),
)
